-- ===== src/Daemon/Lines/Framing.antt =====
-- `take_line` of rpc/rpcd_common.c gives the lines of a stream however `recv` cuts the stream up.
use mcdma.Prelude.{
  ℕ, ◌≤◌, ◌<◌, Bool, false, none, some, List, [], ◌∷◌, ◌++◌, ◌==◌, leb, ◌≡◌, ◌≢◌, ◌⊎◌, refl, ap,
  ap₂, ◌∙◌, arith, All, length, map, inl, inr, append_assoc,
}
use mcdma.Prelude.Arrays.{concat}
use mcdma.Daemon.Lines.{newline, split_line, Arrival, got, Outcome, line, at_buffer, take_line}

abbrev pub NoNewline : List ℕ → Type 0
NoNewline l = All (λ c. c ≢ newline) l

cons_head : (c d : ℕ) (xs ys : List ℕ) → c ∷ xs ≡ d ∷ ys → c ≡ d
cons_head c d xs ys e = cc

cons_tail : (c d : ℕ) (xs ys : List ℕ) → c ∷ xs ≡ d ∷ ys → xs ≡ ys
cons_tail c d xs ys e = cc

-- What stands before the first newline is found, with what stands after it.
split_line-first :
    (l rest : List ℕ) → NoNewline l → split_line (l ++ newline ∷ rest) ≡ some (l, rest)
unfolding split_line
split_line-first [] rest h = refl
split_line-first (c ∷ cs) rest (ne, h) =
    let other : (c == newline) ≡ false = ground arith in rw (other, split_line-first cs rest h) refl

-- A buffer of a stream whose first line is `l` holds that line and more, or a part of it without a newline.
buffer_cases :
    (buf more l rest : List ℕ)
    → NoNewline l
    → buf ++ more ≡ l ++ newline ∷ rest
    → ((tail : List ℕ) × (buf ≡ l ++ newline ∷ tail) × (tail ++ more ≡ rest))
      ⊎ ((split_line buf ≡ none)
          × (length buf ≤ length l)
          × ((c : ℕ) × (cs : List ℕ) × (more ≡ c ∷ cs)))
unfolding split_line
buffer_cases [] more [] rest h e = inr (refl, omega arith, (newline, rest, e))
buffer_cases [] more (d ∷ ds) rest h e = inr (refl, omega arith, (d, ds ++ newline ∷ rest, e))
buffer_cases (c ∷ cs) more [] rest h e =
    let same : c ≡ newline = cons_head c newline (cs ++ more) rest e in
    inl (cs, ap (λ k. k ∷ cs) same, cons_tail c newline (cs ++ more) rest e)
buffer_cases (c ∷ cs) more (d ∷ ds) rest (ne, h) e =
    let same : c ≡ d = cons_head c d (cs ++ more) (ds ++ newline ∷ rest) e in
    let other : (c == newline) ≡ false = ground arith in
    elim (buffer_cases cs more ds rest h (cons_tail c d (cs ++ more) (ds ++ newline ∷ rest) e)) [
      | inl (tail, whole, left) ↦ inl (tail, ap₂ (λ k l. k ∷ l) same whole, left)
      | inr (part, short, more') ↦ inr (rw (other, part) refl, omega arith, more')
    ]

abbrev pub Takes : ℕ → ℕ → Bool → Bool → List (List ℕ) → List ℕ → List ℕ → List ℕ → Type 0
Takes n size block stop chunks buf l rest =
    (buf' : List ℕ) × (chunks' : List (List ℕ)) × (take_line n size block stop (map got chunks) buf
      ≡ (line l, buf', map got chunks'))
    × (buf' ++ concat chunks' ≡ rest)

at_buffer-line :
    (n size : ℕ) (buf l tail : List ℕ) (arrivals : List Arrival)
    (next : Outcome × List ℕ × List Arrival)
    → length l < n
    → split_line buf ≡ some (l, tail)
    → at_buffer n size buf arrivals next ≡ (line l, tail, arrivals)
at_buffer-line n size buf l tail arrivals next h e =
    let fits : leb n (length l) ≡ false = ground arith in rw (at_buffer, e, fits) refl

at_buffer-next :
    (n size : ℕ) (buf : List ℕ) (arrivals : List Arrival) (next : Outcome × List ℕ × List Arrival)
    → length buf < size
    → split_line buf ≡ none
    → at_buffer n size buf arrivals next ≡ next
at_buffer-next n size buf arrivals next h e =
    let room : (length buf == size) ≡ false = ground arith in rw (at_buffer, e, room) refl

not_nothing : (c : ℕ) (cs : List ℕ) → [] ≡ c ∷ cs → ⊥
not_nothing c cs e = cc

-- Whenever a stream holds a line that fits, `take_line` returns that line and keeps the rest of the stream, however
-- `recv` cut the stream into pieces that are not empty, and whatever of it the buffer held before.
pub take_line-Takes :
    (n size : ℕ) (block stop : Bool) (chunks : List (List ℕ)) (buf l rest : List ℕ)
    → n ≤ size
    → length l < n
    → NoNewline l
    → All (λ k. 0 < length k) chunks
    → buf ++ concat chunks ≡ l ++ newline ∷ rest
    → Takes n size block stop chunks buf l rest
unfolding take_line
take_line-Takes n size block stop [] buf l rest c h lineless full e =
    elim (buffer_cases buf [] l rest lineless e) [
      | inl (tail, whole, left) ↦ (
        tail,
        [],
        at_buffer-line n size buf l tail [] _ h (rw whole (split_line-first l tail lineless)),
        left,
      )
      | inr (part, short, (d, ds, none_left)) ↦ absurd (not_nothing d ds none_left)
    ]
take_line-Takes n size block stop ([] ∷ ks) buf l rest c h lineless (k, full) e =
    absurd (omega arith)
take_line-Takes n size block stop ((x ∷ xs) ∷ ks) buf l rest c h lineless (k, full) e =
    elim (buffer_cases buf (concat ((x ∷ xs) ∷ ks)) l rest lineless e) [
      | inl (tail, whole, left) ↦ (
        tail,
        (x ∷ xs) ∷ ks,
        at_buffer-line n size buf l tail (map got ((x ∷ xs) ∷ ks)) _ h
            (rw whole (split_line-first l tail lineless)),
        left,
      )
      | inr (part, short, more) ↦
          let (buf', ks', taken, left) =
            take_line-Takes n size block stop ks (buf ++ x ∷ xs) l rest c h lineless full
              (append_assoc buf (x ∷ xs) (concat ks) ∙ e) in
          (
            buf',
            ks',
            at_buffer-next n size buf (map got ((x ∷ xs) ∷ ks)) _ (omega arith) part ∙ taken,
            left,
          )
    ]
