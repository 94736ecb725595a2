-- ===== src/Bond/Tails/Queue.antt =====
-- The tails of rpc/libmcdma_fabric.c are a queue: what one link announces the other takes in that order.
use mcdma.Prelude.{
  ℕ, zero, suc, ◌+◌, ◌-◌, ◌%◌, ◌^◌, ◌≤◌, ◌<◌, true, false, none, some, List, [], ◌∷◌, ◌++◌, leb,
  ◌==◌, if◌then◌else◌, ◌≡◌, ◌≢◌, ◌⊎◌, refl, ap, ap₂, ◌∙◌, arith, ==_iff, inl, inr, length,
}
use mathlib.Core.Path.{subst}
use native.Mathlib.Decide.{ℕ_discrete}
use mcdma.Bond.Signals.{bond_signals}
use mcdma.Bond.Tails.{Tail, Tails, bond_announce, bond_tail}

-- the `n` tails from number `k` on
abbrev pub tails_from : (ℕ → Tail) → ℕ → ℕ → List Tail
tails_from f k zero = []
tails_from f k (suc n) = f (k % bond_signals) ∷ tails_from f (k + 1) n

-- The announced tails that were not taken, the oldest first.
abbrev pub queued : Tails → List Tail
queued t = tails_from t.tails t.got (t.put - t.got)

pub record IsQueue (t : Tails) : Type 0 where
  pub order : t.got ≤ t.put
  pub room : t.put ≤ t.got + bond_signals

tails_from-end :
    (f : ℕ → Tail) (k n : ℕ)
    → tails_from f k (suc n) ≡ tails_from f k n ++ f ((k + n) % bond_signals) ∷ []
tails_from-end f k zero = ap (λ j. f (j % bond_signals) ∷ []) (omega arith)
tails_from-end f k (suc n) =
    ap (λ l. f (k % bond_signals) ∷ l)
      (tails_from-end f (k + 1) n
        ∙ ap (λ j. tails_from f (k + 1) n ++ f (j % bond_signals) ∷ []) (omega arith))

tails_from-agree :
    (f g : ℕ → Tail) (k n : ℕ)
    → ((i : ℕ) → k ≤ i → i < k + n → f (i % bond_signals) ≡ g (i % bond_signals))
    → tails_from f k n ≡ tails_from g k n
tails_from-agree f g k zero h = refl
tails_from-agree f g k (suc n) h =
    ap₂ (λ x l. x ∷ l) (h k (omega arith) (omega arith))
      (tails_from-agree f g (k + 1) n (λ i a b. h i (omega arith) (omega arith)))

length-tails_from : (f : ℕ → Tail) (k n : ℕ) → length (tails_from f k n) ≡ n
length-tails_from f k zero = refl
length-tails_from f k (suc n) =
    let rest : length (tails_from f (k + 1) n) ≡ n = length-tails_from f (k + 1) n in omega arith

abbrev put_tail : (ℕ → Tail) → ℕ → Tail → ℕ → Tail
put_tail f i a j = if j == i then a else f j

put_tail-other : (f : ℕ → Tail) (i : ℕ) (a : Tail) (j : ℕ) → j ≢ i → put_tail f i a j ≡ f j
put_tail-other f i a j ne = ground arith

put_tail-same : (f : ℕ → Tail) (i : ℕ) (a : Tail) → put_tail f i a i ≡ a
put_tail-same f i a = ground arith

slots_apart :
    (i k n : ℕ) → k ≤ i → i < k + n → n < bond_signals → i % bond_signals ≢ (k + n) % bond_signals
slots_apart i k n a b h e = omega arith

-- A tail that goes to the slot behind those that are held follows them.
tails_from-put :
    (f : ℕ → Tail) (a : Tail) (k n : ℕ)
    → n < bond_signals
    → tails_from (put_tail f ((k + n) % bond_signals) a) k (suc n) ≡ tails_from f k n ++ a ∷ []
tails_from-put f a k n h =
    let g : ℕ → Tail = put_tail f ((k + n) % bond_signals) a in
    tails_from-end g k n
    ∙ ap₂ (λ l x. l ++ x ∷ [])
        (tails_from-agree g f k n (λ i from to.
          put_tail-other f ((k + n) % bond_signals) a (i % bond_signals)
            (slots_apart i k n from to h)))
        (put_tail-same f ((k + n) % bond_signals) a)

announce_full :
    (a : Tail) (t : Tails)
    → IsQueue t
    → t.put < 2 ^ 64
    → t.got + bond_signals ≡ t.put
    → bond_announce a t ≡ none
unfolding bond_announce
announce_full a t q w e =
    let order : t.got ≤ t.put = q.order in
    let far : leb bond_signals ((t.put + 2 ^ 64 - t.got) % 2 ^ 64) ≡ true = ground arith in
    rw (far) refl

abbrev announced : Tail → Tails → Tails
announced a t = record t { tails = put_tail t.tails (t.put % bond_signals) a; put = t.put + 1 }

announce_room :
    (a : Tail) (t : Tails)
    → IsQueue t
    → t.put + 1 < 2 ^ 64
    → t.put < t.got + bond_signals
    → bond_announce a t ≡ some (announced a t)
unfolding bond_announce
announce_room a t q w h =
    let order : t.got ≤ t.put = q.order in
    let near : leb bond_signals ((t.put + 2 ^ 64 - t.got) % 2 ^ 64) ≡ false = ground arith in
    let next : (t.put + 1) % 2 ^ 64 ≡ t.put + 1 = omega arith in rw (near, next) refl

announced-queued :
    (a : Tail) (t : Tails)
    → IsQueue t
    → t.put < t.got + bond_signals
    → queued (announced a t) ≡ queued t ++ a ∷ []
announced-queued a t q h =
    let order : t.got ≤ t.put = q.order in
    let n : ℕ = t.put - t.got in
    let end : t.got + n ≡ t.put = omega arith in
    let more : t.put + 1 - t.got ≡ suc n = omega arith in
    rw (more) (
      subst
        (λ j.
          tails_from (put_tail t.tails (j % bond_signals) a) t.got (suc n)
          ≡ tails_from t.tails t.got n ++ a ∷ [])
        end (tails_from-put t.tails a t.got n (omega arith)))

-- What announcing does to the queue: it is refused when 4096 tails are in it, or the tail goes to its end.
abbrev pub Announces : Tail → Tails → Type 0
Announces a t =
    ((bond_announce a t ≡ none) × (length (queued t) ≡ bond_signals))
    ⊎ ((t' : Tails) × (bond_announce a t ≡ some t') × (queued t' ≡ queued t ++ a ∷ []) × IsQueue t')

-- What taking does to the queue: there is nothing in it, or its first tail is taken.
abbrev pub Takes : Tails → Type 0
Takes t =
    ((bond_tail t ≡ none) × (queued t ≡ []))
    ⊎ ((a : Tail) × (t' : Tails) × (bond_tail t ≡ some (a, t'))
        × (queued t ≡ a ∷ queued t')
        × IsQueue t')

announces : (a : Tail) (t : Tails) → IsQueue t → t.put + 1 < 2 ^ 64 → Announces a t
announces a t q w =
    let order : t.got ≤ t.put = q.order in
    let room : t.put ≤ t.got + bond_signals = q.room in
    elim (ℕ_discrete (t.got + bond_signals) t.put) [
      | yes e ↦ inl (
        announce_full a t q (omega arith) e,
        length-tails_from t.tails t.got (t.put - t.got) ∙ omega arith,
      )
      | no ne ↦ inr (
        announced a t,
        announce_room a t q w (omega arith),
        announced-queued a t q (omega arith),
        record { order = omega arith; room = omega arith },
      )
    ]

takes : (t : Tails) → IsQueue t → t.put + 1 < 2 ^ 64 → Takes t
unfolding bond_tail
takes t q w =
    let order : t.got ≤ t.put = q.order in
    let room : t.put ≤ t.got + bond_signals = q.room in
    elim (ℕ_discrete t.got t.put) [
      | yes e ↦
          let same : (t.got == t.put) ≡ true = (==_iff t.got t.put).1 e in
          let n : t.put - t.got ≡ 0 = omega arith in
          inl (rw (same) refl, ap (tails_from t.tails t.got) n)
      | no ne ↦
          let apart : (t.got == t.put) ≡ false = ground arith in
          let next : (t.got + 1) % 2 ^ 64 ≡ t.got + 1 = omega arith in
          let n : t.put - t.got ≡ suc (t.put - (t.got + 1)) = omega arith in
          inr (
            t.tails (t.got % bond_signals),
            record t { got = t.got + 1 },
            rw (apart, next) refl,
            ap (tails_from t.tails t.got) n,
            record { order = omega arith; room = omega arith },
          )
    ]

-- The two counts and the ring are a queue: announcing a tail puts it at the end, or is refused, when 4096 are
-- queued; taking one gives the oldest, or none when there is none; and both leave a queue, while the counts stay
-- below 2^64.
pub Announces-Takes :
    (a : Tail) (t : Tails) → IsQueue t → t.put + 1 < 2 ^ 64 → Announces a t × Takes t
Announces-Takes a t q w = (announces a t q w, takes t q w)
