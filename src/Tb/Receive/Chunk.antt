-- ===== src/Tb/Receive/Chunk.antt =====
-- The messages of one round of a write, taken by the receiver.
use mcdma.Prelude.{
  false, ℕ, zero, suc, ◌+◌, ◌^◌, ◌≤◌, ◌<◌, ◌≡◌, refl, ap, ◌∙◌, ◌≢◌, inl, inr, true, none, some,
  List, [], ◌∷◌, ◌++◌, leb, if◌then◌else◌, length, arith, Bool-cases, drop,
}
use mcdma.Prelude.Arrays.{concat}
use mcdma.Tb.{
  Link, Head, Provider, head_of, is_poisoned, head_fields, magic, head_size, inline_max, tb_msg,
  u32, u64, read, c_write, c_inline, packets_of,
}
use mcdma.Tb.HeadBytes.{IsWireHead, head_of-sent, drop-sent, length-sent}
use mcdma.Tb.Receive.{
  Taken, write_mem, place, take_bytes, refusal, counted, apply, take_head, take_message, take_all,
}

pub length-read : (mem : ℕ → ℕ) (off n : ℕ) → length (read mem off n) ≡ n
unfolding read
length-read mem off zero = refl
length-read mem off (suc n) = ap suc (length-read mem (off + 1) n)

-- The head of a write's message `seq`.
abbrev pub write_head : ℕ → ℕ → ℕ → ℕ → Head
write_head seq kind roff take = record {
  magic = magic;
  seq = seq;
  kind = kind;
  pad = 0;
  len = take;
  off = roff;
  value = 0;
}

abbrev pub head_message : Head → List ℕ → List ℕ
head_message h bytes = concat (head_fields h (bytes ∷ []))

-- What one round of a write hands the provider.
abbrev pub chunk_messages : ℕ → (ℕ → ℕ) → ℕ → ℕ → ℕ → List (List ℕ)
chunk_messages seq mem off roff take =
    if leb take inline_max
    then head_message (write_head seq c_inline roff take) (read mem off take) ∷ []
    else head_message (write_head seq c_write roff take) [] ∷ read mem off take ∷ []

-- What such a round does to the receiver.
pub record Landed (t t' : Link) (off : ℕ) (bs : List ℕ) : Type 0 where
  pub mem : t'.mem ≡ write_mem t.mem off bs
  pub next : t'.rx_seq ≡ u32 (t.rx_seq + 1)
  pub idle : t'.want_len ≡ 0
  pub window : t'.window ≡ t.window
  pub sound : t'.poisoned ≡ t.poisoned
  pub count : t'.writes_placed ≡ u64 (t.writes_placed + 1)

-- A receiver that is between messages, expects `seq`, and lets the peer write `[lo, hi)`.
pub record IsOpen (t : Link) (seq lo hi : ℕ) : Type 0 where
  pub expects : t.rx_seq ≡ seq
  pub between : t.want_len ≡ 0
  pub window_open : t.window ≡ some (lo, hi)
  pub not_poisoned : t.poisoned ≡ none
  pub high : hi < 2 ^ 64
  pub seq_word : seq < 2 ^ 32

-- A header message that no test refuses is applied.
take_plain :
    (accepts : Provider) (h : Head) (m : List ℕ) (t : Link)
    → head_of m ≡ h
    → 32 ≤ length m
    → t.want_len ≡ 0
    → h.kind ≤ 5
    → refusal h (length m) t ≡ none
    → take_message accepts 1 m t ≡ apply accepts h m t
unfolding take_message take_head
take_plain accepts h m t e n z k r = ground (arith, e, r)

-- The bytes of a write that was announced are placed, whatever slots they took.
take_awaited :
    (accepts : Provider) (count : ℕ) (bytes : List ℕ) (t : Link)
    → t.want_len ≢ 0
    → length bytes ≡ t.want_len
    → take_message accepts count bytes t
      ≡ (Taken.taken, record (place t.want_off bytes t) { want_len = 0 })
unfolding take_message take_bytes
take_awaited accepts count bytes t nz e = ground arith

is_poisoned-none : (t : Link) → t.poisoned ≡ none → is_poisoned t ≡ false
unfolding is_poisoned
is_poisoned-none t e = rw e refl

take_all_cons :
    (accepts : Provider) (m : List ℕ) (n : ℕ) (ms : List (List ℕ)) (t t' : Link)
    → t.poisoned ≡ none
    → packets_of (length m) ≡ n
    → take_message accepts n m t ≡ (Taken.taken, t')
    → take_all accepts (m ∷ ms) t ≡ take_all accepts ms t'
unfolding take_all
take_all_cons accepts m n ms t t' sound c e =
    let e' = ap (λ (k : ℕ). take_message accepts k m t) c ∙ e in
    rw (is_poisoned-none t sound, e') (ap (λ (p : Taken × Link). take_all accepts ms p.1) e')

one_packet :
    (h : Head) (bytes : List ℕ) (take : ℕ)
    → length bytes ≡ take
    → leb take inline_max ≡ true
    → packets_of (length (head_message h bytes)) ≡ 1
one_packet h bytes take len small = ap packets_of (length-sent h bytes) ∙ ground (arith, len)

one_head : (h : Head) → packets_of (length (head_message h [])) ≡ 1
one_head h = ap packets_of (length-sent h [])

module _ (t : Link) (seq lo hi : ℕ) (o : IsOpen t seq lo hi) (roff take : ℕ) (pos : 0 < take)
    (fits : take ≤ tb_msg) (low : lo ≤ roff) (top : roff + take ≤ hi) where
  inline_allowed : refusal (write_head seq c_inline roff take) (32 + take) t ≡ none
  unfolding refusal
  inline_allowed = rw (o.window_open, o.expects) (ground arith)

  write_allowed : refusal (write_head seq c_write roff take) 32 t ≡ none
  unfolding refusal
  write_allowed = rw (o.window_open, o.expects) (ground arith)

  head_fits : (kind : ℕ) → kind ≤ 5 → IsWireHead (write_head seq kind roff take)
  head_fits kind k = record {
    magic32 = omega arith;
    seq32 = omega (arith, o.seq_word);
    kind16 = omega arith;
    pad16 = omega arith;
    len32 = omega arith;
    off64 = omega (arith, o.high);
    value64 = omega arith;
  }

  take_inline :
      (accepts : Provider) (bytes : List ℕ)
      → length bytes ≡ take
      → (t' : Link) × (take_message accepts 1
            (head_message (write_head seq c_inline roff take) bytes)
            t
          ≡ (Taken.taken, t'))
        × Landed t t' roff bytes
  take_inline accepts bytes len =
      let h = write_head seq c_inline roff take in
      let m = head_message h bytes in
      let n : length m ≡ 32 + take = length-sent h bytes ∙ ap (λ (k : ℕ). 32 + k) len in
      (
        place roff (drop head_size m) (counted t),
        take_plain accepts h m t (head_of-sent h bytes (head_fits c_inline (omega arith)))
              (omega (arith, n)) o.between (omega arith)
              (ap (λ (k : ℕ). refusal h k t) n ∙ inline_allowed)
            ∙ (unfold apply in refl),
        record {
          mem = ap (write_mem t.mem roff) (drop-sent h bytes);
          next = refl;
          idle = o.between;
          window = refl;
          sound = refl;
          count = refl;
        },
      )

  take_pair :
      (accepts : Provider) (bytes : List ℕ) (count : ℕ)
      → length bytes ≡ take
      → (t1 : Link) × (t' : Link) × (take_message accepts 1
            (head_message (write_head seq c_write roff take) [])
            t
          ≡ (Taken.taken, t1))
        × (take_message accepts count bytes t1 ≡ (Taken.taken, t'))
        × (t1.poisoned ≡ t.poisoned)
        × Landed t t' roff bytes
  take_pair accepts bytes count len =
      let h = write_head seq c_write roff take in
      let m = head_message h [] in
      let n : length m ≡ 32 = length-sent h [] in
      let t1 = record (counted t) { want_off = roff; want_len = take } in
      (
        t1,
        record (place roff bytes t1) { want_len = 0 },
        take_plain accepts h m t (head_of-sent h [] (head_fits c_write (omega arith)))
              (omega (arith, n)) o.between (omega arith)
              (ap (λ (k : ℕ). refusal h k t) n ∙ write_allowed)
            ∙ (unfold apply in refl),
        take_awaited accepts count bytes t1 (omega arith) len,
        refl,
        record { mem = refl; next = refl; idle = refl; window = refl; sound = refl; count = refl },
      )

-- One round of a write: the receiver takes its messages, and its bytes land.
pub take_chunk :
    (accepts : Provider) (t : Link) (seq lo hi : ℕ) (mem : ℕ → ℕ) (off roff take : ℕ)
    → IsOpen t seq lo hi
    → 0 < take
    → take ≤ tb_msg
    → lo ≤ roff
    → roff + take ≤ hi
    → (ms : List (List ℕ))
    → (t' : Link) × (take_all accepts (chunk_messages seq mem off roff take ++ ms) t
        ≡ take_all accepts ms t')
      × Landed t t' roff (read mem off take)
take_chunk accepts t seq lo hi mem off roff take o pos fits low top ms =
    let bytes = read mem off take in
    let len = length-read mem off take in
    elim (Bool-cases (leb take inline_max)) [
      | inl small ↦
          let h = write_head seq c_inline roff take in
          let (t', e, l) = take_inline t seq lo hi o roff take pos fits low top accepts bytes len in
          (
            t',
            rw small (
                take_all_cons accepts (head_message h bytes) 1 ms t t' o.not_poisoned
                  (one_packet h bytes take len small) e),
            l,
          )
      | inr large ↦
          let h = write_head seq c_write roff take in
          let (t1, t', e1, e2, sound, l) =
            take_pair t seq lo hi o roff take pos fits low top accepts bytes
              (packets_of (length bytes)) len in
          (
            t',
            rw large (
                take_all_cons accepts (head_message h []) 1 (bytes ∷ ms) t t1 o.not_poisoned
                  (one_head h) e1
                ∙ take_all_cons accepts bytes (packets_of (length bytes)) ms t1 t'
                    (sound ∙ o.not_poisoned) refl e2),
            l,
          )
    ]
