-- ===== src/UserPost/Info.antt =====
-- The capability block that the kernel writes and the provider reads.
use mcdma.Prelude.{
  ℕ, ◌+◌, ◌%◌, ◌^◌, ◌-◌, ltb, ◌≤◌, ◌<◌, ◌≡◌, refl, sym, ap, ◌∙◌, true, some, List, [], ◌∷◌, ◌==◌,
  if◌then◌else◌, length, le_bytes, of_le, length-le_bytes, of_le-le_bytes, replicate, arith,
  Bool-cases, inl, inr, Bool, ◌!=◌, not, ◌||◌,
}
use mcdma.Prelude.Arrays.{slice, concat, slice-concat, field, offset}
use mcdma.UserPost.{info_magic, banks_kept, info_write, bits_and, bank_ok, info_read}

abbrev block : ℕ → ℕ → List (List ℕ)
block flags bank_bytes =
    le_bytes 4 info_magic
    ∷ le_bytes 4 flags
    ∷ le_bytes 4 (banks_kept flags bank_bytes)
    ∷ le_bytes 4 2
    ∷ le_bytes 4 0x800
    ∷ replicate 12 0
    ∷ []

word :
    (k : ℕ) (fs : List (List ℕ)) (o v : ℕ)
    → k + 1 ≤ length fs
    → o ≡ offset k fs
    → field k fs ≡ le_bytes 4 v
    → v < 256 ^ 4
    → of_le (slice o 4 (concat fs)) ≡ v
word k fs o v h e f small =
    ap of_le
      (slice-concat k fs o 4 h e (sym (ap (λ (b : List ℕ). length b) f ∙ length-le_bytes 4 v)) ∙ f)
    ∙ of_le-le_bytes 4 v small

small_of : (b : ℕ) (x : Bool) → (b == 0 || not (ltb b 128 || ltb 1024 b || x)) ≡ true → b < 256 ^ 4
small_of b x ok = ground (arith, ok)

bank_ok-small : (b : ℕ) → bank_ok b ≡ true → b < 256 ^ 4
unfolding bank_ok
bank_ok-small b ok = small_of b (bits_and 32 b (b - 1) != 0) ok

bank_ok-none : bank_ok 0 ≡ true
unfolding bank_ok
bank_ok-none = refl

bank_ok-kept :
    (flags bank_bytes : ℕ)
    → bank_ok bank_bytes ≡ true
    → (banks_kept flags bank_bytes < 256 ^ 4) × (bank_ok (banks_kept flags bank_bytes) ≡ true)
bank_ok-kept flags bank_bytes ok = elim (Bool-cases (flags % 2 == 1)) [
  | inl wc ↦ rw wc (bank_ok-small bank_bytes ok, ok)
  | inr plain ↦ rw plain (omega arith, bank_ok-none)
]

-- A block that the kernel writes with 32-bit flags and an allowed bank size is valid for the provider,
-- which reads the flags back and the bank size, or 0 where the page is not write-combined.
pub info_read-info_write :
    (flags bank_bytes : ℕ)
    → flags < 2 ^ 32
    → bank_ok bank_bytes ≡ true
    → info_read (info_write flags bank_bytes)
      ≡ some (flags, if flags % 2 == 1 then bank_bytes else 0)
unfolding info_read info_write
info_read-info_write flags bank_bytes f ok =
    let fs = block flags bank_bytes in
    let (small, kept) = bank_ok-kept flags bank_bytes ok in
    let n : (k : ℕ) → length (le_bytes 4 k) ≡ 4 = λ k. length-le_bytes 4 k in
    let w0 = word 0 fs 0 info_magic (omega arith) refl refl (omega arith) in
    let w1 = word 1 fs 4 flags (omega arith) (omega (arith, n info_magic)) refl (omega arith) in
    let w2 =
      word 2 fs 8 (banks_kept flags bank_bytes) (omega arith) (omega (arith, n info_magic, n flags))
        refl (omega arith) in
    let w3 =
      word 3 fs 12 2 (omega arith)
        (omega (arith, n info_magic, n flags, n (banks_kept flags bank_bytes))) refl
        (omega arith) in
    let w4 =
      word 4 fs 16 0x800 (omega arith)
        (omega (arith, n info_magic, n flags, n (banks_kept flags bank_bytes), n 2)) refl
        (omega arith) in
    rw (w0, w1, w2, w3, w4, kept) refl
