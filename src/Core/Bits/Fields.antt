-- ===== src/Core/Bits/Fields.antt =====
-- A field written by `set_bits` reads back, and the fields beside it keep their values.
use mcdma.Prelude.{
  ℕ, zero, suc, ◌+◌, ◌-◌, ◌*◌, ◌/◌, ◌%◌, ◌^◌, ◌≤◌, ◌<◌, ◌≡◌, ◌⊎◌, refl, sym, ap, ap₂, ◌∙◌, arith,
  true, false, List, ◌==◌, get_or, length, length-set, inl, power_pos,
}
use native.Mathlib.Nat.{
  div-add-mod, mul-add-mod_self_left, mod-eq_of_lt, mul-add, mul_assoc, add-mul,
}
use mcdma.Core.Bits.{bit_at, put_bit, set_from, get_from, with_bit}
use mcdma.Core.Bits.Single.{bit_at-put_bit}

pub length-set_from :
    (k : ℕ) (p : List ℕ) (pos value : ℕ) → length (set_from k p pos value) ≡ length p
unfolding set_from
length-set_from zero p pos value = refl
length-set_from (suc k) p pos value =
    length-set_from k (put_bit p pos (value / 2 ^ k % 2)) (pos + 1) value
    ∙ length-set p (pos / 8) (with_bit (get_or p (pos / 8) 0) (pos % 8) (value / 2 ^ k % 2))

longer : (p : List ℕ) (pos v n : ℕ) → n ≤ 8 * length p → n ≤ 8 * length (put_bit p pos v)
longer p pos v n h =
    omega (arith, length-set p (pos / 8) (with_bit (get_or p (pos / 8) 0) (pos % 8) v))

pub set_from-beside :
    (k : ℕ) (p : List ℕ) (pos value x : ℕ)
    → pos + k ≤ 8 * length p
    → (x < pos) ⊎ (pos + k ≤ x)
    → bit_at (set_from k p pos value) x ≡ bit_at p x
unfolding set_from
set_from-beside zero p pos value x h far = refl
set_from-beside (suc k) p pos value x h far =
    let v = value / 2 ^ k % 2 in
    let ne : (x == pos) ≡ false = ground arith in
    set_from-beside k (put_bit p pos v) (pos + 1) value x
      (longer p pos v (pos + 1 + k) (omega arith)) (ground arith)
    ∙ bit_at-put_bit p pos v x (omega arith) (omega arith)
    ∙ rw (ne) refl

pub set_from-inside :
    (k : ℕ) (p : List ℕ) (pos value j : ℕ)
    → pos + k ≤ 8 * length p
    → j < k
    → bit_at (set_from k p pos value) (pos + j) ≡ value / 2 ^ (k - 1 - j) % 2
unfolding set_from
set_from-inside zero p pos value j h l = absurd (omega arith)
set_from-inside (suc k) p pos value zero h l =
    let v = value / 2 ^ k % 2 in
    let eq : (pos + 0 == pos) ≡ true = ground arith in
    let e : k ≡ suc k - 1 - 0 = omega arith in
    set_from-beside k (put_bit p pos v) (pos + 1) value (pos + 0)
      (longer p pos v (pos + 1 + k) (omega arith)) (inl (omega arith))
    ∙ bit_at-put_bit p pos v (pos + 0) (omega arith) (omega arith)
    ∙ rw (eq) (ap (λ n. value / 2 ^ n % 2) e)
set_from-inside (suc k) p pos value (suc j) h l =
    let v = value / 2 ^ k % 2 in
    let place : pos + suc j ≡ pos + 1 + j = omega arith in
    let e : k - 1 - j ≡ suc k - 1 - suc j = omega arith in
    ap (bit_at (set_from k (put_bit p pos v) (pos + 1) value)) place
    ∙ set_from-inside k (put_bit p pos v) (pos + 1) value j
        (longer p pos v (pos + 1 + k) (omega arith)) (omega arith)
    ∙ ap (λ n. value / 2 ^ n % 2) e

pub get_from-same :
    (k : ℕ) (p r : List ℕ) (pos acc : ℕ)
    → ((x : ℕ) → pos ≤ x → x < pos + k → bit_at p x ≡ bit_at r x)
    → get_from k p pos acc ≡ get_from k r pos acc
unfolding get_from
get_from-same zero p r pos acc h = refl
get_from-same (suc k) p r pos acc h =
    ap (λ b. get_from k p (pos + 1) (acc * 2 % 2 ^ 64 + b)) (h pos (omega arith) (omega arith))
    ∙ get_from-same k p r (pos + 1) (acc * 2 % 2 ^ 64 + bit_at r pos)
        (λ x a b. h x (omega arith) (omega arith))

low_bits : (v n : ℕ) → 0 < n → v / n % 2 * n + v % n ≡ v % (2 * n)
low_bits v n h =
    let q = v / n in
    let y = q % 2 * n + v % n in
    let halves : q ≡ 2 * (q / 2) + q % 2 = omega arith in
    let parts : v ≡ 2 * n * (q / 2) + y =
      sym (div-add-mod v n) ∙ ap (λ x. n * x + v % n) halves ∙ regroup n (q / 2) (q % 2) (v % n) in
    let short : y < 2 * n = few n (q % 2) (v % n) (omega arith) (grind arith) in
    sym (ap (λ x. x % (2 * n)) parts ∙ mul-add-mod_self_left (2 * n) (q / 2) y ∙ mod-eq_of_lt short)
  where
    regroup : (n a b r : ℕ) → n * (2 * a + b) + r ≡ 2 * n * a + (b * n + r)
    regroup n a b r = grind (arith, mul-add n (2 * a) b)

    few : (n b r : ℕ) → b < 2 → r < n → b * n + r < 2 * n
    few n zero r h l = grind arith
    few n (suc zero) r h l = grind arith
    few n (suc (suc b)) r h l = absurd (omega arith)

no_wrap : (acc n : ℕ) → 0 < n → acc * (2 * n) + 2 * n ≤ 2 ^ 64 → acc * 2 % 2 ^ 64 ≡ acc * 2
no_wrap acc zero p h = absurd (omega arith)
no_wrap acc (suc n) p h = grind arith

pushed : (acc n b : ℕ) → (acc * 2 + b) * n ≡ acc * (2 * n) + b * n
pushed acc n b = add-mul (acc * 2) b n ∙ ap (λ x. x + b * n) (mul_assoc acc 2 n)

fits_on : (acc n b : ℕ) → b < 2 → acc * (2 * n) + 2 * n ≤ 2 ^ 64 → (acc * 2 + b) * n + n ≤ 2 ^ 64
fits_on acc n zero l h = grind (arith, pushed acc n 0)
fits_on acc n (suc zero) l h = grind (arith, pushed acc n 1)
fits_on acc n (suc (suc b)) l h = absurd (omega arith)

pub get_from-bits :
    (k : ℕ) (p : List ℕ) (pos value acc : ℕ)
    → ((j : ℕ) → j < k → bit_at p (pos + j) ≡ value / 2 ^ (k - 1 - j) % 2)
    → acc * 2 ^ k + 2 ^ k ≤ 2 ^ 64
    → get_from k p pos acc ≡ acc * 2 ^ k + value % 2 ^ k
unfolding get_from
get_from-bits zero p pos value acc h small = omega arith
get_from-bits (suc k) p pos value acc h small =
    let n = 2 ^ k in
    let b = value / n % 2 in
    let twice : 2 ^ suc k ≡ 2 * n = double k in
    let room : acc * (2 * n) + 2 * n ≤ 2 ^ 64 = rw twice at small in
    let start : pos ≡ pos + 0 = omega arith in
    let top : suc k - 1 - 0 ≡ k = omega arith in
    let first : bit_at p pos ≡ b =
      ap (bit_at p) start ∙ h 0 (omega arith) ∙ ap (λ e. value / 2 ^ e % 2) top in
    let rest : (j : ℕ) → j < k → bit_at p (pos + 1 + j) ≡ value / 2 ^ (k - 1 - j) % 2 = λ j l.
      let place : pos + 1 + j ≡ pos + suc j = omega arith in
      let e : suc k - 1 - suc j ≡ k - 1 - j = omega arith in
      ap (bit_at p) place ∙ h (suc j) (omega arith) ∙ ap (λ e. value / 2 ^ e % 2) e in
    ap₂ (λ a c. get_from k p (pos + 1) (a + c)) (no_wrap acc n (power_pos k) room) first
    ∙ get_from-bits k p (pos + 1) value (acc * 2 + b) rest (fits_on acc n b (omega arith) room)
    ∙ ap (λ x. x + value % n) (pushed acc n b)
    ∙ regroup (acc * (2 * n)) (b * n) (value % n)
    ∙ ap (λ x. acc * (2 * n) + x) (low_bits value n (power_pos k))
    ∙ sym (ap (λ m. acc * m + value % m) twice)
  where
    double : (k : ℕ) → 2 ^ suc k ≡ 2 * 2 ^ k
    double k = omega arith

    regroup : (a b c : ℕ) → a + b + c ≡ a + (b + c)
    regroup a b c = omega arith
