-- ===== src/Core/Bits/Single.antt =====
-- One bit written and read.
use mcdma.Prelude.{
  ℕ, zero, suc, ◌+◌, ◌-◌, ◌*◌, ◌/◌, ◌%◌, ◌^◌, ◌<◌, ◌≡◌, ◌≢◌, sym, ap, ◌∙◌, arith, true, false, List,
  ltb, ◌==◌, if◌then◌else◌, get_or, length, get_or-set_self, get_or-set_ne, inl, inr, Bool-cases,
  ap₂, power_sum, power_pos,
}
use native.Mathlib.Decide.{ℕ_discrete}
use native.Mathlib.Nat.{mul-add-div, div-div-eq-div-mul, div-eq_of_lt, div-add-mod, mul_assoc}
use mcdma.Core.Bits.{bit_of, bit_at, with_bit, put_bit}

distribute : (n h v : ℕ) → n * (2 * h + v) ≡ 2 * (n * h) + n * v
distribute n zero v = grind arith
distribute n (suc h) v = grind (arith, distribute n h v)

split_bit :
    (b q r h s n v : ℕ) → b ≡ n * q + r → q ≡ 2 * h + s → b - s * n + v * n ≡ n * (2 * h + v) + r
split_bit b q r h s n v e f =
    let g : b ≡ n * (2 * h + s) + r = e ∙ ap (λ x. n * x + r) f in
    grind (arith, g, distribute n h v, distribute n h s)

-- Its quotient and its remainder by the mask.
rebuilt : (b n v : ℕ) → b - b / n % 2 * n + v * n ≡ n * (2 * (b / n / 2) + v) + b % n
rebuilt b n v =
    split_bit b (b / n) (b % n) (b / n / 2) (b / n % 2) n v (sym (div-add-mod b n)) (omega arith)

quotient : (n x r : ℕ) → 0 < n → r < n → (n * x + r) / n ≡ x
quotient n x r p h = mul-add-div p x r ∙ (let z : r / n ≡ 0 = div-eq_of_lt h in omega (arith, z))

-- The bit that was put.
same_mask : (b n v : ℕ) → 0 < n → v < 2 → (b - b / n % 2 * n + v * n) / n % 2 ≡ v
same_mask b n v p h =
    let q = quotient n (2 * (b / n / 2) + v) (b % n) p (grind arith) in
    ap (λ x. x / n % 2) (rebuilt b n v) ∙ ap (λ x. x % 2) q ∙ omega arith

-- A higher one.
higher_mask :
    (b n v e : ℕ) → 0 < n → v < 2 → (b - b / n % 2 * n + v * n) / (n * (2 * e)) ≡ b / (n * (2 * e))
higher_mask b n v e p h =
    let q = quotient n (2 * (b / n / 2) + v) (b % n) p (grind arith) in
    let half : (2 * (b / n / 2) + v) / 2 ≡ b / n / 2 = omega arith in
    ap (λ x. x / (n * (2 * e))) (rebuilt b n v)
    ∙ sym (div-div-eq-div-mul (n * (2 * (b / n / 2) + v) + b % n) n (2 * e))
    ∙ ap (λ x. x / (2 * e)) q
    ∙ sym (div-div-eq-div-mul (2 * (b / n / 2) + v) 2 e)
    ∙ ap (λ x. x / e) half
    ∙ div-div-eq-div-mul (b / n) 2 e
    ∙ div-div-eq-div-mul b n (2 * e)

-- A lower one.
lower_mask :
    (b m e v : ℕ)
    → 0 < m
    → (b - b / (m * (2 * e)) % 2 * (m * (2 * e)) + v * (m * (2 * e))) / m % 2 ≡ b / m % 2
lower_mask b m e v p =
    let n = m * (2 * e) in
    let below : (x : ℕ) → (n * x + b % n) / m % 2 ≡ b % n / m % 2 = λ x.
      ap (λ y. (y + b % n) / m % 2) (mul_assoc m (2 * e) x)
      ∙ ap (λ y. y % 2) (mul-add-div p (2 * e * x) (b % n))
      ∙ (let even : 2 * e * x ≡ 2 * (e * x) = mul_assoc 2 e x in omega (arith, even)) in
    ap (λ x. x / m % 2) (rebuilt b n v)
    ∙ below (2 * (b / n / 2) + v)
    ∙ sym (below (b / n))
    ∙ ap (λ x. x / m % 2) (div-add-mod b n)

-- The mask of a bit in terms of that of a later one.
mask_before : (k d : ℕ) → k + d < 7 → 2 ^ (7 - k) ≡ 2 ^ (7 - (k + d + 1)) * (2 * 2 ^ d)
mask_before k d h =
    let whole : 7 - k ≡ 7 - (k + d + 1) + suc d = omega arith in
    ap (λ e. 2 ^ e) whole
    ∙ sym (power_sum (7 - (k + d + 1)) (suc d))
    ∙ ap (λ x. 2 ^ (7 - (k + d + 1)) * x) (double d)
  where
    double : (d : ℕ) → 2 ^ suc d ≡ 2 * 2 ^ d
    double d = omega arith

bit_of-with_bit : (b k v : ℕ) → v < 2 → bit_of (with_bit b k v) k ≡ v
unfolding with_bit
bit_of-with_bit b k v h = same_mask b (2 ^ (7 - k)) v (power_pos (7 - k)) h

-- Bit `i` is before bit `i + d + 1`.
earlier : (b i d v : ℕ) → i + d < 7 → v < 2 → bit_of (with_bit b (i + d + 1) v) i ≡ bit_of b i
unfolding with_bit
earlier b i d v h l =
    let m = mask_before i d h in
    let n = 2 ^ (7 - (i + d + 1)) in
    ap (λ x. (b - b / n % 2 * n + v * n) / x % 2) m
    ∙ ap (λ x. x % 2) (higher_mask b n v (2 ^ d) (power_pos (7 - (i + d + 1))) l)
    ∙ ap (λ x. b / x % 2) (sym m)

later : (b k d v : ℕ) → k + d < 7 → bit_of (with_bit b k v) (k + d + 1) ≡ bit_of b (k + d + 1)
unfolding with_bit
later b k d v h =
    let m = mask_before k d h in
    let low = 2 ^ (7 - (k + d + 1)) in
    ap (λ n. (b - b / n % 2 * n + v * n) / low % 2) m
    ∙ lower_mask b low (2 ^ d) v (power_pos (7 - (k + d + 1)))

other_bit : (b k i v : ℕ) → k < 8 → i < 8 → k ≢ i → v < 2 → bit_of (with_bit b k v) i ≡ bit_of b i
other_bit b k i v hk hi ne l = elim (Bool-cases (ltb i k)) [
  | inl before ↦
      let place : i + (k - i - 1) + 1 ≡ k = ground (arith, before) in
      ap (λ j. bit_of (with_bit b j v) i) (sym place)
      ∙ earlier b i (k - i - 1) v (ground (arith, before)) l
  | inr behind ↦
      let place : k + (i - k - 1) + 1 ≡ i = ground (arith, behind, ne) in
      ap (λ j. bit_of (with_bit b k v) j) (sym place)
      ∙ later b k (i - k - 1) v (ground (arith, behind, ne))
      ∙ ap (bit_of b) place
]

-- A bit of the array after one was put.
pub bit_at-put_bit :
    (p : List ℕ) (pos v x : ℕ)
    → pos < 8 * length p
    → v < 2
    → bit_at (put_bit p pos v) x ≡ (if x == pos then v else bit_at p x)
bit_at-put_bit p pos v x inside l =
    let b = get_or p (pos / 8) 0 in
    let new = with_bit b (pos % 8) v in
    let room : pos / 8 < length p = omega arith in
    elim (ℕ_discrete (x / 8) (pos / 8)) [
      | no apart ↦
          let ne : (x == pos) ≡ false = ground (arith, apart) in
          rw (ne) (
            ap (λ y. bit_of y (x % 8))
              (get_or-set_ne p (pos / 8) (x / 8) new 0 (λ e. apart (sym e))))
      | yes same ↦
          let here : get_or (put_bit p pos v) (x / 8) 0 ≡ new =
            ap (λ j. get_or (put_bit p pos v) j 0) same ∙ get_or-set_self p (pos / 8) new 0 room in
          elim (ℕ_discrete x pos) [
            | yes it ↦
                let eq : (x == pos) ≡ true = ground (arith, it) in
                rw (eq) (ap₂ bit_of here (ap (λ y. y % 8) it) ∙ bit_of-with_bit b (pos % 8) v l)
            | no other ↦
                let ne : (x == pos) ≡ false = ground (arith, other) in
                rw (ne) (
                  ap (λ y. bit_of y (x % 8)) here
                  ∙ other_bit b (pos % 8) (x % 8) v (omega arith) (omega arith)
                      (omega (arith, other, same)) l
                  ∙ ap (λ j. bit_of (get_or p j 0) (x % 8)) (sym same))
          ]
    ]
