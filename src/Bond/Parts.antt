-- ===== src/Bond/Parts.antt =====
-- The parts of a transfer over a bond.
use mcdma.Prelude.{
  ℕ, suc, ◌+◌, ◌-◌, ◌*◌, ◌/◌, ◌%◌, ◌^◌, ◌≤◌, ◌<◌, ◌≡◌, refl, sym, ap, ◌∙◌, arith, List, [], ◌∷◌,
  ltb, if◌then◌else◌, length, All,
}
use native.Mathlib.Nat.{
  div-mul-le_self, mul_assoc, mul_comm, add-mul, mul-add, le_of_mul-le-mul_right, div-add-mod,
  mul-div-le,
}
use mcdma.Bond.{bond_part, fastest_of, rate_of, rates_of, sum_of, share, sizes_from, bond_parts}

-- the shares of all the links that are left
shares : ℕ → ℕ → List ℕ → ℕ
shares rest sum [] = 0
shares rest sum (r ∷ rs) = share rest sum r + shares rest sum rs

rate_of-pos : (fastest r : ℕ) → 0 < rate_of fastest r
unfolding rate_of
rate_of-pos fastest r = ground arith

share-le : (rest sum r : ℕ) → share rest sum r * sum ≤ rest * r
share-le rest sum r =
    let q = rest / sum in
    let m = rest % sum in
    let x = q * r + m * r / sum in
    let rounded : share rest sum r ≤ x = div-mul-le_self x 64 in
    let low : m * r / sum * sum ≤ m * r = div-mul-le_self (m * r) sum in
    let whole : rest * r ≡ q * r * sum + m * r =
      ap (λ y. y * r) (sym (div-add-mod rest sum))
      ∙ add-mul (sum * q) m r
      ∙ ap (λ y. y + m * r) (swap sum q r) in
    let scaled : share rest sum r * sum ≤ x * sum = grow (share rest sum r) x sum rounded in
    omega (arith, add-mul (q * r) (m * r / sum) sum)
  where
    swap : (s q r : ℕ) → s * q * r ≡ q * r * s
    swap s q r = mul_assoc s q r ∙ mul_comm s (q * r)

    grow : (a b s : ℕ) → a ≤ b → a * s ≤ b * s
    grow a b s h = grind arith

shares-le : (rest sum : ℕ) (rs : List ℕ) → shares rest sum rs * sum ≤ rest * sum_of rs
unfolding shares sum_of
shares-le rest sum [] = omega arith
shares-le rest sum (r ∷ rs) = omega (
  arith,
  share-le rest sum r,
  shares-le rest sum rs,
  add-mul (share rest sum r) (shares rest sum rs) sum,
  mul-add rest r (sum_of rs),
)

sizes-sum :
    (len least rest sum : ℕ) (r : ℕ) (rs : List ℕ) (used : ℕ)
    → len < 2 ^ 64
    → used + length (r ∷ rs) * least + shares rest sum (r ∷ rs) ≤ len
    → (used + sum_of (sizes_from len least rest sum (r ∷ rs) used) ≡ len)
      × All (λ s. least ≤ s) (sizes_from len least rest sum (r ∷ rs) used)
      × (length (sizes_from len least rest sum (r ∷ rs) used) ≡ length (r ∷ rs))
unfolding sizes_from sum_of shares
sizes-sum len least rest sum r [] used small fits =
    let last : (len + 2 ^ 64 - used) % 2 ^ 64 ≡ len - used = omega arith in
    (omega arith, (omega arith, tt), refl)
sizes-sum len least rest sum r (s ∷ rs) used small fits =
    let size = least + share rest sum r in
    let more : length (r ∷ s ∷ rs) * least ≡ least + length (s ∷ rs) * least = omega arith in
    let on : (used + size) % 2 ^ 64 ≡ used + size = omega arith in
    let (a, b, c) = sizes-sum len least rest sum s rs (used + size) small (omega arith) in
    rw (on) (omega arith, (omega arith, b), ap suc c)

length-rates_of : (fastest : ℕ) (rs : List ℕ) → length (rates_of fastest rs) ≡ length rs
unfolding rates_of
length-rates_of fastest [] = refl
length-rates_of fastest (r ∷ rs) = ap suc (length-rates_of fastest rs)

-- the least that a link carries
abbrev pub minimum_of : ℕ → ℕ → ℕ
minimum_of n len = if ltb bond_part (len / n / 64 * 64) then bond_part else len / n / 64 * 64

least_fits : (n len : ℕ) → n * minimum_of n len ≤ len
least_fits n len =
    let below : minimum_of n len ≤ len / n = cut (len / n) (div-mul-le_self (len / n) 64) in
    omega (arith, grow n (minimum_of n len) (len / n) below, mul-div-le len n)
  where
    cut :
        (q : ℕ)
        → q / 64 * 64 ≤ q
        → (if ltb bond_part (q / 64 * 64) then bond_part else q / 64 * 64) ≤ q
    cut q h = ground (arith, h)

    grow : (n a b : ℕ) → a ≤ b → n * a ≤ n * b
    grow n a b h = grind arith

some_rate : (fastest r : ℕ) (rs : List ℕ) → 0 < sum_of (rates_of fastest (r ∷ rs))
unfolding rates_of sum_of
some_rate fastest r rs = omega (arith, rate_of-pos fastest r)

within : (rest : ℕ) (rates : List ℕ) → 0 < sum_of rates → shares rest (sum_of rates) rates ≤ rest
within rest rates h = le_of_mul-le-mul_right (shares-le rest (sum_of rates) rates) h

-- Split over at least one link, a transfer below 2 ^ 64 bytes is cut in one part for each link; the
-- parts add up to the whole, and none is smaller than the minimum, the lesser of 2048 bytes and the
-- link's even share rounded down to 64.
pub bond_parts-sum :
    (load : List ℕ) (len : ℕ)
    → 0 < length load
    → len < 2 ^ 64
    → (sum_of (bond_parts load len) ≡ len)
      × All (λ s. minimum_of (length load) len ≤ s) (bond_parts load len)
      × (length (bond_parts load len) ≡ length load)
unfolding bond_parts rates_of
bond_parts-sum [] len some_link small = absurd (omega arith)
bond_parts-sum (r ∷ rs) len some_link small =
    let fastest = fastest_of (r ∷ rs) 0 in
    let rates = rates_of fastest (r ∷ rs) in
    let n = length (r ∷ rs) in
    let least = minimum_of n len in
    let rest = len - n * least in
    let fits : shares rest (sum_of rates) rates ≤ rest =
      within rest rates (some_rate fastest r rs) in
    let counted : length rates ≡ n = length-rates_of fastest (r ∷ rs) in
    let whole : n * least ≤ len = least_fits n len in
    let room : 0 + length rates * least + shares rest (sum_of rates) rates ≤ len =
      omega (arith, ap (λ k. k * least) counted) in
    let (a, b, c) =
      sizes-sum len least rest (sum_of rates) (rate_of fastest r) (rates_of fastest rs) 0 small
        room in
    (omega (arith, a), b, c ∙ counted)
