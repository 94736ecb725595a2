-- ===== src/Bond.antt =====
-- rpc/fabric_bond_n.h: `bond_parts`, which splits a transfer over the links of a bond by their rates.
-- The products stay below 2 ^ 64: a rate is at most 2 ^ 20 and a bond has few links.
use mcdma.Prelude.{
  ℕ, zero, suc, ◌+◌, ◌-◌, ◌*◌, ◌/◌, ◌%◌, ◌^◌, min, Bool, true, false, List, [], ◌∷◌, ltb, leb, ◌==◌,
  if◌then◌else◌, length,
}
pub mod Parts
pub mod Signals
pub mod Tails

abbrev pub bond_rate : ℕ
bond_rate = 8000

abbrev pub bond_part : ℕ
bond_part = 2048

-- The first loop: the greatest rate.
unfoldable pub fastest_of : List ℕ → ℕ → ℕ
fastest_of [] fastest = fastest
fastest_of (r ∷ rs) fastest = fastest_of rs (if ltb fastest r then r else fastest)

-- The body of the second loop: the rate that counts for a link.
unfoldable pub rate_of : ℕ → ℕ → ℕ
rate_of fastest r =
    let rate = if r == 0 then bond_rate else r in
    let raised = if ltb rate (fastest / 3) then fastest / 3 else rate in
    if ltb (2 ^ 20) raised then 2 ^ 20 else raised

unfoldable pub rates_of : ℕ → List ℕ → List ℕ
rates_of fastest [] = []
rates_of fastest (r ∷ rs) = rate_of fastest r ∷ rates_of fastest rs

unfoldable pub sum_of : List ℕ → ℕ
sum_of [] = 0
sum_of (r ∷ rs) = r + sum_of rs

-- the bytes of a link beyond the minimum
abbrev pub share : ℕ → ℕ → ℕ → ℕ
share rest sum rate = (rest / sum * rate + rest % sum * rate / sum) / 64 * 64

-- The third loop and the last part, for the links that are left.
unfoldable pub sizes_from : ℕ → ℕ → ℕ → ℕ → List ℕ → ℕ → List ℕ
sizes_from len minimum rest sum [] used = []
sizes_from len minimum rest sum (r ∷ []) used = (len + 2 ^ 64 - used) % 2 ^ 64 ∷ []
sizes_from len minimum rest sum (r ∷ s ∷ rs) used =
    let size = minimum + share rest sum r in
    size ∷ sizes_from len minimum rest sum (s ∷ rs) ((used + size) % 2 ^ 64)

-- `bond_parts`: the sizes, for the rates of the links' loads.
unfoldable pub bond_parts : List ℕ → ℕ → List ℕ
bond_parts load len =
    let n = length load in
    let rates = rates_of (fastest_of load 0) load in
    let least = len / n / 64 * 64 in
    let minimum = if ltb bond_part least then bond_part else least in
    sizes_from len minimum (len - n * minimum) (sum_of rates) rates 0
