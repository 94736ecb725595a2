-- ===== src/Core/Bits.antt =====
-- core/cx5_verbs.cpp: `set_bits` and `get_bits`, which number the bits of a byte array from the highest
-- bit of its first byte. `p` is not null and `bytes * 8` does not overflow.
use mcdma.Prelude.{
  ℕ, zero, suc, ◌+◌, ◌-◌, ◌*◌, ◌/◌, ◌%◌, ◌^◌, Bool, true, false, not, ◌&&◌, ◌||◌, List, [], ◌∷◌,
  ltb, ◌==◌, ◌!=◌, if◌then◌else◌, get_or, set,
}
pub mod Single
pub mod Fields
pub mod Layout

-- `(p[pos / 8] >> (7 - pos % 8)) & 1`
abbrev pub bit_of : ℕ → ℕ → ℕ
bit_of b k = b / 2 ^ (7 - k) % 2

abbrev pub bit_at : List ℕ → ℕ → ℕ
bit_at p pos = bit_of (get_or p (pos / 8) 0) (pos % 8)

-- `(b & ~mask) | (v ? mask : 0)` for the mask of bit `k`
unfoldable pub with_bit : ℕ → ℕ → ℕ → ℕ
with_bit b k v = b - bit_of b k * 2 ^ (7 - k) + v * 2 ^ (7 - k)

-- The body of the loop of `set_bits`.
abbrev pub put_bit : List ℕ → ℕ → ℕ → List ℕ
put_bit p pos v = set p (pos / 8) (with_bit (get_or p (pos / 8) 0) (pos % 8) v)

-- The loop of `set_bits` from bit `pos` on, for the `k` bits that are left.
unfoldable pub set_from : ℕ → List ℕ → ℕ → ℕ → List ℕ
set_from zero p pos value = p
set_from (suc k) p pos value = set_from k (put_bit p pos (value / 2 ^ k % 2)) (pos + 1) value

-- the tests of both functions on where the field lies
abbrev pub outside : ℕ → ℕ → ℕ → Bool
outside bytes offset width =
    width == 0 || ltb 64 width || ltb (bytes * 8) offset || ltb (bytes * 8 - offset) width

-- `set_bits`: its answer and the array.
unfoldable pub set_bits : List ℕ → ℕ → ℕ → ℕ → ℕ → Bool × List ℕ
set_bits p bytes offset width value =
    if outside bytes offset width || ltb width 64 && value / 2 ^ width != 0
    then (false, p)
    else (true, set_from width p offset value)

-- The loop of `get_bits`, from bit `pos` on.
unfoldable pub get_from : ℕ → List ℕ → ℕ → ℕ → ℕ
get_from zero p pos value = value
get_from (suc k) p pos value = get_from k p (pos + 1) (value * 2 % 2 ^ 64 + bit_at p pos)

-- `get_bits`
unfoldable pub get_bits : List ℕ → ℕ → ℕ → ℕ → ℕ
get_bits p bytes offset width = if outside bytes offset width then 0 else get_from width p offset 0

-- One call of `set_bits` on an array.
pub record Field : Type 0 where
  pub offset : ℕ
  pub width : ℕ
  pub value : ℕ

-- A sequence of calls whose answers are not looked at.
unfoldable pub set_all : List ℕ → ℕ → List Field → List ℕ
set_all p bytes [] = p
set_all p bytes (f ∷ fs) = set_all (set_bits p bytes f.offset f.width f.value).1 bytes fs
