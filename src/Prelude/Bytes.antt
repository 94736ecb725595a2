-- ===== src/Prelude/Bytes.antt =====
-- Little-endian and big-endian integers as lists of bytes.
use Prim.Native.Nat.{ℕ, zero, suc, ◌+◌, ◌*◌, ◌/◌, ◌%◌, ◌^◌, ◌<◌}
use mathlib.Core.Path.{◌≡◌, refl, ap}
use mathlib.Core.List.{List, [], ◌∷◌}
use native.Mathlib.Omega.{arith}
use mcdma.Prelude.Lists.{length, All}

abbrev pub IsByte : ℕ → Type 0
IsByte b = b < 256

-- `w` bytes of `v`, the lowest first: the loop `p[i] = (uint8_t)(v >> 8 * i)`.
unfoldable pub le_bytes : ℕ → ℕ → List ℕ
le_bytes zero v = []
le_bytes (suc w) v = v % 256 ∷ le_bytes w (v / 256)

-- The loop `v = v << 8 | p[i]`, from the last byte down.
unfoldable pub of_le : List ℕ → ℕ
of_le [] = 0
of_le (b ∷ bs) = of_le bs * 256 + b

pub length-le_bytes : (w v : ℕ) → length (le_bytes w v) ≡ w
unfolding le_bytes
length-le_bytes zero v = refl
length-le_bytes (suc w) v = ap suc (length-le_bytes w (v / 256))

pub le_bytes-IsByte : (w v : ℕ) → All IsByte (le_bytes w v)
unfolding le_bytes
le_bytes-IsByte zero v = tt
le_bytes-IsByte (suc w) v = (omega arith, le_bytes-IsByte w (v / 256))

-- What `le_bytes` wrote reads back.
pub of_le-le_bytes : (w v : ℕ) → v < 256 ^ w → of_le (le_bytes w v) ≡ v
unfolding of_le le_bytes
of_le-le_bytes zero v h = omega arith
of_le-le_bytes (suc w) v h = ground (arith, of_le-le_bytes w (v / 256))

pub le_bytes-of_le :
    (bs : List ℕ) (w : ℕ) → length bs ≡ w → All IsByte bs → le_bytes w (of_le bs) ≡ bs
unfolding of_le le_bytes
le_bytes-of_le [] zero e h = refl
le_bytes-of_le [] (suc w) e h = absurd (omega arith)
le_bytes-of_le (b ∷ bs) zero e h = absurd (omega arith)
le_bytes-of_le (b ∷ bs) (suc w) e (hb, hs) = ground (arith, le_bytes-of_le bs w)

pub of_le-lt : (bs : List ℕ) (w : ℕ) → length bs ≡ w → All IsByte bs → of_le bs < 256 ^ w
unfolding of_le
of_le-lt [] zero e h = omega arith
of_le-lt [] (suc w) e h = absurd (omega arith)
of_le-lt (b ∷ bs) zero e h = absurd (omega arith)
of_le-lt (b ∷ bs) (suc w) e (hb, hs) = grind (arith, of_le-lt bs w (omega arith) hs)
