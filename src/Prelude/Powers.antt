-- ===== src/Prelude/Powers.antt =====
-- Powers of two.
use Prim.Native.Nat.{ℕ, zero, suc, ◌+◌, ◌*◌, ◌^◌, ◌<◌}
use mathlib.Core.Path.{◌≡◌, ap, ◌∙◌}
use native.Mathlib.Omega.{arith}
use native.Mathlib.Nat.{one-le-pow}

pub power_pos : (k : ℕ) → 0 < 2 ^ k
power_pos k = one-le-pow k 2 (omega arith)

pub power_sum : (a b : ℕ) → 2 ^ a * 2 ^ b ≡ 2 ^ (a + b)
power_sum a zero = once (2 ^ a) ∙ ap (λ k. 2 ^ k) none_more
  where
    none_more : a ≡ a + 0
    none_more = omega arith

    once : (x : ℕ) → x * 1 ≡ x
    once x = omega arith
power_sum a (suc b) = grind (arith, power_sum a b, ap (λ k. 2 ^ k) shift)
  where
    shift : a + suc b ≡ suc (a + b)
    shift = omega arith
