-- ===== src/Prelude/Remainders.antt =====
-- Remainders by one modulus: sums, differences and multiples.
use Prim.Native.Nat.{ℕ, ◌+◌, ◌-◌, ◌%◌, ◌≤◌, ◌<◌}
use mathlib.Core.Path.{◌≡◌, sym, ap, ◌∙◌}
use native.Mathlib.Omega.{arith}
use native.Mathlib.Nat.{mod-add-mod, add-mod-mod}

-- A multiple of the modulus can be dropped from a sum.
pub mod-add_multiple : (a b p : ℕ) → a % p ≡ 0 → (a + b) % p ≡ b % p
mod-add_multiple a b p e =
    let drop : 0 + b ≡ b = omega arith in
    sym (mod-add-mod a p b) ∙ ap (λ (x : ℕ). (x + b) % p) e ∙ ap (λ (x : ℕ). x % p) drop

mod-add_same : (x r p : ℕ) → x < p → r < p → (x + r) % p ≡ x → r ≡ 0
mod-add_same x r p a b e = grind arith

mod_below : (a p : ℕ) → 0 < p → a % p < p
mod_below a p h = grind arith

mod_once : (a p : ℕ) → 0 < p → a < p → a % p ≡ a
mod_once a p h l = grind arith

sum_same : (a c p : ℕ) → 0 < p → (a + c) % p ≡ a % p → c % p ≡ 0
sum_same a c p h e =
    mod-add_same (a % p) (c % p) p (mod_below a p h) (mod_below c p h)
      (mod-add-mod a p (c % p) ∙ add-mod-mod a c p ∙ e)

-- Numbers of the same remainder differ by a multiple.
pub mod-sub_same : (a b p : ℕ) → 0 < p → a % p ≡ b % p → a ≤ b → (b - a) % p ≡ 0
mod-sub_same a b p h e l =
    let whole : a + (b - a) ≡ b = omega arith in
    sum_same a (b - a) p h (ap (λ (x : ℕ). x % p) whole ∙ sym e)

-- Multiples are a modulus apart.
pub multiple_apart : (a b p : ℕ) → 0 < p → a % p ≡ 0 → b % p ≡ 0 → a < b → a + p ≤ b
multiple_apart a b p h e f l = grind arith

pub round_down : (a p : ℕ) → 0 < p → (a - a % p) % p ≡ 0
round_down a p h = grind arith

-- The remainder is the distance from the multiple before.
pub mod_from_multiple : (a b p : ℕ) → 0 < p → a % p ≡ 0 → a ≤ b → b < a + p → b % p ≡ b - a
mod_from_multiple a b p h e l u =
    let whole : a + (b - a) ≡ b = omega arith in
    sym (ap (λ (x : ℕ). x % p) whole)
    ∙ mod-add_multiple a (b - a) p e
    ∙ mod_once (b - a) p h (omega arith)

-- A summand counts only by its remainder.
pub mod-add_replace : (a c d p : ℕ) → a % p ≡ c % p → (a + d) % p ≡ (c + d) % p
mod-add_replace a c d p e =
    sym (mod-add-mod a p d) ∙ ap (λ (x : ℕ). (x + d) % p) e ∙ mod-add-mod c p d

pub mod_at_most : (a p : ℕ) → 0 < p → a % p ≤ a
mod_at_most a p h = grind arith
