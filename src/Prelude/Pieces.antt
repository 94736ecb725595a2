-- ===== src/Prelude/Pieces.antt =====
-- Lists taken and dropped in pieces.
use Prim.Native.Nat.{ℕ, zero, suc, ◌+◌, ◌-◌, min}
use mathlib.Core.Path.{◌≡◌, refl, ap, ap₂, ◌∙◌}
use mathlib.Core.List.{List, [], ◌∷◌, ◌++◌}
use native.Mathlib.Omega.{arith}
use mcdma.Prelude.Lists.{take, drop}

module _ {ℓ} {A : Type ℓ} where
  pub take_split :
      (a n : ℕ) (xs : List A) → take (min a n) xs ++ take (a - n) (drop n xs) ≡ take a xs
  take_split a zero xs = ap₂ (λ (j k : ℕ). take j xs ++ take k xs) least all
    where
      least : min a 0 ≡ 0
      least = omega arith

      all : a - 0 ≡ a
      all = omega arith
  take_split zero (suc n) xs = ap₂ (λ (j k : ℕ). take j xs ++ take k (drop (suc n) xs)) least all
    where
      least : min 0 (suc n) ≡ 0
      least = omega arith

      all : 0 - suc n ≡ 0
      all = omega arith
  take_split (suc a) (suc n) [] =
      ap₂ (λ (j k : ℕ). take j [] ++ take k []) least all ∙ nothing (a - n)
    where
      least : min (suc a) (suc n) ≡ suc (min a n)
      least = omega arith

      all : suc a - suc n ≡ a - n
      all = omega arith

      nothing : (k : ℕ) → take {A = A} k [] ≡ []
      nothing zero = refl
      nothing (suc k) = refl
  take_split (suc a) (suc n) (x ∷ xs) =
      ap₂ (λ (j k : ℕ). take j (x ∷ xs) ++ take k (drop n xs)) least all
      ∙ ap (λ (l : List A). x ∷ l) (take_split a n xs)
    where
      least : min (suc a) (suc n) ≡ suc (min a n)
      least = omega arith

      all : suc a - suc n ≡ a - n
      all = omega arith

  pub drop-drop : (m n : ℕ) (xs : List A) → drop (m + n) xs ≡ drop n (drop m xs)
  drop-drop zero n xs = ap (λ (j : ℕ). drop j xs) start
    where
      start : zero + n ≡ n
      start = omega arith
  drop-drop (suc m) zero [] = ap (λ (j : ℕ). drop j []) shift
    where
      shift : suc m + zero ≡ suc m
      shift = omega arith
  drop-drop (suc m) (suc n) [] = ap (λ (j : ℕ). drop j []) shift
    where
      shift : suc m + suc n ≡ suc (suc (m + n))
      shift = omega arith
  drop-drop (suc m) n (x ∷ xs) = ap (λ (j : ℕ). drop j (x ∷ xs)) shift ∙ drop-drop m n xs
    where
      shift : suc m + n ≡ suc (m + n)
      shift = omega arith
