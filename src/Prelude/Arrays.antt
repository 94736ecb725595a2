-- ===== src/Prelude/Arrays.antt =====
-- Slices of byte arrays, and where a field stands in an array made of fields.
use Prim.Native.Nat.{ℕ, zero, suc, ◌+◌, ◌≤◌}
use mathlib.Core.Path.{◌≡◌, refl, sym, ap, ◌∙◌}
use mathlib.Core.List.{List, [], ◌∷◌, ◌++◌, append-nil, append_assoc}
use native.Mathlib.Omega.{arith}
use mcdma.Prelude.Lists.{length, get_or, take, drop, length-append, take-append}

module _ {ℓ} {A : Type ℓ} where
  -- `n` elements from index `o` on
  abbrev pub slice : ℕ → ℕ → List A → List A
  slice o n xs = take n (drop o xs)

  abbrev pub concat : List (List A) → List A
  concat [] = []
  concat (f ∷ fs) = f ++ concat fs

  abbrev pub field : ℕ → List (List A) → List A
  field k [] = []
  field zero (f ∷ fs) = f
  field (suc k) (f ∷ fs) = field k fs

  -- where field `k` begins
  abbrev pub offset : ℕ → List (List A) → ℕ
  offset k [] = 0
  offset zero (f ∷ fs) = 0
  offset (suc k) (f ∷ fs) = length f + offset k fs

  -- the fields from `k` on
  abbrev pub fields_from : ℕ → List (List A) → List (List A)
  fields_from k [] = []
  fields_from zero (f ∷ fs) = f ∷ fs
  fields_from (suc k) (f ∷ fs) = fields_from k fs

  abbrev pub total : List (List A) → ℕ
  total [] = 0
  total (f ∷ fs) = length f + total fs

  pub length-concat : (fs : List (List A)) → length (concat fs) ≡ total fs
  length-concat [] = refl
  length-concat (f ∷ fs) = omega (arith, length-append f (concat fs), length-concat fs)

  drop_past : (n : ℕ) (xs ys : List A) → drop (length xs + n) (xs ++ ys) ≡ drop n ys
  drop_past n [] ys = ap (λ (k : ℕ). drop k ys) (omega arith)
  drop_past n (x ∷ xs) ys =
      ap (λ (k : ℕ). drop k (x ∷ xs ++ ys)) (shift (length xs) n) ∙ drop_past n xs ys
    where
      shift : (a b : ℕ) → suc a + b ≡ suc (a + b)
      shift a b = omega arith

module _ {ℓ} {A : Type ℓ} where
  -- A slice at a field's place, as long as the field, is that field.
  pub slice-concat :
      (k : ℕ) (fs : List (List A)) (o n : ℕ)
      → k + 1 ≤ length fs
      → o ≡ offset k fs
      → n ≡ length (field k fs)
      → slice o n (concat fs) ≡ field k fs
  slice-concat k [] o n h e l = absurd (omega arith)
  slice-concat zero (f ∷ fs) o n h e l =
      ap (λ (j : ℕ). take n (drop j (f ++ concat fs))) e ∙ take-append n f (concat fs) (omega arith)
  slice-concat (suc k) (f ∷ fs) o n h e l =
      ap (λ (j : ℕ). take n (drop j (f ++ concat fs))) e
      ∙ ap (take n) (drop_past (offset k fs) f (concat fs))
      ∙ slice-concat k fs (offset k fs) n (omega arith) refl l

  get_or_of_slice : (xs : List A) (o : ℕ) (x d : A) → slice o 1 xs ≡ x ∷ [] → get_or xs o d ≡ x
  get_or_of_slice [] zero x d e = cc
  get_or_of_slice [] (suc o) x d e = cc
  get_or_of_slice (y ∷ ys) zero x d e = cc
  get_or_of_slice (y ∷ ys) (suc o) x d e = get_or_of_slice ys o x d e

  -- The same for a field of one element.
  pub get_or-concat :
      (k : ℕ) (fs : List (List A)) (o : ℕ) (x d : A)
      → k + 1 ≤ length fs
      → o ≡ offset k fs
      → field k fs ≡ x ∷ []
      → get_or (concat fs) o d ≡ x
  get_or-concat k fs o x d h e f =
      get_or_of_slice (concat fs) o x d (slice-concat k fs o 1 h e (sym (ap length f)) ∙ f)

  -- What stands from the last field's place on is that field.
  pub drop-concat_last :
      (k : ℕ) (fs : List (List A)) (o : ℕ)
      → k + 1 ≡ length fs
      → o ≡ offset k fs
      → drop o (concat fs) ≡ field k fs
  drop-concat_last k [] o h e = absurd (omega arith)
  drop-concat_last zero (f ∷ []) o h e = ap (λ (j : ℕ). drop j (f ++ [])) e ∙ append-nil f
  drop-concat_last zero (f ∷ g ∷ fs) o h e = absurd (omega arith)
  drop-concat_last (suc k) (f ∷ fs) o h e =
      ap (λ (j : ℕ). drop j (f ++ concat fs)) e
      ∙ drop_past (offset k fs) f (concat fs)
      ∙ drop-concat_last k fs (offset k fs) (omega arith) refl

  drop_through : (n : ℕ) (xs ys : List A) → n ≤ length xs → drop n (xs ++ ys) ≡ drop n xs ++ ys
  drop_through zero xs ys h = refl
  drop_through (suc n) [] ys h = absurd (omega arith)
  drop_through (suc n) (x ∷ xs) ys h = drop_through n xs ys (omega arith)

  -- A pointer to a field's place.
  pub drop-concat :
      (k : ℕ) (fs : List (List A)) (o : ℕ) (t : List A)
      → o ≡ offset k fs
      → drop o (concat fs ++ t) ≡ concat (fields_from k fs) ++ t
  drop-concat k [] o t e = ap (λ (j : ℕ). drop j t) e
  drop-concat zero (f ∷ fs) o t e = ap (λ (j : ℕ). drop j (f ++ concat fs ++ t)) e
  drop-concat (suc k) (f ∷ fs) o t e =
      ap (λ (j : ℕ). drop j ((f ++ concat fs) ++ t)) e
      ∙ ap (drop (length f + offset k fs)) (append_assoc f (concat fs) t)
      ∙ drop_past (offset k fs) f (concat fs ++ t)
      ∙ drop-concat k fs (offset k fs) t refl

  -- An index counted from a pointer into the array.
  pub get_or-drop : (n k : ℕ) (xs : List A) (d : A) → get_or xs (n + k) d ≡ get_or (drop n xs) k d
  get_or-drop zero k xs d = ap (λ (j : ℕ). get_or xs j d) (omega arith)
  get_or-drop (suc n) k [] d = refl
  get_or-drop (suc n) k (x ∷ xs) d =
      ap (λ (j : ℕ). get_or (x ∷ xs) j d) (shift n k) ∙ get_or-drop n k xs d
    where
      shift : (n k : ℕ) → suc n + k ≡ suc (n + k)
      shift n k = omega arith
