-- ===== src/Core/Bits/Layout.antt =====
-- Fields that do not overlap, written one after the other, all read back.
use mcdma.Prelude.{
  ℕ, ◌+◌, ◌*◌, ◌/◌, ◌^◌, ◌≤◌, ◌<◌, ◌≡◌, refl, ap, ◌∙◌, arith, Bool, true, false, ◌&&◌, ◌||◌, List,
  [], ◌∷◌, ltb, leb, ◌!=◌, length, All,
}
use native.Mathlib.Nat.{pow-le-pow_right, div-eq_of_lt, mod-eq_of_lt}
use mcdma.Core.Bits.{set_from, outside, set_bits, get_from, get_bits, Field, set_all}
use mcdma.Core.Bits.Fields.{
  length-set_from, set_from-beside, set_from-inside, get_from-same, get_from-bits,
}

-- A field inside the array with a value of its width.
abbrev pub FieldFits : ℕ → Field → Type 0
FieldFits bytes f =
    (0 < f.width) × (f.width ≤ 64) × (f.offset + f.width ≤ bytes * 8) × (f.value < 2 ^ f.width)

abbrev pub apart : Field → Field → Bool
apart f g = leb (f.offset + f.width) g.offset || leb (g.offset + g.width) f.offset

abbrev pub apart_all : Field → List Field → Bool
apart_all f [] = true
apart_all f (g ∷ gs) = apart f g && apart_all f gs

abbrev pub all_apart : List Field → Bool
all_apart [] = true
all_apart (f ∷ fs) = apart_all f fs && all_apart fs

-- The array gives the field's value.
abbrev pub Reads : List ℕ → ℕ → Field → Type 0
Reads p bytes f = get_bits p bytes f.offset f.width ≡ f.value

legal : (bytes : ℕ) (f : Field) → FieldFits bytes f → outside bytes f.offset f.width ≡ false
legal bytes f (a, b, c, d) = ground arith

set_bits-from :
    (p : List ℕ) (bytes : ℕ) (f : Field)
    → FieldFits bytes f
    → (set_bits p bytes f.offset f.width f.value).1 ≡ set_from f.width p f.offset f.value
unfolding set_bits
set_bits-from p bytes f fits =
    let (a, b, c, d) = fits in
    let zero_above : f.value / 2 ^ f.width ≡ 0 = div-eq_of_lt d in
    let none_lost : (ltb f.width 64 && f.value / 2 ^ f.width != 0) ≡ false =
      rw (zero_above) (no_test (ltb f.width 64)) in
    rw (legal bytes f fits, none_lost) refl
  where
    no_test : (b : Bool) → (b && false) ≡ false
    no_test true = refl
    no_test false = refl

-- A field that was just written.
set_bits-Reads :
    (p : List ℕ) (bytes : ℕ) (f : Field)
    → bytes ≤ length p
    → FieldFits bytes f
    → Reads (set_bits p bytes f.offset f.width f.value).1 bytes f
unfolding get_bits
set_bits-Reads p bytes f long fits =
    let (a, b, c, d) = fits in
    let word : 2 ^ f.width ≤ 2 ^ 64 = pow-le-pow_right (omega arith) b in
    rw (legal bytes f fits) (
      ap (λ r. get_from f.width r f.offset 0) (set_bits-from p bytes f fits)
      ∙ get_from-bits f.width (set_from f.width p f.offset f.value) f.offset f.value 0
          (λ j l. set_from-inside f.width p f.offset f.value j (omega arith) l) (omega arith)
      ∙ ap (λ x. 0 * 2 ^ f.width + x) (mod-eq_of_lt d)
      ∙ omega arith)

-- A field beside it.
set_bits-kept :
    (p : List ℕ) (bytes : ℕ) (f g : Field)
    → bytes ≤ length p
    → FieldFits bytes f
    → FieldFits bytes g
    → apart f g ≡ true
    → Reads p bytes f
    → Reads (set_bits p bytes g.offset g.width g.value).1 bytes f
unfolding get_bits
set_bits-kept p bytes f g long ff fg far reads =
    let (a, b, c, d) = fg in
    let gone = legal bytes f ff in
    let was : get_from f.width p f.offset 0 ≡ f.value = rw gone at reads in
    rw (gone) (
      ap (λ r. get_from f.width r f.offset 0) (set_bits-from p bytes g fg)
      ∙ get_from-same f.width (set_from g.width p g.offset g.value) p f.offset 0 (λ x l u.
        set_from-beside g.width p g.offset g.value x (omega arith) (ground (arith, far)))
      ∙ was)

long_still :
    (p : List ℕ) (bytes : ℕ) (g : Field)
    → bytes ≤ length p
    → FieldFits bytes g
    → bytes ≤ length (set_bits p bytes g.offset g.width g.value).1
long_still p bytes g long fg =
    omega
      (arith, ap length (set_bits-from p bytes g fg), length-set_from g.width p g.offset g.value)

pub set_all-kept :
    (p : List ℕ) (bytes : ℕ) (f : Field) (gs : List Field)
    → bytes ≤ length p
    → FieldFits bytes f
    → All (FieldFits bytes) gs
    → apart_all f gs ≡ true
    → Reads p bytes f
    → Reads (set_all p bytes gs) bytes f
unfolding set_all
set_all-kept p bytes f [] long ff fg far reads = reads
set_all-kept p bytes f (g ∷ gs) long ff (fg, fgs) far reads =
    set_all-kept (set_bits p bytes g.offset g.width g.value).1 bytes f gs
      (long_still p bytes g long fg) ff fgs (both far).1
      (set_bits-kept p bytes f g long ff fg (both far).0 reads)
  where
    both : {a b : Bool} → (a && b) ≡ true → (a ≡ true) × (b ≡ true)
    both h = ground (arith, h)

-- Fields inside the array that do not overlap, with values of their widths, all read back by
-- `get_bits` after the calls of `set_bits` that write them in turn.
pub set_all-Reads :
    (p : List ℕ) (bytes : ℕ) (fs : List Field)
    → bytes ≤ length p
    → All (FieldFits bytes) fs
    → all_apart fs ≡ true
    → All (Reads (set_all p bytes fs) bytes) fs
unfolding set_all
set_all-Reads p bytes [] long ff far = tt
set_all-Reads p bytes (f ∷ fs) long (ff, ffs) far =
    let p' = (set_bits p bytes f.offset f.width f.value).1 in
    let long' = long_still p bytes f long ff in
    (
      set_all-kept p' bytes f fs long' ff ffs (both far).0 (set_bits-Reads p bytes f long ff),
      set_all-Reads p' bytes fs long' ffs (both far).1,
    )
  where
    both : {a b : Bool} → (a && b) ≡ true → (a ≡ true) × (b ≡ true)
    both h = ground (arith, h)

pub length-set_all :
    (p : List ℕ) (bytes : ℕ) (fs : List Field)
    → All (FieldFits bytes) fs
    → length (set_all p bytes fs) ≡ length p
unfolding set_all
length-set_all p bytes [] ff = refl
length-set_all p bytes (f ∷ fs) (ff, ffs) =
    length-set_all (set_bits p bytes f.offset f.width f.value).1 bytes fs ffs
    ∙ ap length (set_bits-from p bytes f ff)
    ∙ length-set_from f.width p f.offset f.value
