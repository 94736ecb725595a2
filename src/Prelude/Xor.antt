-- ===== src/Prelude/Xor.antt =====
-- The exclusive or of bytes, and running checksums of it.
use Prim.Native.Nat.{ℕ, zero, suc, ◌+◌, ◌*◌, ◌/◌, ◌%◌, ◌^◌, ◌<◌}
use mathlib.Core.Path.{◌≡◌, refl, sym, ap, ◌∙◌}
use mathlib.Core.List.{List, [], ◌∷◌, ◌++◌}
use native.Mathlib.Omega.{arith}
use mcdma.Prelude.Lists.{get_or, set}

-- `a ^ b` on the lowest `w` bits
unfoldable pub xor_bits : ℕ → ℕ → ℕ → ℕ
xor_bits zero a b = 0
xor_bits (suc w) a b = (a + b) % 2 + 2 * xor_bits w (a / 2) (b / 2)

abbrev pub xor : ℕ → ℕ → ℕ
xor a b = xor_bits 8 a b

-- The loop `sum ^= p[i]`.
unfoldable pub checksum : ℕ → List ℕ → ℕ
checksum sum [] = sum
checksum sum (b ∷ bs) = checksum (xor sum b) bs

low_bit : (a b r : ℕ) → ((a + b) % 2 + 2 * r) % 2 ≡ (a + b) % 2
low_bit a b r = omega arith

high_bits : (a b r : ℕ) → ((a + b) % 2 + 2 * r) / 2 ≡ r
high_bits a b r = omega arith

xor_bits_comm : (w a b : ℕ) → xor_bits w a b ≡ xor_bits w b a
unfolding xor_bits
xor_bits_comm zero a b = refl
xor_bits_comm (suc w) a b = omega (arith, xor_bits_comm w (a / 2) (b / 2))

xor_bits_assoc : (w a b c : ℕ) → xor_bits w (xor_bits w a b) c ≡ xor_bits w a (xor_bits w b c)
unfolding xor_bits
xor_bits_assoc zero a b c = refl
xor_bits_assoc (suc w) a b c =
    rw (high_bits a b (xor_bits w (a / 2) (b / 2)), high_bits b c (xor_bits w (b / 2) (c / 2)))
      (omega (arith, xor_bits_assoc w (a / 2) (b / 2) (c / 2)))

xor_bits_self : (w a : ℕ) → xor_bits w a a ≡ 0
unfolding xor_bits
xor_bits_self zero a = refl
xor_bits_self (suc w) a = omega (arith, xor_bits_self w (a / 2))

xor_bits_zero : (w a : ℕ) → a < 2 ^ w → xor_bits w a 0 ≡ a
unfolding xor_bits
xor_bits_zero zero a h = omega arith
xor_bits_zero (suc w) a h = grind (arith, xor_bits_zero w (a / 2))

xor_bits-lt : (w a b : ℕ) → xor_bits w a b < 2 ^ w
unfolding xor_bits
xor_bits-lt zero a b = omega arith
xor_bits-lt (suc w) a b = grind (arith, xor_bits-lt w (a / 2) (b / 2))

xor_right_comm : (a b c : ℕ) → xor (xor a b) c ≡ xor (xor a c) b
xor_right_comm a b c =
    xor_bits_assoc 8 a b c ∙ ap (xor a) (xor_bits_comm 8 b c) ∙ sym (xor_bits_assoc 8 a c b)

pub xor_self : (a : ℕ) → xor a a ≡ 0
xor_self a = xor_bits_self 8 a

pub checksum-append :
    (sum : ℕ) (xs ys : List ℕ) → checksum sum (xs ++ ys) ≡ checksum (checksum sum xs) ys
unfolding checksum
checksum-append sum [] ys = refl
checksum-append sum (x ∷ xs) ys = checksum-append (xor sum x) xs ys

-- A byte can be taken last.
checksum-xor : (sum v : ℕ) (bs : List ℕ) → checksum (xor sum v) bs ≡ xor (checksum sum bs) v
unfolding checksum
checksum-xor sum v [] = refl
checksum-xor sum v (b ∷ bs) =
    ap (λ s. checksum s bs) (xor_right_comm sum v b) ∙ checksum-xor (xor sum b) v bs

checksum-lt : (sum : ℕ) (bs : List ℕ) → sum < 256 → checksum sum bs < 256
unfolding checksum
checksum-lt sum [] h = h
checksum-lt sum (b ∷ bs) h = checksum-lt (xor sum b) bs (xor_bits-lt 8 sum b)

checksum-set :
    (sum v : ℕ) (bs : List ℕ) (i : ℕ)
    → sum < 256
    → get_or bs i 1 ≡ 0
    → checksum sum (set bs i v) ≡ xor (checksum sum bs) v
unfolding checksum
checksum-set sum v [] i h e = absurd (omega arith)
checksum-set sum v (b ∷ bs) zero h e =
    checksum-xor sum v bs
    ∙ ap (λ s. xor (checksum s bs) v) (sym (xor_bits_zero 8 sum h) ∙ ap (xor sum) (sym e))
checksum-set sum v (b ∷ bs) (suc i) h e = checksum-set (xor sum b) v bs i (xor_bits-lt 8 sum b) e

-- A record whose zero byte gets the checksum of the record then sums to zero.
pub checksum-signed :
    (sum : ℕ) (bs : List ℕ) (i : ℕ)
    → sum < 256
    → get_or bs i 1 ≡ 0
    → checksum sum (set bs i (checksum sum bs)) ≡ 0
checksum-signed sum bs i h e =
    checksum-set sum (checksum sum bs) bs i h e ∙ xor_self (checksum sum bs)

-- The same for a checksum put behind the bytes that it sums.
pub checksum-closed : (sum : ℕ) (bs : List ℕ) → checksum sum (bs ++ checksum sum bs ∷ []) ≡ 0
unfolding checksum
checksum-closed sum bs = checksum-append sum bs (checksum sum bs ∷ []) ∙ xor_self (checksum sum bs)
