-- ===== src/Tb/Ring/Copy.antt =====
-- A message copied out of the ring in two runs.
use mcdma.Prelude.{
  ℕ, ◌+◌, ◌-◌, ◌*◌, ◌%◌, ◌≤◌, ◌<◌, ◌≡◌, ap, ◌∙◌, arith, Bool-cases, inl, inr, ltb, min,
}
use native.Mathlib.Nat.{mod-add-mod}
use mcdma.Tb.{tb_packet}
use mcdma.Tb.Ring.{Ring, ring_size, start_of, copied}

mod_below : (a n : ℕ) → a < n → a % n ≡ a
mod_below a n h = grind arith

mod_above : (a n : ℕ) → n ≤ a → a < n + n → a % n ≡ a - n
mod_above a n lo hi = grind arith

mod_less : (a n : ℕ) → 0 < n → a % n < n
mod_less a n h = grind arith

-- A message of at most the ring's size is copied out as if the ring were unrolled: byte `i` stands at
-- the message's start plus `skip` plus `i`, modulo the ring, whether or not the copy wraps.
pub copied-unrolled :
    (r : Ring) (first skip len i : ℕ)
    → 0 < r.slots
    → len ≤ ring_size r
    → i < len
    → copied r first skip len i ≡ r.byte ((first % r.slots * tb_packet + skip + i) % ring_size r)
unfolding copied
copied-unrolled r first skip len i pos fits h =
    let n = ring_size r in
    let at = start_of r first skip in
    let below = mod_less (first % r.slots * tb_packet + skip) n (omega arith) in
    let shift = mod-add-mod (first % r.slots * tb_packet + skip) n i in
    elim (Bool-cases (ltb i (min len (n - at)))) [
      | inl here ↦
          rw here (ap r.byte (omega (arith, mod_below (at + i) n (ground (arith, here))) ∙ shift))
      | inr there ↦ rw there (
          ap r.byte (
            ground (arith, there, mod_above (at + i) n (ground (arith, there)) (omega arith))
            ∙ shift))
    ]
