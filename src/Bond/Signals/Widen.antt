-- ===== src/Bond/Signals/Widen.antt =====
-- `widen` of rpc/libmcdma_fabric.c finds a 64-bit count again from its low half.
use mcdma.Prelude.{ℕ, ◌+◌, ◌-◌, ◌%◌, ◌^◌, ◌≤◌, ◌<◌, ◌≡◌, ltb, arith, if_lem}
use mcdma.Bond.Signals.{widen}

-- The low 32 bits of a count that is less than 2^31 ahead of this end's own count of the same link, or at most 2^31
-- behind it, widen to the count itself.
pub widen_lem :
    (near count : ℕ)
    → count < 2 ^ 64
    → near < 2 ^ 64
    → count < near + 2 ^ 31
    → near ≤ count + 2 ^ 31
    → widen near (count % 2 ^ 32) ≡ count
unfolding widen
widen_lem near count c n ahead behind =
    let low : ℕ = count % 2 ^ 32 in
    if_lem (λ r. r ≡ count) (ltb ((low + 2 ^ 32 - near % 2 ^ 32) % 2 ^ 32) (2 ^ 31))
      (λ h. ground (arith, h)) (λ h. ground (arith, h))
