-- ===== src/Core/Device/Bounds.antt =====
-- What an accepted device promises to the code that lays out its command page.
use mcdma.Prelude.{power_sum, ℕ, ◌+◌, ◌*◌, ◌^◌, ◌≤◌, ◌<◌, ◌≡◌, arith}
use native.Mathlib.Nat.{pow-le-pow_right}
use mcdma.Core.Command.{ok, command_bytes}
use mcdma.Core.Device.{Registers, Device, inspect}

inspected :
    (r : Registers) (d : Device)
    → inspect r ≡ (ok, d)
    → (d.log_slots ≤ 5) × (6 ≤ d.log_stride) × (d.log_slots + d.log_stride ≤ 12) × (d.revision ≡ 5)
unfolding inspect
inspected r d h = ground (arith, h)

slot_end : (k slots stride : ℕ) → k < slots → k * stride + stride ≤ slots * stride
slot_end k slots stride h = grind arith

-- For a device that `inspect` accepts, there are at most 32 command slots of at least 64 bytes, and
-- the command record of every slot ends inside the page of 4096 bytes.
pub inspect-bounds :
    (r : Registers) (d : Device) (slot : ℕ)
    → inspect r ≡ (ok, d)
    → slot < 2 ^ d.log_slots
    → (2 ^ d.log_slots ≤ 32)
      × (command_bytes ≤ 2 ^ d.log_stride)
      × (slot * 2 ^ d.log_stride + command_bytes ≤ 4096)
inspect-bounds r d slot h inside =
    let (few, wide, page, five) = inspected r d h in
    let a : 2 ^ d.log_slots ≤ 2 ^ 5 = pow-le-pow_right (omega arith) few in
    let b : 2 ^ 6 ≤ 2 ^ d.log_stride = pow-le-pow_right (omega arith) wide in
    let c : 2 ^ (d.log_slots + d.log_stride) ≤ 2 ^ 12 = pow-le-pow_right (omega arith) page in
    let e = slot_end slot (2 ^ d.log_slots) (2 ^ d.log_stride) inside in
    let f = power_sum d.log_slots d.log_stride in (omega arith, omega arith, omega arith)
