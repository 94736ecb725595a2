-- ===== src/Daemon/Lines/Sizes.antt =====
-- `parse_mib` of rpc/rpcd_common.c gives halves that a transfer can be cut for.
use mcdma.Prelude.{ℕ, ◌*◌, ◌%◌, ◌≤◌, ◌≡◌, some, arith}
use mcdma.Daemon.{ctrl, seg_bytes}
use mcdma.Daemon.Lines.{parse_mib}
use mcdma.Daemon.Transfer.{max_segs}

-- A size that `parse_mib` accepts is of whole registrations, at most 64 of them, and holds the first page.
pub parse_mib-bounds :
    (mib bytes : ℕ)
    → parse_mib mib ≡ some bytes
    → (bytes % seg_bytes ≡ 0) × (bytes ≤ max_segs * seg_bytes) × (ctrl ≤ bytes)
unfolding parse_mib
parse_mib-bounds mib bytes e = ground arith
