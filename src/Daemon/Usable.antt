-- ===== src/Daemon/Usable.antt =====
-- What `box_refuse` of rpc/rpcd_verbs.c and `table_valid` of rpc/link_verbs.c let through.
use mcdma.Prelude.{ℕ, ◌+◌, ◌/◌, ◌≤◌, ◌<◌, none, ◌≡◌, arith}
use mcdma.Wire.{Info, Table, roce, tb}
use mcdma.Daemon.{Setup, direct_mode, box_refuse}

-- A key for every byte of the table: the byte's registration is one of the `n` that have a key, and there is one.
abbrev pub HasKeys : Table → Type 0
HasKeys t = (0 < t.n) × ((o : ℕ) → o < t.len → o / t.seg < t.n)

-- The offers that a mailbox can use: of the same kind of link and the same sizes, over Thunderbolt with direct
-- replies, with a table that is as long as both halves and has at most 128 registrations of a positive length, and
-- on RoCE with a key for every byte of it.
abbrev pub IsUsable : Setup → Info → Type 0
IsUsable b p =
    (p.transport ≡ b.kind)
    × (p.req ≡ b.req)
    × (p.rep ≡ b.rep)
    × (b.kind ≡ tb → p.mode ≡ direct_mode)
    × (0 < p.table.seg)
    × (b.req + b.rep ≤ p.table.len)
    × (p.table.n ≤ 128)
    × (b.kind ≡ roce → HasKeys p.table)

-- An offer that is let through is of the mailbox's kind and sizes.
pub box_refuse-sizes :
    (b : Setup) (p : Info)
    → box_refuse b p ≡ none
    → (p.transport ≡ b.kind) × (p.req ≡ b.req) × (p.rep ≡ b.rep)
unfolding box_refuse
box_refuse-sizes b p e = ground arith
