-- ===== src/Verbs.antt =====
-- rpc/link_verbs.c: registered regions, and transfers cut into pieces that stay inside one
-- registration. Addresses and lengths are uint64_t, and `x % 2 ^ 64` is where they may wrap.
-- The verbs library is a parameter: `ibv_reg_mr` is a function that a registration calls.
use mcdma.Prelude.{
  ℕ, zero, suc, ◌+◌, ◌-◌, ◌*◌, ◌/◌, ◌%◌, ◌^◌, Bool, true, false, not, ◌&&◌, ◌||◌, Option, none,
  some, List, [], ◌∷◌, ◌++◌, ltb, leb, ◌==◌, ◌!=◌, if◌then◌else◌, get_or, length, min, replicate,
}
use mcdma.Wire.{Table, region_max, tb}
pub mod Cut
pub mod Loop
pub mod Register

abbrev pub u64 : ℕ → ℕ
u64 x = x % 2 ^ 64

-- the keys of a `struct ibv_mr`
pub record Mr : Type 0 where
  pub lkey : ℕ
  pub rkey : ℕ

-- `struct region`; `mr` holds the first `n` registrations.
pub record Region : Type 0 where
  pub base : ℕ
  pub len : ℕ
  pub seg : ℕ
  pub split : ℕ
  pub n : ℕ
  pub below : ℕ
  pub above : ℕ
  pub mr : List Mr

abbrev pub no_mr : Mr
no_mr = record { lkey = 0; rkey = 0 }

-- `region_lkey`: the key of the registration that holds `off`.
unfoldable pub region_lkey : Region → ℕ → ℕ
region_lkey r off = (get_or r.mr (off / r.seg) no_mr).lkey

-- `struct piece`
pub record Piece : Type 0 where
  pub local : ℕ
  pub lkey : ℕ
  pub remote : ℕ
  pub rkey : ℕ
  pub len : ℕ

-- The remote side of a cut: its address and key at `roff`, zero without a table.
abbrev pub remote_addr : Option Table → ℕ → ℕ
remote_addr none roff = 0
remote_addr (some t) roff = u64 (t.base + roff)

abbrev pub remote_key : Option Table → ℕ → ℕ
remote_key none roff = 0
remote_key (some t) roff = get_or t.rkey (roff / t.seg) 0

-- `take` of a round of `cut`: what is left, at most `max`, the rest of the local registration and,
-- when there is a table, of the remote one.
unfoldable pub room_at : Region → Option Table → ℕ → ℕ → ℕ → ℕ → ℕ
room_at local none off roff len max = min (min len max) (local.seg - off % local.seg)
room_at local (some t) off roff len max =
    min (min (min len max) (local.seg - off % local.seg)) (t.seg - roff % t.seg)

abbrev pub piece_at : Region → Option Table → ℕ → ℕ → ℕ → Piece
piece_at local remote off roff take = record {
  local = u64 (local.base + off);
  lkey = region_lkey local off;
  remote = remote_addr remote roff;
  rkey = remote_key remote roff;
  len = take % 2 ^ 32;
}

-- `cut`, by recursion on the pieces that `out` still has room for; `none` for its -1.
unfoldable pub cut : Region → Option Table → ℕ → ℕ → ℕ → ℕ → ℕ → Option (List Piece)
cut local remote max zero off roff len = if len == 0 then some [] else none
cut local remote max (suc cap) off roff len =
    let take = room_at local remote off roff len max in
    let rest = cut local remote max cap (u64 (off + take)) (u64 (roff + take)) (len - take) in
    if len == 0
    then some []
    else elim rest [ none ↦ none | some ps ↦ some (piece_at local remote off roff take ∷ ps) ]

-- `table_valid`
unfoldable pub table_valid : Table → ℕ → Bool → Bool
table_valid t need keys =
    if t.seg == 0 || ltb t.len need || ltb region_max t.n
    then false
    else not keys || (t.n != 0 && leb (u64 (t.len + t.seg - 1) / t.seg) t.n)

abbrev pub link_mrs : ℕ
link_mrs = region_max + 4

-- What `ibv_reg_mr` and `ep_reg` see: an address, a length and an access; `none` is a refusal.
abbrev pub Registrar : Type 0
Registrar = ℕ → ℕ → ℕ → Option Mr

-- The registrations of `struct ep`, `mr[0 .. nmr)`; `ep_reg` adds one while there is room.
unfoldable pub ep_reg : Registrar → List Mr → ℕ → ℕ → ℕ → Option (Mr × List Mr)
ep_reg reg held addr len access =
    if leb link_mrs (length held)
    then none
    else elim (reg addr len access) [ none ↦ none | some mr ↦ some (mr, held ++ (mr ∷ [])) ]

-- `IBV_ACCESS_LOCAL_WRITE`, and the remote accesses that let a key out
abbrev pub local_write : ℕ
local_write = 1

-- The length of the registration at `off`: what is left, at most `seg`.
abbrev pub reg_len : Region → ℕ → ℕ
reg_len r off = if ltb (r.len - off) r.seg then r.len - off else r.seg

abbrev pub reg_access : Region → ℕ → ℕ
reg_access r off = if ltb off r.split then r.below else r.above

-- The loop of `ep_reg_region` on fuel: whether it returned 0, with the region and the endpoint's
-- registrations as they then are. A round adds a registration and the region holds 128, so 129 rounds
-- are enough.
unfoldable pub reg_loop : Registrar → ℕ → ℕ → Region → List Mr → Bool × Region × List Mr
reg_loop reg zero off r held = (false, r, held)
reg_loop reg (suc fuel) off r held =
    if ltb off r.len
    then (if r.n == region_max
        then (false, r, held)
        else elim (ep_reg reg held (u64 (r.base + off)) (reg_len r off) (reg_access r off)) [
          | none ↦ (false, r, held)
          | some (mr, held') ↦
              reg_loop reg fuel (u64 (off + r.seg))
                (record r { mr = r.mr ++ (mr ∷ []); n = r.n + 1 }) held'
        ])
    else (true, r, held)

-- the region that `ep_reg_region` starts from
abbrev pub unregistered : ℕ → ℕ → ℕ → ℕ → ℕ → ℕ → ℕ → Region
unregistered kind base len seg split below above = record {
  base = base;
  len = len;
  seg = if seg == 0 then len else seg;
  split = split;
  n = 0;
  below = if kind == tb then local_write else below;
  above = if kind == tb then local_write else above;
  mr = [];
}

-- `ep_reg_region`
unfoldable pub ep_reg_region :
    Registrar → ℕ → List Mr → ℕ → ℕ → ℕ → ℕ → ℕ → ℕ → Bool × Region × List Mr
ep_reg_region reg kind held base len seg split below above =
    reg_loop reg (region_max + 1) 0 (unregistered kind base len seg split below above) held

-- `access & (IBV_ACCESS_REMOTE_WRITE | IBV_ACCESS_REMOTE_READ)` for these bits 2 and 4
abbrev pub is_remote : ℕ → Bool
is_remote access = access / 2 % 4 != 0

-- The keys that `ep_info` hands out: that of each registration whose access the peer can use, or 0.
unfoldable pub offered_keys : Region → ℕ → List Mr → List ℕ
offered_keys r i [] = []
offered_keys r i (m ∷ ms) =
    (if is_remote (reg_access r (u64 (i * r.seg))) then m.rkey else 0) ∷ offered_keys r (i + 1) ms

-- The table of `ep_info`: without keys on a Thunderbolt link.
unfoldable pub offered_table : ℕ → Region → Table
unfolding offered_keys
offered_table kind r =
    if kind == tb
    then record { base = r.base; len = r.len; seg = r.seg; n = 0; rkey = replicate region_max 0 }
    else record {
      base = r.base;
      len = r.len;
      seg = r.seg;
      n = r.n;
      rkey = offered_keys r 0 r.mr ++ replicate (region_max - r.n) 0;
    }
