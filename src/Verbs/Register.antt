-- ===== src/Verbs/Register.antt =====
-- `ep_reg_region`: the registrations it leaves, and the table that `ep_info` then offers.
use mcdma.Prelude.{
  ℕ, zero, suc, ◌+◌, ◌-◌, ◌*◌, ◌/◌, ◌^◌, ◌≤◌, ◌<◌, ◌≡◌, refl, sym, ap, ◌≢◌, ◌∙◌, ◌⊎◌, inl, inr,
  true, some, List, [], ◌∷◌, ◌++◌, arith, length, get_or, length-append,
}
use native.Mathlib.Decide.{ℕ_discrete, dec_lt}
use mcdma.Wire.{region_max, roce, tb}
use mcdma.Verbs.{
  Mr, Region, Registrar, no_mr, u64, link_mrs, reg_len, reg_access, ep_reg, reg_loop, unregistered,
  ep_reg_region, offered_table, table_valid,
}
use mcdma.Verbs.Loop.{SoFar, grown, Covered, SameShape, reg_loop-Covered}

before_last : (i n s len : ℕ) → i < n → (n - 1) * s < len → i * s < len
before_last i n s len h l = grind arith

-- The access of the registration at `off`: on Thunderbolt local write alone (1), elsewhere that of its side of `split`.
pub data Side (kind off split below above access : ℕ) : Type 0 where
  thunderbolt : kind ≡ tb → access ≡ 1 → Side kind off split below above access
  on_left : kind ≢ tb → off < split → access ≡ below → Side kind off split below above access
  on_right : kind ≢ tb → split ≤ off → access ≡ above → Side kind off split below above access

-- The registration of the region's bytes from `off` on: it starts there, it has `seg` bytes or ends where the region
-- does, and its access is that of `off`.
pub record Part (reg : Registrar) (kind base len seg split below above off : ℕ) (mr : Mr)
    : Type 0 where
  pub size : ℕ
  pub access : ℕ
  pub made : reg (u64 (base + off)) size access ≡ some mr
  pub positive : 0 < size
  pub at_most : size ≤ seg
  pub inside : off + size ≤ len
  pub full : (size ≡ seg) ⊎ (off + size ≡ len)
  pub side : Side kind off split below above access

-- What `ep_reg_region` leaves of its arguments: a region of that base, length and split, cut every `seg` bytes (0 for
-- one part), with at most 128 registrations, no more than needed, each of its own part.
pub record IsRegion (reg : Registrar) (kind : ℕ) (held : List Mr)
    (base len seg split below above : ℕ) (r : Region) (held' : List Mr) : Type 0 where
  pub same_base : r.base ≡ base
  pub same_len : r.len ≡ len
  pub same_split : r.split ≡ split
  pub step : ((seg ≡ 0) × (r.seg ≡ len)) ⊎ ((seg ≢ 0) × (r.seg ≡ seg))
  pub count : length r.mr ≡ r.n
  pub few : r.n ≤ 128
  pub needed : (r.n ≡ 0) ⊎ ((r.n - 1) * r.seg < len)
  pub whole : len ≤ r.n * r.seg
  pub endpoint : held' ≡ held ++ r.mr
  pub each :
      (i : ℕ)
      → i < r.n
      → Part reg kind base len r.seg split below above (i * r.seg) (get_or r.mr i no_mr)

access-Side :
    (kind base len seg split below above off : ℕ)
    → Side kind off split below above
        (reg_access (unregistered kind base len seg split below above) off)
access-Side kind base len seg split below above off = elim (ℕ_discrete kind tb) [
  | yes on_tb ↦ thunderbolt on_tb (ground (arith, on_tb))
  | no other ↦ elim (dec_lt off split) [
    | yes before ↦ on_left other before (ground (arith, other, before))
    | no past ↦ on_right other (omega arith) (ground (arith, other, past))
  ]
]

same_access : (r r' : Region) (off : ℕ) → SameShape r r' → reg_access r' off ≡ reg_access r off
same_access r r' off (b, l, s, p, lo, hi) = rw (p, lo, hi) refl

part_of :
    (reg : Registrar) (kind base len seg split below above off : ℕ) (r : Region) (mr : Mr)
    → SameShape (unregistered kind base len seg split below above) r
    → off < len
    → reg (u64 (r.base + off)) (reg_len r off) (reg_access r off) ≡ some mr
    → Part reg kind base len r.seg split below above off mr
part_of reg kind base len seg split below above off r mr (b, l, s, p, lo, hi) h e =
    let start = unregistered kind base len seg split below above in
    record {
      size = reg_len r off;
      access = reg_access start off;
      made = rw (sym b, sym (same_access start r off (b, l, s, p, lo, hi))) e;
      positive = positive;
      at_most = at_most;
      inside = inside;
      full = full;
      side = access-Side kind base len seg split below above off;
    }
  where
    positive : 0 < reg_len r off
    positive = ground (arith, s, l, h)

    at_most : reg_len r off ≤ r.seg
    at_most = ground arith

    inside : off + reg_len r off ≤ len
    inside = ground (arith, l, h)

    full : (reg_len r off ≡ r.seg) ⊎ (off + reg_len r off ≡ len)
    full = ground (arith, l, h)

-- A region that `ep_reg_region` accepted is the one asked for, cut every `seg` bytes (0 for one part): at most 128
-- registrations cover it, none needlessly, and the verbs library made each of them for its own part, of `seg` bytes or
-- up to the region's end, with local write alone on Thunderbolt and else the access of the part's side of `split`; the
-- endpoint holds the same registrations behind those it had. Twice the length with the segment size is below 2 ^ 64.
pub ep_reg_region-Covered :
    (reg : Registrar) (kind : ℕ) (held : List Mr) (base len seg split below above : ℕ) (r : Region)
    (held' : List Mr)
    → len + seg + len < 2 ^ 64
    → ep_reg_region reg kind held base len seg split below above ≡ (true, r, held')
    → IsRegion reg kind held base len seg split below above r held'
unfolding ep_reg_region
ep_reg_region-Covered reg kind held base len seg split below above r held' w e =
    let start = unregistered kind base len seg split below above in
    let (cov, (b, l, s, p, lo, hi), add) =
      reg_loop-Covered reg 129 0 start held r held' (omega arith) (ground arith) (start-SoFar) e in
    record {
      same_base = b;
      same_len = l;
      same_split = p;
      step = start_step s;
      count = cov.count;
      few = cov.few;
      needed = rw (sym l) cov.needed;
      whole = rw (sym l) cov.whole;
      endpoint = add.to_endpoint ∙ ap (λ (n : List Mr). held ++ n) (sym add.to_region);
      each = λ i h.
          part_of reg kind base len seg split below above (i * r.seg) r (get_or r.mr i no_mr)
            (b, l, s, p, lo, hi) (starts_inside i h cov.needed l) (cov.each i h);
    }
  where
    start-SoFar : SoFar reg (unregistered kind base len seg split below above)
    start-SoFar = record {
      count = refl;
      few = omega arith;
      needed = inl refl;
      each = λ i h. absurd (omega arith);
    }

    start_step :
        r.seg ≡ (unregistered kind base len seg split below above).seg
        → ((seg ≡ 0) × (r.seg ≡ len)) ⊎ ((seg ≢ 0) × (r.seg ≡ seg))
    start_step s = ground (arith, s)

    starts_inside :
        (i : ℕ) → i < r.n → (r.n ≡ 0) ⊎ ((r.n - 1) * r.seg < r.len) → r.len ≡ len → i * r.seg < len
    starts_inside i h (inl nothing) l = absurd (omega arith)
    starts_inside i h (inr last) l = before_last i r.n r.seg len h (rw l at last)

-- A library that refuses nothing.
abbrev pub Grants : Registrar → Type 0
Grants reg = (a l x : ℕ) → (mr : Mr) × (reg a l x ≡ some mr)

ep_reg-some :
    (reg : Registrar) (held : List Mr) (a l x : ℕ)
    → Grants reg
    → length held < link_mrs
    → (mr : Mr) × (ep_reg reg held a l x ≡ some (mr, held ++ (mr ∷ [])))
unfolding ep_reg
ep_reg-some reg held a l x g h = let (mr, e) = g a l x in (mr, ground (arith, e))

reg_loop_past :
    (reg : Registrar) (fuel off : ℕ) (r : Region) (held : List Mr)
    → r.len ≤ off
    → reg_loop reg (suc fuel) off r held ≡ (true, r, held)
unfolding reg_loop
reg_loop_past reg fuel off r held h = ground arith

reg_loop_more :
    (reg : Registrar) (fuel off : ℕ) (r : Region) (held : List Mr) (mr : Mr) (held1 : List Mr)
    (o : ℕ)
    → off < r.len
    → r.n < region_max
    → u64 (off + r.seg) ≡ o
    → ep_reg reg held (u64 (r.base + off)) (reg_len r off) (reg_access r off) ≡ some (mr, held1)
    → reg_loop reg (suc fuel) off r held ≡ reg_loop reg fuel o (grown r mr) held1
unfolding reg_loop
reg_loop_more reg fuel off r held mr held1 o h n eo e = ground (arith, e, eo)

mul_less : (a b s : ℕ) → a * s < b * s → a < b
mul_less a b s h = grind arith

reg_loop_total :
    (reg : Registrar) (fuel off : ℕ) (r : Region) (held : List Mr)
    → Grants reg
    → off ≡ r.n * r.seg
    → r.n + fuel ≡ 129
    → r.n ≤ 128
    → r.len ≤ 128 * r.seg
    → r.len + r.seg < 2 ^ 64
    → length held ≤ r.n + 4
    → (r' : Region) × (held' : List Mr) × (reg_loop reg fuel off r held ≡ (true, r', held'))
reg_loop_total reg zero off r held g eo ef cap128 small w room = absurd (omega arith)
reg_loop_total reg (suc fuel) off r held g eo ef cap128 small w room = elim (dec_lt off r.len) [
  | no past ↦ (r, held, reg_loop_past reg fuel off r held (omega arith))
  | yes more ↦
      let few = few_left more in
      let (mr, made) =
        ep_reg-some reg held (u64 (r.base + off)) (reg_len r off) (reg_access r off) g
          (omega arith) in
      let next : u64 (off + r.seg) ≡ (r.n + 1) * r.seg = omega arith in
      let (r', held', e) =
        reg_loop_total reg fuel ((r.n + 1) * r.seg) (grown r mr) (held ++ (mr ∷ [])) g refl
          (omega arith) (omega arith) small w (omega (arith, length-append {0} held (mr ∷ []))) in
      (r', held', reg_loop_more reg fuel off r held mr (held ++ (mr ∷ [])) _ more few next made ∙ e)
]
  where
    few_left : off < r.len → r.n < region_max
    few_left h = mul_less r.n 128 r.seg (omega arith)

-- A region of at most 128 parts is registered by a library that refuses nothing, on an endpoint that
-- holds at most 4 registrations: the loop does not run out.
pub ep_reg_region_total :
    (reg : Registrar) (kind : ℕ) (held : List Mr) (base len seg split below above : ℕ)
    → Grants reg
    → seg ≢ 0
    → len ≤ 128 * seg
    → len + seg < 2 ^ 64
    → length held ≤ 4
    → (r : Region) × (held' : List Mr) × (ep_reg_region reg kind held base len seg split below above
        ≡ (true, r, held'))
unfolding ep_reg_region
ep_reg_region_total reg kind held base len seg split below above g nz small w room =
    let start = unregistered kind base len seg split below above in
    let same : start.seg ≡ seg = ground (arith, nz) in
    reg_loop_total reg 129 0 start held g (omega arith) (omega arith) (omega arith) (rw same small)
      (rw same w) (omega arith)

div_covers : (len seg n : ℕ) → 0 < seg → len ≤ n * seg → (len + seg - 1) / seg ≤ n
div_covers len seg n p h = grind arith

-- The table that `ep_info` offers for a registered RoCE region passes the peer's `table_valid` for
-- any need up to its length, keys included.
pub table_valid-offered :
    (reg : Registrar) (r : Region) (need : ℕ)
    → Covered reg r
    → 0 < r.seg
    → 0 < r.len
    → r.len + r.seg < 2 ^ 64
    → need ≤ r.len
    → table_valid (offered_table roce r) need true ≡ true
unfolding table_valid offered_table
table_valid-offered reg r need c s l w h =
    ground (arith, c.few, c.whole, div_covers r.len r.seg r.n s c.whole)
