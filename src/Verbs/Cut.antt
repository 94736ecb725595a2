-- ===== src/Verbs/Cut.antt =====
-- `cut`: its pieces cover the range in order, each inside one registration on either side.
use mcdma.Prelude.{
  ℕ, zero, suc, ◌+◌, ◌-◌, ◌/◌, ◌%◌, ◌^◌, ◌≤◌, ◌<◌, ◌≡◌, ◌≢◌, ◌∙◌, refl, ap, Option, none, some,
  List, [], ◌∷◌, ◌==◌, length, min, arith, Bool-cases, Option-cases, inl, inr, ◌⊎◌,
}
use native.Mathlib.Decide.{ℕ_discrete}
use mcdma.Wire.{Table}
use mcdma.Verbs.{Region, Piece, u64, region_lkey, remote_addr, remote_key, room_at, piece_at, cut}

-- `o .. o + n` lies in one registration of `seg` bytes.
abbrev pub Within : ℕ → ℕ → ℕ → Type 0
Within seg o n = (0 < n) × (n ≤ seg - o % seg)

abbrev pub RemoteWithin : Option Table → ℕ → ℕ → Type 0
RemoteWithin none o n = Unit {0}
RemoteWithin (some t) o n = n ≤ t.seg - o % t.seg

abbrev pub RemoteSegs : Option Table → Type 0
RemoteSegs none = Unit {0}
RemoteSegs (some t) = 0 < t.seg

-- The pieces cover `[off, off + len)` and the same bytes from `roff` on, in order and without a gap:
-- each is nonempty, at most `max`, inside one registration on each side, and carries its keys.
abbrev pub Covers : Region → Option Table → ℕ → ℕ → ℕ → ℕ → List Piece → Type 0
Covers local remote max off roff len [] = len ≡ 0
Covers local remote max off roff len (p ∷ ps) =
    (0 < p.len)
    × (p.len ≤ max)
    × (p.len ≤ len)
    × (p.len ≤ local.seg - off % local.seg)
    × RemoteWithin remote roff p.len
    × (p.local ≡ u64 (local.base + off))
    × (p.lkey ≡ region_lkey local off)
    × (p.remote ≡ remote_addr remote roff)
    × (p.rkey ≡ remote_key remote roff)
    × Covers local remote max (off + p.len) (roff + p.len) (len - p.len) ps

room_bounds :
    (local : Region) (remote : Option Table) (off roff len max : ℕ)
    → 0 < local.seg
    → RemoteSegs remote
    → 0 < max
    → 0 < len
    → let take = room_at local remote off roff len max in
      (0 < take)
      × (take ≤ max)
      × (take ≤ len)
      × (take ≤ local.seg - off % local.seg)
      × RemoteWithin remote roff take
unfolding room_at
room_bounds local none off roff len max s r m l = ground (arith, mod_lt off local.seg s)
  where
    mod_lt : (a b : ℕ) → 0 < b → a % b < b
    mod_lt a b h = omega arith
room_bounds local (some t) off roff len max s r m l = ground (arith)

cut_zero :
    (local : Region) (remote : Option Table) (max off roff len : ℕ) (ps : List Piece)
    → cut local remote max 0 off roff len ≡ some ps
    → (len ≡ 0) × (ps ≡ [])
unfolding cut
cut_zero local remote max off roff len ps e = ground arith

-- One round of `cut` that returns: nothing was left, or a piece and the pieces of the rest.
cut-suc :
    (local : Region) (remote : Option Table) (max cap off roff len : ℕ) (ps : List Piece)
    → cut local remote max (suc cap) off roff len ≡ some ps
    → let take = room_at local remote off roff len max in
      ((len ≡ 0) × (ps ≡ []))
      ⊎ ((qs : List Piece) × (0 < len)
          × (cut local remote max cap (u64 (off + take)) (u64 (roff + take)) (len - take) ≡ some qs)
          × (ps ≡ piece_at local remote off roff take ∷ qs))
unfolding cut
cut-suc local remote max cap off roff len ps e =
    let take = room_at local remote off roff len max in
    elim (Bool-cases (len == 0)) [
      | inl z ↦ inl (ground (arith, z))
      | inr nz ↦
          elim (Option-cases
            (cut local remote max cap (u64 (off + take)) (u64 (roff + take)) (len - take))) [
              | inl refused ↦ absurd (ground (arith, nz, refused))
              | inr (qs, rest) ↦ inr (qs, ground (arith, nz), rest, ground (arith, nz, rest))
            ]
    ]

module _ (local : Region) (remote : Option Table) (max : ℕ) (s : 0 < local.seg)
    (r : RemoteSegs remote) (m : 0 < max) (w : max < 2 ^ 32) where
  -- Whatever `cut` returns, for a range that wraps on neither side and pieces of 1 to 2^32 - 1 bytes,
  -- covers the range in at most as many pieces as there is room for.
  pub cut-Covers :
      (cap off roff len : ℕ) (ps : List Piece)
      → off + len < 2 ^ 64
      → roff + len < 2 ^ 64
      → cut local remote max cap off roff len ≡ some ps
      → Covers local remote max off roff len ps × (length ps ≤ cap)
  cut-Covers zero off roff len ps o ro e =
      let (z, shape) = cut_zero local remote max off roff len ps e in rw shape (z, omega arith)
  cut-Covers (suc cap) off roff len ps o ro e =
      elim (cut-suc local remote max cap off roff len ps e) [
        | inl (z, shape) ↦ rw shape (z, omega arith)
        | inr (qs, pos, rest, shape) ↦
            let take = room_at local remote off roff len max in
            let (t0, tm, tl, tw, tr) = room_bounds local remote off roff len max s r m pos in
            let eo : u64 (off + take) ≡ off + take = omega arith in
            let er : u64 (roff + take) ≡ roff + take = omega arith in
            let et : take % 2 ^ 32 ≡ take = omega arith in
            let (cov, few) =
              cut-Covers cap (off + take) (roff + take) (len - take) qs (omega arith) (omega arith)
                (rw (eo, er) at rest) in
            rw (shape, et) ((t0, tm, tl, tw, tr, refl, refl, refl, refl, cov), omega arith)
      ]

-- Division by a variable, as the count of pieces needs it.
div_step : (x d : ℕ) → 0 < d → d ≤ x → (x - d) / d + 1 ≡ x / d
div_step x d p h = grind arith

div_mono : (a b d : ℕ) → 0 < d → a ≤ b → a / d ≤ b / d
div_mono a b d p h = grind arith

mod_add_le : (a t d : ℕ) → 0 < d → (a + t) % d ≤ a % d + t
mod_add_le a t d p = grind arith

mod_to_boundary : (a d : ℕ) → 0 < d → (a + (d - a % d)) % d ≡ 0
mod_to_boundary a d p = grind arith

-- The registration boundaries that a range of `len` bytes from `o` on meets.
abbrev pub boundaries : ℕ → ℕ → ℕ → ℕ
boundaries seg o len = (o % seg + len) / seg

boundaries_mono :
    (seg o len take : ℕ)
    → 0 < seg
    → take ≤ len
    → boundaries seg (o + take) (len - take) ≤ boundaries seg o len
boundaries_mono seg o len take p h = div_mono _ _ seg p (omega (arith, mod_add_le o take seg p))

boundaries_step :
    (seg o len : ℕ)
    → 0 < seg
    → seg - o % seg ≤ len
    → boundaries seg (o + (seg - o % seg)) (len - (seg - o % seg)) + 1 ≡ boundaries seg o len
boundaries_step seg o len p h =
    let r = o % seg in
    let start = mod_to_boundary o seg p in
    ap (λ (k : ℕ). (k + (len - (seg - r))) / seg + 1) start
    ∙ ap (λ (k : ℕ). k / seg + 1) (inner r (r_lt p))
    ∙ div_step (r + len) seg p (omega (arith, r_lt p))
  where
    r_lt : 0 < seg → o % seg < seg
    r_lt q = omega arith

    inner : (r : ℕ) → r < seg → 0 + (len - (seg - r)) ≡ r + len - seg
    inner r q = omega arith

-- How many pieces a range needs, but for its last.
abbrev pub remote_boundaries : Option Table → ℕ → ℕ → ℕ
remote_boundaries none roff len = 0
remote_boundaries (some t) roff len = boundaries t.seg roff len

abbrev pub full_pieces : Region → Option Table → ℕ → ℕ → ℕ → ℕ → ℕ
full_pieces local remote max off roff len =
    len / max + boundaries local.seg off len + remote_boundaries remote roff len

remote_mono :
    (remote : Option Table) (roff len take : ℕ)
    → RemoteSegs remote
    → take ≤ len
    → remote_boundaries remote (roff + take) (len - take) ≤ remote_boundaries remote roff len
remote_mono none roff len take r h = omega arith
remote_mono (some t) roff len take r h = boundaries_mono t.seg roff len take r h

-- A round that leaves something takes `max` bytes, or ends at a boundary on one side.
data Ends (local : Region) (remote : Option Table) (max off roff take : ℕ) : Type 0 where
  at_max : take ≡ max → Ends local remote max off roff take
  at_local : take ≡ local.seg - off % local.seg → Ends local remote max off roff take
  at_remote :
      (t : Table)
      → remote ≡ some t
      → take ≡ t.seg - roff % t.seg
      → Ends local remote max off roff take

min_cases : (a b : ℕ) → (min a b ≡ a) ⊎ (min a b ≡ b)
min_cases a b = grind arith

room-Ends :
    (local : Region) (remote : Option Table) (off roff len max : ℕ)
    → room_at local remote off roff len max ≢ len
    → Ends local remote max off roff (room_at local remote off roff len max)
unfolding room_at
room-Ends local none off roff len max ne =
    elim (min_cases (min len max) (local.seg - off % local.seg)) [
      | inr e ↦ at_local e
      | inl e ↦ elim (min_cases len max) [ inl f ↦ absurd (ne (e ∙ f)) | inr f ↦ at_max (e ∙ f) ]
    ]
room-Ends local (some t) off roff len max ne =
    elim (min_cases (min (min len max) (local.seg - off % local.seg)) (t.seg - roff % t.seg)) [
      | inr e ↦ at_remote t refl e
      | inl e ↦ elim (min_cases (min len max) (local.seg - off % local.seg)) [
        | inr f ↦ at_local (e ∙ f)
        | inl f ↦ elim (min_cases len max) [
          | inl g ↦ absurd (ne (e ∙ f ∙ g))
          | inr g ↦ at_max (e ∙ f ∙ g)
        ]
      ]
    ]

remote_step :
    (remote : Option Table) (t : Table) (roff len take : ℕ)
    → remote ≡ some t
    → RemoteSegs remote
    → take ≡ t.seg - roff % t.seg
    → take ≤ len
    → remote_boundaries remote (roff + take) (len - take) + 1 ≡ remote_boundaries remote roff len
remote_step none t roff len take u r e h = cc
remote_step (some t') t roff len take u r e h =
    let same : t'.seg ≡ t.seg = cc in
    let e' : take ≡ t'.seg - roff % t'.seg = rw same e in
    ap (λ (k : ℕ). boundaries t'.seg (roff + k) (len - k) + 1) e'
    ∙ boundaries_step t'.seg roff len r (omega arith)

-- Such a round lowers the count.
full_pieces_fall :
    (local : Region) (remote : Option Table) (max off roff len take : ℕ)
    → 0 < local.seg
    → RemoteSegs remote
    → 0 < max
    → take ≤ len
    → Ends local remote max off roff take
    → full_pieces local remote max (off + take) (roff + take) (len - take) + 1
      ≤ full_pieces local remote max off roff len
full_pieces_fall local remote max off roff len take s r m h (at_max e) = omega (
  arith,
  boundaries_mono local.seg off len take s h,
  remote_mono remote roff len take r h,
  div_step len max m (omega arith),
  ap (λ (k : ℕ). (len - k) / max) e,
)
full_pieces_fall local remote max off roff len take s r m h (at_local e) = omega (
  arith,
  div_mono (len - take) len max m (omega arith),
  remote_mono remote roff len take r h,
  boundaries_step local.seg off len s (omega arith),
  ap (λ (k : ℕ). boundaries local.seg (off + k) (len - k)) e,
)
full_pieces_fall local remote max off roff len take s r m h (at_remote t u e) = omega (
  arith,
  div_mono (len - take) len max m (omega arith),
  boundaries_mono local.seg off len take s h,
  remote_step remote t roff len take u r e h,
)

cut_done :
    (local : Region) (remote : Option Table) (max cap off roff len : ℕ)
    → len ≡ 0
    → cut local remote max cap off roff len ≡ some []
unfolding cut
cut_done local remote max zero off roff len z = rw z refl
cut_done local remote max (suc cap) off roff len z = rw z refl

cut_more :
    (local : Region) (remote : Option Table) (max cap off roff len : ℕ) (qs : List Piece) (a b : ℕ)
    → len ≢ 0
    → u64 (off + room_at local remote off roff len max) ≡ a
    → u64 (roff + room_at local remote off roff len max) ≡ b
    → cut local remote max cap a b (len - room_at local remote off roff len max) ≡ some qs
    → cut local remote max (suc cap) off roff len
      ≡ some (piece_at local remote off roff (room_at local remote off roff len max) ∷ qs)
unfolding cut
cut_more local remote max cap off roff len qs a b nz ea eb e = ground (arith, ea, eb, e)

module _ (local : Region) (remote : Option Table) (max : ℕ) (s : 0 < local.seg)
    (r : RemoteSegs remote) (m : 0 < max) where
  -- For a range that wraps on neither side, `cut` returns its pieces whenever there is room for one piece
  -- more than the full pieces of `max` bytes in it and the registration boundaries that it meets on
  -- either side.
  pub cut_total :
      (cap off roff len : ℕ)
      → full_pieces local remote max off roff len < cap
      → off + len < 2 ^ 64
      → roff + len < 2 ^ 64
      → (ps : List Piece) × (cut local remote max cap off roff len ≡ some ps)
  cut_total zero off roff len h o ro = absurd (omega arith)
  cut_total (suc cap) off roff len h o ro = elim (ℕ_discrete len 0) [
    | yes z ↦ ([], cut_done local remote max (suc cap) off roff len z)
    | no nz ↦
        let take = room_at local remote off roff len max in
        let (t0, tm, tl, tw, tr) = room_bounds local remote off roff len max s r m (omega arith) in
        let eo : u64 (off + take) ≡ off + take = omega arith in
        let er : u64 (roff + take) ≡ roff + take = omega arith in
        elim (ℕ_discrete take len) [
          | yes all ↦ (
            _,
            cut_more local remote max cap off roff len [] _ _ nz refl refl
                (cut_done local remote max cap _ _ _ (omega arith)),
          )
          | no part ↦
              let falls =
                full_pieces_fall local remote max off roff len take s r m tl
                  (room-Ends local remote off roff len max part) in
              let (qs, rest) =
                cut_total cap (off + take) (roff + take) (len - take) (omega (arith, falls))
                  (omega arith) (omega arith) in
              (_, cut_more local remote max cap off roff len qs _ _ nz eo er rest)
        ]
  ]
