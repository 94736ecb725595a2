-- ===== src/Daemon/Transfer/Inside.antt =====
-- The WRITEs of a request and of a reply, rpc/rpcd_verbs.c, stay inside the half of the mailbox they are for.
use mcdma.Prelude.{
  ℕ, ◌+◌, ◌-◌, ◌*◌, ◌/◌, ◌%◌, ◌^◌, ◌≤◌, ◌<◌, Bool, true, false, Option, some, List, [], ◌∷◌, ◌++◌,
  ◌==◌, if◌then◌else◌, ◌≡◌, refl, ◌∙◌, All, length, arith, Bool-cases, Option-cases, ltb, inl, inr,
}
use mcdma.Wire.{Table, tb}
use mcdma.Verbs.{Region, Piece, cut, u64}
use mcdma.Verbs.Cut.{Covers, cut-Covers, boundaries, cut_total}
use mcdma.Daemon.{ctrl, seg_bytes, word, Setup}
use mcdma.Daemon.Transfer.{
  writes, word_piece, max_segs, pieces_max, box_transfer, request_transfer, reply_transfer,
}

-- The piece reads and writes between the offsets `lo` and `hi` of either mailbox.
abbrev pub IsInside : Region → Table → ℕ → ℕ → Piece → Type 0
IsInside r t lo hi p =
    (r.base + lo ≤ p.local)
    × (p.local + p.len ≤ r.base + hi)
    × (t.base + lo ≤ p.remote)
    × (p.remote + p.len ≤ t.base + hi)

length-then : (ps : List Piece) (p : Piece) → length (ps ++ p ∷ []) ≡ length ps + 1
length-then [] p = refl
length-then (q ∷ qs) p = omega (arith, length-then qs p)

not_ltb : (a b : ℕ) → ltb b a ≡ false → a ≤ b
not_ltb a b h = ground arith

-- The pieces of a transfer are those of its payload, then the word.
box_transfer-writes :
    (r : Region) (t : Table) (b : Setup) (off len src dst w cap : ℕ) (ps : List Piece)
    → box_transfer b r t off len src dst w cap ≡ writes ps
    → (qs : List Piece) × ((if len == 0
          then some []
          else cut r (some t) seg_bytes (cap - 1) off off len)
        ≡ some qs)
      × (ps ≡ qs ++ word_piece r t src dst ∷ [])
unfolding box_transfer
box_transfer-writes r t b off len src dst w cap ps e =
    let payload : Option (List Piece) =
      if len == 0 then some [] else cut r (some t) seg_bytes (cap - 1) off off len in
    elim (Bool-cases (b.kind == tb)) [
      | inl k ↦ absurd (ground (arith, rw k at e))
      | inr k ↦ elim (Option-cases payload) [
        | inl n ↦ absurd (ground (arith, rw (k, n) at e))
        | inr (qs, n) ↦ (qs, n, ground (arith, rw (k, n) at e))
      ]
    ]

module _ (r : Region) (t : Table) (lo hi : ℕ) (here : r.base + hi < 2 ^ 64)
    (there : t.base + hi < 2 ^ 64) where
  Covers-IsInside :
      (max off len : ℕ) (ps : List Piece)
      → lo ≤ off
      → off + len ≤ hi
      → Covers r (some t) max off off len ps
      → All (IsInside r t lo hi) ps
  Covers-IsInside max off len [] l h c = tt
  Covers-IsInside max off len (p ∷ ps) l h
        (p0, pm, pl, pw, pr, plocal, plkey, premote, prkey, rest) =
      let e : u64 (r.base + off) ≡ r.base + off = omega arith in
      let e' : u64 (t.base + off) ≡ t.base + off = omega arith in
      let local : p.local ≡ r.base + off = plocal ∙ e in
      let remote : p.remote ≡ t.base + off = premote ∙ e' in
      (
        (omega arith, omega arith, omega arith, omega arith),
        Covers-IsInside max (off + p.len) (len - p.len) ps (omega arith) (omega arith) rest,
      )

  All-then :
      (ps : List Piece) (p : Piece)
      → All (IsInside r t lo hi) ps
      → IsInside r t lo hi p
      → All (IsInside r t lo hi) (ps ++ p ∷ [])
  All-then [] p _ i = (i, tt)
  All-then (q ∷ qs) p (a, more) i = (a, All-then qs p more i)

  cut-IsInside :
      (cap off len : ℕ) (ps : List Piece)
      → 0 < r.seg
      → 0 < t.seg
      → lo ≤ off
      → off + len ≤ hi
      → (if len == 0 then some [] else cut r (some t) seg_bytes cap off off len) ≡ some ps
      → All (IsInside r t lo hi) ps × (length ps ≤ cap)
  cut-IsInside cap off len ps s s' l h e = elim (Bool-cases (len == 0)) [
    | inl z ↦ let shape : [] ≡ ps = ground (arith, rw z at e) in rw⁻¹ shape (tt, omega arith)
    | inr nz ↦
        let (covers, few) =
          cut-Covers r (some t) seg_bytes s s' (omega arith) (omega arith) cap off off len ps
            (omega arith) (omega arith) (rw nz at e) in
        (Covers-IsInside seg_bytes off len ps l h covers, few)
  ]

  -- A transfer whose payload and word lie between two offsets posts only pieces between them, no more than
  -- there is room for.
  box_transfer-IsInside :
      (b : Setup) (off len src dst w cap : ℕ) (ps : List Piece)
      → 0 < cap
      → 0 < r.seg
      → 0 < t.seg
      → lo ≤ off
      → off + len ≤ hi
      → lo ≤ src
      → src + 8 ≤ hi
      → lo ≤ dst
      → dst + 8 ≤ hi
      → box_transfer b r t off len src dst w cap ≡ writes ps
      → All (IsInside r t lo hi) ps × (length ps ≤ cap)
  unfolding box_transfer
  box_transfer-IsInside b off len src dst w cap ps c s s' l h ls hs ld hd e =
      let (qs, cut_to, shape) = box_transfer-writes r t b off len src dst w cap ps e in
      let (inside, few) = cut-IsInside (cap - 1) off len qs s s' l h cut_to in
      let last : Piece = word_piece r t src dst in
      rw (shape, length-then qs last)
        (All-then qs last inside (omega arith, omega arith, omega arith, omega arith), omega arith)

-- the boundaries of registrations of at least 4 MiB that a range of at most a half meets
few_boundaries :
    (seg o len : ℕ)
    → seg_bytes ≤ seg
    → len ≤ max_segs * seg_bytes
    → boundaries seg o len ≤ max_segs + 1
few_boundaries seg o len big small =
    let r : o % seg < seg = mod_lt o seg (omega arith) in
    div_le (o % seg + len) seg (max_segs + 1) (wide seg len (o % seg) big small r)
  where
    mod_lt : (a b : ℕ) → 0 < b → a % b < b
    mod_lt a b h = omega arith

    div_le : (a b n : ℕ) → a < b * (n + 1) → a / b ≤ n
    div_le a b n h = grind arith

    wide :
        (d n m : ℕ)
        → seg_bytes ≤ d
        → n ≤ max_segs * seg_bytes
        → m < d
        → m + n < d * (max_segs + 1 + 1)
    wide d n m h k l = omega arith

-- Over RoCE the payload of at most a half is never cut in too many pieces.
box_transfer_total :
    (r : Region) (t : Table) (b : Setup) (off len src dst w : ℕ)
    → (b.kind == tb) ≡ false
    → seg_bytes ≤ r.seg
    → seg_bytes ≤ t.seg
    → len ≤ max_segs * seg_bytes
    → off + len < 2 ^ 64
    → (ps : List Piece) × (box_transfer b r t off len src dst w pieces_max ≡ writes ps)
unfolding box_transfer
box_transfer_total r t b off len src dst w roce big big' small o =
    let local : boundaries r.seg off len ≤ max_segs + 1 = few_boundaries r.seg off len big small in
    let remote : boundaries t.seg off len ≤ max_segs + 1 =
      few_boundaries t.seg off len big' small in
    elim (Bool-cases (len == 0)) [
      | inl z ↦ (word_piece r t src dst ∷ [], rw (roce, z) refl)
      | inr nz ↦
          let (ps, e) =
            cut_total r (some t) seg_bytes (omega arith) (omega arith) (omega arith)
              (pieces_max - 1) off off len (omega arith) o o in
          (ps ++ word_piece r t src dst ∷ [], rw (roce, nz, e) refl)
    ]

-- Over RoCE, a request that `peer_thread` lets through, at most the request half less its first page, is posted:
-- its pieces stay inside the request half of either mailbox and fit where they are kept, when that half is of one
-- page to 256 MiB, registrations are of at least 4 MiB and the half does not wrap around the address space.
pub request_transfer-IsInside :
    (b : Setup) (r : Region) (t : Table) (len w : ℕ)
    → (b.kind == tb) ≡ false
    → r.base + b.req < 2 ^ 64
    → t.base + b.req < 2 ^ 64
    → seg_bytes ≤ r.seg
    → seg_bytes ≤ t.seg
    → ctrl ≤ b.req
    → b.req ≤ max_segs * seg_bytes
    → ltb (b.req - ctrl) len ≡ false
    → (ps : List Piece) × (request_transfer b r t len w ≡ writes ps)
      × All (IsInside r t 0 b.req) ps
      × (length ps ≤ pieces_max)
request_transfer-IsInside b r t len w k here there s s' c half l =
    let fits : len ≤ b.req - ctrl = not_ltb len (b.req - ctrl) l in
    let (ps, e) = box_transfer_total r t b ctrl len 0 0 w k s s' (omega arith) (omega arith) in
    let (inside, few) =
      box_transfer-IsInside r t 0 b.req here there b ctrl len 0 0 w pieces_max ps (omega arith)
        (omega arith) (omega arith) (omega arith) (omega arith) (omega arith) (omega arith)
        (omega arith) (omega arith) e in
    (ps, e, inside, few)

-- Over RoCE, a reply that the listen end lets through, at most the reply half less its first page, is posted, in
-- direct and in pull mode: its pieces stay inside the reply half of either mailbox and fit where they are kept,
-- when that half is of one page to 256 MiB, registrations are of at least 4 MiB and the mailboxes do not wrap
-- around the address space.
pub reply_transfer-IsInside :
    (b : Setup) (direct : Bool) (r : Region) (t : Table) (seq len : ℕ)
    → (b.kind == tb) ≡ false
    → r.base + (b.req + b.rep) < 2 ^ 64
    → t.base + (b.req + b.rep) < 2 ^ 64
    → seg_bytes ≤ r.seg
    → seg_bytes ≤ t.seg
    → ctrl ≤ b.rep
    → b.rep ≤ max_segs * seg_bytes
    → ltb (b.rep - ctrl) len ≡ false
    → (ps : List Piece) × (reply_transfer b direct r t seq len ≡ writes ps)
      × All (IsInside r t b.req (b.req + b.rep)) ps
      × (length ps ≤ pieces_max)
reply_transfer-IsInside b true r t seq len k here there s s' c half l =
    let fits : len ≤ b.rep - ctrl = not_ltb len (b.rep - ctrl) l in
    let (ps, e) =
      box_transfer_total r t b (b.req + ctrl) len b.req (b.req + 64) (word seq len) k s s'
        (omega arith) (omega arith) in
    let (inside, few) =
      box_transfer-IsInside r t b.req (b.req + b.rep) here there b (b.req + ctrl) len b.req
        (b.req + 64) (word seq len) pieces_max ps (omega arith) (omega arith) (omega arith)
        (omega arith) (omega arith) (omega arith) (omega arith) (omega arith) (omega arith) e in
    (ps, e, inside, few)
reply_transfer-IsInside b false r t seq len k here there s s' c half l =
    let (ps, e) =
      box_transfer_total r t b b.req 0 b.req b.req (word seq len) k s s' (omega arith)
        (omega arith) in
    let (inside, few) =
      box_transfer-IsInside r t b.req (b.req + b.rep) here there b b.req 0 b.req b.req
        (word seq len) pieces_max ps (omega arith) (omega arith) (omega arith) (omega arith)
        (omega arith) (omega arith) (omega arith) (omega arith) (omega arith) e in
    (ps, e, inside, few)
