-- ===== src/Core/Pages/Chain.antt =====
-- A valid chain of segments as a map from process addresses to device addresses.
use mcdma.Prelude.{
  ℕ, ◌+◌, ◌-◌, ◌%◌, ◌^◌, ◌≤◌, ◌<◌, ◌≡◌, refl, true, ◌&&◌, ◌||◌, Option, none, some, List, [], ◌∷◌,
  ltb, leb, ◌==◌, ◌!=◌, if◌then◌else◌, arith, Bool-cases, Option-cases, inl, inr,
}
use mcdma.Core.Pages.{Segment, u64_max, chain_end, segments_valid}

-- the device address that the segments give a process address
unfoldable pub device_of : List Segment → ℕ → Option ℕ
device_of [] x = none
device_of (s ∷ ss) x =
    if leb s.va x && ltb x (s.va + s.len) then some (s.iova + (x - s.va)) else device_of ss x

-- The segments abut from `from` to `upto`, none empty, none past the 64 bits.
abbrev pub Chain : ℕ → ℕ → List Segment → Type 0
Chain from upto [] = from ≡ upto
Chain from upto (s ∷ ss) =
    (s.va ≡ from)
    × (0 < s.len)
    × (s.va + s.len < 2 ^ 64)
    × (s.iova + s.len < 2 ^ 64)
    × Chain (s.va + s.len) upto ss

link_facts :
    (s : Segment) (from : ℕ) (rest : Option ℕ) (e : ℕ)
    → (if s.va != from
          || s.len == 0
          || s.len % 4096 != 0
          || s.iova == 0
          || s.iova % 4096 != 0
          || ltb (u64_max - s.len) s.va
          || ltb (u64_max - s.len) s.iova
        then none
        else rest)
      ≡ some e
    → (rest ≡ some e)
      × (s.va ≡ from)
      × (0 < s.len)
      × (s.va + s.len < 2 ^ 64)
      × (s.iova + s.len < 2 ^ 64)
link_facts s from rest e h = ground (arith, h)

chain_end-Chain : (ss : List Segment) (from e : ℕ) → chain_end from ss ≡ some e → Chain from e ss
unfolding chain_end
chain_end-Chain [] from e h = cc h
chain_end-Chain (s ∷ ss) from e h =
    let (rest, v, l, w, i) = link_facts s from (chain_end (s.va + s.len) ss) e h in
    (v, l, w, i, chain_end-Chain ss (s.va + s.len) e rest)

pub segments_valid-Chain :
    (ss : List Segment) (start len : ℕ)
    → segments_valid ss start len ≡ true
    → (upto : ℕ) × Chain (start - start % 4096) upto ss × (0 < len) × (start + len ≤ upto)
unfolding segments_valid
segments_valid-Chain [] start len h = cc h
segments_valid-Chain (s ∷ ss) start len h =
    elim (Option-cases (chain_end (start - start % 4096) (s ∷ ss))) [
      | inl bad ↦ absurd (ground (arith, bad, h))
      | inr (e, ok) ↦ (
        e,
        chain_end-Chain (s ∷ ss) (start - start % 4096) e ok,
        ground (arith, ok, h),
        ground (arith, ok, h),
      )
    ]

pub Chain-le : (ss : List Segment) (from upto : ℕ) → Chain from upto ss → from ≤ upto
Chain-le [] from upto c = omega arith
Chain-le (s ∷ ss) from upto (v, l, w, i, c) = omega (arith, Chain-le ss (s.va + s.len) upto c)

pub Chain-word :
    (s : Segment) (ss : List Segment) (from upto : ℕ) → Chain from upto (s ∷ ss) → upto < 2 ^ 64
Chain-word s [] from upto (v, l, w, i, c) = omega arith
Chain-word s (t ∷ ss) from upto (v, l, w, i, c) = Chain-word t ss (s.va + s.len) upto c

-- Below its start a chain maps nothing.
pub device_of-below :
    (ss : List Segment) (from upto x : ℕ) → Chain from upto ss → x < from → device_of ss x ≡ none
unfolding device_of
device_of-below [] from upto x c h = refl
device_of-below (s ∷ ss) from upto x (v, l, w, i, c) h =
    let later = device_of-below ss (s.va + s.len) upto x c (omega arith) in ground (arith, later)

-- A chain maps every address that it spans.
pub device_of-within :
    (ss : List Segment) (from upto x : ℕ)
    → Chain from upto ss
    → from ≤ x
    → x < upto
    → (d : ℕ) × (device_of ss x ≡ some d)
unfolding device_of
device_of-within [] from upto x c a b = absurd (omega arith)
device_of-within (s ∷ ss) from upto x (v, l, w, i, c) a b =
    elim (Bool-cases (ltb x (s.va + s.len))) [
      | inl inside ↦ (s.iova + (x - s.va), ground (arith, inside))
      | inr past ↦
          let (d, e) = device_of-within ss (s.va + s.len) upto x c (ground (arith, past)) b in
          (d, ground (arith, past, e))
    ]

pub device_of-past :
    (s : Segment) (ss : List Segment) (x : ℕ)
    → s.va + s.len ≤ x
    → device_of (s ∷ ss) x ≡ device_of ss x
unfolding device_of
device_of-past s ss x h = ground arith
