-- ===== src/Bond/Signals/Placed.antt =====
-- When the writes that a signal of rpc/libmcdma_fabric.c follows are placed, link by link.
use mcdma.Prelude.{
  ℕ, zero, suc, ◌≤◌, ◌<◌, ◌≡◌, ◌≢◌, ◌⊎◌, inl, inr, refl, ap, true, false, List, [], ◌∷◌, ◌==◌, leb,
  arith, length, get_or, Bool-cases,
}
use mcdma.Bond.Signals.{Peer, slot, covers, set_placed, is_ready}

-- Every link has placed as many writes as the signal needs of it.
abbrev pub IsPlaced : List ℕ → List ℕ → Type 0
IsPlaced need placed = (k : ℕ) → k < length placed → get_or need k 0 ≤ get_or placed k 0

-- The next signal is not in its slot, or some link has placed fewer writes than it needs.
abbrev pub NextLacks : Peer → Type 0
NextLacks p =
    ((slot p p.rx_signal).seq ≢ p.rx_signal)
    ⊎ ((k : ℕ) × (k < length p.placed)
        × (get_or p.placed k 0 < get_or (slot p p.rx_signal).need k 0))

pub covers-IsPlaced : (need placed : List ℕ) → covers need placed ≡ true → IsPlaced need placed
unfolding covers
covers-IsPlaced [] placed c k h = omega arith
covers-IsPlaced (n ∷ ns) [] c k h = absurd (omega arith)
covers-IsPlaced (n ∷ ns) (m ∷ ms) c zero h = ground (arith, c)
covers-IsPlaced (n ∷ ns) (m ∷ ms) c (suc k) h =
    covers-IsPlaced ns ms (ground (arith, c)) k (omega arith)

length-set_placed :
    (placed : List ℕ) (lane count : ℕ) → length (set_placed placed lane count) ≡ length placed
length-set_placed [] lane count = refl
length-set_placed (n ∷ ns) zero count = refl
length-set_placed (n ∷ ns) (suc lane) count = ap suc (length-set_placed ns lane count)

get_or-set_placed :
    (placed : List ℕ) (lane count k : ℕ)
    → get_or placed lane 0 ≤ count
    → get_or placed k 0 ≤ get_or (set_placed placed lane count) k 0
get_or-set_placed [] lane count k h = omega arith
get_or-set_placed (n ∷ ns) zero count zero h = h
get_or-set_placed (n ∷ ns) zero count (suc k) h = omega arith
get_or-set_placed (n ∷ ns) (suc lane) count zero h = omega arith
get_or-set_placed (n ∷ ns) (suc lane) count (suc k) h = get_or-set_placed ns lane count k h

pub set_placed-IsPlaced :
    (need placed : List ℕ) (lane count : ℕ)
    → get_or placed lane 0 ≤ count
    → IsPlaced need placed
    → IsPlaced need (set_placed placed lane count)
set_placed-IsPlaced need placed lane count h c k l =
    let more = get_or-set_placed placed lane count k h in
    let old = c k (omega (arith, length-set_placed placed lane count)) in omega (arith, more, old)

lacking :
    (need placed : List ℕ)
    → covers need placed ≡ false
    → (k : ℕ) × (k < length placed) × (get_or placed k 0 < get_or need k 0)
unfolding covers
lacking [] placed c = absurd (cc c)
lacking (n ∷ ns) [] c = absurd (cc c)
lacking (n ∷ ns) (m ∷ ms) c = elim (Bool-cases (leb n m)) [
  | inl enough ↦
      let (k, l, h) = lacking ns ms (ground (arith, c, enough)) in (suc k, omega (arith, l), h)
  | inr few ↦ (zero, omega arith, ground (arith, few))
]

pub settled-NextLacks : (p : Peer) → is_ready p ≡ false → p.down ≡ false → NextLacks p
settled-NextLacks p h up = elim (Bool-cases ((slot p p.rx_signal).seq == p.rx_signal)) [
  | inl there ↦ inr (lacking (slot p p.rx_signal).need p.placed (ground (arith, h, up, there)))
  | inr absent ↦ inl (ground (arith, absent))
]
