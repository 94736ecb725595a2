-- ===== src/Bond/Tails/Ready.antt =====
-- `bond_ready_n` of rpc/libmcdma_fabric.c against the counts that its 32-bit numbers stand for.
use mcdma.Prelude.{
  ℕ, ◌+◌, ◌-◌, ◌%◌, ◌^◌, ◌≤◌, ◌<◌, Bool, true, false, ◌&&◌, List, [], ◌∷◌, ltb, leb, ◌≡◌, ◌↔◌, refl,
  ap₂, map, arith,
}
use mcdma.Bond.Signals.{bond_signals, Peer, covers}
use mcdma.Bond.Tails.{ready, all_placed, bond_ready_n}

-- Each of the counts is within 2^31 of what this end placed of its link.
abbrev pub AreNear : List ℕ → List ℕ → Type 0
AreNear [] [] = Unit
AreNear [] (t ∷ ts) = ⊥
AreNear (n ∷ ns) [] = ⊥
AreNear (n ∷ ns) (t ∷ ts) = (t < n + 2 ^ 31) × (n < t + 2 ^ 31) × AreNear ns ts

abbrev pub low_half : ℕ → ℕ
low_half t = t % 2 ^ 32

one_placed :
    (n t : ℕ)
    → t < n + 2 ^ 31
    → n < t + 2 ^ 31
    → ltb ((n % 2 ^ 32 + 2 ^ 32 - t % 2 ^ 32) % 2 ^ 32) (2 ^ 31) ≡ leb t n
one_placed n t a b = ground arith

all_placed-covers :
    (placed counts : List ℕ)
    → AreNear placed counts
    → all_placed placed (map low_half counts) ≡ covers counts placed
unfolding all_placed covers
all_placed-covers [] [] near = refl
all_placed-covers [] (t ∷ ts) near = absurd near
all_placed-covers (n ∷ ns) [] near = absurd near
all_placed-covers (n ∷ ns) (t ∷ ts) (a, b, near) =
    ap₂ (λ x y. x && y) (one_placed n t a b) (all_placed-covers ns ts near)

-- A joined part may land exactly when the peer is not down, its signal falls in the window of 4096 from the next one,
-- is the next one if the part waits for signals, and every link has placed as many writes as the part waits for, when
-- those counts are within 2^31 of the placed ones.
pub bond_ready_n-ready :
    (seq : ℕ) (in_order : Bool) (counts : List ℕ) (p : Peer)
    → AreNear p.placed counts
    → (bond_ready_n seq in_order (map low_half counts) p ≡ ready) ↔ (
        (p.down ≡ false)
        × (p.rx_signal ≤ seq)
        × (seq < p.rx_signal + bond_signals)
        × (in_order ≡ true → seq ≡ p.rx_signal)
        × (covers counts p.placed ≡ true))
unfolding bond_ready_n
bond_ready_n-ready seq in_order counts p near =
    let same : all_placed p.placed (map low_half counts) ≡ covers counts p.placed =
      all_placed-covers p.placed counts near in
    rw (same) ground arith
