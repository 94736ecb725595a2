-- ===== src/Bond/Signals/Kept.antt =====
-- Where a signal that came to a bonded peer of rpc/libmcdma_fabric.c is: stored, or in its slot.
use mathlib.Core.List.{Memᴰ}
use native.Mathlib.Decide.{ℕ_discrete}
use mcdma.Prelude.{
  ℕ, ◌%◌, ◌^◌, ◌<◌, ◌≢◌, ◌⊎◌, inl, inr, ◌≡◌, sym, ap, ◌∙◌, Bool, false, List, [], ◌∷◌, ◌!=◌, arith,
  if_lem, map,
}
use mcdma.Bond.Signals.{
  bond_signals, Signal, Peer, slot, publish, bond_drain, set_placed, bond_placed, is_bad, enqueue,
  widen_all, bond_signal, Call, signals, places, act, run,
}
use mcdma.Bond.Signals.Ring.{bond_drain-keeps, put-same, put-other}
use mcdma.Bond.Signals.Calls.{arriving, call_of, AreNear, widen_all-counts}

-- While the peer is up, the signal is stored or waits in its slot.
abbrev pub IsKept : Signal → Peer → Type 0
IsKept s p = p.down ≡ false → (s.seq ≢ 0) × (Memᴰ s p.stored ⊎ (slot p s.seq ≡ s))

publish-IsKept : (s : Signal) (p : Peer) → IsKept s p → IsKept s (publish p)
publish-IsKept s p k up =
    let (some_seq, place) = k up in
    let i : ℕ = p.rx_signal % bond_signals in
    let emptied : Signal = record (slot p p.rx_signal) { seq = 0 } in
    (
      some_seq,
      elim place [
        | inl stored ↦ inl (Memᴰ.tail stored)
        | inr waits ↦ elim (ℕ_discrete (s.seq % bond_signals) i) [
          | yes same ↦ inl (Memᴰ.head (sym waits ∙ ap p.pending same))
          | no other ↦ inr (put-other p.pending i (s.seq % bond_signals) emptied other ∙ waits)
        ]
      ],
    )

drain-IsKept : (s : Signal) (p : Peer) → IsKept s p → IsKept s (bond_drain bond_signals p)
drain-IsKept s p k =
    bond_drain-keeps (IsKept s) (λ q kept _. publish-IsKept s q kept) bond_signals p k

-- A signal is only taken into an empty slot.
enqueue-IsKept :
    (s : Signal) (p : Peer) (seq : ℕ) (need : List ℕ) (off value : ℕ)
    → is_bad p seq off ≡ false
    → IsKept s p
    → IsKept s (enqueue p seq need off value)
enqueue-IsKept s p seq need off value good k up =
    let (some_seq, place) = k up in
    let i : ℕ = seq % bond_signals in
    let t : Signal = record {
      seq = seq;
      need = widen_all p.placed need;
      off = off;
      value = value;
    } in
    let empty : (p.pending i).seq ≡ 0 = ground (arith, good) in
    (
      some_seq,
      elim place [
        | inl stored ↦ inl stored
        | inr waits ↦ elim (ℕ_discrete (s.seq % bond_signals) i) [
          | yes same ↦
              absurd
                (some_seq (ap (λ x. x.seq) (sym waits) ∙ ap (λ j. (p.pending j).seq) same ∙ empty))
          | no other ↦ inr (put-other p.pending i (s.seq % bond_signals) t other ∙ waits)
        ]
      ],
    )

act-IsKept : (s : Signal) (c : Call) (p : Peer) → IsKept s p → IsKept s (act c p)
unfolding act bond_signal bond_placed
act-IsKept s (signals seq need off value) p k =
    if_lem (λ (r : Bool × Peer). IsKept s r.1) (is_bad p seq off) (λ _ up. absurd (cc up))
      (λ good.
        drain-IsKept s (enqueue p seq need off value)
          (enqueue-IsKept s p seq need off value good k))
act-IsKept s (places lane count) p k =
    let q : Peer = record p { placed = set_placed p.placed lane count } in
    if_lem (IsKept s) (p.waiting != 0) (λ _. drain-IsKept s q k) (λ _. k)

pub run-IsKept : (s : Signal) (cs : List Call) (p : Peer) → IsKept s p → IsKept s (run cs p)
unfolding run
run-IsKept s [] p k = k
run-IsKept s (c ∷ cs) p k = run-IsKept s cs (act c p) (act-IsKept s c p k)

-- A signal that comes is taken, or brings the peer down.
pub signal-IsKept :
    (s : Signal) (p : Peer)
    → 0 < p.rx_signal
    → AreNear p.placed s.need
    → IsKept s (act (arriving (call_of s)) p)
unfolding act bond_signal
signal-IsKept s p pos near =
    let low : List ℕ = map (λ c. c % 2 ^ 32) s.need in
    let i : ℕ = s.seq % bond_signals in
    if_lem (λ (r : Bool × Peer). IsKept s r.1) (is_bad p s.seq s.off) (λ _ up. absurd (cc up))
      (λ good. drain-IsKept s (enqueue p s.seq low s.off s.value) (λ _. (
        ground (arith, good, pos),
        inr (
            put-same p.pending i (record s { need = widen_all p.placed low })
            ∙ ap (λ counts. record s { need = counts }) (widen_all-counts near)),
      )))
