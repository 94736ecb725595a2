-- ===== src/Bond/Signals/Ring.antt =====
-- The ring of pending signals: what its slots may hold, and that `bond_drain` leaves nothing that it could store.
use mcdma.Prelude.{
  ℕ, zero, suc, ◌+◌, ◌*◌, ◌%◌, ◌^◌, ◌≤◌, ◌<◌, Bool, true, false, List, ◌==◌, if◌then◌else◌, ◌≡◌,
  ◌≢◌, inl, inr, refl, sym, ap, ◌∙◌, arith, Bool-cases,
}
use mathlib.Core.Path.{subst}
use native.Mathlib.Decide.{ℕ_discrete}
use mcdma.Bond.Signals.{
  bond_signals, Signal, no_signal, widen_all, Peer, slot, put_slot, publish, is_ready, bond_drain,
  is_bad, enqueue, opened,
}

-- The occupied slots among the first `n`.
unfoldable pub occupied : ℕ → (ℕ → Signal) → ℕ
occupied zero f = 0
occupied (suc n) f = (if (f n).seq == 0 then 0 else 1) + occupied n f

bool_lem :
    (P : Peer → Type 0) (b : Bool) {x y : Peer}
    → (b ≡ true → P x)
    → (b ≡ false → P y)
    → P (elim b [ true ↦ x | false ↦ y ])
bool_lem P true f g = f refl
bool_lem P false f g = g refl

==_yes : (a b : ℕ) → a ≡ b → (a == b) ≡ true
==_yes a b e = ground arith

==_no : (a b : ℕ) → a ≢ b → (a == b) ≡ false
==_no a b ne = ground arith

pub put-other : (f : ℕ → Signal) (i j : ℕ) (s : Signal) → j ≢ i → put_slot f i s j ≡ f j
put-other f i j s ne = ground arith

pub put-same : (f : ℕ → Signal) (i : ℕ) (s : Signal) → put_slot f i s i ≡ s
put-same f i s = ground arith

occupied-beyond :
    (n i : ℕ) (f : ℕ → Signal) (s : Signal) → n ≤ i → occupied n (put_slot f i s) ≡ occupied n f
unfolding occupied
occupied-beyond zero i f s h = refl
occupied-beyond (suc n) i f s h =
    rw (put-other f i n s (λ e. omega arith), occupied-beyond n i f s (omega arith)) refl

-- Emptying an occupied slot takes one away.
occupied-empty :
    (n i : ℕ) (f : ℕ → Signal) (s : Signal)
    → i < n
    → s.seq ≡ 0
    → (f i).seq ≢ 0
    → occupied n (put_slot f i s) + 1 ≡ occupied n f
unfolding occupied
occupied-empty (suc n) i f s h e o = elim (ℕ_discrete n i) [
  | yes same ↦
      let here : put_slot f i s n ≡ s = ap (λ j. put_slot f i s j) same ∙ put-same f i s in
      let busy : (f n).seq ≢ 0 = λ z. o (ap (λ j. (f j).seq) (sym same) ∙ z) in
      rw (here, occupied-beyond n i f s (omega arith), ==_yes s.seq 0 e, ==_no (f n).seq 0 busy)
        (omega arith)
  | no other ↦
      let rest : occupied n (put_slot f i s) + 1 ≡ occupied n f =
        occupied-empty n i f s (omega arith) e o in
      rw (put-other f i n s other) (omega (arith, rest))
]
occupied-empty zero i f s h e o = absurd (omega arith)

-- Filling an empty slot adds one.
occupied-fill :
    (n i : ℕ) (f : ℕ → Signal) (s : Signal)
    → i < n
    → s.seq ≢ 0
    → (f i).seq ≡ 0
    → occupied n (put_slot f i s) ≡ occupied n f + 1
unfolding occupied
occupied-fill (suc n) i f s h e o = elim (ℕ_discrete n i) [
  | yes same ↦
      let here : put_slot f i s n ≡ s = ap (λ j. put_slot f i s j) same ∙ put-same f i s in
      let free : (f n).seq ≡ 0 = ap (λ j. (f j).seq) same ∙ o in
      rw (here, occupied-beyond n i f s (omega arith), ==_no s.seq 0 e, ==_yes (f n).seq 0 free)
        (omega arith)
  | no other ↦
      let rest : occupied n (put_slot f i s) ≡ occupied n f + 1 =
        occupied-fill n i f s (omega arith) e o in
      rw (put-other f i n s other) (omega (arith, rest))
]
occupied-fill zero i f s h e o = absurd (omega arith)

occupied_le : (n : ℕ) (f : ℕ → Signal) → occupied n f ≤ n
unfolding occupied
occupied_le zero f = omega arith
occupied_le (suc n) f = ground (arith, occupied_le n f)

occupied_pos : (n i : ℕ) (f : ℕ → Signal) → i < n → (f i).seq ≢ 0 → 0 < occupied n f
occupied_pos n i f h o = omega (arith, occupied-empty n i f no_signal h refl o)

-- What slot `i` may hold while signal `rx` is the next: nothing, or the one of the window that belongs there.
pub data Held (rx i : ℕ) (s : Signal) : Type 0 where
  free : s.seq ≡ 0 → Held rx i s
  held :
      rx ≤ s.seq
      → s.seq < rx + bond_signals
      → s.seq % bond_signals ≡ i
      → s.seq + 2 * bond_signals < 2 ^ 64
      → Held rx i s

pub record IsRing (p : Peer) : Type 0 where
  pub first : 0 < p.rx_signal
  pub last : p.rx_signal + bond_signals < 2 ^ 64
  pub window : (i : ℕ) → i < bond_signals → Held p.rx_signal i (p.pending i)
  pub waiting : p.waiting ≡ occupied bond_signals p.pending

slot_lt : (n : ℕ) → n % bond_signals < bond_signals
slot_lt n = omega arith

later : (rx i : ℕ) (s : Signal) → i ≢ rx % bond_signals → Held rx i s → Held (rx + 1) i s
later rx i s ne h = elim h [
  | free e ↦ free e
  | held a b c d ↦
      let apart : s.seq ≢ rx = λ e. ne (sym c ∙ ap (λ n. n % bond_signals) e) in
      held (omega arith) (omega arith) c d
]

pub publish-IsRing :
    (p : Peer) → IsRing p → (slot p p.rx_signal).seq ≡ p.rx_signal → IsRing (publish p)
publish-IsRing p r e =
    let i : ℕ = p.rx_signal % bond_signals in
    let s : Signal = record (slot p p.rx_signal) { seq = 0 } in
    let lt : i < bond_signals = slot_lt p.rx_signal in
    let pos : 0 < p.rx_signal = r.first in
    let bound : p.rx_signal + bond_signals < 2 ^ 64 = r.last in
    let wide : p.rx_signal + 2 * bond_signals < 2 ^ 64 = elim (r.window i lt) [
      | free z ↦ absurd (omega arith)
      | held _ _ _ d ↦ omega arith
    ] in
    let next : (p.rx_signal + 1) % 2 ^ 64 ≡ p.rx_signal + 1 = omega arith in
    let busy : (p.pending i).seq ≢ 0 = λ z. omega arith in
    let less : occupied bond_signals (put_slot p.pending i s) + 1
        ≡ occupied bond_signals p.pending =
      occupied-empty bond_signals i p.pending s lt refl busy in
    let few : occupied bond_signals p.pending ≤ bond_signals = occupied_le bond_signals p.pending in
    let count : p.waiting ≡ occupied bond_signals p.pending = r.waiting in
    record {
      first = omega arith;
      last = omega arith;
      window = λ j h. elim (ℕ_discrete j i) [
        | yes same ↦ free (
            ap (λ k. (put_slot p.pending i s k).seq) same
            ∙ ap (λ k. k.seq) (put-same p.pending i s))
        | no other ↦
            rw (put-other p.pending i j s other, next)
              (later p.rx_signal j (p.pending j) other (r.window j h))
      ];
      waiting = omega arith;
    }

-- The signal that `bond_signal` takes goes to an empty slot of the window.
pub enqueue-IsRing :
    (p : Peer) (seq : ℕ) (need : List ℕ) (off value : ℕ)
    → IsRing p
    → seq + 2 * bond_signals < 2 ^ 64
    → is_bad p seq off ≡ false
    → IsRing (enqueue p seq need off value)
enqueue-IsRing p seq need off value r bound good =
    let i : ℕ = seq % bond_signals in
    let lt : i < bond_signals = slot_lt seq in
    let pos : 0 < p.rx_signal = r.first in
    let from : p.rx_signal ≤ seq = ground (arith, good) in
    let to : seq < p.rx_signal + bond_signals = ground (arith, good) in
    let empty : (p.pending i).seq ≡ 0 = ground (arith, good) in
    let s : Signal = record {
      seq = seq;
      need = widen_all p.placed need;
      off = off;
      value = value;
    } in
    let more : occupied bond_signals (put_slot p.pending i s)
        ≡ occupied bond_signals p.pending + 1 =
      occupied-fill bond_signals i p.pending s lt (λ z. omega arith) empty in
    let few : occupied bond_signals p.pending ≤ bond_signals = occupied_le bond_signals p.pending in
    let count : p.waiting ≡ occupied bond_signals p.pending = r.waiting in
    record {
      first = pos;
      last = r.last;
      window = λ j h. elim (ℕ_discrete j i) [
        | yes same ↦
            subst (λ k. Held p.rx_signal j k)
              (sym (ap (put_slot p.pending i s) same ∙ put-same p.pending i s))
              (held from to (sym same) bound)
        | no other ↦
            subst (Held p.rx_signal j) (sym (put-other p.pending i j s other)) (r.window j h)
      ];
      waiting = omega arith;
    }

abbrev Below : ℕ → Peer → Type 0
Below limit p = (i : ℕ) → i < bond_signals → (p.pending i).seq < limit

pub ready-seq : (p : Peer) → is_ready p ≡ true → (slot p p.rx_signal).seq ≡ p.rx_signal
ready-seq p h = ground (arith, h)

-- What every round keeps, `bond_drain` keeps.
pub bond_drain-keeps :
    (P : Peer → Type 0)
    → ((p : Peer) → P p → is_ready p ≡ true → P (publish p))
    → (n : ℕ) (p : Peer) → P p
    → P (bond_drain n p)
unfolding bond_drain
bond_drain-keeps P step zero p r = r
bond_drain-keeps P step (suc n) p r =
    bool_lem P (is_ready p) (λ h. bond_drain-keeps P step n (publish p) (step p r h)) (λ _. r)

publish-Below : (limit : ℕ) (p : Peer) → 0 < limit → Below limit p → Below limit (publish p)
publish-Below limit p pos below j h =
    let i : ℕ = p.rx_signal % bond_signals in
    let s : Signal = record (slot p p.rx_signal) { seq = 0 } in
    elim (ℕ_discrete j i) [
      | yes same ↦
          let e : put_slot p.pending i s j ≡ s =
            ap (put_slot p.pending i s) same ∙ put-same p.pending i s in
          subst (λ k. k.seq < limit) (sym e) pos
      | no other ↦ subst (λ k. k.seq < limit) (sym (put-other p.pending i j s other)) (below j h)
    ]

-- With a round for each number up to the last that is held, it leaves nothing that could be stored.
bond_drain-settled :
    (n : ℕ) (p : Peer) → IsRing p → Below (p.rx_signal + n) p → is_ready (bond_drain n p) ≡ false
unfolding bond_drain
bond_drain-settled zero p r below = elim (Bool-cases (is_ready p)) [
  | inl h ↦
      let e : (slot p p.rx_signal).seq ≡ p.rx_signal = ready-seq p h in
      let lt : (slot p p.rx_signal).seq < p.rx_signal + 0 =
        below (p.rx_signal % bond_signals) (slot_lt p.rx_signal) in
      absurd (omega arith)
  | inr h ↦ h
]
bond_drain-settled (suc n) p r below =
    bool_lem (λ q. is_ready q ≡ false) (is_ready p)
      (λ h.
        let pos : 0 < p.rx_signal = r.first in
        let wide : p.rx_signal + bond_signals < 2 ^ 64 = r.last in
        let next : (p.rx_signal + 1) % 2 ^ 64 + n ≡ p.rx_signal + suc n = omega arith in
        bond_drain-settled n (publish p) (publish-IsRing p r (ready-seq p h)) (
          subst (λ k. Below k (publish p)) (sym next)
            (publish-Below (p.rx_signal + suc n) p (omega arith) below)))
      (λ h. h)

ring-Below : (p : Peer) → IsRing p → Below (p.rx_signal + bond_signals) p
ring-Below p r j h =
    let pos : 0 < p.rx_signal = r.first in
    elim (r.window j h) [ free e ↦ omega arith | held _ b _ _ ↦ b ]

pub bond_drain-IsRing : (p : Peer) → IsRing p → IsRing (bond_drain bond_signals p)
bond_drain-IsRing p r =
    bond_drain-keeps IsRing (λ q k h. publish-IsRing q k (ready-seq q h)) bond_signals p r

pub bond_drain-IsSettled : (p : Peer) → IsRing p → is_ready (bond_drain bond_signals p) ≡ false
bond_drain-IsSettled p r = bond_drain-settled bond_signals p r (ring-Below p r)

-- Without a signal waiting there is none to store.
pub idle-settled : (p : Peer) → IsRing p → p.waiting ≡ 0 → is_ready p ≡ false
idle-settled p r none = elim (Bool-cases (is_ready p)) [
  | inl h ↦
      let e : (slot p p.rx_signal).seq ≡ p.rx_signal = ready-seq p h in
      let pos : 0 < p.rx_signal = r.first in
      let count : p.waiting ≡ occupied bond_signals p.pending = r.waiting in
      let busy : 0 < occupied bond_signals p.pending =
        occupied_pos bond_signals (p.rx_signal % bond_signals) p.pending (slot_lt p.rx_signal)
          (λ z. omega arith) in
      absurd (omega arith)
  | inr h ↦ h
]

occupied-none : (n : ℕ) → occupied n (λ _. no_signal) ≡ 0
unfolding occupied
occupied-none zero = refl
occupied-none (suc n) = let rest : occupied n (λ _. no_signal) ≡ 0 = occupied-none n in omega arith

pub opened-IsRing : (length : ℕ) (placed : List ℕ) → IsRing (opened length placed)
opened-IsRing length placed = record {
  first = omega arith;
  last = omega arith;
  window = λ i h. free refl;
  waiting = sym (occupied-none bond_signals);
}
