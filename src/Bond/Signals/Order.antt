-- ===== src/Bond/Signals/Order.antt =====
-- The order in which a bonded peer of rpc/libmcdma_fabric.c stores signals.
use mathlib.Core.Path.{subst}
use mathlib.Core.List.{Memᴰ}
use native.Mathlib.Decide.{ℕ_discrete}
use mcdma.Prelude.{
  ℕ, ◌+◌, ◌^◌, ◌≤◌, ◌<◌, Bool, true, false, List, [], ◌∷◌, ◌!=◌, ◌%◌, ◌≢◌, ◌∙◌, map, ap, ◌≡◌, refl,
  sym, arith, if_lem, get_or,
}
use mcdma.Bond.Signals.{
  bond_signals, Signal, widen_all, put_slot, Peer, slot, publish, is_ready, bond_drain, set_placed,
  bond_placed, is_bad, enqueue, bond_signal, Call, signals, places, act, run, opened,
}
use mcdma.Bond.Signals.Ring.{
  IsRing, publish-IsRing, ready-seq, enqueue-IsRing, bond_drain-keeps, bond_drain-IsSettled,
  idle-settled, opened-IsRing, put-same, put-other,
}
use mcdma.Bond.Signals.Calls.{arriving, call_of, widen_all-counts, IsLegal, AreLegal}
use mcdma.Bond.Signals.Placed.{
  IsPlaced, set_placed-IsPlaced, covers-IsPlaced, NextLacks, settled-NextLacks,
}
use mcdma.Bond.Signals.Kept.{IsKept, run-IsKept, signal-IsKept}

-- The signals stored before `rx`, the last first: numbers `rx - 1` down to 1, each one that was called for, with the
-- counts that it was called for with, and with these placed.
abbrev pub IsLog : List Call → ℕ → List ℕ → List Signal → Type 0
IsLog all rx placed [] = rx ≡ 1
IsLog all rx placed (s ∷ ss) =
    (s.seq + 1 ≡ rx) × Memᴰ (call_of s) all × IsPlaced s.need placed × IsLog all s.seq placed ss

-- Every signal that waits is one that was called for, with the same counts.
abbrev pub AreCalled : List Call → Peer → Type 0
AreCalled all p = (i : ℕ) → (p.pending i).seq ≢ 0 → Memᴰ (call_of (p.pending i)) all

pub record IsOrdered (all : List Call) (p : Peer) : Type 0 where
  pub ring : IsRing p
  pub called : AreCalled all p
  pub log : IsLog all p.rx_signal p.placed p.stored
  pub settled : is_ready p ≡ false

IsLog-set_placed :
    (all : List Call) (rx : ℕ) (placed : List ℕ) (ss : List Signal) (lane count : ℕ)
    → get_or placed lane 0 ≤ count
    → IsLog all rx placed ss
    → IsLog all rx (set_placed placed lane count) ss
IsLog-set_placed all rx placed [] lane count h l = l
IsLog-set_placed all rx placed (s ∷ ss) lane count h (e, m, c, l) = (
  e,
  m,
  set_placed-IsPlaced s.need placed lane count h c,
  IsLog-set_placed all s.seq placed ss lane count h l,
)

-- A slot's change keeps every signal that waits called for, when the new one is none or was called for.
put-AreCalled :
    (all : List Call) (f : ℕ → Signal) (i : ℕ) (s : Signal)
    → ((j : ℕ) → (f j).seq ≢ 0 → Memᴰ (call_of (f j)) all)
    → (s.seq ≢ 0 → Memᴰ (call_of s) all)
    → (j : ℕ) → (put_slot f i s j).seq ≢ 0
    → Memᴰ (call_of (put_slot f i s j)) all
put-AreCalled all f i s old new j = elim (ℕ_discrete j i) [
  | yes same ↦
      let e : put_slot f i s j ≡ s = ap (put_slot f i s) same ∙ put-same f i s in
      subst (λ t. t.seq ≢ 0 → Memᴰ (call_of t) all) (sym e) new
  | no other ↦ subst (λ t. t.seq ≢ 0 → Memᴰ (call_of t) all) (sym (put-other f i j s other)) (old j)
]

abbrev IsLogged : List Call → Peer → Type 0
IsLogged all p = IsRing p × AreCalled all p × IsLog all p.rx_signal p.placed p.stored

publish-IsLogged :
    (all : List Call) (p : Peer) → IsLogged all p → is_ready p ≡ true → IsLogged all (publish p)
publish-IsLogged all p (r, m, l) h =
    let e : (slot p p.rx_signal).seq ≡ p.rx_signal = ready-seq p h in
    let wide : p.rx_signal + bond_signals < 2 ^ 64 = r.last in
    let pos : 0 < p.rx_signal = r.first in
    let i : ℕ = p.rx_signal % bond_signals in
    (
      publish-IsRing p r e,
      put-AreCalled all p.pending i (record (slot p p.rx_signal) { seq = 0 }) m
          (λ z. absurd (z refl)),
      (
        omega arith,
        m i (λ z. omega arith),
        covers-IsPlaced (slot p p.rx_signal).need p.placed (ground (arith, h)),
        subst (λ n. IsLog all n p.placed p.stored) (sym e) l,
      ),
    )

drained : (all : List Call) (p : Peer) → IsLogged all p → IsOrdered all (bond_drain bond_signals p)
drained all p (r, m, l) =
    let kept : IsLogged all (bond_drain bond_signals p) =
      bond_drain-keeps (IsLogged all) (publish-IsLogged all) bond_signals p (r, m, l) in
    record { ring = kept.0; called = kept.1; log = kept.2; settled = bond_drain-IsSettled p r }

signal-IsOrdered :
    (all : List Call) (seq : ℕ) (need : List ℕ) (off value : ℕ) (p : Peer)
    → Memᴰ (signals seq need off value) all
    → IsLegal (signals seq need off value) p
    → IsOrdered all p
    → IsOrdered all (act (arriving (signals seq need off value)) p)
unfolding act bond_signal
signal-IsOrdered all seq need off value p m (far, near) o =
    let low : List ℕ = map (λ c. c % 2 ^ 32) need in
    if_lem (λ (r : Bool × Peer). IsOrdered all r.1) (is_bad p seq off)
      (λ _. record {
        ring = record {
          first = o.ring.first;
          last = o.ring.last;
          window = o.ring.window;
          waiting = o.ring.waiting;
        };
        called = o.called;
        log = o.log;
        settled = refl;
      })
      (λ good. drained all (enqueue p seq low off value) (
        enqueue-IsRing p seq low off value o.ring far good,
        put-AreCalled all p.pending (seq % bond_signals)
            (record { seq = seq; need = widen_all p.placed low; off = off; value = value }) o.called
            (λ _.
              subst (λ counts. Memᴰ (signals seq counts off value) all)
                (sym (widen_all-counts near)) m),
        o.log,
      ))

place-IsOrdered :
    (all : List Call) (lane count : ℕ) (p : Peer)
    → IsLegal (places lane count) p
    → IsOrdered all p
    → IsOrdered all (act (places lane count) p)
unfolding act bond_placed
place-IsOrdered all lane count p legal o =
    let q : Peer = record p { placed = set_placed p.placed lane count } in
    let ring : IsRing q = record {
      first = o.ring.first;
      last = o.ring.last;
      window = o.ring.window;
      waiting = o.ring.waiting;
    } in
    let log : IsLog all q.rx_signal q.placed q.stored =
      IsLog-set_placed all p.rx_signal p.placed p.stored lane count legal o.log in
    if_lem (IsOrdered all) (p.waiting != 0) (λ _. drained all q (ring, o.called, log))
      (λ idle. record {
        ring = ring;
        called = o.called;
        log = log;
        settled = idle-settled q ring (ground (arith, idle));
      })

act-IsOrdered :
    (all : List Call) (c : Call) (p : Peer)
    → Memᴰ c all
    → IsLegal c p
    → IsOrdered all p
    → IsOrdered all (act (arriving c) p)
act-IsOrdered all (signals seq need off value) p m legal o =
    signal-IsOrdered all seq need off value p m legal o
act-IsOrdered all (places lane count) p m legal o = place-IsOrdered all lane count p legal o

opened-IsOrdered :
    (all : List Call) (length : ℕ) (placed : List ℕ) → IsOrdered all (opened length placed)
opened-IsOrdered all length placed = record {
  ring = opened-IsRing length placed;
  called = λ i h. absurd (h refl);
  log = refl;
  settled = refl;
}

run_keeps :
    (all cs : List Call) (p : Peer)
    → ((c : Call) → Memᴰ c cs → Memᴰ c all)
    → AreLegal cs p
    → IsOrdered all p
    → IsOrdered all (run (map arriving cs) p)
unfolding run
run_keeps all [] p among legal o = o
run_keeps all (c ∷ cs) p among (legal, more) o =
    run_keeps all cs (act (arriving c) p) (λ d m. among d (Memᴰ.tail m)) more
      (act-IsOrdered all c p (among c (Memᴰ.head refl)) legal o)

called-IsKept :
    (all cs : List Call) (p : Peer) (s : Signal)
    → ((c : Call) → Memᴰ c cs → Memᴰ c all)
    → AreLegal cs p
    → IsOrdered all p
    → Memᴰ (call_of s) cs
    → IsKept s (run (map arriving cs) p)
unfolding run
called-IsKept all [] p s among legal o m = elim m [ ]
called-IsKept all (c ∷ cs) p s among (legal, more) o (Memᴰ.head e) =
    let (_, near) = subst (λ d. IsLegal d p) (sym e) legal in
    let taken : IsKept s (act (arriving c) p) =
      subst (λ d. IsKept s (act (arriving d) p)) e (signal-IsKept s p o.ring.first near) in
    run-IsKept s (map arriving cs) (act (arriving c) p) taken
called-IsKept all (c ∷ cs) p s among (legal, more) o (Memᴰ.tail m) =
    called-IsKept all cs (act (arriving c) p) s (λ d n. among d (Memᴰ.tail n)) more
      (act-IsOrdered all c p (among c (Memᴰ.head refl)) legal o) m

-- What the calls leave: the signals in order, and none lost.
pub record IsServed (cs : List Call) (p : Peer) : Type 0 where
  pub ordered : IsOrdered cs p
  pub next : p.down ≡ false → NextLacks p
  pub kept : (s : Signal) → Memᴰ (call_of s) cs → IsKept s p

-- After any calls of the links' threads to a peer that was just opened, whatever order the signals came in, those
-- that are stored are the numbers 1 to the last, in that order and each once; each is one that the other end sent, with
-- its offset and value, and every link has placed the writes that the sender counted before it, though only the low 32
-- bits of each count arrive; the next signal is not there or still lacks writes, or the peer is down; and while the
-- peer is up every signal that came is stored or waits in its slot: when no link's count falls, the numbers stay 8192
-- below 2^64 and the sender's counts, when they arrive, are less than 2^31 ahead of this end's and at most 2^31 behind.
pub run-IsOrdered :
    (length : ℕ) (placed : List ℕ) (cs : List Call)
    → AreLegal cs (opened length placed)
    → IsServed cs (run (map arriving cs) (opened length placed))
run-IsOrdered length placed cs legal =
    let start = opened-IsOrdered cs length placed in
    let ended = run_keeps cs cs (opened length placed) (λ c m. m) legal start in
    record {
      ordered = ended;
      next = settled-NextLacks (run (map arriving cs) (opened length placed)) ended.settled;
      kept = λ s m. called-IsKept cs cs (opened length placed) s (λ c n. n) legal start m;
    }
