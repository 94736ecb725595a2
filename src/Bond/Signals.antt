-- ===== src/Bond/Signals.antt =====
-- rpc/libmcdma_fabric.c: the signals of a bonded peer. Each comes over one link and is stored once every link has
-- placed the writes before it; `stored` keeps what was stored, the last first. `pending` is the ring of
-- 4096 slots, an empty one with number 0. What runs under `rx_lock` is one step here.
use mcdma.Prelude.{
  ℕ, zero, suc, ◌+◌, ◌-◌, ◌%◌, ◌^◌, Bool, true, false, not, ◌&&◌, ◌||◌, List, [], ◌∷◌, ltb, leb,
  ◌==◌, ◌!=◌, if◌then◌else◌,
}
pub mod Ring
pub mod Order
pub mod Widen
pub mod Calls
pub mod Kept
pub mod Placed

abbrev pub bond_signals : ℕ
bond_signals = 4096

-- `struct bond_signal`
pub record Signal : Type 0 where
  pub seq : ℕ
  pub need : List ℕ
  pub off : ℕ
  pub value : ℕ

abbrev pub no_signal : Signal
no_signal = record { seq = 0; need = []; off = 0; value = 0 }

-- The part of `struct mcdma_fabric_peer` that signals touch; `length` is its window's.
pub record Peer : Type 0 where
  pub down : Bool
  pub length : ℕ
  pub rx_signal : ℕ
  pub waiting : ℕ
  pub placed : List ℕ
  pub pending : ℕ → Signal
  pub stored : List Signal

abbrev pub slot : Peer → ℕ → Signal
slot p seq = p.pending (seq % bond_signals)

abbrev pub put_slot : (ℕ → Signal) → ℕ → Signal → ℕ → Signal
put_slot f i s j = if j == i then s else f j

-- every link has placed the writes that a signal needs
unfoldable pub covers : List ℕ → List ℕ → Bool
covers [] placed = true
covers (n ∷ ns) [] = true
covers (n ∷ ns) (m ∷ ms) = leb n m && covers ns ms

-- A round of `bond_drain` that stores the next signal.
abbrev pub publish : Peer → Peer
publish p = record p {
  stored = slot p p.rx_signal ∷ p.stored;
  pending =
      put_slot p.pending (p.rx_signal % bond_signals) (record (slot p p.rx_signal) { seq = 0 });
  rx_signal = (p.rx_signal + 1) % 2 ^ 64;
  waiting = (p.waiting + 2 ^ 32 - 1) % 2 ^ 32;
}

-- the test of `bond_drain`
abbrev pub is_ready : Peer → Bool
is_ready p =
    not p.down
    && (slot p p.rx_signal).seq == p.rx_signal
    && covers (slot p p.rx_signal).need p.placed

-- `bond_drain`, by recursion on the rounds
unfoldable pub bond_drain : ℕ → Peer → Peer
bond_drain zero p = p
bond_drain (suc n) p = elim (is_ready p) [ true ↦ bond_drain n (publish p) | false ↦ p ]

abbrev pub set_placed : List ℕ → ℕ → ℕ → List ℕ
set_placed [] lane count = []
set_placed (n ∷ ns) zero count = count ∷ ns
set_placed (n ∷ ns) (suc lane) count = n ∷ set_placed ns lane count

-- `bond_placed`, as one step: the source stores the count and reads `waiting` before it takes `rx_lock`, and the
-- race of a signal that comes between them is not modelled.
unfoldable pub bond_placed : ℕ → ℕ → Peer → Peer
bond_placed lane count p =
    let q = record p { placed = set_placed p.placed lane count } in
    if p.waiting != 0 then bond_drain bond_signals q else q

-- `widen`
unfoldable pub widen : ℕ → ℕ → ℕ
widen near low =
    let apart = (low + 2 ^ 32 - near % 2 ^ 32) % 2 ^ 32 in
    if ltb apart (2 ^ 31)
    then (near + apart) % 2 ^ 64
    else (near + 2 ^ 64 + apart - 2 ^ 32) % 2 ^ 64

abbrev pub widen_all : List ℕ → List ℕ → List ℕ
widen_all [] lows = []
widen_all (n ∷ ns) [] = widen n 0 ∷ widen_all ns []
widen_all (n ∷ ns) (l ∷ ls) = widen n l ∷ widen_all ns ls

-- what `bond_signal` refuses
abbrev pub is_bad : Peer → ℕ → ℕ → Bool
is_bad p seq off =
    p.down
    || off % 8 != 0
    || ltb p.length off
    || ltb (p.length - off) 8
    || ltb seq p.rx_signal
    || leb bond_signals (seq - p.rx_signal)
    || (slot p seq).seq != 0

abbrev pub enqueue : Peer → ℕ → List ℕ → ℕ → ℕ → Peer
enqueue p seq need off value = record p {
  pending =
      put_slot p.pending (seq % bond_signals)
        (record { seq = seq; need = widen_all p.placed need; off = off; value = value });
  waiting = (p.waiting + 1) % 2 ^ 32;
}

-- `bond_signal`, with whether it was taken
unfoldable pub bond_signal : ℕ → List ℕ → ℕ → ℕ → Peer → Bool × Peer
bond_signal seq need off value p =
    if is_bad p seq off
    then (false, record p { down = true })
    else (true, bond_drain bond_signals (enqueue p seq need off value))

-- What the threads of the links call.
pub data Call : Type 0 where
  signals : (seq : ℕ) (need : List ℕ) (off value : ℕ) → Call
  places : (lane count : ℕ) → Call

unfoldable pub act : Call → Peer → Peer
act (signals seq need off value) p = (bond_signal seq need off value p).1
act (places lane count) p = bond_placed lane count p

unfoldable pub run : List Call → Peer → Peer
run [] p = p
run (c ∷ cs) p = run cs (act c p)

-- a peer as it is opened, over links that have placed nothing
abbrev pub opened : ℕ → List ℕ → Peer
opened length placed = record {
  down = false;
  length = length;
  rx_signal = 1;
  waiting = 0;
  placed = placed;
  pending = λ _. no_signal;
  stored = [];
}
