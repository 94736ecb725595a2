-- ===== src/Bond/Tails.antt =====
-- rpc/libmcdma_fabric.c: the tails that one link of a bond announces to the other, a ring of 4096 slots between
-- two counts, and when a joined part may land.
use mcdma.Prelude.{
  ℕ, zero, suc, ◌+◌, ◌-◌, ◌%◌, ◌^◌, Bool, true, false, not, ◌&&◌, ◌||◌, Option, none, some, List,
  [], ◌∷◌, ltb, leb, ◌==◌, ◌!=◌, if◌then◌else◌,
}
use mcdma.Bond.Signals.{bond_signals, Peer}
pub mod Queue
pub mod Ready

-- `struct bond_tail`
pub record Tail : Type 0 where
  pub off : ℕ
  pub len : ℕ
  pub ordinal : ℕ

-- one link's `tails`, `tail_put` and `tail_got`
pub record Tails : Type 0 where
  pub tails : ℕ → Tail
  pub put : ℕ
  pub got : ℕ

-- `bond_announce`; `none` when the ring is full
unfoldable pub bond_announce : Tail → Tails → Option Tails
bond_announce a t =
    if leb bond_signals ((t.put + 2 ^ 64 - t.got) % 2 ^ 64)
    then none
    else some (record t {
      tails = λ i. if i == t.put % bond_signals then a else t.tails i;
      put = (t.put + 1) % 2 ^ 64;
    })

-- `bond_tail`; `none` when there is no tail
unfoldable pub bond_tail : Tails → Option (Tail × Tails)
bond_tail t =
    if t.got == t.put
    then none
    else some (t.tails (t.got % bond_signals), record t { got = (t.got + 1) % 2 ^ 64 })

-- The answers of `bond_ready_n`: -1, 0 and 1.
pub data Readiness : Type 0 where
  never not_yet ready : Readiness

-- `(int32_t)((uint32_t)placed - wait) >= 0` of every link
unfoldable pub all_placed : List ℕ → List ℕ → Bool
all_placed [] wait = true
all_placed (n ∷ ns) [] = true
all_placed (n ∷ ns) (w ∷ ws) = ltb ((n % 2 ^ 32 + 2 ^ 32 - w) % 2 ^ 32) (2 ^ 31) && all_placed ns ws

-- `bond_ready_n`; `in_order` is the flag BOND_WAIT_SIGNALS.
unfoldable pub bond_ready_n : ℕ → Bool → List ℕ → Peer → Readiness
bond_ready_n seq in_order wait p =
    if p.down || ltb seq p.rx_signal || leb bond_signals (seq - p.rx_signal)
    then never
    else if in_order && seq != p.rx_signal
    then not_yet
    else if all_placed p.placed wait
    then ready
    else not_yet
