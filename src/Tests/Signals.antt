-- ===== src/Tests/Signals.antt =====
-- Signals of a bond of two links that come in the wrong order, and before the writes that they follow.
use mcdma.Prelude.{
  ◌+◌, ◌-◌, ◌^◌, ℕ, List, [], ◌∷◌, ◌≡◌, ◌≤◌, ◌<◌, ◌↔◌, true, false, refl, map, arith,
}
use mcdma.Bond.Signals.{
  bond_signals, Peer, Call, signals, places, run, opened, act, bond_signal, bond_placed, bond_drain,
  covers, widen,
}
use mcdma.Bond.Tails.{Tail, Tails, ready, bond_ready_n}
use mcdma.Bond.Tails.Ready.{low_half, bond_ready_n-ready}
use mcdma.Bond.Tails.Queue.{Announces, Takes, Announces-Takes}
use mcdma.Bond.Signals.Order.{IsServed, run-IsOrdered}
use mcdma.Bond.Signals.Calls.{arriving, AreNear, no_links, link}
use mcdma.Bond.Signals.Widen.{widen_lem}

-- a link that starts 5 below 2^32, with the sender's whole counts
abbrev calls : List Call
calls =
    signals 2 ((2 ^ 32 + 1) ∷ 1 ∷ []) 8 22
    ∷ signals 1 ((2 ^ 32) ∷ 0 ∷ []) 0 11
    ∷ places 0 (2 ^ 32)
    ∷ places 0 (2 ^ 32 + 1)
    ∷ places 1 1
    ∷ signals 4 ((2 ^ 32 + 1) ∷ 1 ∷ []) 0 44
    ∷ []

abbrev start_counts : List ℕ
start_counts = (2 ^ 32 - 5) ∷ 0 ∷ []

run_calls :
    map (λ s. s.value) (run (map arriving calls) (opened 16 start_counts)).stored ≡ 22 ∷ 11 ∷ []
unfolding run act bond_signal bond_placed bond_drain covers widen
run_calls = refl

near_counts :
    (a b c d : ℕ)
    → a < 2 ^ 33
    → c ≤ 1
    → b < 2 ^ 33
    → d ≤ 1
    → a ≤ b + 6
    → b ≤ a + 6
    → AreNear (a ∷ c ∷ []) (b ∷ d ∷ [])
near_counts a b c d x y z w f g =
    link (omega arith) (omega arith) (omega arith) (omega arith)
      (link (omega arith) (omega arith) (omega arith) (omega arith) no_links)

run-IsOrdered_example : IsServed calls (run (map arriving calls) (opened 16 start_counts))
unfolding run act bond_signal bond_placed bond_drain covers widen
run-IsOrdered_example = run-IsOrdered 16 start_counts calls (
  (
    omega arith,
    near_counts _ _ _ _ (omega arith) (omega arith) (omega arith) (omega arith) (omega arith)
        (omega arith),
  ),
  (
    (
      omega arith,
      near_counts _ _ _ _ (omega arith) (omega arith) (omega arith) (omega arith) (omega arith)
          (omega arith),
    ),
    (
      omega arith,
      (
        omega arith,
        (
          omega arith,
          (
            (
              omega arith,
              near_counts _ _ _ _ (omega arith) (omega arith) (omega arith) (omega arith)
                  (omega arith) (omega arith),
            ),
            tt,
          ),
        ),
      ),
    ),
  ),
)

-- across the boundary of 32 bits, the other end ahead
widen_lem_example : widen (2 ^ 32 - 5) 7 ≡ 2 ^ 32 + 7
widen_lem_example =
    widen_lem (2 ^ 32 - 5) (2 ^ 32 + 7) (omega arith) (omega arith) (omega arith) (omega arith)

abbrev tail : Tail
tail = record { off = 64; len = 8; ordinal = 3 }

-- one tail in the ring, at its last slot
abbrev one : Tails
one = record { tails = λ _. tail; put = 4096; got = 4095 }

Announces-Takes_example : Announces (record tail { off = 72 }) one × Takes one
Announces-Takes_example =
    Announces-Takes (record tail { off = 72 }) one
      (record { order = omega arith; room = omega arith }) (omega arith)

abbrev fresh_peer : Peer
fresh_peer = opened 16 (0 ∷ 0 ∷ [])

bond_ready_n-ready_example :
    (bond_ready_n fresh_peer.rx_signal true (map low_half (0 ∷ 0 ∷ [])) fresh_peer ≡ ready) ↔ (
      (fresh_peer.down ≡ false)
      × (fresh_peer.rx_signal ≤ fresh_peer.rx_signal)
      × (fresh_peer.rx_signal < fresh_peer.rx_signal + bond_signals)
      × (true ≡ true → fresh_peer.rx_signal ≡ fresh_peer.rx_signal)
      × (covers (0 ∷ 0 ∷ []) fresh_peer.placed ≡ true))
bond_ready_n-ready_example =
    bond_ready_n-ready fresh_peer.rx_signal true (0 ∷ 0 ∷ []) fresh_peer
      (omega arith, omega arith, (omega arith, omega arith, tt))
