-- ===== src/Tests/Link.antt =====
-- rpc/rpcd_connect.c and rpc/rpcd_listen.c run against each other: a handshake over an exchange that repeats.
use mathlib.Core.List.{Memᴰ}
use mathlib.Core.List.Memᴰ
use mcdma.Prelude.{
  ℕ, ◌^◌, List, [], ◌∷◌, true, false, some, ◌≡◌, refl, arith, ◌≢◌, ◌≤◌, All, length, inl, inr,
}
use mcdma.Wire.{Table, Info, no_info, roce, tb}
use mcdma.Verbs.{Mr, Region, Piece, table_valid}
use mcdma.Daemon.{seg_bytes, word, Setup, Datagram, connect, listen, box_offer, box_refuse}
use mcdma.Daemon.Transfer.{writes, pieces_max, request_transfer, reply_transfer}
use mcdma.Daemon.Transfer.Inside.{IsInside, request_transfer-IsInside, reply_transfer-IsInside}
use mcdma.Daemon.Connect.{peer_begin, peer_wait, peer_hears, peer_answered, connect_datagram}
use mcdma.Daemon.Listen.{Chance, listen_datagram, listen_offer, welcome, listen_current}
use mcdma.Daemon.System.{
  LinkState, idle, draws, connect_acts, listen_acts, begins, waits, connect_hears, listen_hears,
  Reach, start, later,
}
use mcdma.Daemon.System.Agreement.{
  IsPaired, IsAnswered, IsGreeted, Reach-IsPaired, Reach-IsAnswered, Reach-IsGreeted,
}

-- a Thunderbolt mailbox of two halves of 8 MiB
abbrev box : Setup
box = record { kind = tb; req = 2 ^ 23; rep = 2 ^ 23 }

abbrev near : Info
near = record no_info {
  transport = tb;
  qpn = 7;
  table = record { base = 4096; len = 2 ^ 24; seg = 2 ^ 24; n = 0; rkey = [] };
}

abbrev far : Info
far = record near { qpn = 9 }

abbrev luck : ℕ → Chance
luck fresh = record { creates = some far; connects = true; fresh = fresh }

abbrev first : Datagram
first = box_offer box near 1 0 connect 1 false

abbrev reply : Datagram
reply = box_offer box far 2 1 listen 1 true

abbrev begun : LinkState
begun = draws 1 (connect_acts (peer_begin box 1 (some near) 1 0 idle.c) idle)

abbrev asked : LinkState
asked = connect_acts (peer_wait 0 begun.c) begun

abbrev met : LinkState
met = draws 2 (listen_acts (listen_datagram box (luck 2) 5 first asked.l) asked)

abbrev up : LinkState
up = connect_acts (connect_datagram box 1 true 0 6 reply met.c) met

abbrev linked : LinkState
linked =
    draws 3
      (listen_acts (listen_datagram box (luck 3) 7 (box_offer box near 1 2 connect 1 true) up.l) up)

not_among : (n k : ℕ) (ks : List ℕ) → n ≢ k → (Memᴰ n ks → ⊥) → Memᴰ n (k ∷ ks) → ⊥
not_among n k ks e f m = elim (Memᴰ.cases_cons m) [ inl e' ↦ e e' | inr m' ↦ f m' ]

-- the offer is still there to be heard again
linked-Reach : Reach box box 1 linked
unfolding peer_begin peer_wait connect_datagram peer_hears peer_answered listen_datagram
    listen_offer welcome listen_current box_refuse table_valid
linked-Reach =
    let r2 : Reach box box 1 begun =
      later start
        (begins (some near) 1 0 refl refl (not_among 1 0 [] (λ e. omega arith) Memᴰ.not-nil)) in
    let r3 : Reach box box 1 asked = later r2 (waits 0 refl) in
    let r4 : Reach box box 1 met = later r3 (
      listen_hears (luck 2) 5 first (Memᴰ.head refl) (λ e. omega arith)
        (not_among 2 1 (0 ∷ []) (λ e. omega arith)
          (not_among 2 0 [] (λ e. omega arith) Memᴰ.not-nil))) in
    let r5 : Reach box box 1 up =
      later r4 (connect_hears reply true 0 6 (Memᴰ.head refl) (λ e. omega arith)) in
    later r5 (
      listen_hears (luck 3) 7 (box_offer box near 1 2 connect 1 true) (Memᴰ.head refl)
        (λ e. omega arith)
        (not_among 3 2 (1 ∷ 0 ∷ []) (λ e. omega arith)
          (not_among 3 1 (0 ∷ []) (λ e. omega arith)
            (not_among 3 0 [] (λ e. omega arith) Memᴰ.not-nil))))

Reach-IsPaired_example : IsPaired box box 1 linked
unfolding peer_begin peer_wait connect_datagram peer_hears peer_answered listen_datagram
    listen_offer welcome listen_current box_refuse table_valid
Reach-IsPaired_example = Reach-IsPaired box box 1 linked linked-Reach refl refl refl

Reach-IsAnswered_example : IsAnswered box linked
unfolding peer_begin peer_wait connect_datagram peer_hears peer_answered listen_datagram
    listen_offer welcome listen_current box_refuse table_valid
Reach-IsAnswered_example = Reach-IsAnswered box box 1 linked linked-Reach refl

Reach-IsGreeted_example : IsGreeted box linked
unfolding peer_begin peer_wait connect_datagram peer_hears peer_answered listen_datagram
    listen_offer welcome listen_current box_refuse table_valid
Reach-IsGreeted_example = Reach-IsGreeted box box 1 linked linked-Reach refl

-- a RoCE mailbox with its registrations, and the peer's table
abbrev roce_box : Setup
roce_box = record { kind = roce; req = 2 ^ 23; rep = 2 ^ 23 }

abbrev key : Mr
key = record { lkey = 5; rkey = 6 }

abbrev region : Region
region = record {
  base = 2 ^ 20;
  len = 2 ^ 24;
  seg = seg_bytes;
  split = 2 ^ 23;
  n = 4;
  below = 1;
  above = 3;
  mr = key ∷ key ∷ key ∷ key ∷ [];
}

abbrev peer : Table
peer = record { base = 2 ^ 30; len = 2 ^ 24; seg = 2 ^ 24; n = 1; rkey = 8 ∷ [] }

request_transfer-IsInside_example :
    (ps : List Piece) × (request_transfer roce_box region peer 5000000 (word 1 5000000) ≡ writes ps)
    × All (IsInside region peer 0 (2 ^ 23)) ps
    × (length ps ≤ pieces_max)
request_transfer-IsInside_example =
    request_transfer-IsInside roce_box region peer 5000000 (word 1 5000000) refl (omega arith)
      (omega arith) (omega arith) (omega arith) (omega arith) (omega arith) refl

reply_transfer-IsInside_example :
    (ps : List Piece) × (reply_transfer roce_box true region peer 1 8384512 ≡ writes ps)
    × All (IsInside region peer (2 ^ 23) (2 ^ 24)) ps
    × (length ps ≤ pieces_max)
reply_transfer-IsInside_example =
    reply_transfer-IsInside roce_box true region peer 1 8384512 refl (omega arith) (omega arith)
      (omega arith) (omega arith) (omega arith) (omega arith) refl
