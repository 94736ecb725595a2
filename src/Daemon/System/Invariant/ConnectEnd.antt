-- ===== src/Daemon/System/Invariant/ConnectEnd.antt =====
-- The connect end's part of the invariant is kept by each of its operations, rpc/rpcd_connect.c, and by what the
-- listen end sends.
use mathlib.Core.List.{Memᴰ}
use mathlib.Core.List.Memᴰ
use mcdma.Prelude.{
  ℕ, true, false, Option, none, some, List, [], ◌∷◌, ◌++◌, ◌≡◌, ◌≢◌, refl, sym, ap, ◌∙◌,
}
use mathlib.Core.Bool.{true≢false}
use mcdma.Wire.{Info}
use mcdma.Daemon.{Datagram, connect, listen, Setup, offered, is_offer, from_connect, from_listen}
use mcdma.Daemon.Connect.{Connector, ep_info, peer_down, peer_begin, established, confirmation}
use mcdma.Daemon.System.Sends.{Sends, Sends-one, Sends-both}
use mcdma.Daemon.System.Connecting.{peer_down-effect, Same, IsPlain, Own, Effect}
use mcdma.Daemon.System.Answering.{IsAnswer}
use mcdma.Daemon.System.Invariant.{IsLive, Answer, Asks, ConnectInv}

pub connect-not_listen : (d : Datagram) → d.role ≡ connect → from_listen d ≡ true → ⊥
connect-not_listen d e h = true≢false (sym h ∙ (rw (e) refl))

pub listen-not_connect : (d : Datagram) → d.role ≡ listen → from_connect d ≡ true → ⊥
listen-not_connect d e h = true≢false (sym h ∙ (rw (e) refl))

-- What the connect end says of itself.
abbrev pub Says : Setup → ℕ → Connector → Datagram → Type 0
Says bc mode c d =
    (d.from ≡ c.session)
    × (d.role ≡ connect)
    × (is_offer d ≡ true → d.info ≡ offered bc (ep_info c.qp) mode)

answer-sent :
    {bc : Setup} {c : Connector} {net : List Datagram} (sent : List Datagram)
    → Answer bc c net
    → Answer bc c (sent ++ net)
answer-sent sent a = record {
  datagram = a.datagram;
  sent = Memᴰ.append_right sent a.sent;
  role = a.role;
  kind = a.kind;
  from = a.from;
  to = a.to;
  qp = a.qp;
  remote = a.remote;
  usable = a.usable;
}

module _ (bc : Setup) (mode : ℕ) where
  abbrev plain-says : (c : Connector) (d : Datagram) → IsPlain c.session d → Says bc mode c d
  plain-says c d p = (p.from, p.role, λ o. absurd (true≢false (sym o ∙ p.kind)))

  pub own-says :
      (c : Connector) (net : List Datagram)
      → ConnectInv bc mode c net
      → (d : Datagram) → Own c d
      → Says bc mode c d
  own-says c net inv d o = elim o [
    | Own.plain p ↦ plain-says c d p
    | Own.first w e ↦
        let e' = e ∙ inv.first w in
        (ap (λ x. x.from) e', ap (λ x. x.role) e', λ _. ap (λ x. x.info) e')
    | Own.confirm u e ↦
        let e' = e ∙ inv.confirm u in
        (ap (λ x. x.from) e', ap (λ x. x.role) e', λ _. ap (λ x. x.info) e')
  ]

  Asks-said :
      (c : Connector) (sent : List Datagram)
      → Sends (Says bc mode c) sent
      → Sends (Asks bc mode c) sent
  Asks-said c sent says d m _ o _ = (says d m).2 o

  ConnectInv-sent :
      (c : Connector) (sent : List Datagram) {net : List Datagram}
      → ConnectInv bc mode c net
      → Sends (Asks bc mode c) sent
      → ConnectInv bc mode c (sent ++ net)
  ConnectInv-sent c sent inv asks = record {
    first = inv.first;
    confirm = inv.confirm;
    asks = λ live. Sends-both (Asks bc mode c) sent asks (inv.asks live);
    answer = λ u. answer-sent sent (inv.answer u);
  }

  -- What the listen end sends does not concern it.
  pub ConnectInv-foreign :
      (c : Connector) (sent : List Datagram) {net : List Datagram}
      → ConnectInv bc mode c net
      → Sends (λ d. d.role ≡ listen) sent
      → ConnectInv bc mode c (sent ++ net)
  ConnectInv-foreign c sent inv foreign =
      ConnectInv-sent c sent inv (λ d m role _ _. absurd (listen-not_connect d (foreign d m) role))

  Same-inv :
      (c c' : Connector) {net : List Datagram}
      → Same c c'
      → ConnectInv bc mode c net
      → ConnectInv bc mode c' net
  Same-inv c c' (up, waiting, qp, session, peer, first, confirm, remote) inv = record {
    first = rw (waiting, qp, session, first) inv.first;
    confirm = rw (up, qp, session, peer, confirm) inv.confirm;
    asks = λ live d m role kind from. rw (qp) (
        inv.asks
          (elim live [
            | IsLive.waiting w ↦ IsLive.waiting (sym waiting ∙ w)
            | IsLive.up u ↦ IsLive.up (sym up ∙ u)
          ])
          d m role kind (from ∙ session));
    answer = λ u.
        let a : Answer bc c _ = inv.answer (sym up ∙ u) in
        record {
          datagram = a.datagram;
          sent = a.sent;
          role = a.role;
          kind = a.kind;
          from = rw (peer) a.from;
          to = rw (session) a.to;
          qp = rw (qp) a.qp;
          remote = rw (remote) a.remote;
          usable = a.usable;
        };
  }

  -- An operation that leaves the queue pair, the sessions and the offers, or takes the link down.
  pub ConnectInv-effect :
      (c : Connector) (r : Connector × List Datagram) {net : List Datagram}
      → ConnectInv bc mode c net
      → Effect c r
      → ConnectInv bc mode r.0 (r.1 ++ net)
  ConnectInv-effect c r {net} inv f = elim f [
    | Effect.kept same own ↦
        Same-inv c r.0 same
          (ConnectInv-sent c r.1 inv (Asks-said c r.1 (λ d m. own-says c net inv d (own d m))))
    | Effect.down u w _ _ ↦ record {
      first = λ w'. absurd (true≢false (sym w' ∙ w));
      confirm = λ u'. absurd (true≢false (sym u' ∙ u));
      asks = λ live. elim live [
        | IsLive.waiting w' ↦ absurd (true≢false (sym w' ∙ w))
        | IsLive.up u' ↦ absurd (true≢false (sym u' ∙ u))
      ];
      answer = λ u'. absurd (true≢false (sym u' ∙ u));
    }
  ]

  -- An attempt begins with a session of which nothing was sent.
  pub ConnectInv-begin :
      (creates : Option Info) (fresh now : ℕ) (c : Connector) {net : List Datagram}
      → ConnectInv bc mode c net
      → c.up ≡ false
      → Sends (λ d. d.from ≢ fresh) net
      → ConnectInv bc mode
          (peer_begin bc mode creates fresh now c).0
          ((peer_begin bc mode creates fresh now c).1 ++ net)
  unfolding peer_begin
  ConnectInv-begin none fresh now c inv down unsent =
      ConnectInv-effect c (peer_down c) inv (peer_down-effect c)
  ConnectInv-begin (some mine) fresh now c inv down unsent = record {
    first = λ _. refl;
    confirm = λ u. absurd (true≢false (sym u ∙ down));
    asks = λ _ d m _ _ from. absurd (unsent d m from);
    answer = λ u. absurd (true≢false (sym u ∙ down));
  }

  -- The answer that brings the link up.
  pub ConnectInv-answered :
      (early now : ℕ) (m : Datagram) (c : Connector) {net : List Datagram}
      → ConnectInv bc mode c net
      → c.waiting ≡ true
      → Memᴰ m net
      → IsAnswer bc c.session m
      → ConnectInv bc mode (established bc mode early now m c) (confirmation bc mode m c ∷ net)
  ConnectInv-answered early now m c {net} inv w sent a = record {
    first = λ w'. absurd (true≢false (sym w'));
    confirm = λ _. refl;
    asks = λ _.
        Sends-both (Asks bc mode (established bc mode early now m c))
          (confirmation bc mode m c ∷ [])
          (Sends-one (Asks bc mode (established bc mode early now m c)) (λ _ _ _. refl))
          (inv.asks (IsLive.waiting w));
    answer = λ _. record {
      datagram = m;
      sent = Memᴰ.tail sent;
      role = a.role;
      kind = a.kind;
      from = refl;
      to = a.to;
      qp = refl;
      remote = refl;
      usable = a.usable;
    };
  }
