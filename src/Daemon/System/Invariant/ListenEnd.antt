-- ===== src/Daemon/System/Invariant/ListenEnd.antt =====
-- The listen end's part of the invariant is kept by each of its operations, rpc/rpcd_listen.c, and by what the
-- connect end sends.
use mathlib.Core.Bool.{true≢false}
use mathlib.Core.List.{Memᴰ}
use mathlib.Core.List.Memᴰ
use mcdma.Prelude.{ℕ, true, false, List, ◌++◌, ◌≡◌, ◌≢◌, sym, ◌∙◌}
use mcdma.Daemon.{Datagram, connect, Setup, is_offer, from_connect}
use mcdma.Daemon.Listen.{Listener}
use mcdma.Daemon.System.Sends.{Sends, Sends-both}
use mcdma.Daemon.System.Listening.{Same, IsPlain, Own, Effect}
use mcdma.Daemon.System.Offering.{Spoken, Offered}
use mcdma.Daemon.System.Invariant.{Greeting, Replies, ListenInv}
use mcdma.Daemon.System.Invariant.ConnectEnd.{connect-not_listen}

greeting-sent :
    {bl : Setup} {l : Listener} {net : List Datagram} (sent : List Datagram)
    → Greeting bl l net
    → Greeting bl l (sent ++ net)
greeting-sent sent g = record {
  datagram = g.datagram;
  sent = Memᴰ.append_right sent g.sent;
  role = g.role;
  kind = g.kind;
  from = g.from;
  mine = g.mine;
  qp = g.qp;
  reply = g.reply;
  usable = g.usable;
}

plain-Replies : (l : Listener) (session : ℕ) (d : Datagram) → IsPlain session d → Replies l d
plain-Replies l session d p _ o _ = absurd (true≢false (sym o ∙ p.kind))

module _ (bl : Setup) where
  ListenInv-sent :
      (l : Listener) (sent : List Datagram) {net : List Datagram}
      → ListenInv bl l net
      → Sends (Replies l) sent
      → ListenInv bl l (sent ++ net)
  ListenInv-sent l sent inv replies = record {
    sound = inv.sound;
    replies = λ h. Sends-both (Replies l) sent replies (inv.replies h);
    greeting = λ h. greeting-sent sent (inv.greeting h);
  }

  pub ListenInv-foreign :
      (l : Listener) (sent : List Datagram) {net : List Datagram}
      → ListenInv bl l net
      → Sends (λ d. d.role ≡ connect) sent
      → ListenInv bl l (sent ++ net)
  ListenInv-foreign l sent inv foreign =
      ListenInv-sent l sent inv (λ d m role _ _. absurd (connect-not_listen d (foreign d m) role))

  own-Replies : (l : Listener) (d : Datagram) → Own l d → Replies l d
  own-Replies l d o = elim o [
    | Own.plain p ↦ plain-Replies l l.session d p
    | Own.reply _ e ↦ λ _ _ _. e
  ]

  Same-inv :
      (l l' : Listener) {net : List Datagram}
      → Same l l'
      → (l'.armed ≡ true → l'.hello ≡ true)
      → ListenInv bl l net
      → ListenInv bl l' net
  Same-inv l l' (hello, qp, session, peer, reply) sound inv = record {
    sound = sound;
    replies = λ h d m role kind from.
        inv.replies (sym hello ∙ h) d m role kind (from ∙ session) ∙ sym reply;
    greeting = λ h.
        let g : Greeting bl l _ = inv.greeting (sym hello ∙ h) in
        record {
          datagram = g.datagram;
          sent = g.sent;
          role = g.role;
          kind = g.kind;
          from = g.from ∙ sym peer;
          mine = g.mine;
          qp = qp ∙ g.qp;
          reply = rw (reply, session, peer) g.reply;
          usable = g.usable;
        };
  }

  dropped-inv :
      (l : Listener) (net : List Datagram) → l.hello ≡ false → l.armed ≡ false → ListenInv bl l net
  dropped-inv l net h a = record {
    sound = λ a'. absurd (true≢false (sym a' ∙ a));
    replies = λ h'. absurd (true≢false (sym h' ∙ h));
    greeting = λ h'. absurd (true≢false (sym h' ∙ h));
  }

  -- An operation that leaves the queue pair, the sessions and the offer, or drops the session.
  pub ListenInv-effect :
      (l : Listener) (r : Listener × List Datagram) {net : List Datagram}
      → ListenInv bl l net
      → Effect l r
      → ListenInv bl r.0 (r.1 ++ net)
  ListenInv-effect l r {net} inv f = elim f [
    | Effect.kept same sound own ↦
        Same-inv l r.0 same sound (ListenInv-sent l r.1 inv (λ d m. own-Replies l d (own d m)))
    | Effect.dropped h a _ _ ↦ dropped-inv r.0 (r.1 ++ net) h a
  ]

  -- An offer is refused, or begins a session of which nothing was sent.
  pub ListenInv-offered :
      (fresh : ℕ) (m : Datagram) (l : Listener) (r : Listener × List Datagram) {net : List Datagram}
      → Sends (λ d. d.from ≢ fresh) net
      → Memᴰ m net
      → from_connect m ≡ true
      → is_offer m ≡ true
      → Offered bl fresh m l.session r
      → ListenInv bl r.0 (r.1 ++ net)
  ListenInv-offered fresh m l r {net} unsent sent role kind o = elim o [
    | Offered.refuses h a _ _ ↦ dropped-inv r.0 (r.1 ++ net) h a
    | Offered.accepts g says ↦ record {
      sound = λ _. g.hello;
      replies = λ _.
          Sends-both (Replies r.0) r.1
            (λ d k. elim (says d k) [
              | Spoken.said p ↦ plain-Replies r.0 l.session d p
              | Spoken.replied e ↦ λ _ _ _. e
            ])
            (λ d k _ _ from. absurd (unsent d k (from ∙ g.session)));
      greeting = λ _. record {
        datagram = m;
        sent = Memᴰ.append_right r.1 sent;
        role = role;
        kind = kind;
        from = sym g.peer_session;
        mine = g.mine;
        qp = g.qp;
        reply = rw (g.session, g.peer_session) g.reply;
        usable = g.usable;
      };
    }
  ]
