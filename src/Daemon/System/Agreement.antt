-- ===== src/Daemon/System/Agreement.antt =====
-- rpc/rpcd_connect.c against rpc/rpcd_listen.c: the two ends of a link agree on who is connected to whom.
use mathlib.Core.List.{Memᴰ}
use mcdma.Prelude.{ℕ, true, none, ◌≡◌, sym, ap, ◌∙◌}
use mcdma.Wire.{Info}
use mcdma.Daemon.{
  Datagram, connected, Setup, offered, box_offer, box_refuse, from_connect, from_listen,
}
use mcdma.Daemon.Usable.{box_refuse-sizes}
use mcdma.Daemon.Connect.{ep_info}
use mcdma.Daemon.System.{LinkState, Reach}
use mcdma.Daemon.System.Invariant.{IsLive, Answer, Greeting, Inv}
use mcdma.Daemon.System.Invariant.Step.{Reach-Inv}

-- Each queue pair is connected with what the other end offered of its own, in the same mode, and the mailboxes
-- are of the same sizes.
pub record IsPaired (bc bl : Setup) (mode : ℕ) (w : LinkState) : Type 0 where
  pub mine : Info
  pub theirs : Info
  pub connector : w.c.qp ≡ connected mine (offered bl theirs mode)
  pub listener : w.l.qp ≡ connected theirs (offered bc mine mode)
  pub session : w.l.peer_session ≡ w.c.session
  pub remote : w.c.remote ≡ theirs.table
  pub req : bl.req ≡ bc.req
  pub rep : bl.rep ≡ bc.rep

-- In every link that the two ends can reach, whatever was lost, repeated or reordered on the way: when the connect
-- end is up with the session that the listen end now holds, the listen end holds the connect end's session in turn,
-- each end's queue pair is connected with the other's offer of it, and the mailboxes are of the same sizes.
pub Reach-IsPaired :
    (bc bl : Setup) (mode : ℕ) (w : LinkState)
    → Reach bc bl mode w
    → w.c.up ≡ true
    → w.l.hello ≡ true
    → w.l.session ≡ w.c.peer_session
    → IsPaired bc bl mode w
Reach-IsPaired bc bl mode w r u h e =
    let inv : Inv bc bl mode w = Reach-Inv bc bl mode w r in
    let a : Answer bc w.c w.net = inv.connector.answer u in
    let g : Greeting bl w.l w.net = inv.listener.greeting h in
    let reply : a.datagram ≡ w.l.reply =
      inv.listener.replies h a.datagram a.sent a.role a.kind (a.from ∙ sym e) in
    let sent : a.datagram
        ≡ box_offer bl g.mine w.l.session w.l.peer_session _ g.datagram.info.mode true =
      reply ∙ g.reply in
    let session : w.l.peer_session ≡ w.c.session = sym (ap (λ x. x.to) sent) ∙ a.to in
    let asked : g.datagram.info ≡ offered bc (ep_info w.c.qp) mode =
      inv.connector.asks (IsLive.up u) g.datagram g.sent g.role g.kind (g.from ∙ session) in
    let mode_asked : g.datagram.info.mode ≡ mode = ap (λ x. x.mode) asked in
    let answered : a.datagram.info ≡ offered bl g.mine mode =
      ap (λ x. x.info) sent ∙ ap (λ n. offered bl g.mine n) mode_asked in
    let (_, req, rep) = box_refuse-sizes bc a.datagram.info a.usable in
    record {
      mine = ep_info w.c.qp;
      theirs = g.mine;
      connector = a.qp ∙ ap (λ i. connected (ep_info w.c.qp) i) answered;
      listener = g.qp ∙ ap (λ i. connected g.mine i) asked;
      session = session;
      remote = a.remote ∙ ap (λ i. i.table) answered;
      req = sym (ap (λ i. i.req) answered) ∙ req;
      rep = sym (ap (λ i. i.rep) answered) ∙ rep;
    }

-- What the connect end has of the listen end while it is up.
pub record IsAnswered (bc : Setup) (w : LinkState) : Type 0 where
  pub datagram : Datagram
  pub sent : Memᴰ datagram w.net
  pub role : from_listen datagram ≡ true
  pub from : datagram.from ≡ w.c.peer_session
  pub to : datagram.to ≡ w.c.session
  pub qp : w.c.qp ≡ connected (ep_info w.c.qp) datagram.info
  pub remote : w.c.remote ≡ datagram.info.table
  pub accepted : box_refuse bc datagram.info ≡ none

-- In every link that the two ends can reach, a connect end that is up is connected by an offer that the listen end
-- sent to the very session that the connect end holds, it has that offer's table for the peer's mailbox, and the
-- offer is one that `box_refuse` accepts for its own mailbox.
pub Reach-IsAnswered :
    (bc bl : Setup) (mode : ℕ) (w : LinkState)
    → Reach bc bl mode w
    → w.c.up ≡ true
    → IsAnswered bc w
Reach-IsAnswered bc bl mode w r u =
    let inv : Inv bc bl mode w = Reach-Inv bc bl mode w r in
    let a : Answer bc w.c w.net = inv.connector.answer u in
    record {
      datagram = a.datagram;
      sent = a.sent;
      role = a.role;
      from = a.from;
      to = a.to;
      qp = a.qp;
      remote = a.remote;
      accepted = a.usable;
    }

-- What the listen end has of the connect end while it holds a session.
pub record IsGreeted (bl : Setup) (w : LinkState) : Type 0 where
  pub datagram : Datagram
  pub sent : Memᴰ datagram w.net
  pub role : from_connect datagram ≡ true
  pub from : datagram.from ≡ w.l.peer_session
  pub mine : Info
  pub qp : w.l.qp ≡ connected mine datagram.info
  pub accepted : box_refuse bl datagram.info ≡ none

-- In every link that the two ends can reach, an armed listen end holds a session that an offer of the connect end
-- began, its queue pair is connected with that offer, and the offer is one that `box_refuse` accepts for its mailbox.
pub Reach-IsGreeted :
    (bc bl : Setup) (mode : ℕ) (w : LinkState)
    → Reach bc bl mode w
    → w.l.armed ≡ true
    → IsGreeted bl w
Reach-IsGreeted bc bl mode w r a =
    let inv : Inv bc bl mode w = Reach-Inv bc bl mode w r in
    let g : Greeting bl w.l w.net = inv.listener.greeting (inv.listener.sound a) in
    record {
      datagram = g.datagram;
      sent = g.sent;
      role = g.role;
      from = g.from;
      mine = g.mine;
      qp = g.qp;
      accepted = g.usable;
    }
