-- ===== src/Daemon/System/Invariant.antt =====
-- What holds of a link's two ends and of the exchange between them, whatever the exchange loses, repeats or
-- reorders: each end's own offers say what its queue pair is, and a connected queue pair was connected by an offer
-- of the other end.
use mathlib.Core.List.{Memᴰ}
use mcdma.Prelude.{ℕ, Bool, true, false, List, none, ◌≡◌}
use mcdma.Wire.{Info}
use mcdma.Daemon.{
  Datagram, connect, listen, connected, Setup, offered, box_offer, box_refuse, is_offer,
  from_connect, from_listen,
}
use mcdma.Daemon.Connect.{Connector, ep_info}
use mcdma.Daemon.Listen.{Listener}
use mcdma.Daemon.System.{LinkState}
use mcdma.Daemon.System.Sends.{Sends}
use mcdma.Daemon.System.Listening.{IsSound}
pub mod ConnectEnd
pub mod ListenEnd
pub mod Acts
pub mod Step

-- The end has a queue pair, and may have offered it.
pub data IsLive (c : Connector) : Type 0 where
  waiting : c.waiting ≡ true → IsLive c
  up : c.up ≡ true → IsLive c

-- The offer of the listen end that brought the connect end up.
pub record Answer (bc : Setup) (c : Connector) (net : List Datagram) : Type 0 where
  pub datagram : Datagram
  pub sent : Memᴰ datagram net
  pub role : from_listen datagram ≡ true
  pub kind : is_offer datagram ≡ true
  pub from : datagram.from ≡ c.peer_session
  pub to : datagram.to ≡ c.session
  pub qp : c.qp ≡ connected (ep_info c.qp) datagram.info
  pub remote : c.remote ≡ datagram.info.table
  pub usable : box_refuse bc datagram.info ≡ none

abbrev pub Asks : Setup → ℕ → Connector → Datagram → Type 0
Asks bc mode c d =
    from_connect d ≡ true
    → is_offer d ≡ true
    → d.from ≡ c.session
    → d.info ≡ offered bc (ep_info c.qp) mode

pub record ConnectInv (bc : Setup) (mode : ℕ) (c : Connector) (net : List Datagram) : Type 0 where
  pub first :
      c.waiting ≡ true → c.first ≡ box_offer bc (ep_info c.qp) c.session 0 connect mode false
  pub confirm :
      c.up ≡ true
      → c.confirm ≡ box_offer bc (ep_info c.qp) c.session c.peer_session connect mode true
  pub asks : IsLive c → Sends (Asks bc mode c) net
  pub answer : c.up ≡ true → Answer bc c net

-- The offer of the connect end that the listen end accepted.
pub record Greeting (bl : Setup) (l : Listener) (net : List Datagram) : Type 0 where
  pub datagram : Datagram
  pub sent : Memᴰ datagram net
  pub role : from_connect datagram ≡ true
  pub kind : is_offer datagram ≡ true
  pub from : datagram.from ≡ l.peer_session
  pub mine : Info
  pub qp : l.qp ≡ connected mine datagram.info
  pub reply : l.reply ≡ box_offer bl mine l.session l.peer_session listen datagram.info.mode true
  pub usable : box_refuse bl datagram.info ≡ none

abbrev pub Replies : Listener → Datagram → Type 0
Replies l d = from_listen d ≡ true → is_offer d ≡ true → d.from ≡ l.session → d ≡ l.reply

pub record ListenInv (bl : Setup) (l : Listener) (net : List Datagram) : Type 0 where
  pub sound : IsSound l
  pub replies : l.hello ≡ true → Sends (Replies l) net
  pub greeting : l.hello ≡ true → Greeting bl l net

-- Every session that is held or was sent has been drawn.
pub record DrawnInv (w : LinkState) : Type 0 where
  pub connector : Memᴰ w.c.session w.used
  pub listener : Memᴰ w.l.session w.used
  pub net : Sends (λ d. Memᴰ d.from w.used) w.net

pub record Inv (bc bl : Setup) (mode : ℕ) (w : LinkState) : Type 0 where
  pub connector : ConnectInv bc mode w.c w.net
  pub listener : ListenInv bl w.l w.net
  pub drawn : DrawnInv w
