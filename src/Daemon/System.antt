-- ===== src/Daemon/System.antt =====
-- A link's two ends and the exchange between them. `net` holds every datagram ever sent: a delivery picks any of
-- them and leaves it there, so the exchange may lose, repeat and reorder. `used` are the sessions drawn so far;
-- a new one is drawn apart from them.
use mathlib.Core.List.{Memᴰ}
use mcdma.Prelude.{
  ℕ, ◌==◌, Bool, true, false, Option, none, some, List, [], ◌∷◌, ◌++◌, replicate, ◌≡◌, ◌≢◌,
}
use mcdma.Wire.{Info, no_info}
use mcdma.Daemon.{direct_mode, strange, stranger, Datagram, no_qp, Setup, prepared}
use mcdma.Daemon.Listen.{
  Listener, Chance, listen_datagram, listen_timeouts, attach, progress_failed, listen_staged,
}
use mcdma.Daemon.Connect.{
  Connector, peer_down, peer_begin, peer_wait, connect_datagram, serve_timers, thread_failed,
  thread_request, thread_reply,
}
pub mod Sends
pub mod Connecting
pub mod Listening
pub mod Answering
pub mod Offering
pub mod Invariant
pub mod Agreement
pub mod Handshake
pub mod Recovery

pub record LinkState : Type 0 where
  pub c : Connector
  pub l : Listener
  pub net : List Datagram
  pub used : List ℕ

-- an end after one of its operations, what it sent on its way
abbrev pub connect_acts : Connector × List Datagram → LinkState → LinkState
connect_acts r w = record w { c = r.0; net = r.1 ++ w.net }

abbrev pub listen_acts : Listener × List Datagram → LinkState → LinkState
listen_acts r w = record w { l = r.0; net = r.1 ++ w.net }

abbrev pub draws : ℕ → LinkState → LinkState
draws fresh w = record w { used = fresh ∷ w.used }

abbrev pub no_datagram : Datagram
no_datagram = prepared 0 0 strange stranger false no_info

-- the ends as they are started
abbrev pub idle_connector : Connector
idle_connector = record {
  up = false;
  waiting = false;
  qp = no_qp;
  session = 0;
  peer_session = 0;
  remote = no_info.table;
  first = no_datagram;
  confirm = no_datagram;
  deadline = 0;
  resend = 0;
  generation = 0;
  heard = 0;
  pinged = 0;
  req_word = 0;
  up_word = 0;
  ready_word = 0;
  done_word = 0;
  generation_word = 0;
  last = 0;
  calls = 0;
  failures = 0;
  bytes = 0;
}

abbrev pub idle_listener : Listener
idle_listener = record {
  qp = no_qp;
  session = 0;
  peer_session = 0;
  remote = no_info.table;
  reply = no_datagram;
  attached = false;
  direct = false;
  hello = false;
  armed = false;
  hello_since = 0;
  offered = 0;
  heard = 0;
  req_word = 0;
  ready_word = 0;
  staged_word = 0;
  last_staged = 0;
  served = 0;
  failures = 0;
  bytes = 0;
}

abbrev pub idle : LinkState
idle = record { c = idle_connector; l = idle_listener; net = []; used = 0 ∷ [] }

-- One operation of one end. `xchg_recv` drops an end's own datagrams; the words that clients, a service and the
-- peer's device leave in the mailboxes are any.
pub data Step (bc bl : Setup) (mode : ℕ) (w : LinkState) : LinkState → Type 0 where
  begins :
      (creates : Option Info) (fresh now : ℕ)
      → w.c.up ≡ false
      → w.c.waiting ≡ false
      → (Memᴰ fresh w.used → ⊥)
      → Step bc bl mode w (draws fresh (connect_acts (peer_begin bc mode creates fresh now w.c) w))
  waits : (now : ℕ) → w.c.waiting ≡ true → Step bc bl mode w (connect_acts (peer_wait now w.c) w)
  gives_up : Step bc bl mode w (connect_acts (peer_down w.c) w)
  connect_hears :
      (m : Datagram) (connects : Bool) (early now : ℕ)
      → Memᴰ m w.net
      → m.from ≢ w.c.session
      → Step bc bl mode w (connect_acts (connect_datagram bc mode connects early now m w.c) w)
  serves : (now : ℕ) → Step bc bl mode w (connect_acts (serve_timers now w.c) w)
  connect_fails : w.c.up ≡ true → Step bc bl mode w (connect_acts (thread_failed w.c) w)
  requests :
      (staged : ℕ) (lands : Bool)
      → w.c.up ≡ true
      → Step bc bl mode w (
          connect_acts
            (thread_request bc (mode == direct_mode) lands (record w.c { req_word = staged }))
            w)
  replies :
      (written seq : ℕ) (reads : Bool)
      → Step bc bl mode w
          (connect_acts (thread_reply bc reads seq (record w.c { ready_word = written })) w)
  listen_hears :
      (chance : Chance) (now : ℕ) (m : Datagram)
      → Memᴰ m w.net
      → m.from ≢ w.l.session
      → (Memᴰ chance.fresh w.used → ⊥)
      → Step bc bl mode w (draws chance.fresh (listen_acts (listen_datagram bl chance now m w.l) w))
  listen_times : (now : ℕ) → Step bc bl mode w (listen_acts (listen_timeouts now w.l) w)
  attaches : Step bc bl mode w (listen_acts (attach w.l, []) w)
  listen_fails : Step bc bl mode w (listen_acts (progress_failed w.l) w)
  stages :
      (staged : ℕ) (lands : Bool)
      → Step bc bl mode w
          (listen_acts (listen_staged bl lands (record w.l { staged_word = staged })) w)

-- The links that the two ends can reach.
pub data Reach (bc bl : Setup) (mode : ℕ) : LinkState → Type 0 where
  start : Reach bc bl mode idle
  later : {w w' : LinkState} → Reach bc bl mode w → Step bc bl mode w w' → Reach bc bl mode w'
