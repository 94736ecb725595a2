-- ===== src/Daemon/Listen.antt =====
-- rpc/rpcd_listen.c: the listen end. `sent` is what it sends over the exchange, which may be lost; lines to
-- the service are left out but for their effect. The clock, the device and the session numbers are
-- arguments.
use mcdma.Prelude.{
  ℕ, ◌+◌, ◌-◌, Bool, true, false, not, ◌&&◌, ◌||◌, Option, none, some, List, [], ◌∷◌, ◌++◌, ltb,
  ◌==◌, ◌!=◌, if◌then◌else◌,
}
use mcdma.Wire.{Table, Info, no_info}
use mcdma.Daemon.{
  handshake_ns, liveness_ns, resend_ns, ctrl, direct_mode, word, word_seq, word_len, offer, ping,
  pong, bye, err, strange, listen, Datagram, Qp, no_qp, connected, Setup, box_offer, answer,
  box_refuse, is_offer, from_connect,
}

-- `struct listen_state`, with the sessions of its `x`, the queue pair of its `e`, and the words of its
-- mailbox; `served_by` is whether a service is attached.
pub record Listener : Type 0 where
  pub qp : Qp
  pub session : ℕ
  pub peer_session : ℕ
  pub remote : Table
  pub reply : Datagram
  pub attached : Bool
  pub direct : Bool
  pub hello : Bool
  pub armed : Bool
  pub hello_since : ℕ
  pub offered : ℕ
  pub heard : ℕ
  pub req_word : ℕ
  pub ready_word : ℕ
  pub staged_word : ℕ
  pub last_staged : ℕ
  pub served : ℕ
  pub failures : ℕ
  pub bytes : ℕ

-- `listen_drop`
unfoldable pub listen_drop : Listener → Listener × List Datagram
listen_drop s =
    let farewell : List Datagram =
      if s.peer_session != 0 then answer s.session s.peer_session bye listen no_info ∷ [] else [] in
    (
      record s {
        attached = s.attached && not (s.armed || s.hello);
        peer_session = 0;
        armed = false;
        hello = false;
        qp = no_qp;
      },
      farewell,
    )

-- What the device and the random numbers answer while an offer is handled: `ep_info` of the new queue
-- pair or a failure, whether `ep_connect` succeeds, and the session that `xchg_session` draws.
pub record Chance : Type 0 where
  pub creates : Option Info
  pub connects : Bool
  pub fresh : ℕ

-- the state after an offer was accepted, its queue pair connected
abbrev pub greeted : Setup → Chance → Info → ℕ → Datagram → Listener → Listener
greeted b chance mine now m s = record s {
  qp = connected mine m.info;
  session = chance.fresh;
  peer_session = m.from;
  remote = m.info.table;
  direct = m.info.mode == direct_mode;
  req_word = 0;
  staged_word = 0;
  reply = box_offer b mine chance.fresh m.from listen m.info.mode true;
  hello = true;
  hello_since = now;
  offered = now;
  heard = now;
}

abbrev pub refused : Listener → Datagram → List Datagram
refused s m = answer s.session m.from err listen no_info ∷ []

-- `listen_offer` after the drop at its start
unfoldable pub welcome : Setup → Chance → ℕ → Datagram → Listener → Listener × List Datagram
welcome b chance now m s = elim (box_refuse b m.info) [
  | some why ↦ (s, refused s m)
  | none ↦ elim chance.creates [
    | none ↦ (s, refused s m)
    | some mine ↦
        if chance.connects
        then (
          greeted b chance mine now m s,
          box_offer b mine chance.fresh m.from listen m.info.mode true ∷ [],
        )
        else (record s { qp = no_qp }, refused s m)
  ]
]

-- `listen_offer`
unfoldable pub listen_offer : Setup → Chance → ℕ → Datagram → Listener → Listener × List Datagram
listen_offer b chance now m s =
    let (dropped, farewell) = listen_drop s in
    let (s', sent) = welcome b chance now m dropped in
    if s.hello then (s', farewell ++ sent) else welcome b chance now m s

-- A datagram of the current session, after `heard` is set.
unfoldable pub listen_current : Datagram → Listener → Listener × List Datagram
listen_current m s = elim m.kind [
  | offer ↦
      let s' = if m.have then record s { armed = true } else s in
      (s', if s'.armed then [] else s.reply ∷ [])
  | ping ↦ (s, answer s.session s.peer_session pong listen no_info ∷ [])
  | bye ↦ listen_drop s
  | err ↦ listen_drop s
  | pong ↦ (s, [])
  | strange ↦ (s, [])
]

abbrev pub is_ping : Datagram → Bool
is_ping m = elim m.kind [ ping ↦ true | _ ↦ false ]

abbrev pub current : Listener → Datagram → Bool
current s m = s.hello && m.from == s.peer_session

-- `listen_datagram`, and the reset of `last_staged` that its 1 asks for
unfoldable pub listen_datagram : Setup → Chance → ℕ → Datagram → Listener → Listener × List Datagram
listen_datagram b chance now m s =
    let (s', sent) = listen_offer b chance now m s in
    if not (from_connect m)
    then (s, [])
    else if is_offer m && not (current s m) && not m.have
    then (record s' { last_staged = 0 }, sent)
    else if not (current s m)
    then (
      s,
      if is_ping m || is_offer m then answer s.session m.from bye listen no_info ∷ [] else [],
    )
    else listen_current m (record s { heard = now })

-- The timeouts of the loop of `run_listen`.
unfoldable pub listen_timeouts : ℕ → Listener → Listener × List Datagram
listen_timeouts now s =
    if s.hello && not s.armed && ltb handshake_ns (now - s.hello_since)
    then listen_drop s
    else if s.hello && not s.armed && ltb resend_ns (now - s.offered)
    then (record s { offered = now }, s.reply ∷ [])
    else if s.armed && ltb liveness_ns (now - s.heard)
    then listen_drop s
    else (s, [])

-- `MODE poll` of a client: a service is attached unless there is one.
unfoldable pub attach : Listener → Listener
attach s =
    if s.attached then s else record s { attached = true; last_staged = word_seq s.staged_word }

-- `tb_progress` failed
unfoldable pub progress_failed : Listener → Listener × List Datagram
progress_failed s =
    let failed = record s { failures = s.failures + 1 } in
    if s.hello then listen_drop failed else (s, [])

-- `listen_reply`: whether the transfer succeeds is the link's; what it is asked to write is `Daemon.Transfer`.
unfoldable pub listen_reply : Bool → ℕ → ℕ → Listener → Bool × Listener
listen_reply lands seq len s =
    let ready = record s { ready_word = word seq len } in
    if lands
    then (true, record ready { served = s.served + 1; bytes = s.bytes + len })
    else (false, ready)

-- The service's staged reply, looked at once a round.
unfoldable pub listen_staged : Setup → Bool → Listener → Listener × List Datagram
listen_staged b lands s =
    let seq = word_seq s.staged_word in
    let len = word_len s.staged_word in
    let taken = record s { last_staged = seq } in
    let (wrote, after) = listen_reply lands seq len taken in
    let lost = if ltb (b.rep - ctrl) len then taken else after in
    if not (s.attached && s.armed) || seq == 0 || seq == s.last_staged
    then (s, [])
    else if ltb (b.rep - ctrl) len || not wrote
    then listen_drop (record lost { failures = lost.failures + 1 })
    else (after, [])
