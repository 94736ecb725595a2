-- ===== src/Daemon/Connect.antt =====
-- rpc/rpcd_connect.c: the connect end of one peer link. The loop of `peer_connect` is a state of its own,
-- `waiting`, with the locals it keeps; `sent` is what goes over the exchange. The clock, the device and what a
-- client writes in the mailbox are arguments.
use mcdma.Prelude.{
  ℕ, ◌+◌, ◌-◌, Bool, true, false, not, ◌||◌, Option, none, some, List, [], ◌∷◌, ◌++◌, ltb, leb,
  ◌==◌, ◌!=◌, if◌then◌else◌,
}
use mcdma.Wire.{Table, Info, no_info}
use mcdma.Daemon.{
  handshake_ns, liveness_ns, resend_ns, ping_ns, ctrl, word, word_seq, word_len, ping, bye, err,
  connect, Datagram, Qp, no_qp, created, connected, Setup, box_offer, answer, box_refuse, is_offer,
  from_listen,
}

-- `struct peer`, with the sessions of its `x`, the queue pair of its `e`, the words of its mailbox, the last
-- request of `peer_thread`, and the locals of `peer_connect`: its offer, its deadline and the next resend.
pub record Connector : Type 0 where
  pub up : Bool
  pub waiting : Bool
  pub qp : Qp
  pub session : ℕ
  pub peer_session : ℕ
  pub remote : Table
  pub first : Datagram
  pub confirm : Datagram
  pub deadline : ℕ
  pub resend : ℕ
  pub generation : ℕ
  pub heard : ℕ
  pub pinged : ℕ
  pub req_word : ℕ
  pub up_word : ℕ
  pub ready_word : ℕ
  pub done_word : ℕ
  pub generation_word : ℕ
  pub last : ℕ
  pub calls : ℕ
  pub failures : ℕ
  pub bytes : ℕ

-- `peer_down`
unfoldable pub peer_down : Connector → Connector × List Datagram
peer_down s =
    let farewell : List Datagram =
      if s.peer_session != 0
      then answer s.session s.peer_session bye connect no_info ∷ []
      else [] in
    (record s { up = false; waiting = false; up_word = 0; peer_session = 0; qp = no_qp }, farewell)

abbrev pub ep_info : Qp → Info
ep_info no_qp = no_info
ep_info (created mine) = mine
ep_info (connected mine _) = mine

-- an X_ERR or an X_BYE
abbrev pub is_refusal : Datagram → Bool
is_refusal m = elim m.kind [ err ↦ true | bye ↦ true | _ ↦ false ]

-- `xchg_ours`
abbrev pub xchg_ours : Connector → Datagram → Bool
xchg_ours s m = m.to == s.session

-- `peer_connect` up to its loop: the device creates a queue pair or fails, and `fresh` is the new session.
unfoldable pub peer_begin : Setup → ℕ → Option Info → ℕ → ℕ → Connector → Connector × List Datagram
peer_begin b mode creates fresh now s = elim creates [
  | none ↦ peer_down s
  | some mine ↦ (
    record s {
      waiting = true;
      qp = created mine;
      session = fresh;
      peer_session = 0;
      first = box_offer b mine fresh 0 connect mode false;
      deadline = now + handshake_ns;
      resend = 0;
    },
    [],
  )
]

-- The loop of `peer_connect` between two receives.
unfoldable pub peer_wait : ℕ → Connector → Connector × List Datagram
peer_wait now s =
    if leb s.deadline now
    then peer_down s
    else if leb s.resend now
    then (record s { resend = now + resend_ns }, s.first ∷ [])
    else (s, [])

abbrev pub confirmation : Setup → ℕ → Datagram → Connector → Datagram
confirmation b mode m s = box_offer b (ep_info s.qp) s.session m.from connect mode true

-- `peer_connect` after its loop: `early` is the request word as it is read back, which a client may have
-- staged by then.
abbrev pub established : Setup → ℕ → ℕ → ℕ → Datagram → Connector → Connector
established b mode early now m s = record s {
  waiting = false;
  peer_session = m.from;
  qp = connected (ep_info s.qp) m.info;
  remote = m.info.table;
  confirm = confirmation b mode m s;
  req_word = early;
  ready_word = 0;
  done_word = 0;
  last = word_seq early;
  up = true;
  generation = s.generation + 1;
  generation_word = s.generation + 1;
  up_word = 1;
  heard = now;
  pinged = now;
}

unfoldable pub peer_answered :
    Setup → ℕ → Bool → ℕ → ℕ → Datagram → Connector → Connector × List Datagram
peer_answered b mode connects early now m s =
    if connects
    then (established b mode early now m s, confirmation b mode m s ∷ [])
    else peer_down (record s { peer_session = m.from })

-- A datagram in the loop of `peer_connect`.
unfoldable pub peer_hears :
    Setup → ℕ → Bool → ℕ → ℕ → Datagram → Connector → Connector × List Datagram
peer_hears b mode connects early now m s =
    let (down, farewell) = peer_down s in
    if not (from_listen m) || not (xchg_ours s m)
    then (s, [])
    else if is_refusal m
    then peer_down s
    else if not (is_offer m) || not m.have
    then (s, [])
    else elim (box_refuse b m.info) [
      | some why ↦ (down, answer s.session m.from err connect no_info ∷ farewell)
      | none ↦ peer_answered b mode connects early now m s
    ]

-- A datagram in the loop of `connect_service`.
unfoldable pub serve_datagram : ℕ → Datagram → Connector → Connector × List Datagram
serve_datagram now m s =
    if not (from_listen m) || not (xchg_ours s m)
    then (s, [])
    else if is_refusal m
    then peer_down s
    else if m.from != s.peer_session
    then (s, [])
    else (record s { heard = now }, if is_offer m then s.confirm ∷ [] else [])

-- The ping of `connect_service`.
unfoldable pub serve_ping : ℕ → Connector → Connector × List Datagram
serve_ping now s =
    if leb ping_ns (now - s.pinged)
    then (record s { pinged = now }, answer s.session s.peer_session ping connect no_info ∷ [])
    else (s, [])

-- `connect_service` after its loop
unfoldable pub serve_timers : ℕ → Connector → Connector × List Datagram
serve_timers now s =
    let (probed, probe) = serve_ping now s in
    let (down, farewell) = peer_down probed in
    if not s.up
    then (s, [])
    else if ltb liveness_ns (now - s.heard)
    then (down, probe ++ farewell)
    else (probed, probe)

-- `connect_service`, given the datagrams that are waiting
unfoldable pub connect_service : ℕ → List Datagram → Connector → Connector × List Datagram
connect_service now [] s = serve_timers now s
connect_service now (m ∷ ms) s =
    let (s', sent) = serve_datagram now m s in
    let (s'', rest) = connect_service now ms s' in
    if not s.up then (s, []) else if s'.up then (s'', sent ++ rest) else (s', sent)

-- What the connect end does with one datagram, up or not.
unfoldable pub connect_datagram :
    Setup → ℕ → Bool → ℕ → ℕ → Datagram → Connector → Connector × List Datagram
connect_datagram b mode connects early now m s =
    if s.waiting
    then peer_hears b mode connects early now m s
    else if s.up
    then serve_datagram now m s
    else (s, [])

-- `tb_progress` failed, in `peer_thread`
unfoldable pub thread_failed : Connector → Connector × List Datagram
thread_failed s = peer_down (record s { failures = s.failures + 1 })

-- `peer_thread` with a request, up to the wait for its reply; whether `box_transfer` succeeds is the link's.
unfoldable pub thread_request : Setup → Bool → Bool → Connector → Connector × List Datagram
thread_request b direct lands s =
    let seq = word_seq s.req_word in
    let len = word_len s.req_word in
    let taken = record s { last = seq } in
    let wrote = record taken { bytes = s.bytes + len } in
    if seq == 0 || seq == s.last
    then (s, [])
    else if ltb (b.req - ctrl) len
    then (record taken { done_word = word seq 0 }, [])
    else if not lands
    then thread_failed taken
    else if direct
    then (record wrote { calls = s.calls + 1 }, [])
    else (wrote, [])

-- `peer_thread` after the wait for a reply that it reads itself: `seq` is the request's number, and `reads` is
-- whether the pieces could be read.
unfoldable pub thread_reply : Setup → Bool → ℕ → Connector → Connector × List Datagram
thread_reply b reads seq s =
    let len = word_len s.ready_word in
    if not s.up
    then (record s { failures = s.failures + 1 }, [])
    else if word_seq s.ready_word != seq
    then thread_failed s
    else if ltb (b.rep - ctrl) len
    then thread_failed s
    else if not reads
    then thread_failed s
    else (record s { done_word = word seq len; calls = s.calls + 1 }, [])
