-- ===== src/Daemon/System/Connecting.antt =====
-- What each operation of the connect end, rpc/rpcd_connect.c, may do to the link: leave its queue pair, sessions
-- and offers as they are, or take the link down.
use mathlib.Core.Path.{subst}
use mcdma.Prelude.{
  ℕ, ◌+◌, ◌-◌, Bool, true, false, not, ◌||◌, List, [], ltb, leb, ◌==◌, ◌!=◌, ◌≡◌, refl, sym, ◌∙◌,
  if_lem,
}
use mcdma.Wire.{no_info}
use mcdma.Daemon.{
  liveness_ns, ping_ns, ctrl, word_seq, word_len, Datagram, connect, bye, Setup, answer, is_offer,
  from_listen,
}
use mcdma.Daemon.Connect.{
  Connector, peer_down, peer_wait, serve_datagram, serve_ping, serve_timers, thread_failed,
  thread_request, thread_reply, is_refusal, xchg_ours,
}
use mcdma.Daemon.System.Sends.{Sends, Sends-none, Sends-one, Sends-both, Sends-if}

abbrev pub Same : Connector → Connector → Type 0
Same s s' =
    (s'.up ≡ s.up)
    × (s'.waiting ≡ s.waiting)
    × (s'.qp ≡ s.qp)
    × (s'.session ≡ s.session)
    × (s'.peer_session ≡ s.peer_session)
    × (s'.first ≡ s.first)
    × (s'.confirm ≡ s.confirm)
    × (s'.remote ≡ s.remote)

-- a datagram of the connect end that is not an offer
pub record IsPlain (session : ℕ) (d : Datagram) : Type 0 where
  pub from : d.from ≡ session
  pub kind : is_offer d ≡ false
  pub role : d.role ≡ connect

pub data Own (s : Connector) (d : Datagram) : Type 0 where
  plain : IsPlain s.session d → Own s d
  first : s.waiting ≡ true → d ≡ s.first → Own s d
  confirm : s.up ≡ true → d ≡ s.confirm → Own s d

pub data Effect (s : Connector) (r : Connector × List Datagram) : Type 0 where
  kept : Same s r.0 → Sends (Own s) r.1 → Effect s r
  down :
      r.0.up ≡ false
      → r.0.waiting ≡ false
      → r.0.session ≡ s.session
      → Sends (IsPlain s.session) r.1
      → Effect s r

pub Same-refl : (s : Connector) → Same s s
Same-refl s = (refl, refl, refl, refl, refl, refl, refl, refl)

pub idles : (s : Connector) → Effect s (s, [])
idles s = kept (Same-refl s) (Sends-none (Own s))

pub plainly : (session to : ℕ) → IsPlain session (answer session to bye connect no_info)
plainly session to = record { from = refl; kind = refl; role = refl }

pub peer_down-effect : (s : Connector) → Effect s (peer_down s)
unfolding peer_down
peer_down-effect s =
    down refl refl refl
      (Sends-if (IsPlain s.session) (s.peer_session != 0) (λ _. plainly s.session s.peer_session))

pub peer_wait-effect : (now : ℕ) (s : Connector) → s.waiting ≡ true → Effect s (peer_wait now s)
unfolding peer_wait
peer_wait-effect now s w =
    if_lem (Effect s) (leb s.deadline now) (λ _. peer_down-effect s)
      (λ _.
        if_lem (Effect s) (leb s.resend now)
          (λ _. kept (Same-refl s) (Sends-one (Own s) (first w refl))) (λ _. idles s))

pub serve_datagram-effect :
    (now : ℕ) (m : Datagram) (s : Connector) → s.up ≡ true → Effect s (serve_datagram now m s)
unfolding serve_datagram
serve_datagram-effect now m s u =
    if_lem (Effect s) (not (from_listen m) || not (xchg_ours s m)) (λ _. idles s)
      (λ _.
        if_lem (Effect s) (is_refusal m) (λ _. peer_down-effect s)
          (λ _.
            if_lem (Effect s) (m.from != s.peer_session) (λ _. idles s)
              (λ _. kept (Same-refl s) (Sends-if (Own s) (is_offer m) (λ _. confirm u refl)))))

pings :
    (now : ℕ) (s : Connector)
    → Same s (serve_ping now s).0 × Sends (IsPlain s.session) (serve_ping now s).1
unfolding serve_ping
pings now s =
    if_lem (λ (r : Connector × List Datagram). Same s r.0 × Sends (IsPlain s.session) r.1)
      (leb ping_ns (now - s.pinged))
      (λ _. (
        Same-refl s,
        Sends-one (IsPlain s.session) (record { from = refl; kind = refl; role = refl }),
      ))
      (λ _. (Same-refl s, Sends-none (IsPlain s.session)))

pub peer_down-IsPlain : (s : Connector) → Sends (IsPlain s.session) (peer_down s).1
unfolding peer_down
peer_down-IsPlain s =
    Sends-if (IsPlain s.session) (s.peer_session != 0) (λ _. plainly s.session s.peer_session)

pub serve_timers-effect : (now : ℕ) (s : Connector) → Effect s (serve_timers now s)
unfolding serve_timers peer_down
serve_timers-effect now s =
    let (same, plain_ping) = pings now s in
    let probed : Connector = (serve_ping now s).0 in
    let session : probed.session ≡ s.session = same.3 in
    let farewell : Sends (IsPlain s.session) (peer_down probed).1 =
      subst (λ n. Sends (IsPlain n) (peer_down probed).1) session (peer_down-IsPlain probed) in
    if_lem (Effect s) (not s.up) (λ _. idles s)
      (λ _.
        if_lem (Effect s) (ltb liveness_ns (now - s.heard))
          (λ _.
            down refl refl session
              (Sends-both (IsPlain s.session) (serve_ping now s).1 plain_ping farewell))
          (λ _. kept same (λ d m. plain (plain_ping d m))))

-- The counters and the mailbox's words are beside the point.
own-same : {s s' : Connector} {d : Datagram} → Same s s' → Own s' d → Own s d
own-same {s} {d} (up, waiting, _, session, _, first', confirm', _) o = elim o [
  | plain p ↦ plain (subst (λ n. IsPlain n d) session p)
  | first w e ↦ first (sym waiting ∙ w) (e ∙ first')
  | confirm u e ↦ confirm (sym up ∙ u) (e ∙ confirm')
]

Same-trans : (s s' s'' : Connector) → Same s s' → Same s' s'' → Same s s''
Same-trans s s' s'' (a, b, c, d, e, f, g, h) (a', b', c', d', e', f', g', h') =
    (a' ∙ a, b' ∙ b, c' ∙ c, d' ∙ d, e' ∙ e, f' ∙ f, g' ∙ g, h' ∙ h)

pub effect-same :
    {s s' : Connector} {r : Connector × List Datagram} → Same s s' → Effect s' r → Effect s r
effect-same {s} {s'} {r} e f = elim f [
  | kept same own ↦ kept (Same-trans s s' r.0 e same) (λ d m. own-same e (own d m))
  | down u w session sent ↦ down u w (session ∙ e.3) (subst (λ n. Sends (IsPlain n) r.1) e.3 sent)
]

pub thread_failed-effect : (s : Connector) → Effect s (thread_failed s)
unfolding thread_failed
thread_failed-effect s =
    effect-same (Same-refl s) (peer_down-effect (record s { failures = s.failures + 1 }))

pub thread_request-effect :
    (b : Setup) (direct lands : Bool) (s : Connector) → Effect s (thread_request b direct lands s)
unfolding thread_request
thread_request-effect b direct lands s =
    let len : ℕ = word_len s.req_word in
    let seq : ℕ = word_seq s.req_word in
    let keeps : (s' : Connector) → Same s s' → Effect s (s', []) =
      λ s' e. kept e (Sends-none (Own s)) in
    if_lem (Effect s) (seq == 0 || seq == s.last) (λ _. idles s)
      (λ _.
        if_lem (Effect s) (ltb (b.req - ctrl) len) (λ _. keeps _ (Same-refl s))
          (λ _.
            if_lem (Effect s) (not lands)
              (λ _. effect-same (Same-refl s) (thread_failed-effect (record s { last = seq })))
              (λ _.
                if_lem (Effect s) direct (λ _. keeps _ (Same-refl s))
                  (λ _. keeps _ (Same-refl s)))))

pub thread_reply-effect :
    (b : Setup) (reads : Bool) (seq : ℕ) (s : Connector) → Effect s (thread_reply b reads seq s)
unfolding thread_reply
thread_reply-effect b reads seq s =
    if_lem (Effect s) (not s.up) (λ _. kept (Same-refl s) (Sends-none (Own s)))
      (λ _.
        if_lem (Effect s) (word_seq s.ready_word != seq) (λ _. thread_failed-effect s)
          (λ _.
            if_lem (Effect s) (ltb (b.rep - ctrl) (word_len s.ready_word))
              (λ _. thread_failed-effect s)
              (λ _.
                if_lem (Effect s) (not reads) (λ _. thread_failed-effect s)
                  (λ _. kept (Same-refl s) (Sends-none (Own s))))))
