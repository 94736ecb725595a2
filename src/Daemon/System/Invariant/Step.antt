-- ===== src/Daemon/System/Invariant/Step.antt =====
-- The invariant holds at the start and is kept by every step of either end.
use mathlib.Core.Path.{subst}
use mathlib.Core.Bool.{true≢false}
use mathlib.Core.List.{Memᴰ}
use mathlib.Core.List.Memᴰ
use mcdma.Prelude.{
  ℕ, Bool, false, Option, none, some, List, [], ◌∷◌, ◌≡◌, ◌≢◌, refl, sym, ap, ◌∙◌, ◌==◌,
}
use mcdma.Wire.{Info}
use mcdma.Daemon.{direct_mode, Datagram, connect, listen, Setup}
use mcdma.Daemon.Connect.{peer_down, peer_begin, connect_datagram, confirmation, established}
use mcdma.Daemon.Listen.{Listener, Chance, listen_datagram}
use mcdma.Daemon.System.{
  LinkState, idle, draws, connect_acts, listen_acts, Step, begins, waits, gives_up, connect_hears,
  serves, connect_fails, requests, replies, listen_hears, listen_times, attaches, listen_fails,
  stages, Reach, start, later,
}
use mcdma.Daemon.System.Sends.{Sends, Sends-none, Sends-one}
use mcdma.Daemon.System.Connecting as Connecting
use mcdma.Daemon.System.Connecting.{
  peer_down-effect, peer_wait-effect, serve_timers-effect, thread_failed-effect,
  thread_request-effect, thread_reply-effect,
}
use mcdma.Daemon.System.Answering as Answering
use mcdma.Daemon.System.Answering.{connect_datagram-Heard}
use mcdma.Daemon.System.Offering as Offering
use mcdma.Daemon.System.Offering.{listen_datagram-Heard}
use mcdma.Daemon.System.Listening as Listening
use mcdma.Daemon.System.Listening.{
  listen_timeouts-effect, attach-effect, progress_failed-effect, listen_staged-effect,
}
use mcdma.Daemon.System.Invariant.{DrawnInv, Inv}
use mcdma.Daemon.System.Invariant.ConnectEnd.{ConnectInv-begin, ConnectInv-answered}
use mcdma.Daemon.System.Invariant.ListenEnd.{ListenInv-offered}
use mcdma.Daemon.System.Invariant.Acts.{connect_inv, listen_inv, connect-Inv-acts, listen-Inv-acts}

unsent :
    (w : LinkState) (fresh : ℕ)
    → DrawnInv w
    → (Memᴰ fresh w.used → ⊥)
    → Sends (λ d. d.from ≢ fresh) w.net
unsent w fresh drawn new d m e = new (Memᴰ.cast (sym e) (drawn.net d m))

module _ (bc bl : Setup) (mode : ℕ) where
  begins-Inv :
      (w : LinkState) (creates : Option Info) (fresh now : ℕ)
      → Inv bc bl mode w
      → w.c.up ≡ false
      → (Memᴰ fresh w.used → ⊥)
      → Inv bc bl mode (draws fresh (connect_acts (peer_begin bc mode creates fresh now w.c) w))
  unfolding peer_begin
  begins-Inv w none fresh now inv down new =
      connect-Inv-acts bc bl mode w (peer_down w.c) (fresh ∷ w.used) inv (λ n m. Memᴰ.tail m)
        (peer_down-effect w.c)
  begins-Inv w (some mine) fresh now inv down new =
      connect_inv bc bl mode w (peer_begin bc mode (some mine) fresh now w.c) (fresh ∷ w.used) inv
        (λ n m. Memᴰ.tail m)
        (ConnectInv-begin bc mode (some mine) fresh now w.c inv.connector down
          (unsent w fresh inv.drawn new))
        (Memᴰ.head refl) (Sends-none (λ d. Memᴰ d.from (fresh ∷ w.used)))
        (Sends-none (λ d. d.role ≡ connect))

  connect_hears-Inv :
      (w : LinkState) (m : Datagram) (connects : Bool) (early now : ℕ)
      → Inv bc bl mode w
      → Memᴰ m w.net
      → Inv bc bl mode (connect_acts (connect_datagram bc mode connects early now m w.c) w)
  connect_hears-Inv w m connects early now inv sent =
      elim (connect_datagram-Heard bc mode connects early now m w.c) [
        | Answering.Heard.other f ↦ connect-Inv-acts bc bl mode w _ w.used inv (λ n k. k) f
        | Answering.Heard.answered asked a e ↦
            subst (λ r. Inv bc bl mode (connect_acts r w)) (sym e)
              (connect_inv bc bl mode w
                (established bc mode early now m w.c, confirmation bc mode m w.c ∷ []) w.used inv
                (λ n k. k) (ConnectInv-answered bc mode early now m w.c inv.connector asked sent a)
                inv.drawn.connector (Sends-one (λ d. Memᴰ d.from w.used) inv.drawn.connector)
                (Sends-one (λ d. d.role ≡ connect) refl))
      ]

  -- After an offer the session is the old one or the new one, and so are those of what was sent.
  offered-drawn :
      (w : LinkState) (fresh : ℕ) (m : Datagram) (r : Listener × List Datagram)
      → Inv bc bl mode w
      → Offering.Offered bl fresh m w.l.session r
      → Memᴰ r.0.session (fresh ∷ w.used)
        × Sends (λ d. Memᴰ d.from (fresh ∷ w.used) × (d.role ≡ listen)) r.1
  offered-drawn w fresh m r inv o =
      let old : Memᴰ w.l.session (fresh ∷ w.used) = Memᴰ.tail inv.drawn.listener in
      let plainly : (d : Datagram)
          → Listening.IsPlain w.l.session d
          → Memᴰ d.from (fresh ∷ w.used) × (d.role ≡ listen) =
        λ d p. (Memᴰ.cast p.from old, p.role) in
      elim o [
        | Offering.Offered.refuses _ _ session sent ↦
            (Memᴰ.cast session old, λ d k. plainly d (sent d k))
        | Offering.Offered.accepts g sent ↦ (
          Memᴰ.head g.session,
          λ d k. elim (sent d k) [
            | Offering.Spoken.said p ↦ plainly d p
            | Offering.Spoken.replied e ↦
                let e' = e ∙ g.reply in (Memᴰ.head (ap (λ x. x.from) e'), ap (λ x. x.role) e')
          ],
        )
      ]

  listen_hears-Inv :
      (w : LinkState) (chance : Chance) (now : ℕ) (m : Datagram)
      → Inv bc bl mode w
      → Memᴰ m w.net
      → (Memᴰ chance.fresh w.used → ⊥)
      → Inv bc bl mode (draws chance.fresh (listen_acts (listen_datagram bl chance now m w.l) w))
  listen_hears-Inv w chance now m inv sent new =
      let used : List ℕ = chance.fresh ∷ w.used in
      elim (listen_datagram-Heard bl chance now m w.l inv.listener.sound) [
        | Offering.Heard.other f ↦ listen-Inv-acts bc bl mode w _ used inv (λ n k. Memᴰ.tail k) f
        | Offering.Heard.offers role kind o ↦
            listen_inv bc bl mode w _ used inv (λ n k. Memᴰ.tail k)
              (ListenInv-offered bl chance.fresh m w.l _ (unsent w chance.fresh inv.drawn new) sent
                role kind o)
              (offered-drawn w chance.fresh m _ inv o).0
              (λ d k. ((offered-drawn w chance.fresh m _ inv o).1 d k).0)
              (λ d k. ((offered-drawn w chance.fresh m _ inv o).1 d k).1)
      ]

  step-Inv : (w w' : LinkState) → Inv bc bl mode w → Step bc bl mode w w' → Inv bc bl mode w'
  step-Inv w w' inv (begins creates fresh now down _ new) =
      begins-Inv w creates fresh now inv down new
  step-Inv w w' inv (waits now e) =
      connect-Inv-acts bc bl mode w _ w.used inv (λ n k. k) (peer_wait-effect now w.c e)
  step-Inv w w' inv gives_up =
      connect-Inv-acts bc bl mode w _ w.used inv (λ n k. k) (peer_down-effect w.c)
  step-Inv w w' inv (connect_hears m connects early now sent _) =
      connect_hears-Inv w m connects early now inv sent
  step-Inv w w' inv (serves now) =
      connect-Inv-acts bc bl mode w _ w.used inv (λ n k. k) (serve_timers-effect now w.c)
  step-Inv w w' inv (connect_fails _) =
      connect-Inv-acts bc bl mode w _ w.used inv (λ n k. k) (thread_failed-effect w.c)
  step-Inv w w' inv (requests staged lands _) =
      connect-Inv-acts bc bl mode w _ w.used inv (λ n k. k)
        (Connecting.effect-same (Connecting.Same-refl w.c)
          (thread_request-effect bc (mode == direct_mode) lands (record w.c { req_word = staged })))
  step-Inv w w' inv (replies written seq reads) =
      connect-Inv-acts bc bl mode w _ w.used inv (λ n k. k)
        (Connecting.effect-same (Connecting.Same-refl w.c)
          (thread_reply-effect bc reads seq (record w.c { ready_word = written })))
  step-Inv w w' inv (listen_hears chance now m sent _ new) =
      listen_hears-Inv w chance now m inv sent new
  step-Inv w w' inv (listen_times now) =
      listen-Inv-acts bc bl mode w _ w.used inv (λ n k. k)
        (listen_timeouts-effect now w.l inv.listener.sound)
  step-Inv w w' inv attaches =
      listen-Inv-acts bc bl mode w _ w.used inv (λ n k. k) (attach-effect w.l inv.listener.sound)
  step-Inv w w' inv listen_fails =
      listen-Inv-acts bc bl mode w _ w.used inv (λ n k. k)
        (progress_failed-effect w.l inv.listener.sound)
  step-Inv w w' inv (stages staged lands) =
      listen-Inv-acts bc bl mode w _ w.used inv (λ n k. k)
        (Listening.effect-same (Listening.Same-refl w.l)
          (listen_staged-effect bl lands (record w.l { staged_word = staged }) inv.listener.sound))

  idle-Inv : Inv bc bl mode idle
  idle-Inv = record {
    connector = record {
      first = λ h. absurd (true≢false (sym h));
      confirm = λ h. absurd (true≢false (sym h));
      asks = λ _ d m. absurd (Memᴰ.not-nil m);
      answer = λ h. absurd (true≢false (sym h));
    };
    listener = record {
      sound = λ h. h;
      replies = λ h. absurd (true≢false (sym h));
      greeting = λ h. absurd (true≢false (sym h));
    };
    drawn = record {
      connector = Memᴰ.head refl;
      listener = Memᴰ.head refl;
      net = λ d m. absurd (Memᴰ.not-nil m);
    };
  }

  pub Reach-Inv : (w : LinkState) → Reach bc bl mode w → Inv bc bl mode w
  Reach-Inv w start = idle-Inv
  Reach-Inv w (later {w = v} r s) = step-Inv v w (Reach-Inv v r) s
