-- ===== src/Daemon/System/Invariant/Acts.antt =====
-- What one end's operation keeps of the whole invariant, when it leaves that end's sessions as they are.
use mathlib.Core.List.{Memᴰ}
use mathlib.Core.List.Memᴰ
use mcdma.Prelude.{ℕ, List, ◌++◌, ◌≡◌, ap, ◌∙◌}
use mcdma.Daemon.{Datagram, connect, listen, Setup}
use mcdma.Daemon.Connect.{Connector}
use mcdma.Daemon.Listen.{Listener}
use mcdma.Daemon.System.{LinkState}
use mcdma.Daemon.System.Sends.{Sends, Sends-both}
use mcdma.Daemon.System.Connecting as Connecting
use mcdma.Daemon.System.Connecting.{
  peer_down-effect, peer_wait-effect, serve_timers-effect, thread_failed-effect,
  thread_request-effect, thread_reply-effect,
}
use mcdma.Daemon.System.Listening as Listening
use mcdma.Daemon.System.Listening.{
  listen_timeouts-effect, attach-effect, progress_failed-effect, listen_staged-effect,
}
use mcdma.Daemon.System.Invariant.{ConnectInv, ListenInv, Inv}
use mcdma.Daemon.System.Invariant.ConnectEnd.{own-says, ConnectInv-effect, ConnectInv-foreign}
use mcdma.Daemon.System.Invariant.ListenEnd.{ListenInv-effect, ListenInv-foreign}

module _ (bc bl : Setup) (mode : ℕ) where
  pub connect_inv :
      (w : LinkState) (r : Connector × List Datagram) (used : List ℕ)
      → Inv bc bl mode w
      → ((n : ℕ) → Memᴰ n w.used → Memᴰ n used)
      → ConnectInv bc mode r.0 (r.1 ++ w.net)
      → Memᴰ r.0.session used
      → Sends (λ d. Memᴰ d.from used) r.1
      → Sends (λ d. d.role ≡ connect) r.1
      → Inv bc bl mode (record w { c = r.0; net = r.1 ++ w.net; used = used })
  connect_inv w r used inv more here drawn from role = record {
    connector = here;
    listener = ListenInv-foreign bl w.l r.1 inv.listener role;
    drawn = record {
      connector = drawn;
      listener = more w.l.session inv.drawn.listener;
      net = Sends-both (λ d. Memᴰ d.from used) r.1 from (λ d m. more d.from (inv.drawn.net d m));
    };
  }

  pub listen_inv :
      (w : LinkState) (r : Listener × List Datagram) (used : List ℕ)
      → Inv bc bl mode w
      → ((n : ℕ) → Memᴰ n w.used → Memᴰ n used)
      → ListenInv bl r.0 (r.1 ++ w.net)
      → Memᴰ r.0.session used
      → Sends (λ d. Memᴰ d.from used) r.1
      → Sends (λ d. d.role ≡ listen) r.1
      → Inv bc bl mode (record w { l = r.0; net = r.1 ++ w.net; used = used })
  listen_inv w r used inv more here drawn from role = record {
    connector = ConnectInv-foreign bc mode w.c r.1 inv.connector role;
    listener = here;
    drawn = record {
      connector = more w.c.session inv.drawn.connector;
      listener = drawn;
      net = Sends-both (λ d. Memᴰ d.from used) r.1 from (λ d m. more d.from (inv.drawn.net d m));
    };
  }

  pub connect-Inv-acts :
      (w : LinkState) (r : Connector × List Datagram) (used : List ℕ)
      → Inv bc bl mode w
      → ((n : ℕ) → Memᴰ n w.used → Memᴰ n used)
      → Connecting.Effect w.c r
      → Inv bc bl mode (record w { c = r.0; net = r.1 ++ w.net; used = used })
  connect-Inv-acts w r used inv more f =
      let drawn : Memᴰ w.c.session used = more w.c.session inv.drawn.connector in
      let here : ConnectInv bc mode r.0 (r.1 ++ w.net) =
        ConnectInv-effect bc mode w.c r inv.connector f in
      elim f [
        | Connecting.Effect.kept same own ↦
            connect_inv w r used inv more here (Memᴰ.cast same.3 drawn)
              (λ d m. Memᴰ.cast (own-says bc mode w.c w.net inv.connector d (own d m)).0 drawn)
              (λ d m. (own-says bc mode w.c w.net inv.connector d (own d m)).1)
        | Connecting.Effect.down _ _ session plain ↦
            connect_inv w r used inv more here (Memᴰ.cast session drawn)
              (λ d m.
                let p : Connecting.IsPlain w.c.session d = plain d m in Memᴰ.cast p.from drawn)
              (λ d m. let p : Connecting.IsPlain w.c.session d = plain d m in p.role)
      ]

  listen_own :
      (l : Listener) (net : List Datagram) (d : Datagram)
      → ListenInv bl l net
      → Listening.Own l d
      → (d.from ≡ l.session) × (d.role ≡ listen)
  listen_own l net d inv o = elim o [
    | Listening.Own.plain p ↦ (p.from, p.role)
    | Listening.Own.reply h e ↦
        let e' = e ∙ (inv.greeting h).reply in (ap (λ x. x.from) e', ap (λ x. x.role) e')
  ]

  pub listen-Inv-acts :
      (w : LinkState) (r : Listener × List Datagram) (used : List ℕ)
      → Inv bc bl mode w
      → ((n : ℕ) → Memᴰ n w.used → Memᴰ n used)
      → Listening.Effect w.l r
      → Inv bc bl mode (record w { l = r.0; net = r.1 ++ w.net; used = used })
  listen-Inv-acts w r used inv more f =
      let drawn : Memᴰ w.l.session used = more w.l.session inv.drawn.listener in
      let here : ListenInv bl r.0 (r.1 ++ w.net) = ListenInv-effect bl w.l r inv.listener f in
      elim f [
        | Listening.Effect.kept same _ own ↦
            listen_inv w r used inv more here (Memᴰ.cast same.2 drawn)
              (λ d m. Memᴰ.cast (listen_own w.l w.net d inv.listener (own d m)).0 drawn)
              (λ d m. (listen_own w.l w.net d inv.listener (own d m)).1)
        | Listening.Effect.dropped _ _ session plain ↦
            listen_inv w r used inv more here (Memᴰ.cast session drawn)
              (λ d m. let p : Listening.IsPlain w.l.session d = plain d m in Memᴰ.cast p.from drawn)
              (λ d m. let p : Listening.IsPlain w.l.session d = plain d m in p.role)
      ]
