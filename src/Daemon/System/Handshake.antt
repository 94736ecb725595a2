-- ===== src/Daemon/System/Handshake.antt =====
-- The handshake of rpc/rpcd_connect.c and rpc/rpcd_listen.c, run through: an offer, its answer and the confirmation.
use mcdma.Prelude.{
  ℕ, true, false, not, ◌&&◌, List, [], ◌∷◌, ◌++◌, none, some, ◌≡◌, refl, ap, if_lem,
}
use mcdma.Wire.{Info}
use mcdma.Daemon.{
  Datagram, offer, listen, Setup, box_offer, box_refuse, is_offer, from_connect, from_listen,
}
use mcdma.Daemon.Connect.{
  Connector, connect_datagram, peer_hears, peer_answered, established, confirmation, xchg_ours,
  is_refusal,
}
use mcdma.Daemon.Listen.{
  Listener, Chance, listen_drop, greeted, welcome, listen_offer, listen_current, current,
  listen_datagram,
}

abbrev pub luck : Info → ℕ → Chance
luck mine fresh = record { creates = some mine; connects = true; fresh = fresh }

welcome-greets :
    (b : Setup) (mine : Info) (fresh now : ℕ) (m : Datagram) (l : Listener)
    → box_refuse b m.info ≡ none
    → welcome b (luck mine fresh) now m l ≡ (
      greeted b (luck mine fresh) mine now m l,
      box_offer b mine fresh m.from listen m.info.mode true ∷ [],
    )
unfolding welcome
welcome-greets b mine fresh now m l e = rw (welcome, e) refl

offer-greets :
    (b : Setup) (mine : Info) (fresh now : ℕ) (m : Datagram) (l : Listener)
    → box_refuse b m.info ≡ none
    → (l' : Listener) × (sent : List Datagram) × (listen_offer b (luck mine fresh) now m l ≡ (
      greeted b (luck mine fresh) mine now m l',
      sent ++ box_offer b mine fresh m.from listen m.info.mode true ∷ [],
    ))
unfolding listen_offer
offer-greets b mine fresh now m l e =
    if_lem
      (λ (r : Listener × List Datagram).
        (l' : Listener) × (sent : List Datagram) × (r ≡ (
          greeted b (luck mine fresh) mine now m l',
          sent ++ box_offer b mine fresh m.from listen m.info.mode true ∷ [],
        )))
      l.hello
      (λ _. (
        (listen_drop l).0,
        (listen_drop l).1,
        ap (λ (r : Listener × List Datagram). (r.0, (listen_drop l).1 ++ r.1))
            (welcome-greets b mine fresh now m (listen_drop l).0 e),
      ))
      (λ _. (l, [], welcome-greets b mine fresh now m l e))

-- Whatever the listen end was at, a usable offer of another session is accepted.
pub greets :
    (b : Setup) (mine : Info) (fresh now : ℕ) (m : Datagram) (l : Listener)
    → box_refuse b m.info ≡ none
    → from_connect m ≡ true
    → (is_offer m && not (current l m) && not m.have) ≡ true
    → (l' : Listener) × (sent : List Datagram) × (listen_datagram b (luck mine fresh) now m l ≡ (
      record (greeted b (luck mine fresh) mine now m l') { last_staged = 0 },
      sent ++ box_offer b mine fresh m.from listen m.info.mode true ∷ [],
    ))
unfolding listen_datagram
greets b mine fresh now m l e role first =
    rw (role, first)
      (let (l', sent, e') = offer-greets b mine fresh now m l e in
        (l', sent, ap (λ (r : Listener × List Datagram). (record r.0 { last_staged = 0 }, r.1)) e'))

pub confirms :
    (b : Setup) (mode early now : ℕ) (m : Datagram) (c : Connector)
    → c.waiting ≡ true
    → box_refuse b m.info ≡ none
    → from_listen m ≡ true
    → xchg_ours c m ≡ true
    → is_refusal m ≡ false
    → is_offer m ≡ true
    → m.have ≡ true
    → connect_datagram b mode true early now m c
      ≡ (established b mode early now m c, confirmation b mode m c ∷ [])
unfolding connect_datagram peer_hears peer_answered
confirms b mode early now m c waiting usable role ours refusal kind have =
    rw (waiting, usable, role, ours, refusal, kind, have) refl

pub arms :
    (b : Setup) (chance : Chance) (now : ℕ) (m : Datagram) (l : Listener)
    → from_connect m ≡ true
    → m.kind ≡ offer
    → m.have ≡ true
    → current l m ≡ true
    → listen_datagram b chance now m l ≡ (record l { heard = now; armed = true }, [])
unfolding listen_datagram listen_current
arms b chance now m l role kind have here = rw (role, kind, have, here) refl
