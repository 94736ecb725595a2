-- ===== src/Daemon/System/Offering.antt =====
-- What a datagram does to the listen end of rpc/rpcd_listen.c: an operation on the session that it holds, or an
-- offer of another.
use mcdma.Prelude.{
  ℕ, Bool, true, false, not, ◌&&◌, ◌||◌, none, List, ◌++◌, ◌≡◌, refl, arith, if_lem, option_lem,
  both_left,
}
use mcdma.Wire.{Info}
use mcdma.Daemon.{Datagram, connected, listen, Setup, box_offer, box_refuse, is_offer, from_connect}
use mcdma.Daemon.Listen.{
  Listener, Chance, listen_drop, refused, welcome, listen_offer, is_ping, current, listen_datagram,
}
use mcdma.Daemon.System.Sends.{Sends, Sends-one, Sends-both, Sends-if}
use mcdma.Daemon.System.Listening.{
  IsPlain, Own, plain, IsSound, Effect, kept, Same-refl, idles, plainly, effect-same,
  listen_drop-IsPlain, current-kind,
}

-- A session that an offer began.
pub record IsGreeting (b : Setup) (fresh : ℕ) (m : Datagram) (s : Listener) : Type 0 where
  pub hello : s.hello ≡ true
  pub session : s.session ≡ fresh
  pub peer_session : s.peer_session ≡ m.from
  pub mine : Info
  pub qp : s.qp ≡ connected mine m.info
  pub reply : s.reply ≡ box_offer b mine fresh m.from listen m.info.mode true
  pub usable : box_refuse b m.info ≡ none

pub data Spoken (session : ℕ) (reply d : Datagram) : Type 0 where
  said : IsPlain session d → Spoken session reply d
  replied : d ≡ reply → Spoken session reply d

unarmed : (armed hello : Bool) → (armed ≡ true → hello ≡ true) → hello ≡ false → armed ≡ false
unarmed armed hello sound h = ground arith

-- What an offer does: it is refused, with no session left, or accepted.
pub data Offered (b : Setup) (fresh : ℕ) (m : Datagram) (session : ℕ) (r : Listener × List Datagram)
    : Type 0 where
  refuses :
      r.0.hello ≡ false
      → r.0.armed ≡ false
      → r.0.session ≡ session
      → Sends (IsPlain session) r.1
      → Offered b fresh m session r
  accepts :
      IsGreeting b fresh m r.0 → Sends (Spoken session r.0.reply) r.1 → Offered b fresh m session r

refused-IsPlain : (s : Listener) (m : Datagram) → Sends (IsPlain s.session) (refused s m)
refused-IsPlain s m =
    Sends-one (IsPlain s.session) (record { from = refl; kind = refl; role = refl })

welcome-offered :
    (b : Setup) (chance : Chance) (now : ℕ) (m : Datagram) (s : Listener)
    → s.hello ≡ false
    → s.armed ≡ false
    → Offered b chance.fresh m s.session (welcome b chance now m s)
unfolding welcome
welcome-offered b chance now m s h a =
    let P : Listener × List Datagram → Type 0 = Offered b chance.fresh m s.session in
    option_lem P (box_refuse b m.info)
      (λ usable.
        option_lem P chance.creates (λ _. refuses h a refl (refused-IsPlain s m))
          (λ mine _.
            if_lem P chance.connects
              (λ _.
                accepts
                  (record {
                    hello = refl;
                    session = refl;
                    peer_session = refl;
                    mine = mine;
                    qp = refl;
                    reply = refl;
                    usable = usable;
                  })
                  (Sends-one (Spoken s.session _) (replied refl)))
              (λ _. refuses h a refl (refused-IsPlain s m))))
      (λ _ _. refuses h a refl (refused-IsPlain s m))

prepend :
    {b : Setup} {fresh : ℕ} {m : Datagram} {session : ℕ} {r : Listener × List Datagram}
    (farewell : List Datagram)
    → Sends (IsPlain session) farewell
    → Offered b fresh m session r
    → Offered b fresh m session (r.0, farewell ++ r.1)
prepend {session} {r} farewell plainly o = elim o [
  | refuses h a e sent ↦ refuses h a e (Sends-both (IsPlain session) farewell plainly sent)
  | accepts g sent ↦
      accepts g (Sends-both (Spoken session r.0.reply) farewell (λ d k. said (plainly d k)) sent)
]

listen_offer-offered :
    (b : Setup) (chance : Chance) (now : ℕ) (m : Datagram) (s : Listener)
    → IsSound s
    → Offered b chance.fresh m s.session (listen_offer b chance now m s)
unfolding listen_offer listen_drop
listen_offer-offered b chance now m s sound =
    if_lem (Offered b chance.fresh m s.session) s.hello
      (λ _.
        prepend (listen_drop s).1 (listen_drop-IsPlain s)
          (welcome-offered b chance now m (listen_drop s).0 refl refl))
      (λ h. welcome-offered b chance now m s h (unarmed s.armed s.hello sound h))

resets :
    {b : Setup} {fresh : ℕ} {m : Datagram} {session : ℕ} {r : Listener × List Datagram}
    → Offered b fresh m session r
    → Offered b fresh m session (record r.0 { last_staged = 0 }, r.1)
resets o = elim o [
  | refuses h a e sent ↦ refuses h a e sent
  | accepts g sent ↦
      accepts
        (record {
          hello = g.hello;
          session = g.session;
          peer_session = g.peer_session;
          mine = g.mine;
          qp = g.qp;
          reply = g.reply;
          usable = g.usable;
        })
        sent
]

not-false : (b : Bool) → not b ≡ false → b ≡ true
not-false b h = ground arith

pub data Heard (b : Setup) (fresh : ℕ) (m : Datagram) (s : Listener) (r : Listener × List Datagram)
    : Type 0 where
  other : Effect s r → Heard b fresh m s r
  offers :
      from_connect m ≡ true
      → is_offer m ≡ true
      → Offered b fresh m s.session r
      → Heard b fresh m s r

pub listen_datagram-Heard :
    (b : Setup) (chance : Chance) (now : ℕ) (m : Datagram) (s : Listener)
    → IsSound s
    → Heard b chance.fresh m s (listen_datagram b chance now m s)
unfolding listen_datagram
listen_datagram-Heard b chance now m s sound =
    let P : Listener × List Datagram → Type 0 = Heard b chance.fresh m s in
    if_lem P (not (from_connect m)) (λ _. other (idles s sound))
      (λ role.
        if_lem P (is_offer m && not (current s m) && not m.have)
          (λ first.
            offers (not-false (from_connect m) role)
              (both_left (is_offer m) _ (both_left (is_offer m && not (current s m)) _ first))
              (resets (listen_offer-offered b chance now m s sound)))
          (λ _.
            if_lem P (not (current s m))
              (λ _. other (
                kept (Same-refl s) sound (
                  Sends-if (Own s) (is_ping m || is_offer m)
                    (λ _. plain (plainly s.session m.from)))))
              (λ here. other (
                effect-same (Same-refl s) (
                  current-kind m.kind m (record s { heard = now }) refl
                    (both_left s.hello _ (not-false (current s m) here)))))))
