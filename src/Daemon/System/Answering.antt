-- ===== src/Daemon/System/Answering.antt =====
-- What a datagram does to the connect end of rpc/rpcd_connect.c: the answer that brings the link up, or an
-- operation as the others.
use mcdma.Prelude.{
  ℕ, Bool, true, not, ◌||◌, none, List, [], ◌∷◌, ◌!=◌, ◌≡◌, refl, if_lem, option_lem, neither_left,
  neither_right, ==_iff,
}
use mcdma.Wire.{no_info}
use mcdma.Daemon.{Datagram, connect, err, Setup, answer, box_refuse, is_offer, from_listen}
use mcdma.Daemon.Connect.{
  Connector, peer_down, peer_hears, peer_answered, connect_datagram, established, confirmation,
  is_refusal, xchg_ours,
}
use mcdma.Daemon.System.Sends.{Sends-one, Sends-both, Sends-if}
use mcdma.Daemon.System.Connecting.{
  IsPlain, Effect, down, idles, plainly, peer_down-effect, peer_down-IsPlain, serve_datagram-effect,
}

-- A datagram that ends the wait: an offer of the listen end to this session, which the mailbox can use.
pub record IsAnswer (b : Setup) (session : ℕ) (m : Datagram) : Type 0 where
  pub role : from_listen m ≡ true
  pub kind : is_offer m ≡ true
  pub to : m.to ≡ session
  pub usable : box_refuse b m.info ≡ none

pub data Heard (b : Setup) (mode early now : ℕ) (m : Datagram) (s : Connector)
    (r : Connector × List Datagram) : Type 0 where
  other : Effect s r → Heard b mode early now m s r
  answered :
      s.waiting ≡ true
      → IsAnswer b s.session m
      → r ≡ (established b mode early now m s, confirmation b mode m s ∷ [])
      → Heard b mode early now m s r

peer_answered-Heard :
    (b : Setup) (mode : ℕ) (connects : Bool) (early now : ℕ) (m : Datagram) (s : Connector)
    → s.waiting ≡ true
    → IsAnswer b s.session m
    → Heard b mode early now m s (peer_answered b mode connects early now m s)
unfolding peer_answered peer_down
peer_answered-Heard b mode connects early now m s w a =
    if_lem (Heard b mode early now m s) connects (λ _. answered w a refl)
      (λ _. other (
        down refl refl refl
          (Sends-if (IsPlain s.session) (m.from != 0) (λ _. plainly s.session m.from))))

pub peer_hears-Heard :
    (b : Setup) (mode : ℕ) (connects : Bool) (early now : ℕ) (m : Datagram) (s : Connector)
    → s.waiting ≡ true
    → Heard b mode early now m s (peer_hears b mode connects early now m s)
unfolding peer_hears peer_down
peer_hears-Heard b mode connects early now m s w =
    if_lem (Heard b mode early now m s) (not (from_listen m) || not (xchg_ours s m))
      (λ _. other (idles s))
      (λ mine.
        if_lem (Heard b mode early now m s) (is_refusal m) (λ _. other (peer_down-effect s))
          (λ _.
            if_lem (Heard b mode early now m s) (not (is_offer m) || not m.have)
              (λ _. other (idles s))
              (λ offers.
                option_lem (Heard b mode early now m s) (box_refuse b m.info)
                  (λ usable. peer_answered-Heard b mode connects early now m s w (record {
                    role = neither_left (from_listen m) (xchg_ours s m) mine;
                    kind = neither_left (is_offer m) m.have offers;
                    to =
                        (==_iff m.to s.session).0
                          (neither_right (from_listen m) (xchg_ours s m) mine);
                    usable = usable;
                  }))
                  (λ _ _. other (
                    down refl refl refl (
                      Sends-both (IsPlain s.session)
                        (answer s.session m.from err connect no_info ∷ [])
                        (Sends-one (IsPlain s.session)
                          (record { from = refl; kind = refl; role = refl }))
                        (peer_down-IsPlain s)))))))

pub connect_datagram-Heard :
    (b : Setup) (mode : ℕ) (connects : Bool) (early now : ℕ) (m : Datagram) (s : Connector)
    → Heard b mode early now m s (connect_datagram b mode connects early now m s)
unfolding connect_datagram
connect_datagram-Heard b mode connects early now m s =
    if_lem (Heard b mode early now m s) s.waiting
      (λ w. peer_hears-Heard b mode connects early now m s w)
      (λ _.
        if_lem (Heard b mode early now m s) s.up (λ u. other (serve_datagram-effect now m s u))
          (λ _. other (idles s)))
