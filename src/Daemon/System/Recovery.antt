-- ===== src/Daemon/System/Recovery.antt =====
-- From whatever state the two ends are in, the handshake of rpc/rpcd_connect.c and rpc/rpcd_listen.c can bring the
-- link up again.
use mathlib.Core.List.{Memᴰ}
use mathlib.Core.List.Memᴰ
use mcdma.Prelude.{ℕ, ◌+◌, true, false, List, [], ◌∷◌, ◌++◌, some}
use mcdma.Wire.{Info}
use mcdma.Daemon.{Datagram, connect, listen, Setup, box_offer}
use mcdma.Daemon.Connect.{peer_down, peer_begin, peer_wait, established, confirmation}
use mcdma.Daemon.Listen.{Listener, greeted}
use mcdma.Daemon.System.{LinkState, connect_acts, listen_acts, draws}
use mcdma.Daemon.System.Handshake.{luck}

-- a number above all of a list
abbrev above : List ℕ → ℕ
above [] = 0
above (n ∷ ns) = n + 1 + above ns

module _ (bc bl : Setup) (mode : ℕ) (mine theirs : Info) where
  abbrev down : LinkState → LinkState
  down w = connect_acts (peer_down w.c) w

  abbrev begun : LinkState → LinkState
  begun w =
      draws (above w.used)
        (connect_acts (peer_begin bc mode (some mine) (above w.used) 0 (down w).c) (down w))

  -- the link with the connect end's offer on the way
  abbrev asking : LinkState → LinkState
  asking w = connect_acts (peer_wait 0 (begun w).c) (begun w)

  abbrev first : LinkState → Datagram
  first w = box_offer bc mine (above w.used) 0 connect mode false

  abbrev reply : LinkState → Datagram
  reply w = box_offer bl theirs (above (asking w).used) (above w.used) listen mode true

  -- the link with the listen end's answer on the way
  abbrev answering : LinkState → Listener → List Datagram → LinkState
  answering w l sent = draws (above (asking w).used) (
      listen_acts
        (
          record (greeted bl (luck theirs (above (asking w).used)) theirs 0 (first w) l) {
            last_staged = 0;
          },
          sent ++ reply w ∷ [],
        )
        (asking w))

  -- the link with the connect end's confirmation on the way
  abbrev confirming : LinkState → Listener → List Datagram → LinkState
  confirming w l sent =
      connect_acts
        (
          established bc mode 0 0 (reply w) (asking w).c,
          confirmation bc mode (reply w) (asking w).c ∷ [],
        )
        (answering w l sent)

  -- the link as the confirmation leaves it
  abbrev armed : LinkState → Listener → List Datagram → LinkState
  armed w l sent = draws (above (confirming w l sent).used) (
      listen_acts (record (answering w l sent).l { heard = 0; armed = true }, [])
        (confirming w l sent))
