-- ===== src/Daemon.antt =====
-- mcdma-rpcd, rpc/rpcd.h and rpc/rpcd_verbs.c: what both ends of a link share. The 16 bytes of a session
-- are one number, 0 for the zeros that mark no session. A queue pair is what became of it: the device's
-- answers to its creation and connection are the caller's. Text and logging are left out.
use mcdma.Prelude.{
  ℕ, zero, suc, ◌+◌, ◌-◌, ◌*◌, ◌/◌, ◌%◌, ◌^◌, Bool, true, false, not, ◌&&◌, ◌||◌, Option, none,
  some, List, [], ◌∷◌, ◌++◌, ltb, leb, ◌==◌, ◌!=◌, if◌then◌else◌, get_or,
}
use mcdma.Wire.{Table, Info, roce, tb}
use mcdma.Verbs.{Region, Piece, region_lkey, cut, table_valid}
pub mod Usable
pub mod Lines
pub mod Listen
pub mod Connect
pub mod Transfer
pub mod System

abbrev pub handshake_ns : ℕ
handshake_ns = 10 * 1000000000

abbrev pub liveness_ns : ℕ
liveness_ns = 6 * 1000000000

abbrev pub resend_ns : ℕ
resend_ns = 100000000

abbrev pub ping_ns : ℕ
ping_ns = liveness_ns / 6

-- CTRL and SEG
abbrev pub ctrl : ℕ
ctrl = 4096

abbrev pub seg_bytes : ℕ
seg_bytes = 4 * 2 ^ 20

-- MODE_DIRECT
abbrev pub direct_mode : ℕ
direct_mode = 1

-- WORD, WORD_SEQ and WORD_LEN
abbrev pub word : ℕ → ℕ → ℕ
word seq len = seq % 2 ^ 32 * 2 ^ 32 + len % 2 ^ 32

abbrev pub word_seq : ℕ → ℕ
word_seq w = w / 2 ^ 32 % 2 ^ 32

abbrev pub word_len : ℕ → ℕ
word_len w = w % 2 ^ 32

-- X_OFFER, X_PING, X_PONG, X_BYE, X_ERR, or a kind that neither end knows
pub data Kind : Type 0 where
  offer ping pong bye err strange : Kind

-- ROLE_CONNECT, ROLE_LISTEN, or another
pub data Role : Type 0 where
  connect listen stranger : Role

-- the parts of `struct xmsg` that the daemon looks at; `have` is the flag X_HAVE
pub record Datagram : Type 0 where
  pub kind : Kind
  pub role : Role
  pub have : Bool
  pub from : ℕ
  pub to : ℕ
  pub info : Info

abbrev pub is_offer : Datagram → Bool
is_offer m = elim m.kind [ offer ↦ true | _ ↦ false ]

abbrev pub from_connect : Datagram → Bool
from_connect m = elim m.role [ connect ↦ true | _ ↦ false ]

abbrev pub from_listen : Datagram → Bool
from_listen m = elim m.role [ listen ↦ true | _ ↦ false ]

-- `ep->qp`: none, created with what `ep_info` says of it, or connected to the peer of an offer
pub data Qp : Type 0 where
  no_qp : Qp
  created : Info → Qp
  connected : Info → Info → Qp

-- what an end is started with: its link's kind and the halves of its mailbox
pub record Setup : Type 0 where
  pub kind : ℕ
  pub req : ℕ
  pub rep : ℕ

-- `xchg_prepare`, from the two sessions of an exchange, with an offer's info
abbrev pub prepared : ℕ → ℕ → Kind → Role → Bool → Info → Datagram
prepared session peer_session kind role have info = record {
  kind = kind;
  role = role;
  have = have;
  from = session;
  to = peer_session;
  info = info;
}

-- the info that `box_offer` sends of the queue pair's info `mine`
abbrev pub offered : Setup → Info → ℕ → Info
offered b mine mode = record mine { mode = mode; req = b.req; rep = b.rep }

-- `box_offer` of the queue pair's info `mine`
abbrev pub box_offer : Setup → Info → ℕ → ℕ → Role → ℕ → Bool → Datagram
box_offer b mine session peer_session role mode have =
    prepared session peer_session offer role have (offered b mine mode)

-- `xchg_answer`: the datagram to one session of the peer
abbrev pub answer : ℕ → ℕ → Kind → Role → Info → Datagram
answer session to kind role nothing = prepared session to kind role false nothing

-- The answers of `box_refuse`.
pub data Refusal : Type 0 where
  other_kind other_sizes no_pull malformed : Refusal

-- `box_refuse`
unfoldable pub box_refuse : Setup → Info → Option Refusal
box_refuse b peer =
    if peer.transport != b.kind
    then some other_kind
    else if peer.req != b.req || peer.rep != b.rep
    then some other_sizes
    else if b.kind == tb && peer.mode != direct_mode
    then some no_pull
    else if not (table_valid peer.table (b.req + b.rep) (b.kind == roce))
    then some malformed
    else none
