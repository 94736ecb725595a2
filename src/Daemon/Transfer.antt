-- ===== src/Daemon/Transfer.antt =====
-- `box_transfer` of rpc/rpcd_verbs.c and its calls in rpc/rpcd_connect.c and rpc/rpcd_listen.c: the payload to the
-- same offsets of the peer's mailbox, then the word. What Thunderbolt or the device do with it is not here.
use mcdma.Prelude.{
  ℕ, ◌+◌, ◌-◌, ◌*◌, ◌/◌, Bool, true, false, Option, none, some, List, [], ◌∷◌, ◌++◌, ◌==◌,
  if◌then◌else◌, get_or,
}
use mcdma.Wire.{Table, tb}
use mcdma.Verbs.{Region, Piece, region_lkey, cut}
use mcdma.Daemon.{ctrl, seg_bytes, word, Setup}
pub mod Inside

-- MAX_SEGS and PIECES
abbrev pub max_segs : ℕ
max_segs = 64

abbrev pub pieces_max : ℕ
pieces_max = 4 * max_segs + 4

-- What `box_transfer` hands to the link: pieces to post as WRITEs, a stream of so many bytes from an offset on
-- and a word to signal, or nothing, since the pieces are too many.
pub data Sending : Type 0 where
  writes : List Piece → Sending
  streams : (off len word_dst word : ℕ) → Sending
  too_many : Sending

abbrev pub word_piece : Region → Table → ℕ → ℕ → Piece
word_piece r remote word_src word_dst = record {
  local = r.base + word_src;
  lkey = region_lkey r word_src;
  remote = remote.base + word_dst;
  rkey = get_or remote.rkey (word_dst / remote.seg) 0;
  len = 8;
}

unfoldable pub box_transfer : Setup → Region → Table → ℕ → ℕ → ℕ → ℕ → ℕ → ℕ → Sending
box_transfer b r remote off len word_src word_dst w cap =
    if b.kind == tb
    then streams off len word_dst w
    else elim (if len == 0 then some [] else cut r (some remote) seg_bytes (cap - 1) off off len) [
      | none ↦ too_many
      | some ps ↦ writes (ps ++ word_piece r remote word_src word_dst ∷ [])
    ]

-- the transfer of `peer_thread` for the request word `w`
abbrev pub request_transfer : Setup → Region → Table → ℕ → ℕ → Sending
request_transfer b r remote len w = box_transfer b r remote ctrl len 0 0 w pieces_max

-- the transfer of `listen_reply`
abbrev pub reply_transfer : Setup → Bool → Region → Table → ℕ → ℕ → Sending
reply_transfer b direct r remote seq len =
    if direct
    then box_transfer b r remote (b.req + ctrl) len b.req (b.req + 64) (word seq len) pieces_max
    else box_transfer b r remote b.req 0 b.req b.req (word seq len) pieces_max
