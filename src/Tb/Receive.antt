-- ===== src/Tb/Receive.antt =====
-- rpc/link_tb.c: `take`, one whole message from the receive ring, on a link that is not bonded (no
-- bond hooks, as `tb_init` leaves it). The message is the list `m` of its bytes, over `count` slots.
use mcdma.Prelude.{
  ℕ, ◌+◌, ◌-◌, ◌*◌, ◌/◌, ◌%◌, ◌^◌, Bool, true, false, not, ◌&&◌, ◌||◌, Option, none, some, List, [],
  ◌∷◌, ltb, leb, ◌==◌, ◌!=◌, if◌then◌else◌, length, get_or, le_bytes, of_le, take, drop,
}
use mcdma.Prelude.Arrays.{slice}
use mcdma.Tb.{
  Link, Head, Reason, Provider, head_of, is_poisoned, poison, has_room, send_head, magic, head_size,
  ws_head, tb_msg, u32, u64, c_write, c_inline, c_signal, c_fence, c_fence_ack, c_write_signal,
  packets_of,
}
pub mod Chunk
pub mod Deliver
pub mod Guard

-- 1, 0 and -1 of `take`
pub data Taken : Type 0 where
  taken not_yet broken : Taken

-- `memcpy(base + off, bs, len)`
abbrev pub write_mem : (ℕ → ℕ) → ℕ → List ℕ → ℕ → ℕ
write_mem mem off bs x =
    if leb off x && ltb x (off + length bs) then get_or bs (x - off) 0 else mem x

-- the bounds of `inside`; `lo` and `hi` are 0 before `tb_accept`
abbrev pub inside_of : ℕ → ℕ → ℕ → ℕ → Bool
inside_of lo hi off len = leb lo off && leb off hi && leb len (hi - off)

abbrev pub inside : Option (ℕ × ℕ) → ℕ → ℕ → Bool
inside none off len = inside_of 0 0 off len
inside (some (lo, hi)) off len = inside_of lo hi off len

abbrev pub accepted : Option (ℕ × ℕ) → Bool
accepted none = false
accepted (some w) = true

-- `placed`, with no bond hook
abbrev pub place : ℕ → List ℕ → Link → Link
place off bs t = record t {
  mem = write_mem t.mem off bs;
  writes_placed = u64 (t.writes_placed + 1);
}

abbrev pub fail : Reason → Link → Taken × Link
fail why t = (broken, poison why t)

-- the bytes of a write, behind its header
unfoldable pub take_bytes : List ℕ → Link → Taken × Link
take_bytes m t =
    if length m != t.want_len
    then fail Reason.length_differs t
    else (taken, record (place t.want_off m t) { want_len = 0 })

-- C_WRITE_SIGNAL: the bytes, then the signal.
unfoldable pub take_write_signal : Head → List ℕ → Link → Taken × Link
take_write_signal h m t =
    let soff = if leb ws_head (length m) then of_le (slice head_size 8 m) else 0 in
    if length m != ws_head + h.len
      || h.len == 0
      || soff % 8 != 0
      || not (inside t.window h.off h.len)
      || not (inside t.window soff 8)
    then fail Reason.malformed_write_signal t
    else (let t1 = place h.off (drop ws_head m) (record t { rx_seq = u32 (t.rx_seq + 1) }) in
        (taken, record t1 { mem = write_mem t1.mem soff (le_bytes 8 h.value) }))

-- The chain of tests on a plain header message of `n` bytes: the first that fails.
unfoldable pub refusal : Head → ℕ → Link → Option Reason
refusal h n t =
    if h.magic != magic
    then some Reason.malformed_head
    else if h.seq != t.rx_seq
    then some Reason.lost
    else if not (accepted t.window) && h.kind != c_fence_ack
    then some Reason.unaccepted
    else if h.kind == c_inline && h.len != n - head_size
    then some Reason.inline_length
    else if h.kind == c_write && (h.len == 0 || ltb tb_msg h.len)
    then some Reason.write_size
    else if h.kind == c_signal && h.off % 8 != 0
    then some Reason.unaligned
    else if ltb h.kind c_write || ltb c_fence_ack h.kind
    then some Reason.unknown
    else if leb h.kind c_inline && not (inside t.window h.off h.len)
    then some Reason.outside_write
    else if h.kind == c_signal && not (inside t.window h.off 8)
    then some Reason.outside_signal
    else none

-- the next message's number
abbrev pub counted : Link → Link
counted t = record t { rx_seq = u32 (t.rx_seq + 1) }

-- What an accepted header message does; a fence's answer waits for room.
unfoldable pub apply : Provider → Head → List ℕ → Link → Taken × Link
apply accepts h m t =
    if h.kind == c_fence
    then (if not (has_room t 1 1 true)
        then (not_yet, t)
        else (let (ok, t1) = send_head accepts c_fence_ack 0 0 h.value [] t in
            if ok then (taken, counted t1) else (broken, t1)))
    else if h.kind == c_inline
    then (taken, place h.off (drop head_size m) (counted t))
    else if h.kind == c_write
    then (taken, record (counted t) { want_off = h.off; want_len = h.len })
    else if h.kind == c_signal
    then (taken, record (counted t) { mem = write_mem t.mem h.off (le_bytes 8 h.value) })
    else (taken, record (counted t) { fence_acked = u32 h.value })

-- A header message: the bonded kinds 7, 9, 10 and 11 are refused where no bond has its hooks.
unfoldable pub take_head : Provider → ℕ → List ℕ → Link → Taken × Link
take_head accepts count m t =
    let h = head_of m in
    let ours = h.magic == magic && h.seq == t.rx_seq && accepted t.window in
    if ours && h.kind == c_write_signal
    then take_write_signal h m t
    else if ours && (h.kind == 7 || h.kind == 9 || h.kind == 10 || h.kind == 11)
    then fail Reason.bonded t
    else if count != 1
    then fail Reason.malformed_head t
    else elim (refusal h (length m) t) [ some why ↦ fail why t | none ↦ apply accepts h m t ]

-- `take`
unfoldable pub take_message : Provider → ℕ → List ℕ → Link → Taken × Link
take_message accepts count m t =
    if t.want_len != 0
    then take_bytes m t
    else if ltb (length m) head_size
    then fail Reason.malformed_head t
    else take_head accepts count m t

-- `drain`'s loop over the whole messages that have arrived, in order: it stops at the first that is not
-- taken, and takes none once the link is poisoned.
unfoldable pub take_all : Provider → List (List ℕ) → Link → Taken × Link
take_all accepts [] t = (taken, t)
take_all accepts (m ∷ ms) t =
    let (r, t1) = take_message accepts (packets_of (length m)) m t in
    let rest : Taken × Link = elim r [
      | taken ↦ take_all accepts ms t1
      | not_yet ↦ (not_yet, t1)
      | broken ↦ (broken, t1)
    ] in
    if is_poisoned t then (broken, t) else rest
