-- ===== src/Tb.antt =====
-- rpc/link_tb.c: a Thunderbolt link that is not bonded. `Link` is `struct tb`, both directions.
-- Arrays indexed modulo their size are functions of the index. A message is the list of its bytes,
-- as the source memory held them when it was posted; `wire` lists what the provider was handed.
-- The provider is a parameter: `accepts k` says whether it takes the `k`th post of a send.
-- Clocks, tracing and the rate estimate are left out: they change nothing that is modelled here.
use mcdma.Prelude.{
  ℕ, zero, suc, ◌+◌, ◌-◌, ◌*◌, ◌/◌, ◌%◌, ◌^◌, Bool, true, false, not, ◌&&◌, ◌||◌, Option, none,
  some, List, [], ◌∷◌, ◌++◌, ltb, leb, ◌==◌, ◌!=◌, if◌then◌else◌, length, le_bytes, of_le, min,
  take, drop,
}
use mcdma.Prelude.Arrays.{slice, concat}
pub mod HeadBytes
pub mod Account
pub mod Send
pub mod Receive
pub mod Total
pub mod Ring

abbrev pub tb_packet : ℕ
tb_packet = 4096

abbrev pub tb_stage : ℕ
tb_stage = 64

abbrev pub tb_send_wr : ℕ
tb_send_wr = 1024

-- TB_MSG and TB_TRY_MAX
abbrev pub tb_msg : ℕ
tb_msg = 4 * 2 ^ 20

abbrev pub tb_try_max : ℕ
tb_try_max = 256 * 2 ^ 10

abbrev pub head_size : ℕ
head_size = 32

abbrev pub inline_max : ℕ
inline_max = tb_packet - head_size

-- WS_HEAD
abbrev pub ws_head : ℕ
ws_head = 48

abbrev pub magic : ℕ
magic = 0x4254434d

-- the message kinds
abbrev pub c_write : ℕ
c_write = 1

abbrev pub c_inline : ℕ
c_inline = 2

abbrev pub c_signal : ℕ
c_signal = 3

abbrev pub c_fence : ℕ
c_fence = 4

abbrev pub c_fence_ack : ℕ
c_fence_ack = 5

abbrev pub c_write_signal : ℕ
c_write_signal = 6

abbrev pub u32 : ℕ → ℕ
u32 x = x % 2 ^ 32

abbrev pub u64 : ℕ → ℕ
u64 x = x % 2 ^ 64

-- `packets`
abbrev pub packets_of : ℕ → ℕ
packets_of len = u32 (u64 (len + tb_packet - 1) / tb_packet)

-- `struct head`, as it lies in memory on a little-endian host
pub record Head : Type 0 where
  pub magic : ℕ
  pub seq : ℕ
  pub kind : ℕ
  pub pad : ℕ
  pub len : ℕ
  pub off : ℕ
  pub value : ℕ

abbrev pub head_fields : Head → List (List ℕ) → List (List ℕ)
head_fields h rest =
    le_bytes 4 h.magic
    ∷ le_bytes 4 h.seq
    ∷ le_bytes 2 h.kind
    ∷ le_bytes 2 h.pad
    ∷ le_bytes 4 h.len
    ∷ le_bytes 8 h.off
    ∷ le_bytes 8 h.value
    ∷ rest

-- `memcpy(&h, m, HEAD)`
unfoldable pub head_of : List ℕ → Head
head_of m = record {
  magic = of_le (slice 0 4 m);
  seq = of_le (slice 4 4 m);
  kind = of_le (slice 8 2 m);
  pad = of_le (slice 10 2 m);
  len = of_le (slice 12 4 m);
  off = of_le (slice 16 8 m);
  value = of_le (slice 24 8 m);
}

-- what the link keeps of one posted send
pub record Sent : Type 0 where
  pub packets : ℕ
  pub staged : ℕ
  pub bytes : ℕ
  pub payload : ℕ

-- The first reason of `poison`.
pub data Reason : Type 0 where
  post_failed bad_completion length_differs malformed_head malformed_write_signal bonded : Reason
  lost unaccepted inline_length write_size unaligned unknown outside_write outside_signal : Reason

-- `struct tb`. `window` is `[lo, hi)` once `tb_accept` set it; `mem` is the region's memory.
pub record Link : Type 0 where
  pub depth : ℕ
  pub peer_slots : ℕ
  pub tx_seq : ℕ
  pub packets : ℕ
  pub fence_acked : ℕ
  pub tx_posted : ℕ
  pub tx_done : ℕ
  pub staged : ℕ
  pub unstaged : ℕ
  pub tx : ℕ → Sent
  pub sent_bytes : ℕ
  pub completed_bytes : ℕ
  pub sent_payload : ℕ
  pub completed_payload : ℕ
  pub writes_posted : ℕ
  pub writes_placed : ℕ
  pub wire : List (List ℕ)
  pub rx_seq : ℕ
  pub want_len : ℕ
  pub want_off : ℕ
  pub window : Option (ℕ × ℕ)
  pub mem : ℕ → ℕ
  pub poisoned : Option Reason

-- `poison`: the first reason stays.
unfoldable pub poison : Reason → Link → Link
poison why t = elim t.poisoned [ none ↦ record t { poisoned = some why } | some w ↦ t ]

abbrev pub Provider : Type 0
Provider = ℕ → Bool

abbrev pub update : (ℕ → Sent) → ℕ → Sent → ℕ → Sent
update f i v j = if j == i then v else f j

-- `post_send` of the message `m`: 0 is `true`.
unfoldable pub post_send : Provider → List ℕ → ℕ → ℕ → Link → Bool × Link
post_send accepts m staged payload t =
    let len = length m in
    let n = packets_of len in
    if len == 0 || not (accepts t.tx_posted) then (false, poison post_failed t) else (
      true,
      record t {
        tx =
            update t.tx (t.tx_posted % tb_send_wr)
              (record { packets = n % 2 ^ 16; staged = staged; bytes = len; payload = payload });
        sent_bytes = u64 (t.sent_bytes + len);
        sent_payload = u64 (t.sent_payload + payload);
        packets = u32 (t.packets + n);
        tx_posted = u64 (t.tx_posted + 1);
        wire = t.wire ++ (m ∷ []);
      },
    )

-- `has_room`: room for `n` packets in `sends` sends, one header held back unless `reply`.
unfoldable pub has_room : Link → ℕ → ℕ → Bool → Bool
has_room t n sends reply =
    let spare = if reply then 0 else 1 in
    leb (t.packets + n + spare) t.depth
    && leb (t.tx_posted - t.tx_done + sends + spare) tb_send_wr
    && ltb (t.staged - t.unstaged + spare) tb_stage

-- The header message that `send_head` stages, `bytes` behind it.
abbrev pub headed : Link → ℕ → ℕ → ℕ → ℕ → List ℕ → List ℕ
headed t kind off len value bytes = concat (
    head_fields
      (record {
        magic = magic;
        seq = t.tx_seq;
        kind = kind;
        pad = 0;
        len = len;
        off = off;
        value = value;
      })
      (bytes ∷ []))

-- `send_head`; `bytes` is empty where the source passes NULL. The message is taken as it is when posted: that its
-- staging slot is not used again before it is sent is the work of `has_room`.
unfoldable pub send_head : Provider → ℕ → ℕ → ℕ → ℕ → List ℕ → Link → Bool × Link
send_head accepts kind off len value bytes t =
    let (ok, t') =
      post_send accepts (headed t kind off len value bytes) 1 (if kind == c_inline then len else 0)
        t in
    if ok
    then (true, record t' { tx_seq = u32 (t'.tx_seq + 1); staged = u64 (t'.staged + 1) })
    else (false, t')

-- A completed send, `complete` on T_SEND with the provider's status and index.
unfoldable pub complete_send : Bool → ℕ → Link → Link
complete_send success index t =
    if success && index == t.tx_done % tb_send_wr && ltb t.tx_done t.tx_posted
    then record t {
      packets = u32 (t.packets + 2 ^ 32 - (t.tx index).packets);
      unstaged = u64 (t.unstaged + (t.tx index).staged);
      completed_bytes = u64 (t.completed_bytes + (t.tx index).bytes);
      completed_payload = u64 (t.completed_payload + (t.tx index).payload);
      tx_done = u64 (t.tx_done + 1);
    }
    else poison bad_completion t

-- `msg_max`
unfoldable pub msg_max : Link → ℕ
msg_max t = min (min (t.peer_slots / 2 * tb_packet) (t.depth / 2 * tb_packet)) tb_msg

-- The source of a write: a region's memory from its base on, its length and its registration unit.
pub record Source : Type 0 where
  pub byte : ℕ → ℕ
  pub len : ℕ
  pub seg : ℕ

unfoldable pub read : (ℕ → ℕ) → ℕ → ℕ → List ℕ
read mem off zero = []
read mem off (suc n) = mem off ∷ read mem (off + 1) n

-- `take` of a round of a write
abbrev pub chunk : Link → Source → ℕ → ℕ → ℕ
chunk t src off len = min (min len (msg_max t)) (src.seg - off % src.seg)

-- The count of `tb_can_write`, from `n` packets, `sends` and `stages` on: what the whole write needs,
-- or `none` where the source stops counting and returns 0. `fuel` is the headers still allowed.
unfoldable pub count_write : ℕ → Link → Source → ℕ → ℕ → ℕ → ℕ → ℕ → Option (ℕ × ℕ × ℕ)
count_write zero t src off len n sends stages = if len == 0 then some (n, sends, stages) else none
count_write (suc fuel) t src off len n sends stages =
    let take = chunk t src off len in
    let small = leb take inline_max in
    let n' = if small then n + 1 else n + 1 + packets_of take in
    let sends' = if small then sends + 1 else sends + 2 in
    let rest = count_write fuel t src (off + take) (len - take) n' sends' (stages + 1) in
    if len == 0
    then some (n, sends, stages)
    else if leb t.depth n' || leb tb_send_wr sends' || leb tb_stage (stages + 1)
    then none
    else rest

pub data Can : Type 0 where
  invalid no_room ready : Can

unfoldable pub is_poisoned : Link → Bool
is_poisoned t = elim t.poisoned [ none ↦ false | some why ↦ true ]

-- `tb_can_write`: -1, 0 or 1.
unfoldable pub can_write : Link → Source → ℕ → ℕ → Can
unfolding is_poisoned
can_write t src off len =
    if is_poisoned t
      || src.seg == 0
      || ltb src.len off
      || ltb (src.len - off) len
      || ltb tb_try_max len
      || msg_max t == 0
    then invalid
    else elim (count_write tb_stage t src off len 0 0 0) [
      | none ↦ no_room
      | some (n, sends, stages) ↦
          if leb (t.packets + n + 1) t.depth
            && leb (t.tx_posted - t.tx_done + sends + 1) tb_send_wr
            && leb (t.staged - t.unstaged + stages + 1) tb_stage
          then ready
          else no_room
    ]

-- One round of a write: a header with the bytes inside, or a header and the bytes as a message.
unfoldable pub send_chunk : Provider → Source → ℕ → ℕ → ℕ → Link → Bool × Link
send_chunk accepts src off roff take t =
    let bytes = read src.byte off take in
    if leb take inline_max
    then (let (ok, t1) = send_head accepts c_inline roff take 0 bytes t in
        (ok, if ok then record t1 { writes_posted = u64 (t1.writes_posted + 1) } else t1))
    else (let (ok, t1) = send_head accepts c_write roff take 0 [] t in
        if ok
        then (let (ok2, t2) = post_send accepts bytes 0 take t1 in
            (ok2, if ok2 then record t2 { writes_posted = u64 (t2.writes_posted + 1) } else t2))
        else (false, t1))

-- The loop of `tb_write_try` on fuel: whether it posted everything.
unfoldable pub write_loop : Provider → ℕ → Source → ℕ → ℕ → ℕ → Link → Bool × Link
write_loop accepts zero src off roff len t = (len == 0, t)
write_loop accepts (suc fuel) src off roff len t =
    let take = chunk t src off len in
    let (ok, t1) = send_chunk accepts src off roff take t in
    let rest = write_loop accepts fuel src (off + take) (roff + take) (len - take) t1 in
    if len == 0 then (true, t) else if ok then rest else (false, t1)

-- `tb_write_try`: 0, 1 or -1. A write that `can_write` allows has at most 63 rounds.
pub data Tried : Type 0 where
  written full failed : Tried

unfoldable pub write_try : Provider → Source → ℕ → ℕ → ℕ → Link → Tried × Link
write_try accepts src off roff len t =
    if ltb (2 ^ 64 - 1 - roff) len then (failed, t) else elim (can_write t src off len) [
      | invalid ↦ (failed, t)
      | no_room ↦ (full, t)
      | ready ↦
          let (ok, t1) = write_loop accepts tb_stage src off roff len t in
          (if ok then written else failed, t1)
    ]
