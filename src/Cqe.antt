-- ===== src/Cqe.antt =====
-- include/cx5_user_completion.h: decoding one 64-byte completion entry against the mirror queues.
-- The mirrors are pointers in the source: a `Queues` store maps each pointer to its queue, and the
-- caller's `lookup` hands out pointers, which may be null and may alias.
use mcdma.Prelude.{
  ℕ, ◌+◌, ◌*◌, ◌/◌, ◌%◌, ◌^◌, Bool, true, false, not, ◌&&◌, ◌||◌, Option, none, some, List, ltb,
  ◌==◌, ◌!=◌, if◌then◌else◌, get_or,
}
use mcdma.UserQueue.{Record, Queue, complete, u16}
pub mod Decode

-- `struct mcdma_user_completion`; `user` is the QP's `user_posted`.
pub record Completion : Type 0 where
  pub id : ℕ
  pub status : ℕ
  pub opcode : ℕ
  pub vendor : ℕ
  pub bytes : ℕ
  pub qpn : ℕ
  pub counter : ℕ
  pub user : ℕ
  pub flags : ℕ
  pub immediate : ℕ

-- `mcdma_user_status`
unfoldable pub status_of : ℕ → ℕ
status_of syndrome =
    if syndrome == 0x01
    then 1
    else if syndrome == 0x02
    then 2
    else if syndrome == 0x04
    then 4
    else if syndrome == 0x05
    then 5
    else if syndrome == 0x06
    then 6
    else if syndrome == 0x10
    then 7
    else if syndrome == 0x11
    then 8
    else if syndrome == 0x12
    then 9
    else if syndrome == 0x13
    then 10
    else if syndrome == 0x14
    then 11
    else if syndrome == 0x15
    then 12
    else if syndrome == 0x16
    then 13
    else if syndrome == 0x22
    then 16
    else 21

-- `p[i]` of the entry
abbrev pub byte : List ℕ → ℕ → ℕ
byte cqe i = get_or cqe i 0

-- `mcdma_user_be32(cqe + i)`
abbrev pub be32 : List ℕ → ℕ → ℕ
be32 cqe i =
    byte cqe i * 2 ^ 24 + byte cqe (i + 1) * 2 ^ 16 + byte cqe (i + 2) * 2 ^ 8 + byte cqe (i + 3)

-- `memcpy(&immediate, cqe + i, 4)` on the little-endian hosts that the driver runs on
abbrev pub le_at : List ℕ → ℕ → ℕ
le_at cqe i =
    byte cqe i + byte cqe (i + 1) * 2 ^ 8 + byte cqe (i + 2) * 2 ^ 16 + byte cqe (i + 3) * 2 ^ 24

-- `struct mcdma_user_qp_view`: null or a pointer to a mirror queue, for each direction.
pub record View : Type 0 where
  pub sends : Option ℕ
  pub receives : Option ℕ
  pub user_posted : ℕ

abbrev pub Queues : Type 0
Queues = ℕ → Queue

abbrev pub store : Queues → ℕ → Queue → Queues
store qs p q x = if x == p then q else qs x

-- the fields of an entry that the decoder reads first
abbrev pub opcode_of : List ℕ → ℕ
opcode_of cqe = byte cqe 63 / 16

abbrev pub qpn_of : List ℕ → ℕ
qpn_of cqe = be32 cqe 56 % 2 ^ 24

abbrev pub counter_of : List ℕ → ℕ
counter_of cqe = u16 (byte cqe 60 * 2 ^ 8 + byte cqe 61)

-- opcodes 0 and 13 complete a send
abbrev pub is_send : ℕ → Bool
is_send opcode = opcode == 0 || opcode == 13

abbrev pub public_opcode : Bool → ℕ → Record → ℕ
public_opcode send opcode r =
    if send
    then (if r.opcode == 0x08 || r.opcode == 0x09 then 1 else (if r.opcode == 0x10 then 2 else 0))
    else (if opcode == 1 then 129 else 128)

-- The completion that the decoder fills in for the record it took, after the header fields.
unfoldable pub report : List ℕ → View → Record → Completion
report cqe view r =
    let opcode = opcode_of cqe in
    let send = is_send opcode in
    let with_immediate = not send && (opcode == 1 || opcode == 3) in
    let out : Completion = record {
      id = r.id;
      status = 0;
      opcode = public_opcode send opcode r;
      vendor = 0;
      bytes = 0;
      qpn = qpn_of cqe;
      counter = counter_of cqe;
      user = view.user_posted;
      flags = 0;
      immediate = 0;
    } in
    if opcode == 13 || opcode == 14
    then record out { status = status_of (byte cqe 55); vendor = byte cqe 54 * 2 ^ 8 + byte cqe 55 }
    else if not send && opcode != 2 && not with_immediate
    then record out { status = 21; vendor = opcode }
    else if not send
    then (let bytes = be32 cqe 44 in
        if opcode != 1 && ltb r.len bytes
        then record out { status = 1 }
        else if with_immediate
        then record out { bytes = bytes; flags = 2; immediate = le_at cqe 40 }
        else record out { bytes = bytes })
    else if r.opcode == 0x10
    then record out { bytes = r.len }
    else out

-- `mcdma_user_decode`: `none` for its -1, with the queues as they were.
unfoldable pub decode : (ℕ → View) → List ℕ → Queues → Option (Completion × Queues)
decode lookup cqe qs =
    let opcode = opcode_of cqe in
    let view = lookup (qpn_of cqe) in
    if opcode == 15
    then none
    else if ltb 4 opcode && opcode != 13 && opcode != 14
    then none
    else elim (if is_send opcode then view.sends else view.receives) [
      | none ↦ none
      | some p ↦ elim (complete (qs p) (counter_of cqe)) [
        | none ↦ none
        | some (r, q') ↦ some (report cqe view r, store qs p q')
      ]
    ]
