-- ===== src/UserPost.antt =====
-- include/cx5_user_post.h: send and receive entries written by a user-posted queue pair, and the block
-- that tells the provider what its pages allow. An entry is the list of its bytes. A null queue page is
-- not modelled: every caller has mapped it. Barriers and the doorbell's stores are left out.
use mcdma.Prelude.{
  ℕ, zero, suc, ◌+◌, ◌-◌, ◌*◌, ◌/◌, ◌%◌, ◌^◌, Bool, true, false, not, ◌&&◌, ◌||◌, Option, none,
  some, List, [], ◌∷◌, ◌++◌, ltb, leb, ◌==◌, ◌!=◌, if◌then◌else◌, length, take, replicate, le_bytes,
  of_le,
}
use mcdma.Prelude.Arrays.{slice, concat}
pub mod Encode
pub mod Info

-- MCDMA_WQE_WRITE, WRITE_IMM, SEND, SEND_IMM and READ
abbrev pub wqe_write : ℕ
wqe_write = 0x08

abbrev pub wqe_write_imm : ℕ
wqe_write_imm = 0x09

abbrev pub wqe_send : ℕ
wqe_send = 0x0a

abbrev pub wqe_send_imm : ℕ
wqe_send_imm = 0x0b

abbrev pub wqe_read : ℕ
wqe_read = 0x10

-- `mcdma_put_be32` and `mcdma_put_be64`
abbrev pub put_be32 : ℕ → List ℕ
put_be32 v = v / 2 ^ 24 % 256 ∷ v / 2 ^ 16 % 256 ∷ v / 2 ^ 8 % 256 ∷ v % 256 ∷ []

abbrev pub put_be64 : ℕ → List ℕ
put_be64 v = put_be32 (v / 2 ^ 32) ++ put_be32 (v % 2 ^ 32)

-- `struct mcdma_send_sge`
pub record Sge : Type 0 where
  pub address : ℕ
  pub lkey : ℕ
  pub len : ℕ

-- `struct mcdma_send_request`; `inline_data` is null or the bytes that it points to.
pub record Request : Type 0 where
  pub opcode : ℕ
  pub flags : ℕ
  pub immediate : List ℕ
  pub remote : ℕ
  pub rkey : ℕ
  pub sge : List Sge
  pub sge_count : ℕ
  pub inline_data : Option (List ℕ)
  pub inline_bytes : ℕ

-- `mcdma_rdma_opcode`
abbrev pub is_rdma : ℕ → Bool
is_rdma opcode = opcode == wqe_write || opcode == wqe_write_imm || opcode == wqe_read

-- The loop over the first `n` scatter entries: the sum of their lengths, or `none` for a bad one. The
-- array has three entries and `n` is at most 3, so the list does not end first.
unfoldable pub sge_total : ℕ → List Sge → Option ℕ
sge_total zero ss = some 0
sge_total (suc n) [] = none
sge_total (suc n) (s ∷ ss) =
    let rest = sge_total n ss in
    if s.len == 0 || s.lkey == 0 || ltb (2 ^ 64 - 1 - s.len) s.address
    then none
    else elim rest [ none ↦ none | some t ↦ some (s.len + t) ]

-- The bytes before the last test of `mcdma_request_bytes`; `none` where it returns 0 earlier.
unfoldable pub payload_bytes : Request → Option ℕ
payload_bytes r =
    let rdma = is_rdma r.opcode in
    elim r.inline_data [
      | some bytes ↦
          if r.sge_count != 0
            || r.opcode == wqe_read
            || r.inline_bytes == 0
            || ltb (if rdma then 28 else 44) r.inline_bytes
          then none
          else some r.inline_bytes
      | none ↦
          if r.inline_bytes != 0 || r.sge_count == 0 || ltb (if rdma then 2 else 3) r.sge_count
          then none
          else sge_total r.sge_count r.sge
    ]

-- `mcdma_request_bytes`. The flags that it allows are 1, 2 and 4.
unfoldable pub request_bytes : Request → ℕ
request_bytes r =
    let rdma = is_rdma r.opcode in
    if not rdma && r.opcode != wqe_send && r.opcode != wqe_send_imm
    then 0
    else if ltb 7 r.flags
    then 0
    else if rdma && r.rkey == 0
    then 0
    else elim (payload_bytes r) [
      | none ↦ 0
      | some total ↦
          if total == 0 || ltb 0x7fffffff total || rdma && ltb (2 ^ 64 - 1 - total) r.remote
          then 0
          else total
    ]

-- `data_units` and `ds`, the entry's 16-byte units
abbrev pub data_units : Request → ℕ
data_units r = elim r.inline_data [
  | some bytes ↦ (4 + r.inline_bytes + 15) / 16
  | none ↦ r.sge_count
]

abbrev pub units_of : Request → ℕ
units_of r = 1 + (if is_rdma r.opcode then 1 else 0) + data_units r

-- byte 11: completion wanted, the fence and the solicited event
abbrev pub control_flags : ℕ → ℕ
control_flags flags =
    8 + (if flags % 2 == 1 then 0x80 else 0) + (if flags / 4 % 2 == 1 then 2 else 0)

abbrev pub control : ℕ → ℕ → Request → List (List ℕ)
control qpn producer r =
    put_be32 (producer % 2 ^ 16 * 2 ^ 8 + r.opcode)
    ∷ put_be32 (qpn * 2 ^ 8 + units_of r)
    ∷ (0 ∷ 0 ∷ 0 ∷ [])
    ∷ (control_flags r.flags ∷ [])
    ∷ (if r.opcode == wqe_write_imm || r.opcode == wqe_send_imm
        then take 4 r.immediate
        else replicate 4 0)
    ∷ []

abbrev pub remote_part : Request → List ℕ
remote_part r =
    if is_rdma r.opcode then put_be64 r.remote ++ put_be32 r.rkey ++ replicate 4 0 else []

unfoldable pub sge_part : ℕ → List Sge → List ℕ
sge_part zero ss = []
sge_part (suc n) [] = []
sge_part (suc n) (s ∷ ss) = put_be32 s.len ++ put_be32 s.lkey ++ put_be64 s.address ++ sge_part n ss

abbrev pub data_part : Request → List ℕ
data_part r = elim r.inline_data [
  | some bytes ↦ put_be32 (0x80000000 + r.inline_bytes) ++ take r.inline_bytes bytes
  | none ↦ sge_part r.sge_count r.sge
]

-- what stands in the entry before the zeros that `memset` leaves at its end
unfoldable pub entry_of : ℕ → ℕ → Request → List ℕ
entry_of qpn producer r = concat (control qpn producer r) ++ remote_part r ++ data_part r

-- `mcdma_encode_send_request`: the 64 bytes of the entry, or `none` where it returns 0. Its place in the queue page,
-- slot `producer & 31`, and the doorbell value, which is the first 8 of these bytes, are the caller's here.
unfoldable pub encode_send : ℕ → ℕ → Request → Option (List ℕ)
encode_send qpn producer r =
    if ltb 0xffffff qpn || request_bytes r == 0
    then none
    else if ltb 4 (units_of r)
    then none
    else some (entry_of qpn producer r ++ replicate (64 - length (entry_of qpn producer r)) 0)

-- `mcdma_encode_recv_wqe`
unfoldable pub encode_recv : ℕ → ℕ → ℕ → Option (List ℕ)
encode_recv address len lkey =
    if len == 0 || lkey == 0 || ltb (2 ^ 64 - 1 - len) address
    then none
    else some (put_be32 len ++ put_be32 lkey ++ put_be64 address)

-- `mcdma_info_write`: the block of 32 bytes. Flag 1 says that the page is write-combined.
abbrev pub info_magic : ℕ
info_magic = 0x4d434246

abbrev pub banks_kept : ℕ → ℕ → ℕ
banks_kept flags bank_bytes = if flags % 2 == 1 then bank_bytes else 0

unfoldable pub info_write : ℕ → ℕ → List ℕ
info_write flags bank_bytes = concat (
    le_bytes 4 info_magic
    ∷ le_bytes 4 flags
    ∷ le_bytes 4 (banks_kept flags bank_bytes)
    ∷ le_bytes 4 2
    ∷ le_bytes 4 0x800
    ∷ replicate 12 0
    ∷ [])

-- `a & b` of `w` bits
unfoldable pub bits_and : ℕ → ℕ → ℕ → ℕ
bits_and zero a b = 0
bits_and (suc w) a b = (if a % 2 == 1 && b % 2 == 1 then 1 else 0) + 2 * bits_and w (a / 2) (b / 2)

-- the test on a block's bank size: none, or a power of two from 128 to 1024
unfoldable pub bank_ok : ℕ → Bool
unfolding bits_and
bank_ok bytes =
    bytes == 0 || not (ltb bytes 128 || ltb 1024 bytes || bits_and 32 bytes (bytes - 1) != 0)

-- `mcdma_info_read`: the flags and the bank size of a valid block.
unfoldable pub info_read : List ℕ → Option (ℕ × ℕ)
info_read p =
    let bytes = of_le (slice 8 4 p) in
    if of_le (slice 0 4 p) != info_magic
      || of_le (slice 12 4 p) != 2
      || of_le (slice 16 4 p) != 0x800
    then none
    else if not (bank_ok bytes)
    then none
    else some (of_le (slice 4 4 p), bytes)
