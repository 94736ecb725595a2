-- ===== src/Core/Entries.antt =====
-- core/cx5_verbs.cpp: the kernel's send entries and completion entries. A request is the record of
-- UserPost, whose struct has the same fields; an array of bytes is a list and no pointer to one is null.
use mcdma.Prelude.{
  ℕ, zero, suc, ◌+◌, ◌-◌, ◌*◌, ◌/◌, ◌%◌, ◌^◌, Bool, true, false, not, ◌&&◌, ◌||◌, Option, none,
  some, List, [], ◌∷◌, ◌++◌, ltb, ◌==◌, ◌!=◌, if◌then◌else◌, get_or, take, drop, replicate, length,
}
use mcdma.Prelude.Arrays.{concat}
use mcdma.UserPost.{Request, Sge, wqe_write, wqe_write_imm, wqe_send, wqe_send_imm, wqe_read}
use mcdma.Core.Command.{read_be32, write_be32, write_be64}
pub mod Agree
pub mod Encoders

-- `rdma_opcode` and `immediate_opcode`
abbrev pub rdma_opcode : ℕ → Bool
rdma_opcode opcode = opcode == wqe_write || opcode == wqe_write_imm || opcode == wqe_read

abbrev pub immediate_opcode : ℕ → Bool
immediate_opcode opcode = opcode == wqe_write_imm || opcode == wqe_send_imm

-- The loop over the first `n` scatter entries, with the total so far; `none` where it returns 0.
unfoldable pub scatter_total : ℕ → List Sge → ℕ → Option ℕ
scatter_total zero ss total = some total
scatter_total (suc n) [] total = none
scatter_total (suc n) (s ∷ ss) total =
    let rest = scatter_total n ss (total + s.len) in
    if s.len == 0 || s.lkey == 0 || ltb (2 ^ 64 - 1 - s.len) s.address then none else rest

abbrev pub is_inline : Request → Bool
is_inline r = elim r.inline_data [ none ↦ false | some bytes ↦ true ]

-- the total before the last test of `request_bytes`
unfoldable pub total_of : Request → Option ℕ
total_of r =
    let rdma = rdma_opcode r.opcode in
    if is_inline r || r.inline_bytes != 0
    then (if not (is_inline r) || r.sge_count != 0 || r.opcode == wqe_read
        then none
        else if ltb r.inline_bytes 1 || ltb (if rdma then 28 else 44) r.inline_bytes
        then none
        else some r.inline_bytes)
    else if ltb r.sge_count 1 || ltb (if rdma then 2 else 3) r.sge_count
    then none
    else scatter_total r.sge_count r.sge 0

-- `request_bytes`
unfoldable pub request_bytes : Request → ℕ
request_bytes r =
    let rdma = rdma_opcode r.opcode in
    if not rdma && r.opcode != wqe_send && r.opcode != wqe_send_imm
    then 0
    else if ltb 7 r.flags
    then 0
    else if rdma && r.rkey == 0
    then 0
    else elim (total_of r) [
      | none ↦ 0
      | some total ↦
          if total == 0 || ltb 0x7fffffff total || rdma && ltb (2 ^ 64 - 1 - total) r.remote
          then 0
          else total
    ]

-- `data_units` and `ds`
abbrev pub units : Request → ℕ
units r =
    1
    + (if rdma_opcode r.opcode then 1 else 0)
    + (if is_inline r then (4 + r.inline_bytes + 15) / 16 else r.sge_count)

-- The loop that writes the first `n` scatter entries.
unfoldable pub scatter_entries : ℕ → List Sge → List ℕ
scatter_entries zero ss = []
scatter_entries (suc n) [] = []
scatter_entries (suc n) (s ∷ ss) =
    write_be32 s.len ++ write_be32 s.lkey ++ write_be64 s.address ++ scatter_entries n ss

-- the bytes from `p + at` on
abbrev pub data_bytes : Request → List ℕ
data_bytes r = elim r.inline_data [
  | some bytes ↦ write_be32 (0x80000000 + r.inline_bytes) ++ take r.inline_bytes bytes
  | none ↦ scatter_entries r.sge_count r.sge
]

-- the bytes that are written, before the zeros of `memset`
unfoldable pub written : ℕ → ℕ → Request → List ℕ
written qpn producer r =
    concat (
      write_be32 (producer % 2 ^ 16 * 2 ^ 8 + r.opcode)
      ∷ write_be32 (qpn * 2 ^ 8 + units r)
      ∷ (0 ∷ 0 ∷ 0 ∷ [])
      ∷ ((8 + (if r.flags % 2 == 1 then 0x80 else 0) + (if r.flags / 4 % 2 == 1 then 2 else 0))
          ∷ [])
      ∷ (if immediate_opcode r.opcode then take 4 r.immediate else replicate 4 0)
      ∷ [])
    ++ (if rdma_opcode r.opcode
        then write_be64 r.remote ++ write_be32 r.rkey ++ replicate 4 0
        else [])
    ++ data_bytes r

-- `encode_send_request`: the entry, or `none` for its false.
unfoldable pub encode_send_request : ℕ → ℕ → ℕ → Request → Option (List ℕ)
encode_send_request capacity qpn producer r =
    if ltb capacity 64 || ltb 0xffffff qpn || request_bytes r == 0
    then none
    else if ltb 4 (units r)
    then none
    else some (written qpn producer r ++ replicate (64 - length (written qpn producer r)) 0)

-- `encode_wqe`: one scatter entry.
unfoldable pub encode_wqe : ℕ → ℕ → ℕ → ℕ → ℕ → ℕ → ℕ → ℕ → ℕ → Option (List ℕ)
encode_wqe capacity qpn producer opcode local lkey len remote rkey =
    let r : Request = record {
      opcode = opcode;
      flags = 0;
      immediate = replicate 4 0;
      remote = remote;
      rkey = rkey;
      sge = record { address = local; lkey = lkey; len = len } ∷ [];
      sge_count = 1;
      inline_data = none;
      inline_bytes = 0;
    } in
    if opcode != wqe_write && opcode != wqe_send && opcode != wqe_read
    then none
    else encode_send_request capacity qpn producer r

-- `CQResult`
pub data CqResult : Type 0 where
  empty success error unsupported : CqResult

-- `Completion`; the immediate is its four bytes.
pub record Seen : Type 0 where
  pub qpn : ℕ
  pub bytes : ℕ
  pub wqe_counter : ℕ
  pub opcode : ℕ
  pub syndrome : ℕ
  pub vendor_syndrome : ℕ
  pub immediate : List ℕ

abbrev pub nothing_seen : Seen
nothing_seen = record {
  qpn = 0;
  bytes = 0;
  wqe_counter = 0;
  opcode = 0;
  syndrome = 0;
  vendor_syndrome = 0;
  immediate = replicate 4 0;
}

-- `decode_cqe`
unfoldable pub decode_cqe : List ℕ → ℕ → ℕ → CqResult × Seen
decode_cqe p consumer log_entries =
    let opcode = get_or p 63 0 / 2 ^ 4 in
    let out : Seen = record {
      qpn = read_be32 (drop 56 p) % 2 ^ 24;
      bytes = read_be32 (drop 44 p);
      wqe_counter = (get_or p 60 0 * 2 ^ 8 + get_or p 61 0) % 2 ^ 16;
      opcode = opcode;
      syndrome = 0;
      vendor_syndrome = 0;
      immediate = take 4 (drop 40 p);
    } in
    if ltb 23 log_entries
    then (unsupported, nothing_seen)
    else if opcode == 15 || get_or p 63 0 % 2 != consumer / 2 ^ log_entries % 2
    then (empty, nothing_seen)
    else if opcode == 13 || opcode == 14
    then (error, record out { syndrome = get_or p 55 0; vendor_syndrome = get_or p 54 0 })
    else if opcode == 0 || opcode == 1 || opcode == 2 || opcode == 3 || opcode == 4
    then (success, out)
    else (unsupported, out)
