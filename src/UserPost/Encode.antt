-- ===== src/UserPost/Encode.antt =====
-- The entries of include/cx5_user_post.h: which requests are encoded, and what their bytes say.
use mcdma.Prelude.{
  ℕ, zero, suc, ◌+◌, ◌-◌, ◌*◌, ◌/◌, ◌%◌, ◌^◌, ◌≤◌, ◌<◌, ◌≡◌, ◌≢◌, refl, ◌∙◌, inl, inr, ◌||◌, none,
  some, List, [], ◌∷◌, ◌++◌, ◌==◌, if◌then◌else◌, length, take, replicate, arith, Bool-cases,
  Option-cases, length-append, length-take, length-replicate,
}
use mcdma.Prelude.Arrays.{concat}
use mcdma.Cqe.{be32}
use mcdma.UserPost.{
  Sge, Request, is_rdma, wqe_write_imm, wqe_send_imm, payload_bytes, request_bytes, data_units,
  units_of, control, remote_part, sge_part, data_part, entry_of, encode_send,
}

-- What C guarantees of a request: its bytes are there, and its array has three entries.
pub record IsRequest (r : Request) : Type 0 where
  pub opcode_byte : r.opcode < 256
  pub three : length r.sge ≡ 3
  pub immediate_4 : length r.immediate ≡ 4
  pub inlined : (bytes : List ℕ) → r.inline_data ≡ some bytes → r.inline_bytes ≤ length bytes

length-sge_part : (n : ℕ) (ss : List Sge) → n ≤ length ss → length (sge_part n ss) ≡ 16 * n
unfolding sge_part
length-sge_part zero ss h = refl
length-sge_part (suc n) [] h = absurd (omega arith)
length-sge_part (suc n) (s ∷ ss) h =
    let ih = length-sge_part n ss (omega arith) in omega (arith, ih)

-- What an encodable request carries: few enough entries or inline bytes for its opcode.
record Fits (r : Request) : Type 0 where
  few_units : units_of r ≤ 4
  few_bytes : length (data_part r) ≤ 48 - length (remote_part r)

payload_bytes-some : (r : Request) → request_bytes r ≢ 0 → (n : ℕ) × (payload_bytes r ≡ some n)
unfolding request_bytes
payload_bytes-some r h = elim (Option-cases (payload_bytes r)) [
  | inl bad ↦ absurd (ground (arith, bad, h))
  | inr ok ↦ ok
]

listed_few :
    (r : Request) (n : ℕ)
    → r.inline_data ≡ none
    → payload_bytes r ≡ some n
    → r.sge_count ≤ (if is_rdma r.opcode then 2 else 3)
unfolding payload_bytes
listed_few r n listed e = elim (Bool-cases (is_rdma r.opcode)) [
  | inl rdma ↦ rw rdma (ground (arith, listed, rdma, e))
  | inr send ↦ rw send (ground (arith, listed, send, e))
]

inlined_few :
    (r : Request) (n : ℕ) (bytes : List ℕ)
    → r.inline_data ≡ some bytes
    → payload_bytes r ≡ some n
    → r.inline_bytes ≤ (if is_rdma r.opcode then 28 else 44)
unfolding payload_bytes
inlined_few r n bytes here e = elim (Bool-cases (is_rdma r.opcode)) [
  | inl rdma ↦ rw rdma (ground (arith, here, rdma, e))
  | inr send ↦ rw send (ground (arith, here, send, e))
]

remote_length : (r : Request) → length (remote_part r) ≡ (if is_rdma r.opcode then 16 else 0)
remote_length r = elim (Bool-cases (is_rdma r.opcode)) [ inl y ↦ rw y refl | inr n ↦ rw n refl ]

payload_bytes-Fits : (r : Request) (n : ℕ) → IsRequest r → payload_bytes r ≡ some n → Fits r
unfolding payload_bytes
payload_bytes-Fits r n v e = elim (Option-cases r.inline_data) [
  | inl listed ↦
      let few = listed_few r n listed e in
      let l = length-sge_part r.sge_count r.sge (ground (arith, v.three, few)) in
      let u : data_units r ≡ r.sge_count = rw listed refl in
      let d : length (data_part r) ≡ 16 * r.sge_count = rw listed l in
      let p = remote_length r in
      elim (Bool-cases (is_rdma r.opcode)) [
        | inl y ↦ record {
          few_units = rw (u, y) (omega (arith, rw y at few));
          few_bytes = ground (arith, d, p, few, y);
        }
        | inr z ↦ record {
          few_units = rw (u, z) (omega (arith, rw z at few));
          few_bytes = ground (arith, d, p, few, z);
        }
      ]
  | inr (bytes, here) ↦
      let few = inlined_few r n bytes here e in
      let u : data_units r ≡ (4 + r.inline_bytes + 15) / 16 = rw here refl in
      let d : length (data_part r) ≡ 4 + length (take r.inline_bytes bytes) =
        rw here (omega arith) in
      let t : length (take r.inline_bytes bytes) ≤ r.inline_bytes =
        omega (arith, length-take r.inline_bytes bytes) in
      let p = remote_length r in
      elim (Bool-cases (is_rdma r.opcode)) [
        | inl y ↦ record {
          few_units = rw (u, y) (omega (arith, rw y at few));
          few_bytes = ground (arith, d, t, p, few, y);
        }
        | inr z ↦ record {
          few_units = rw (u, z) (omega (arith, rw z at few));
          few_bytes = ground (arith, d, t, p, few, z);
        }
      ]
]

pad_length : (xs : List ℕ) → length xs ≤ 64 → length (xs ++ replicate (64 - length xs) 0) ≡ 64
pad_length xs h =
    length-append xs (replicate (64 - length xs) 0)
    ∙ omega (arith, length-replicate {A = ℕ} (64 - length xs) 0)

length-control :
    (qpn producer : ℕ) (r : Request) → IsRequest r → length (concat (control qpn producer r)) ≡ 16
length-control qpn producer r v =
    elim (Bool-cases (r.opcode == wqe_write_imm || r.opcode == wqe_send_imm)) [
      | inl y ↦ rw y (
          omega (
            arith,
            length-append (take 4 r.immediate) [],
            length-take 4 r.immediate,
            v.immediate_4,
          ))
      | inr z ↦ rw z refl
    ]

three_parts :
    (a b c : List ℕ)
    → length a ≡ 16
    → length b ≤ 48
    → length c ≤ 48 - length b
    → length (a ++ b ++ c) ≤ 64
three_parts a b c x y z =
    let n = length-append a b in let m = length-append (a ++ b) c in omega (arith, n, m)

entry_length :
    (qpn producer : ℕ) (r : Request) → IsRequest r → Fits r → length (entry_of qpn producer r) ≤ 64
unfolding entry_of
entry_length qpn producer r v f =
    three_parts (concat (control qpn producer r)) (remote_part r) (data_part r)
      (length-control qpn producer r v) (ground (arith, remote_length r)) f.few_bytes

be32-put_be32 :
    (v : ℕ)
    → v < 2 ^ 32
    → v / 2 ^ 24 % 256 * 2 ^ 24 + v / 2 ^ 16 % 256 * 2 ^ 16 + v / 2 ^ 8 % 256 * 2 ^ 8 + v % 256 ≡ v
be32-put_be32 v h = omega arith

-- A request that `mcdma_request_bytes` counts is encoded for any 24-bit queue pair: it fits one 64-byte
-- entry, whose first word holds the low 16 bits of the producer and the opcode and whose second holds
-- the queue pair and the entry's number of 16-byte units.
pub encode_send_total :
    (qpn producer : ℕ) (r : Request)
    → IsRequest r
    → qpn < 2 ^ 24
    → request_bytes r ≢ 0
    → (bs : List ℕ) × (encode_send qpn producer r ≡ some bs)
      × (length bs ≡ 64)
      × (be32 bs 0 ≡ producer % 2 ^ 16 * 2 ^ 8 + r.opcode)
      × (be32 bs 4 ≡ qpn * 2 ^ 8 + units_of r)
unfolding encode_send entry_of
encode_send_total qpn producer r v q h =
    let (n, some_bytes) = payload_bytes-some r h in
    let fits = payload_bytes-Fits r n v some_bytes in
    let bs = entry_of qpn producer r ++ replicate (64 - length (entry_of qpn producer r)) 0 in
    (
      bs,
      ground (arith, h, fits.few_units),
      pad_length (entry_of qpn producer r) (entry_length qpn producer r v fits),
      be32-put_be32 (producer % 2 ^ 16 * 2 ^ 8 + r.opcode) (omega (arith, v.opcode_byte)),
      be32-put_be32 (qpn * 2 ^ 8 + units_of r) (omega (arith, fits.few_units)),
    )
