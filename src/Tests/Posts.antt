-- ===== src/Tests/Posts.antt =====
-- The entries and the capability block of include/cx5_user_post.h at concrete inputs.
use mcdma.Prelude.{
  ℕ, ◌+◌, ◌*◌, ◌%◌, ◌^◌, ◌≡◌, refl, true, none, some, List, [], ◌∷◌, arith, length, replicate,
}
use mcdma.Cqe.{be32}
use mcdma.UserPost.{
  Sge, Request, sge_total, payload_bytes, request_bytes, units_of, encode_send, bank_ok, wqe_write,
}
use mcdma.UserPost.Encode.{IsRequest, encode_send_total}

abbrev nowhere : Sge
nowhere = record { address = 0; lkey = 0; len = 0 }

-- an RDMA WRITE of two scatter entries
abbrev writing : Request
writing = record {
  opcode = wqe_write;
  flags = 2;
  immediate = replicate 4 0;
  remote = 4096;
  rkey = 77;
  sge =
      record { address = 1000; lkey = 5; len = 16 }
      ∷ record { address = 2000; lkey = 6; len = 32 }
      ∷ nowhere
      ∷ [];
  sge_count = 2;
  inline_data = none;
  inline_bytes = 0;
}

writing-IsRequest : IsRequest writing
writing-IsRequest = record {
  opcode_byte = omega arith;
  three = refl;
  immediate_4 = refl;
  inlined = λ bytes e. cc;
}

request_bytes-writing : request_bytes writing ≡ 48
unfolding request_bytes payload_bytes sge_total
request_bytes-writing = refl

encode_send_total_example :
    (bs : List ℕ) × (encode_send 9 70000 writing ≡ some bs)
    × (length bs ≡ 64)
    × (be32 bs 0 ≡ 70000 % 2 ^ 16 * 2 ^ 8 + writing.opcode)
    × (be32 bs 4 ≡ 9 * 2 ^ 8 + units_of writing)
encode_send_total_example =
    encode_send_total 9 70000 writing writing-IsRequest (omega arith)
      (omega (arith, request_bytes-writing))

bank_ok-256 : bank_ok 256 ≡ true
unfolding bank_ok
bank_ok-256 = refl
