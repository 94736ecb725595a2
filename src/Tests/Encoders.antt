-- ===== src/Tests/Encoders.antt =====
-- The modules of Core that encode and decode entries and keys, and the parts of a bond, at concrete inputs.
use mcdma.Prelude.{
  length, All, ◌≤◌, ℕ, ◌/◌, ◌%◌, ◌≡◌, ◌≢◌, refl, arith, true, none, some, List, [], ◌∷◌, replicate,
}
use mcdma.Bond.{bond_parts, sum_of}
use mcdma.Bond.Parts.{minimum_of, bond_parts-sum}
use mcdma.UserPost.{Request, encode_send, wqe_send}
use mcdma.UserQueue.{Record}
use mcdma.UserQueue.Contents.{outstanding}
use mcdma.Cqe.Decode.{IsDirected}
use mcdma.Tests.Mirror.{received, lookup, mirrors, completion, mirrors_after, decode-received}
use mcdma.Core.Bits.{get_bits}
use mcdma.Core.MemoryKey.{create_user_mkey, pages_ok}
use mcdma.Core.MemoryKey.Fields.{context, create_user_mkey-Reads}
use mcdma.Core.Entries.{encode_send_request, Seen, success, empty, decode_cqe}
use mcdma.Core.Entries.Agree.{encode_send_request-encode_send, DecodersAgree, decode_cqe-decode}

abbrev three_pages : List ℕ
three_pages = 0x1000 ∷ 0x9000 ∷ 0x2000 ∷ []

abbrev command : List ℕ
command = elim (create_user_mkey 8192 7 0x5a 0x40010 0x2000 three_pages 3 5 12 true) [
  | none ↦ []
  | some p ↦ p
]

made : create_user_mkey 8192 7 0x5a 0x40010 0x2000 three_pages 3 5 12 true ≡ some command
unfolding create_user_mkey pages_ok
made = refl

create_user_mkey-Reads_example :
    (get_bits (context command) 64 0x38 8 ≡ 0x5a)
    × (get_bits (context command) 64 0x68 24 ≡ 7)
    × (get_bits (context command) 64 0x80 64 ≡ 0x40010)
    × (get_bits (context command) 64 0xc0 64 ≡ 0x2000)
    × (get_bits (context command) 64 0x1da 6 ≡ 12)
    × (get_bits (context command) 64 0x14 1 ≡ 5 % 2)
    × (get_bits (context command) 64 0x12 1 ≡ 5 / 2 % 2)
    × (get_bits (context command) 64 0x13 1 ≡ 5 / 4 % 2)
    × (get_bits (context command) 64 0xd 1 ≡ 1)
    × (get_bits (context command) 64 0x1d9 1 ≡ 1)
create_user_mkey-Reads_example =
    create_user_mkey-Reads 8192 7 0x5a 0x40010 0x2000 three_pages 3 5 12 true command (omega arith)
      made

abbrev greeting : Request
greeting = record {
  opcode = wqe_send;
  flags = 4;
  immediate = replicate 4 0;
  remote = 0;
  rkey = 0;
  sge = [];
  sge_count = 0;
  inline_data = some (72 ∷ 105 ∷ []);
  inline_bytes = 2;
}

encode_send_request-encode_send_example :
    encode_send_request 64 9 3 greeting ≡ encode_send 9 3 greeting
encode_send_request-encode_send_example =
    encode_send_request-encode_send 64 9 3 greeting (omega arith)

abbrev seen : Seen
seen = (decode_cqe received 0 5).1

read_back : decode_cqe received 0 5 ≡ (success, seen)
unfolding decode_cqe
read_back = refl

success_ne : success ≢ empty
success_ne e = cc e

decode_cqe-decode_example :
    (p : ℕ) × (r : Record) × IsDirected lookup received p
    × (outstanding (mirrors p) seen.wqe_counter ≡ some r)
    × DecodersAgree received r completion seen success
decode_cqe-decode_example =
    decode_cqe-decode lookup received mirrors mirrors_after completion 0 5 seen success
      decode-received read_back (omega arith) success_ne

abbrev loads : List ℕ
loads = 7000 ∷ 0 ∷ 2000 ∷ []

bond_parts-sum_example :
    (sum_of (bond_parts loads 1000000) ≡ 1000000)
    × All (λ s. minimum_of (length loads) 1000000 ≤ s) (bond_parts loads 1000000)
    × (length (bond_parts loads 1000000) ≡ length loads)
bond_parts-sum_example = bond_parts-sum loads 1000000 (omega arith) (omega arith)
