-- ===== src/Core/Command/Mailboxes.antt =====
-- core/cx5_protocol.cpp: `prepare_mailboxes` and `collect_mailboxes`. UINT64_MAX is 2 ^ 64 - 1.
use mcdma.Prelude.{
  ℕ, zero, suc, ◌+◌, ◌-◌, ◌*◌, ◌/◌, ◌%◌, ◌^◌, Bool, true, false, not, ◌&&◌, ◌||◌, Option, none,
  some, List, [], ◌∷◌, ◌++◌, ltb, leb, ◌==◌, ◌!=◌, if◌then◌else◌, length, get_or, take, drop,
  replicate, min, checksum,
}
use mcdma.Prelude.Arrays.{concat}
use mcdma.Core.Command.{
  Error, ok, invalid_length, invalid_token, bad_mailbox, mailbox_data_bytes, mailbox_stride,
  max_command_bytes, max_mailboxes, read_be32, read_be64, write_be32, write_be64,
}
pub mod Fields
pub mod RoundTrip

abbrev pub mailboxes_of : ℕ → ℕ
mailboxes_of bytes = (bytes + mailbox_data_bytes - 1) / mailbox_data_bytes

-- `mailbox_extent`
unfoldable pub mailbox_extent : ℕ → ℕ → ℕ → Bool
mailbox_extent bytes capacity dma =
    let count = mailboxes_of bytes in
    if bytes == 0 || ltb (max_command_bytes - 16) bytes || dma == 0 || dma % mailbox_stride != 0
    then false
    else leb count max_mailboxes
      && leb (count * mailbox_stride) capacity
      && leb dma (2 ^ 64 - 1 - count * mailbox_stride)

-- the pointer in mailbox `i` of `count`
abbrev pub next_of : ℕ → ℕ → ℕ → ℕ
next_of i count dma = if ltb (i + 1) count then (dma + (i + 1) * mailbox_stride) % 2 ^ 64 else 0

-- the bytes of the payload in mailbox `i`
abbrev pub part_of : ℕ → ℕ → ℕ
part_of i bytes = min (bytes - i * mailbox_data_bytes) mailbox_data_bytes

-- the bytes 0x200 up to 0x23e: the control part but for its sum
abbrev pub control_of : ℕ → ℕ → ℕ → List ℕ
control_of next i token =
    concat (replicate 48 0 ∷ write_be64 next ∷ write_be32 i ∷ (0 ∷ token ∷ []) ∷ [])

-- the bytes below 0x23f, all that the signature sums
abbrev pub summed : List ℕ → ℕ → ℕ → ℕ → List ℕ
summed part next i token = concat (
    part
    ∷ replicate (512 - length part) 0
    ∷ control_of next i token
    ∷ (checksum 0xff (control_of next i token) ∷ [])
    ∷ [])

-- The body of the loop of `prepare_mailboxes`: one mailbox with its two sums.
unfoldable pub mailbox : List ℕ → ℕ → ℕ → ℕ → List ℕ
mailbox part next i token = concat (
    part
    ∷ replicate (512 - length part) 0
    ∷ replicate 48 0
    ∷ write_be64 next
    ∷ write_be32 i
    ∷ (0 ∷ token ∷ [])
    ∷ (checksum 0xff (control_of next i token) ∷ [])
    ∷ (checksum 0xff (summed part next i token) ∷ [])
    ∷ replicate 448 0
    ∷ [])

-- The loop from `i` on, for the `k` mailboxes that are left; a null payload copies nothing.
unfoldable pub mailboxes_from : ℕ → ℕ → ℕ → ℕ → Option (List ℕ) → ℕ → ℕ → List ℕ
mailboxes_from zero i count dma payload bytes token = []
mailboxes_from (suc k) i count dma payload bytes token =
    let part : List ℕ = elim payload [
      | none ↦ []
      | some p ↦ take (part_of i bytes) (drop (i * mailbox_data_bytes) p)
    ] in
    mailbox part (next_of i count dma) i token
    ++ mailboxes_from k (i + 1) count dma payload bytes token

-- `prepare_mailboxes`: the error and the memory at `blocks`.
unfoldable pub prepare_mailboxes : List ℕ → ℕ → ℕ → Option (List ℕ) → ℕ → ℕ → Error × List ℕ
prepare_mailboxes blocks capacity dma payload bytes token =
    let count = mailboxes_of bytes in
    if not (mailbox_extent bytes capacity dma)
    then (invalid_length, blocks)
    else if token == 0
    then (invalid_token, blocks)
    else (
      ok,
      mailboxes_from count 0 count dma payload bytes token ++ drop (count * mailbox_stride) blocks,
    )

-- The test of one mailbox in `collect_mailboxes`.
unfoldable pub mailbox_ok : List ℕ → ℕ → ℕ → ℕ → Bool
mailbox_ok b next i token =
    not (
      read_be64 (drop 0x230 b) != next
      || read_be32 (drop 0x238 b) != i
      || get_or b 0x23d 0 != token)

-- The first loop from `i` on.
unfoldable pub chain_ok : ℕ → ℕ → ℕ → ℕ → List ℕ → ℕ → Bool
chain_ok zero i count dma blocks token = true
chain_ok (suc k) i count dma blocks token =
    let rest = chain_ok k (i + 1) count dma blocks token in
    if not (mailbox_ok (drop (i * mailbox_stride) blocks) (next_of i count dma) i token)
    then false
    else rest

-- The second loop from `i` on: the bytes that it copies.
unfoldable pub copied_from : ℕ → ℕ → List ℕ → ℕ → List ℕ
copied_from zero i blocks bytes = []
copied_from (suc k) i blocks bytes =
    take (part_of i bytes) (drop (i * mailbox_stride) blocks) ++ copied_from k (i + 1) blocks bytes

-- `collect_mailboxes`: the error and the memory at `payload`.
unfoldable pub collect_mailboxes : List ℕ → ℕ → ℕ → List ℕ → ℕ → ℕ → Error × List ℕ
collect_mailboxes blocks capacity dma payload bytes token =
    let count = mailboxes_of bytes in
    if not (mailbox_extent bytes capacity dma)
    then (invalid_length, payload)
    else if token == 0
    then (invalid_token, payload)
    else if not (chain_ok count 0 count dma blocks token)
    then (bad_mailbox, payload)
    else (ok, copied_from count 0 blocks bytes ++ drop bytes payload)
