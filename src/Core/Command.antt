-- ===== src/Core/Command.antt =====
-- core/cx5_protocol.cpp and include/cx5_protocol.hpp: command records, their mailboxes, the
-- registers that identify a device, and the lease of the one command slot. A pointer into an array
-- is the list of the bytes from there on, and none is null. `x & (2 ^ k - 1)` is `x % 2 ^ k`.
use mcdma.Prelude.{
  ℕ, zero, suc, ◌+◌, ◌-◌, ◌*◌, ◌/◌, ◌%◌, ◌^◌, Bool, true, false, not, ◌&&◌, ◌||◌, Option, none,
  some, List, [], ◌∷◌, ◌++◌, ltb, leb, ◌==◌, ◌!=◌, if◌then◌else◌, length, get_or, set, take, drop,
  replicate, min, xor, checksum,
}
use mcdma.Prelude.Arrays.{concat, slice}
pub mod Signed
pub mod Mailboxes
pub mod Lease

-- `enum class Error`; `ok` is its `none`.
pub data Error : Type 0 where
  ok : Error
  wrong_device : Error
  removed : Error
  initializing : Error
  command_revision : Error
  queue_geometry : Error
  invalid_length : Error
  invalid_token : Error
  busy : Error
  poisoned : Error
  delivery : Error
  firmware : Error
  token_mismatch : Error
  invalid_address : Error
  bad_mailbox : Error
  timeout : Error

abbrev pub command_bytes : ℕ
command_bytes = 64

abbrev pub mailbox_data_bytes : ℕ
mailbox_data_bytes = 512

abbrev pub mailbox_stride : ℕ
mailbox_stride = 1024

abbrev pub max_command_bytes : ℕ
max_command_bytes = 8192

abbrev pub max_mailboxes : ℕ
max_mailboxes = 16

-- `read_be32`
abbrev pub read_be32 : List ℕ → ℕ
read_be32 p = get_or p 0 0 * 2 ^ 24 + get_or p 1 0 * 2 ^ 16 + get_or p 2 0 * 2 ^ 8 + get_or p 3 0

-- `write_be32`
abbrev pub write_be32 : ℕ → List ℕ
write_be32 v = v / 2 ^ 24 % 256 ∷ v / 2 ^ 16 % 256 ∷ v / 2 ^ 8 % 256 ∷ v % 256 ∷ []

-- `read_be64`
abbrev pub read_be64 : List ℕ → ℕ
read_be64 p = read_be32 p * 2 ^ 32 + read_be32 (drop 4 p)

-- `write_be64`
abbrev pub write_be64 : ℕ → List ℕ
write_be64 v = write_be32 (v / 2 ^ 32) ++ write_be32 (v % 2 ^ 32)

-- `mailbox_count`
unfoldable pub mailbox_count : ℕ → ℕ
mailbox_count bytes =
    if leb bytes 16 then 0 else (bytes - 16 + mailbox_data_bytes - 1) / mailbox_data_bytes

-- `n` bytes of `p` in an array of 16 zeros
abbrev pub saved_of : ℕ → List ℕ → List ℕ
saved_of n p = take n p ++ replicate (16 - n) 0

-- The 64 bytes before the signature is stored.
abbrev pub unsigned_command : ℕ → ℕ → ℕ → List ℕ → ℕ → ℕ → List ℕ
unsigned_command n out token saved input_dma output_dma = concat (
    (7 ∷ 0 ∷ 0 ∷ 0 ∷ [])
    ∷ write_be32 n
    ∷ write_be64 input_dma
    ∷ saved
    ∷ replicate 16 0
    ∷ write_be64 output_dma
    ∷ write_be32 out
    ∷ (token ∷ 0 ∷ 0 ∷ 1 ∷ [])
    ∷ [])

-- `e[61]` gets the sum of the record.
abbrev pub signed : List ℕ → List ℕ
signed e = set e 61 (checksum 0xff e)

-- `encode_command`: the error and the record, whose bytes were `e`, for the `n` bytes at `input`.
unfoldable pub encode_command : List ℕ → List ℕ → ℕ → ℕ → ℕ → ℕ → ℕ → Error × List ℕ
encode_command e input n out token input_dma output_dma =
    if ltb n 8 || ltb out 8 || ltb max_command_bytes n || ltb max_command_bytes out
    then (invalid_length, e)
    else if token == 0
    then (invalid_token, e)
    else if ltb 16 n && (input_dma == 0 || input_dma % mailbox_stride != 0)
        || ltb 16 out && (output_dma == 0 || output_dma % mailbox_stride != 0)
    then (invalid_address, e)
    else (
      ok,
      signed (
          unsigned_command n out token (saved_of (if ltb n 16 then n else 16) input)
            (if ltb 16 n then input_dma else 0) (if ltb 16 out then output_dma else 0)),
    )

-- `encode_inline`
unfoldable pub encode_inline : List ℕ → List ℕ → ℕ → ℕ → ℕ → Error × List ℕ
encode_inline e input n out t =
    if ltb n 8 || ltb 16 n || ltb out 8 || ltb 16 out
    then (invalid_length, e)
    else if t == 0
    then (invalid_token, e)
    else (
      ok,
      signed (
          concat (
            (7 ∷ 0 ∷ 0 ∷ 0 ∷ [])
            ∷ write_be32 n
            ∷ replicate 8 0
            ∷ take n (saved_of n input)
            ∷ replicate (16 - n) 0
            ∷ replicate 24 0
            ∷ write_be32 out
            ∷ (t ∷ 0 ∷ 0 ∷ 1 ∷ [])
            ∷ [])),
    )

-- What `decode_inline` leaves: the error, the bytes at `out`, `delivery` and `fw`.
pub record Reply : Type 0 where
  pub error : Error
  pub out : List ℕ
  pub delivery_status : ℕ
  pub fw : ℕ

-- `decode_inline`: `out` before the call is given.
unfoldable pub decode_inline : List ℕ → ℕ → List ℕ → ℕ → Reply
decode_inline e t out n =
    let delivered = get_or e 63 0 / 2 in
    let status = get_or e 32 0 in
    if ltb n 8 || ltb 16 n
    then record { error = invalid_length; out = out; delivery_status = 0; fw = 0 }
    else if t == 0
    then record { error = invalid_token; out = out; delivery_status = 0; fw = 0 }
    else if get_or e 63 0 % 2 != 0
    then record { error = busy; out = out; delivery_status = 0; fw = 0 }
    else if get_or e 60 0 != t
    then record { error = token_mismatch; out = out; delivery_status = 0; fw = 0 }
    else if delivered != 0
    then record { error = delivery; out = out; delivery_status = delivered; fw = 0 }
    else if read_be32 (drop 56 e) != n
    then record { error = invalid_length; out = out; delivery_status = 0; fw = 0 }
    else if status != 0
    then record { error = firmware; out = out; delivery_status = 0; fw = status }
    else record { error = ok; out = slice 32 n e ++ drop n out; delivery_status = 0; fw = 0 }
