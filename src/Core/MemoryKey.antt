-- ===== src/Core/MemoryKey.antt =====
-- core/cx5_verbs.cpp: the commands that create memory keys. An array of pages has at least `count`
-- elements; `access` has the bits local write 1, remote write 2 and remote read 4.
use mcdma.Prelude.{
  ℕ, zero, suc, ◌+◌, ◌-◌, ◌*◌, ◌/◌, ◌%◌, ◌^◌, Bool, true, false, not, ◌&&◌, ◌||◌, Option, none,
  some, List, [], ◌∷◌, ◌++◌, ltb, leb, ◌==◌, ◌!=◌, if◌then◌else◌, replicate,
}
use mcdma.Prelude.Arrays.{concat}
use mcdma.Core.Command.{write_be32, write_be64, max_command_bytes}
use mcdma.Core.Bits.{Field, set_all}
pub mod Fields

abbrev pub max_mkey_pages : ℕ
max_mkey_pages = (max_command_bytes - 0x110) / 8

-- The test of the first `n` pages, each a nonzero multiple of the page size.
unfoldable pub pages_ok : ℕ → ℕ → List ℕ → Bool
pages_ok zero page ps = true
pages_ok (suc n) page [] = false
pages_ok (suc n) page (p ∷ ps) =
    let rest = pages_ok n page ps in if p == 0 || p % page != 0 then false else rest

-- The loop that writes the first `n` pages.
unfoldable pub page_entries : ℕ → List ℕ → List ℕ
page_entries zero ps = []
page_entries (suc n) [] = []
page_entries (suc n) (p ∷ ps) = write_be64 p ++ page_entries n ps

-- The command with its context in bytes 16 to 79 and `units` translation units, before the entries.
abbrev pub key_command : List Field → ℕ → List (List ℕ) → List ℕ
key_command fields units entries = concat (
    write_be32 0x2000000
    ∷ replicate 12 0
    ∷ set_all (replicate 64 0) 64 fields
    ∷ replicate 16 0
    ∷ write_be32 units
    ∷ replicate 172 0
    ∷ entries)

-- the fields that `create_mkey` sets
abbrev pub mkey_fields : ℕ → ℕ → ℕ → ℕ → ℕ → List Field
mkey_fields pd key base len count =
    record { offset = 0x12; width = 4; value = 15 }
    ∷ record { offset = 0x16; width = 2; value = 1 }
    ∷ record { offset = 0x20; width = 24; value = 0xffffff }
    ∷ record { offset = 0x38; width = 8; value = key }
    ∷ record { offset = 0x68; width = 24; value = pd }
    ∷ record { offset = 0x80; width = 64; value = base }
    ∷ record { offset = 0xc0; width = 64; value = len }
    ∷ record { offset = 0x1a0; width = 32; value = (count + 1) / 2 }
    ∷ record { offset = 0x1db; width = 5; value = 12 }
    ∷ []

-- `create_mkey`: the command, or `none` for its false.
unfoldable pub create_mkey : ℕ → ℕ → ℕ → ℕ → ℕ → List ℕ → ℕ → Option (List ℕ)
create_mkey capacity pd key base len pages count =
    if key == 0
      || ltb 0xffffff pd
      || count == 0
      || ltb 512 count
      || ltb capacity (0x110 + count * 8)
      || base % 4096 != 0
      || len == 0
      || ltb (count * 4096) len
      || ltb (2 ^ 64 - 1 - len) base
    then none
    else if not (pages_ok count 4096 pages)
    then none
    else some (
        key_command (mkey_fields pd key base len count) ((count + 1) / 2)
          (page_entries count pages ∷ []))

-- the fields that `create_user_mkey` sets
abbrev pub user_fields : ℕ → ℕ → ℕ → ℕ → ℕ → ℕ → ℕ → Bool → List Field
user_fields pd key base len padded access log_page relaxed_ordering =
    record { offset = 0x12; width = 1; value = access / 2 % 2 }
    ∷ record { offset = 0x13; width = 1; value = access / 4 % 2 }
    ∷ record { offset = 0x14; width = 1; value = access % 2 }
    ∷ record { offset = 0x15; width = 1; value = 1 }
    ∷ record { offset = 0x16; width = 2; value = 1 }
    ∷ record { offset = 0x20; width = 24; value = 0xffffff }
    ∷ record { offset = 0x38; width = 8; value = key }
    ∷ record { offset = 0x68; width = 24; value = pd }
    ∷ record { offset = 0x80; width = 64; value = base }
    ∷ record { offset = 0xc0; width = 64; value = len }
    ∷ record { offset = 0x1a0; width = 32; value = padded / 2 }
    ∷ record { offset = 0x1da; width = 6; value = log_page }
    ∷ (if relaxed_ordering
        then record { offset = 0xd; width = 1; value = 1 }
          ∷ record { offset = 0x1d9; width = 1; value = 1 }
          ∷ []
        else [])

-- `create_user_mkey`: the command, or `none` for its 0.
unfoldable pub create_user_mkey : ℕ → ℕ → ℕ → ℕ → ℕ → List ℕ → ℕ → ℕ → ℕ → Bool → Option (List ℕ)
create_user_mkey capacity pd key base len pages count access log_page relaxed_ordering =
    let page = 2 ^ log_page in
    let mask = page - 1 in
    let offset = base % page in
    let padded = (count + 1) / 2 * 2 in
    if key == 0
      || ltb 0xffffff pd
      || count == 0
      || ltb max_mkey_pages count
      || len == 0
      || ltb log_page 12
      || ltb 30 log_page
      || ltb 7 access
      || access / 2 % 2 != 0 && access % 2 == 0
      || ltb (2 ^ 64 - 1 - len) base
    then none
    else if ltb (2 ^ 64 - 1 - offset - mask) len
        || ltb (count * page - offset) len
        || (len + offset + mask) / page != count
    then none
    else if ltb capacity (0x110 + padded * 8)
    then none
    else if not (pages_ok count page pages)
    then none
    else some (
        key_command (user_fields pd key base len padded access log_page relaxed_ordering)
          (padded / 2) (page_entries count pages ∷ replicate ((padded - count) * 8) 0 ∷ []))
