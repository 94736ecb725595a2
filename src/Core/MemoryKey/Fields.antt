-- ===== src/Core/MemoryKey/Fields.antt =====
-- The fields of the commands that create memory keys, read back.
use mcdma.Prelude.{
  ℕ, ◌+◌, ◌-◌, ◌*◌, ◌/◌, ◌%◌, ◌^◌, ◌≤◌, ◌<◌, ◌≡◌, refl, sym, ap, ◌∙◌, arith, Bool, true, false,
  some, List, [], ◌∷◌, if◌then◌else◌, replicate, All,
}
use mathlib.Core.Path.{subst}
use mcdma.Prelude.Arrays.{slice, slice-concat}
use mcdma.Core.Command.{write_be32}
use mcdma.Core.Bits.{Field, set_all, get_bits, get_from}
use mcdma.Core.Bits.Layout.{
  FieldFits, all_apart, Reads, set_all-Reads, set_all-kept, apart_all, length-set_all,
}
use mcdma.Core.MemoryKey.{key_command, user_fields, page_entries, create_user_mkey}

-- The context of a key as the device reads it.
abbrev pub context : List ℕ → List ℕ
context p = slice 16 64 p

context_of :
    (fields : List Field) (units : ℕ) (entries : List (List ℕ))
    → All (FieldFits 64) fields
    → context (key_command fields units entries) ≡ set_all (replicate 64 0) 64 fields
context_of fields units entries fit =
    slice-concat 2
      (write_be32 0x2000000
        ∷ replicate 12 0
        ∷ set_all (replicate 64 0) 64 fields
        ∷ replicate 16 0
        ∷ write_be32 units
        ∷ replicate 172 0
        ∷ entries)
      16 64 (omega arith) refl (sym (length-set_all (replicate 64 0) 64 fields fit))

user_facts :
    (capacity pd key base len : ℕ) (pages : List ℕ) (count access log_page : ℕ) (relaxed : Bool)
    (p : List ℕ)
    → create_user_mkey capacity pd key base len pages count access log_page relaxed ≡ some p
    → (pd < 2 ^ 24)
      × (count ≤ 990)
      × (12 ≤ log_page)
      × (log_page ≤ 30)
      × (access < 8)
      × (len + base < 2 ^ 64)
      × (p
          ≡ key_command
              (user_fields pd key base len ((count + 1) / 2 * 2) access log_page relaxed)
              ((count + 1) / 2 * 2 / 2)
              (page_entries count pages ∷ replicate (((count + 1) / 2 * 2 - count) * 8) 0 ∷ []))
unfolding create_user_mkey
user_facts capacity pd key base len pages count access log_page relaxed p h = ground (arith, h)

-- the value of a bit
abbrev flag : Bool → ℕ
flag b = if b then 1 else 0

user_fit :
    (pd key base len padded access log_page : ℕ) (relaxed : Bool)
    → pd < 2 ^ 24
    → key < 2 ^ 8
    → len + base < 2 ^ 64
    → padded ≤ 992
    → access < 8
    → log_page ≤ 30
    → All (FieldFits 64) (user_fields pd key base len padded access log_page relaxed)
user_fit pd key base len padded access log_page true a b c d e f = ground arith
user_fit pd key base len padded access log_page false a b c d e f = ground arith

-- What the fields of a user key say of its context, but for the two ordering bits.
picked :
    (m : List ℕ) (pd key base len padded access log_page : ℕ) (relaxed : Bool)
    → All (Reads m 64) (user_fields pd key base len padded access log_page relaxed)
    → (get_bits m 64 0x38 8 ≡ key)
      × (get_bits m 64 0x68 24 ≡ pd)
      × (get_bits m 64 0x80 64 ≡ base)
      × (get_bits m 64 0xc0 64 ≡ len)
      × (get_bits m 64 0x1da 6 ≡ log_page)
      × (get_bits m 64 0x14 1 ≡ access % 2)
      × (get_bits m 64 0x12 1 ≡ access / 2 % 2)
      × (get_bits m 64 0x13 1 ≡ access / 4 % 2)
picked m pd key base len padded access log_page relaxed
      (write, (read, (local, (r1, (r2, (r3, (k, (o, (a, (l, (r4, (g, rest)))))))))))) =
    (k, o, a, l, g, local, write, read)

clear_d : get_bits (replicate 64 0) 64 0xd 1 ≡ 0
unfolding get_bits get_from
clear_d = refl

clear_1d9 : get_bits (replicate 64 0) 64 0x1d9 1 ≡ 0
unfolding get_bits get_from
clear_1d9 = refl

module _ (pd key base len padded access log_page : ℕ) where
  abbrev set_context : Bool → List ℕ
  set_context relaxed =
      set_all (replicate 64 0) 64 (user_fields pd key base len padded access log_page relaxed)

  far :
      (relaxed : Bool)
      → all_apart (user_fields pd key base len padded access log_page relaxed) ≡ true
  far true = refl
  far false = refl

  abbrev Fit : Bool → Type 0
  Fit relaxed = All (FieldFits 64) (user_fields pd key base len padded access log_page relaxed)

  ordered :
      Fit true
      → (get_bits (set_context true) 64 0xd 1 ≡ 1) × (get_bits (set_context true) 64 0x1d9 1 ≡ 1)
  ordered fit = last_two (set_context true) (
      set_all-Reads (replicate 64 0) 64 (user_fields pd key base len padded access log_page true)
        (omega arith) fit (far true))
    where
      last_two :
          (m : List ℕ)
          → All (Reads m 64) (user_fields pd key base len padded access log_page true)
          → (get_bits m 64 0xd 1 ≡ 1) × (get_bits m 64 0x1d9 1 ≡ 1)
      last_two m
            (f1, (f2, (f3, (f4, (f5, (f6, (f7, (f8, (f9, (f10, (f11, (f12, (x, (y, z)))))))))))))) =
          (x, y)

  -- Bit `at` of the cleared context stays clear.
  untouched :
      (at : ℕ)
      → Fit false
      → FieldFits 64 (record { offset = at; width = 1; value = 0 })
      → apart_all
          (record { offset = at; width = 1; value = 0 })
          (user_fields pd key base len padded access log_page false)
        ≡ true
      → get_bits (replicate 64 0) 64 at 1 ≡ 0
      → get_bits (set_context false) 64 at 1 ≡ 0
  untouched at fit fits clear was =
      set_all-kept (replicate 64 0) 64 (record { offset = at; width = 1; value = 0 })
        (user_fields pd key base len padded access log_page false) (omega arith) fits fit clear was

  ordering :
      (relaxed : Bool)
      → Fit relaxed
      → (get_bits (set_context relaxed) 64 0xd 1 ≡ flag relaxed)
        × (get_bits (set_context relaxed) 64 0x1d9 1 ≡ flag relaxed)
  ordering true fit = ordered fit
  ordering false fit = (
    untouched 0xd fit (omega arith, omega arith, omega arith, omega arith) refl clear_d,
    untouched 0x1d9 fit (omega arith, omega arith, omega arith, omega arith) refl clear_1d9,
  )

-- In a command that `create_user_mkey` makes, `get_bits` reads the key, the protection domain, the
-- address, the length and the page size that were asked for, the access bits as `access` has them, and
-- both relaxed ordering bits set exactly when that was asked for.
pub create_user_mkey-Reads :
    (capacity pd key base len : ℕ) (pages : List ℕ) (count access log_page : ℕ) (relaxed : Bool)
    (p : List ℕ)
    → key < 2 ^ 8
    → create_user_mkey capacity pd key base len pages count access log_page relaxed ≡ some p
    → (get_bits (context p) 64 0x38 8 ≡ key)
      × (get_bits (context p) 64 0x68 24 ≡ pd)
      × (get_bits (context p) 64 0x80 64 ≡ base)
      × (get_bits (context p) 64 0xc0 64 ≡ len)
      × (get_bits (context p) 64 0x1da 6 ≡ log_page)
      × (get_bits (context p) 64 0x14 1 ≡ access % 2)
      × (get_bits (context p) 64 0x12 1 ≡ access / 2 % 2)
      × (get_bits (context p) 64 0x13 1 ≡ access / 4 % 2)
      × (get_bits (context p) 64 0xd 1 ≡ flag relaxed)
      × (get_bits (context p) 64 0x1d9 1 ≡ flag relaxed)
create_user_mkey-Reads capacity pd key base len pages count access log_page relaxed p small h =
    let (a, b, c, d, e, f, made) =
      user_facts capacity pd key base len pages count access log_page relaxed p h in
    let padded = (count + 1) / 2 * 2 in
    let fields = user_fields pd key base len padded access log_page relaxed in
    let m = set_all (replicate 64 0) 64 fields in
    let fit = user_fit pd key base len padded access log_page relaxed a small f (omega arith) e d in
    let same : m ≡ context p = sym (
      ap context made
      ∙ context_of fields (padded / 2)
          (page_entries count pages ∷ replicate ((padded - count) * 8) 0 ∷ []) fit) in
    let reads : All (Reads (context p) 64) fields =
      subst (λ x. All (Reads x 64) fields) same
        (set_all-Reads (replicate 64 0) 64 fields (omega arith) fit
          (far pd key base len padded access log_page relaxed)) in
    let (k, o, q, l, g, local, write, read) =
      picked (context p) pd key base len padded access log_page relaxed reads in
    let both : (get_bits (context p) 64 0xd 1 ≡ flag relaxed)
        × (get_bits (context p) 64 0x1d9 1 ≡ flag relaxed) =
      subst (λ x. (get_bits x 64 0xd 1 ≡ flag relaxed) × (get_bits x 64 0x1d9 1 ≡ flag relaxed))
        same (ordering pd key base len padded access log_page relaxed fit) in
    (k, o, q, l, g, local, write, read, both.0, both.1)
