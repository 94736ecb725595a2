-- ===== src/Core/Command/Mailboxes/Fields.antt =====
-- The fields of one mailbox, read back wherever it stands in memory.
use mcdma.Prelude.{
  ℕ, ◌+◌, ◌-◌, ◌^◌, ◌≤◌, ◌<◌, ◌≡◌, refl, ap, ◌∙◌, arith, true, not, ◌||◌, List, [], ◌∷◌, ◌++◌, ◌!=◌,
  length, get_or, take, drop, replicate, checksum, length-replicate, take-append, append_assoc,
}
use mcdma.Prelude.Arrays.{concat, fields_from, drop-concat, length-concat, get_or-drop}
use mcdma.Core.Command.{read_be32, read_be64, write_be32, write_be64}
use mcdma.Core.Command.Mailboxes.{control_of, summed, mailbox, mailbox_ok}

read_be32-write : (v : ℕ) (t : List ℕ) → v < 2 ^ 32 → read_be32 (write_be32 v ++ t) ≡ v
read_be32-write v t h = omega arith

read_be64-write : (v : ℕ) (t : List ℕ) → v < 2 ^ 64 → read_be64 (write_be64 v ++ t) ≡ v
read_be64-write v t h = omega arith

abbrev zeros : ℕ → List ℕ
zeros n = replicate n 0

length-zeros : (n : ℕ) → length (zeros n) ≡ n
length-zeros n = length-replicate n 0

accepts :
    (b : List ℕ) (next i token : ℕ)
    → read_be64 (drop 0x230 b) ≡ next
    → read_be32 (drop 0x238 b) ≡ i
    → get_or b 0x23d 0 ≡ token
    → mailbox_ok b next i token ≡ true
unfolding mailbox_ok
accepts b next i token p n k = rw (p, n, k) (same next i token)
  where
    same : (next i token : ℕ) → not (next != next || i != i || token != token) ≡ true
    same next i token = ground arith

-- The fields of one mailbox.
abbrev mailbox_fields : List ℕ → ℕ → ℕ → ℕ → List (List ℕ)
mailbox_fields part next i token =
    part
    ∷ zeros (512 - length part)
    ∷ zeros 48
    ∷ write_be64 next
    ∷ write_be32 i
    ∷ (0 ∷ token ∷ [])
    ∷ (checksum 0xff (control_of next i token) ∷ [])
    ∷ (checksum 0xff (summed part next i token) ∷ [])
    ∷ zeros 448
    ∷ []

module _ (part : List ℕ) (next i token : ℕ) (t : List ℕ) (short : length part ≤ 512) where
  shape : mailbox part next i token ≡ concat (mailbox_fields part next i token)
  unfolding mailbox
  shape = refl

  pad : length part + length (zeros (512 - length part)) ≡ 512
  pad = omega (arith, length-zeros (512 - length part))

  at_pointer :
      drop 0x230 (mailbox part next i token ++ t)
      ≡ concat (fields_from 3 (mailbox_fields part next i token)) ++ t
  at_pointer =
      ap (λ m. drop 0x230 (m ++ t)) shape
      ∙ drop-concat 3 (mailbox_fields part next i token) 0x230 t
          (omega (arith, pad, length-zeros 48))

  at_number :
      drop 0x238 (mailbox part next i token ++ t)
      ≡ concat (fields_from 4 (mailbox_fields part next i token)) ++ t
  at_number =
      ap (λ m. drop 0x238 (m ++ t)) shape
      ∙ drop-concat 4 (mailbox_fields part next i token) 0x238 t
          (omega (arith, pad, length-zeros 48))

  at_token :
      drop 0x23c (mailbox part next i token ++ t)
      ≡ concat (fields_from 5 (mailbox_fields part next i token)) ++ t
  at_token =
      ap (λ m. drop 0x23c (m ++ t)) shape
      ∙ drop-concat 5 (mailbox_fields part next i token) 0x23c t
          (omega (arith, pad, length-zeros 48))

  token_byte : get_or (mailbox part next i token ++ t) 0x23d 0 ≡ token
  token_byte =
      get_or-drop 0x23c 1 (mailbox part next i token ++ t) 0 ∙ ap (λ p. get_or p 1 0) at_token

  pub mailbox-ok :
      next < 2 ^ 64 → i < 2 ^ 32 → mailbox_ok (mailbox part next i token ++ t) next i token ≡ true
  mailbox-ok n m =
      let pointer : read_be64 (drop 0x230 (mailbox part next i token ++ t)) ≡ next =
        ap read_be64 at_pointer
        ∙ read_be64-write next (concat (fields_from 4 (mailbox_fields part next i token)) ++ t) n in
      let number : read_be32 (drop 0x238 (mailbox part next i token ++ t)) ≡ i =
        ap read_be32 at_number
        ∙ read_be32-write i (concat (fields_from 5 (mailbox_fields part next i token)) ++ t) m in
      accepts (mailbox part next i token ++ t) next i token pointer number token_byte

  pub mailbox-part : take (length part) (mailbox part next i token ++ t) ≡ part
  mailbox-part =
      ap (λ m. take (length part) (m ++ t)) shape
      ∙ ap (take (length part))
          (append_assoc part (concat (fields_from 1 (mailbox_fields part next i token))) t)
      ∙ take-append (length part) part
          (concat (fields_from 1 (mailbox_fields part next i token)) ++ t) refl

  pub length-mailbox : length (mailbox part next i token) ≡ 1024
  length-mailbox =
      ap length shape
      ∙ length-concat (mailbox_fields part next i token)
      ∙ omega (arith, pad, length-zeros 48, length-zeros 448)
