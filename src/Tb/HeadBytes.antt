-- ===== src/Tb/HeadBytes.antt =====
-- The 32 bytes of `struct head`, written and read.
use mcdma.Prelude.{
  ℕ, ◌+◌, ◌^◌, ◌≤◌, ◌<◌, ◌≡◌, refl, sym, ap, ◌∙◌, List, [], ◌∷◌, arith, length, le_bytes, of_le,
  length-le_bytes, of_le-le_bytes, drop,
}
use mcdma.Prelude.Arrays.{
  slice, concat, field, offset, length-concat, slice-concat, drop-concat_last,
}
use mcdma.Tb.{Head, head_fields, head_of}

-- Each field within its C type.
pub record IsWireHead (h : Head) : Type 0 where
  pub magic32 : h.magic < 256 ^ 4
  pub seq32 : h.seq < 256 ^ 4
  pub kind16 : h.kind < 256 ^ 2
  pub pad16 : h.pad < 256 ^ 2
  pub len32 : h.len < 256 ^ 4
  pub off64 : h.off < 256 ^ 8
  pub value64 : h.value < 256 ^ 8

module _ (h : Head) (bytes : List ℕ) where
  abbrev sent : List (List ℕ)
  sent = head_fields h (bytes ∷ [])

  read_field :
      (k o w v : ℕ)
      → k + 1 ≤ 8
      → o ≡ offset k sent
      → field k sent ≡ le_bytes w v
      → v < 256 ^ w
      → of_le (slice o w (concat sent)) ≡ v
  read_field k o w v n e f b =
      ap of_le (slice-concat k sent o w n e (sym (ap length f ∙ length-le_bytes w v)) ∙ f)
      ∙ of_le-le_bytes w v b

  -- A head reads back, whatever bytes follow it.
  pub head_of-sent : IsWireHead h → head_of (concat sent) ≡ h
  unfolding head_of
  head_of-sent v = λ i. record {
    magic = read_field 0 0 4 h.magic (omega arith) (omega arith) refl v.magic32 i;
    seq = read_field 1 4 4 h.seq (omega arith) (omega (arith, length-le_bytes)) refl v.seq32 i;
    kind = read_field 2 8 2 h.kind (omega arith) (omega (arith, length-le_bytes)) refl v.kind16 i;
    pad = read_field 3 10 2 h.pad (omega arith) (omega (arith, length-le_bytes)) refl v.pad16 i;
    len = read_field 4 12 4 h.len (omega arith) (omega (arith, length-le_bytes)) refl v.len32 i;
    off = read_field 5 16 8 h.off (omega arith) (omega (arith, length-le_bytes)) refl v.off64 i;
    value =
        read_field 6 24 8 h.value (omega arith) (omega (arith, length-le_bytes)) refl v.value64 i;
  }

  -- The bytes behind the head.
  pub drop-sent : drop 32 (concat sent) ≡ bytes
  drop-sent = drop-concat_last 7 sent 32 (omega arith) (omega (arith, length-le_bytes))

  pub length-sent : length (concat sent) ≡ 32 + length bytes
  length-sent = length-concat sent ∙ omega (arith, length-le_bytes)
