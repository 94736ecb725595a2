-- ===== src/Core/Command/Signed.antt =====
-- The checksums of command records, and the two encoders on records without mailboxes.
use mcdma.Prelude.{
  ℕ, ◌+◌, ◌-◌, ◌≤◌, ◌≡◌, refl, sym, ap, ◌∙◌, arith, Bool, true, false, ◌||◌, List, [], ◌∷◌, ◌++◌,
  ltb, ◌==◌, if◌then◌else◌, length, get_or, take, drop, replicate, checksum, checksum-signed,
  length-replicate, length-append, length-take, append_assoc, take-append, append-nil,
  get_or-set_ne, length-set,
}
use mcdma.Prelude.Arrays.{concat, get_or-drop, drop-concat, length-concat}
use mcdma.Core.Command.{
  Error, ok, busy, invalid_length, invalid_token, write_be32, write_be64, saved_of,
  unsigned_command, signed, encode_command, encode_inline, decode_inline, command_bytes,
  max_command_bytes,
}

length-saved : (n : ℕ) (p : List ℕ) → n ≤ 16 → n ≤ length p → length (saved_of n p) ≡ 16
length-saved n p a b =
    let pad : length {A = ℕ} (replicate (16 - n) 0) ≡ 16 - n = length-replicate (16 - n) 0 in
    omega (arith, length-append (take n p) (replicate (16 - n) 0), length-take n p, pad)

encoded :
    (e input : List ℕ) (n out token input_dma output_dma : ℕ) (r : List ℕ)
    → encode_command e input n out token input_dma output_dma ≡ (ok, r)
    → ((token == 0) ≡ false)
      × (r
          ≡ signed (
              unsigned_command n out token
                (saved_of (if ltb n 16 then n else 16) input)
                (if ltb 16 n then input_dma else 0)
                (if ltb 16 out then output_dma else 0)))
unfolding encode_command
encoded e input n out token input_dma output_dma r h = ground (arith, h)

still_owned :
    (e : List ℕ) (t : ℕ) (buffer : List ℕ) (size : ℕ)
    → 8 ≤ size
    → size ≤ 16
    → (t == 0) ≡ false
    → get_or e 63 0 ≡ 1
    → (decode_inline e t buffer size).error ≡ busy
unfolding decode_inline
still_owned e t buffer size low high tagged owner =
    let a : ltb size 8 ≡ false = ground arith in
    let b : ltb 16 size ≡ false = ground arith in rw (a, b, tagged, owner) refl

abbrev zeros : ℕ → List ℕ
zeros n = replicate n 0

abbrev record_fields : ℕ → ℕ → ℕ → List ℕ → ℕ → ℕ → List (List ℕ)
record_fields n out token saved input_dma output_dma =
    (7 ∷ 0 ∷ 0 ∷ 0 ∷ [])
    ∷ write_be32 n
    ∷ write_be64 input_dma
    ∷ saved
    ∷ zeros 16
    ∷ write_be64 output_dma
    ∷ write_be32 out
    ∷ (token ∷ 0 ∷ 0 ∷ 1 ∷ [])
    ∷ []

module _ (n out token : ℕ) (saved : List ℕ) (input_dma output_dma : ℕ)
    (full : length saved ≡ 16) where
  last_word :
      drop 60 (unsigned_command n out token saved input_dma output_dma ++ [])
      ≡ token ∷ 0 ∷ 0 ∷ 1 ∷ []
  last_word =
      drop-concat 7 (record_fields n out token saved input_dma output_dma) 60 []
        (omega (arith, full))

  last_byte :
      (k d : ℕ)
      → get_or (unsigned_command n out token saved input_dma output_dma) (60 + k) d
        ≡ get_or (token ∷ 0 ∷ 0 ∷ 1 ∷ []) k d
  last_byte k d =
      let r = unsigned_command n out token saved input_dma output_dma in
      ap (λ l. get_or l (60 + k) d) (sym (append-nil r))
      ∙ get_or-drop 60 k (r ++ []) d
      ∙ ap (λ l. get_or l k d) last_word

  record_long : length (unsigned_command n out token saved input_dma output_dma) ≡ 64
  record_long =
      length-concat (record_fields n out token saved input_dma output_dma) ∙ omega (arith, full)

-- A record that `encode_command` makes has 64 bytes, whose exclusive or with 0xff is 0, and until
-- the device hands it back `decode_inline` answers `busy`, for every reply buffer of a legal size.
pub encode_command-signed :
    (e input : List ℕ) (n out token input_dma output_dma : ℕ) (r : List ℕ) (buffer : List ℕ)
    (size : ℕ)
    → encode_command e input n out token input_dma output_dma ≡ (ok, r)
    → n ≤ length input
    → 8 ≤ size
    → size ≤ 16
    → (length r ≡ command_bytes)
      × (checksum 0xff r ≡ 0)
      × ((decode_inline r token buffer size).error ≡ busy)
encode_command-signed e input n out token input_dma output_dma r buffer size h long low high =
    let head = if ltb n 16 then n else 16 in
    let saved = saved_of head input in
    let din = if ltb 16 n then input_dma else 0 in
    let dout = if ltb 16 out then output_dma else 0 in
    let bare = unsigned_command n out token saved din dout in
    let (tagged, made) = encoded e input n out token input_dma output_dma r h in
    let few : head ≤ 16 = ground arith in
    let enough : head ≤ length input = ground arith in
    let full : length saved ≡ 16 = length-saved head input few enough in
    let hole : get_or bare 61 1 ≡ 0 = last_byte n out token saved din dout full 1 1 in
    let owner : get_or r 63 0 ≡ 1 =
      ap (λ l. get_or l 63 0) made
      ∙ get_or-set_ne bare 61 63 (checksum 0xff bare) 0 (omega arith)
      ∙ last_byte n out token saved din dout full 3 0 in
    (
      ap length made
          ∙ length-set bare 61 (checksum 0xff bare)
          ∙ record_long n out token saved din dout full,
      ap (checksum 0xff) made ∙ checksum-signed 0xff bare 61 (omega arith) hole,
      still_owned r token buffer size low high tagged owner,
    )

head_short : (n : ℕ) → n ≤ 16 → (if ltb n 16 then n else 16) ≡ n
head_short n h = ground arith

take-saved : (n : ℕ) (input : List ℕ) → n ≤ length input → take n (saved_of n input) ≡ take n input
take-saved n input h =
    take-append n (take n input) (replicate (16 - n) 0) (omega (arith, length-take n input))

guards :
    (p q k : Bool) (x y : Error × List ℕ) {u v : Error × List ℕ}
    → u ≡ v
    → (if p || false || q || false then x else if k then y else u)
      ≡ (if p || q || false || false then x else if k then y else v)
guards true q k x y e = refl
guards false true k x y e = refl
guards false false true x y e = refl
guards false false false x y e = e

-- For inputs and outputs of at most 16 bytes `encode_inline` does what `encode_command` does, with
-- any two addresses: the same errors and the same record.
pub encode_inline-encode_command :
    (e input : List ℕ) (n out t input_dma output_dma : ℕ)
    → n ≤ 16
    → out ≤ 16
    → n ≤ length input
    → encode_inline e input n out t ≡ encode_command e input n out t input_dma output_dma
unfolding encode_inline encode_command
encode_inline-encode_command e input n out t input_dma output_dma a b long =
    let c : ltb 16 n ≡ false = ground arith in
    let d : ltb 16 out ≡ false = ground arith in
    let f : ltb max_command_bytes n ≡ false = ground arith in
    let g : ltb max_command_bytes out ≡ false = ground arith in
    let tail = zeros 24 ++ concat (write_be32 out ∷ (t ∷ 0 ∷ 0 ∷ 1 ∷ []) ∷ []) in
    let body : take n (saved_of n input) ++ (zeros (16 - n) ++ tail) ≡ saved_of n input ++ tail =
      ap (λ l. l ++ (zeros (16 - n) ++ tail)) (take-saved n input long)
      ∙ sym (append_assoc (take n input) (zeros (16 - n)) tail) in
    let bytes =
      ap (λ l. (ok, signed ((7 ∷ 0 ∷ 0 ∷ 0 ∷ []) ++ (write_be32 n ++ (zeros 8 ++ l))))) body in
    rw (c, d, f, g, head_short n a)
      (guards (ltb n 8) (ltb out 8) (t == 0) (invalid_length, e) (invalid_token, e) bytes)
