-- ===== src/Wire/RoundTrip.antt =====
-- `xchg_decode` undoes `xchg_encode`, and the other way round.
use mcdma.Prelude.{
  ℕ, ◌+◌, ◌*◌, ◌≤◌, ◌≡◌, refl, sym, ap, ◌∙◌, ◌≢◌, inl, inr, Bool, true, false, not, ◌&&◌, ◌||◌,
  some, List, [], ◌∷◌, ◌++◌, arith, length, take, length-le_bytes, ltb, ◌==◌, length-take,
  append-nil, take-append_drop, Bool-cases, ==_iff,
}
use mcdma.Prelude.Arrays.{slice, concat, total, length-concat, slice-concat}
use mcdma.Wire.{
  Message, Info, no_info, no_text, region_max, x_max, offer, err, has_zero, payload, offer_fields,
  datagram, fields, byte, decode_head, decode_info, framed, admit, admit_offer, admit_err, size,
  encode, decode,
}
use mcdma.Wire.Reads.{
  IsWire, IsWireInfo, decode_head-datagram, decode_info-datagram, length-put_keys,
}

-- The head of `m`, with nothing of what its kind adds.
abbrev bare : Message → Message
bare m = record m { info = no_info; text = no_text }

admit_offered :
    (m : Message) (info : Info) (text : List ℕ)
    → IsWire m
    → m.kind ≡ offer
    → IsWireInfo m.info
    → info ≡ m.info
    → admit (bare m) info text (144 + 4 * m.info.table.n) ≡ some m
unfolding admit admit_offer
admit_offered m info text v k w i =
    rw i (ground (arith, v.name_ends, v.text_zero, w.transport_known, w.table_wire.few))

admit_explained :
    (m : Message) (info : Info)
    → (1 ≤ m.role) × (m.role ≤ 3)
    → has_zero m.name ≡ true
    → m.kind ≡ err
    → m.info ≡ no_info
    → has_zero m.text ≡ true
    → admit (bare m) info m.text 160 ≡ some m
unfolding admit admit_err
admit_explained m info r e k i z = rw k (ground arith)

admit_plain :
    (m : Message) (info : Info) (text : List ℕ)
    → (offer ≤ m.kind) × (m.kind ≤ err)
    → (1 ≤ m.role) × (m.role ≤ 3)
    → has_zero m.name ≡ true
    → m.kind ≢ offer
    → m.kind ≢ err
    → m.info ≡ no_info
    → m.text ≡ no_text
    → admit (bare m) info text 64 ≡ some m
unfolding admit
admit_plain m info text kn r e k l i t = ground arith

total-datagram :
    (m : Message) → IsWire m → (rest : List (List ℕ)) → total (datagram m rest) ≡ 64 + total rest
total-datagram m v rest = omega (arith, v.name_24, v.from_16, v.to_16)

total-offer : (i : Info) → IsWireInfo i → total (offer_fields i) ≡ 80 + 4 * i.table.n
total-offer i w = omega (
  arith,
  length-le_bytes,
  w.gid_16,
  length-put_keys (take i.table.n i.table.rkey),
  length-take i.table.n i.table.rkey,
  w.table_wire.few,
  w.table_wire.keys_128,
)

has_zero_last : (xs : List ℕ) → has_zero (xs ++ (0 ∷ [])) ≡ true
unfolding has_zero
has_zero_last [] = refl
has_zero_last (x ∷ xs) = ground (arith, has_zero_last xs)

framed_intro :
    (bs : List ℕ)
    → (byte bs 0 == 0x4d && byte bs 1 == 0x43 && byte bs 2 == 0x44 && byte bs 3 == 0x58) ≡ true
    → byte bs 4 ≡ 1
    → 64 ≤ length bs
    → length bs ≤ 1232
    → framed bs ≡ true
unfolding framed
framed_intro bs m v lo hi = rw m (ground arith)

decode_parts :
    (bs : List ℕ) (m0 : Message) (n : ℕ)
    → framed bs ≡ true
    → decode_head bs ≡ m0
    → length bs ≡ n
    → decode bs ≡ admit m0 (decode_info bs) (slice 64 96 bs) n
unfolding decode
decode_parts bs m0 n f h l = rw f (rw (h, l))

-- `decode` of a datagram is the later tests on the parts it carries.
decode-datagram :
    (m : Message) (rest : List (List ℕ)) (n : ℕ)
    → IsWire m
    → total rest ≡ n
    → n ≤ 1168
    → decode (concat (datagram m rest))
      ≡ admit
          (bare m)
          (decode_info (concat (datagram m rest)))
          (slice 64 96 (concat (datagram m rest)))
          (64 + n)
decode-datagram m rest n v e h =
    let fs = datagram m rest in
    let len : length (concat fs) ≡ 64 + n =
      length-concat fs ∙ total-datagram m v rest ∙ ap (λ (k : ℕ). 64 + k) e in
    decode_parts (concat fs) (bare m) (64 + n)
      (framed_intro (concat fs) refl refl (le_from len) (le_to len h))
      (decode_head-datagram m v rest) len
  where
    le_from : {a : ℕ} → a ≡ 64 + n → 64 ≤ a
    le_from p = omega arith

    le_to : {a : ℕ} → a ≡ 64 + n → n ≤ 1168 → a ≤ 1232
    le_to p q = omega arith

-- The payload of each kind.
payload_offer : (m : Message) → m.kind ≡ offer → payload m ≡ offer_fields m.info
unfolding payload
payload_offer m k = rw k refl

payload_err : (m : Message) → m.kind ≡ err → payload m ≡ take 95 m.text ∷ (0 ∷ []) ∷ []
unfolding payload
payload_err m k = rw k refl

payload_plain : (m : Message) → (m.kind == offer) ≡ false → (m.kind == err) ≡ false → payload m ≡ []
unfolding payload
payload_plain m k l = rw (k, l) refl

text_back : (m : Message) → IsWire m → m.kind ≡ err → take 95 m.text ++ (0 ∷ []) ≡ m.text
text_back m v k =
    ap (λ (t : List ℕ). take 95 m.text ++ t) (sym (v.text_ends k)) ∙ take-append_drop 95 m.text

slice_text :
    (m : Message)
    → IsWire m
    → m.kind ≡ err
    → slice 64 96 (concat (datagram m (m.text ∷ []))) ≡ m.text
slice_text m v k =
    slice-concat 8 (datagram m (m.text ∷ [])) 64 96 (omega arith)
      (omega (arith, v.name_24, v.from_16, v.to_16)) (omega (arith, v.explained k))

decode-offer :
    (m : Message)
    → IsWire m
    → m.kind ≡ offer
    → decode (concat (datagram m (offer_fields m.info))) ≡ some m
decode-offer m v k =
    let w = v.offered k in
    decode-datagram m (offer_fields m.info) (80 + 4 * m.info.table.n) v (total-offer m.info w)
      (omega (arith, w.table_wire.few))
    ∙ ap
        (admit (bare m) (decode_info (concat (datagram m (offer_fields m.info))))
          (slice 64 96 (concat (datagram m (offer_fields m.info)))))
        (regroup m.info.table.n)
    ∙ admit_offered m _ _ v k w (decode_info-datagram m v w)
  where
    regroup : (n : ℕ) → 64 + (80 + 4 * n) ≡ 144 + 4 * n
    regroup n = omega arith

decode-err :
    (m : Message) → IsWire m → m.kind ≡ err → decode (concat (datagram m (m.text ∷ []))) ≡ some m
decode-err m v k =
    decode-datagram m (m.text ∷ []) 96 v (omega (arith, v.explained k)) (omega arith)
    ∙ ap (λ (t : List ℕ). admit (bare m) (decode_info (concat (datagram m (m.text ∷ [])))) t 160)
        (slice_text m v k)
    ∙ admit_explained m _ v.role_known v.name_ends k (v.info_zero (omega arith))
        (rw (← text_back m v k) (has_zero_last (take 95 m.text)))

decode-plain :
    (m : Message)
    → IsWire m
    → m.kind ≢ offer
    → m.kind ≢ err
    → decode (concat (datagram m [])) ≡ some m
decode-plain m v k l =
    decode-datagram m [] 0 v refl (omega arith)
    ∙ admit_plain m _ _ v.kind_known v.role_known v.name_ends k l (v.info_zero k) (v.text_zero l)

-- The bytes of a datagram, up to what stands at 64.
abbrev headed : Message → List ℕ → List ℕ
headed m t =
    0x4d ∷ 0x43 ∷ 0x44 ∷ 0x58 ∷ 1 ∷ m.kind ∷ m.role ∷ m.flags ∷ (m.name ++ (m.from ++ (m.to ++ t)))

concat-err :
    (m : Message)
    → IsWire m
    → m.kind ≡ err
    → concat (datagram m (take 95 m.text ∷ (0 ∷ []) ∷ [])) ≡ concat (datagram m (m.text ∷ []))
concat-err m v k = ap (headed m) (text_back m v k ∙ sym (append-nil m.text))

decode-fields : (m : Message) → IsWire m → decode (concat (fields m)) ≡ some m
unfolding fields
decode-fields m v = elim (Bool-cases (m.kind == offer)) [
  | inl o ↦ let k = (==_iff m.kind offer).0 o in rw (payload_offer m k) (decode-offer m v k)
  | inr no_offer ↦ elim (Bool-cases (m.kind == err)) [
    | inl e ↦
        let k = (==_iff m.kind err).0 e in
        rw (payload_err m k) (ap decode (concat-err m v k) ∙ decode-err m v k)
    | inr no_err ↦
        rw (payload_plain m no_offer no_err) (
          decode-plain m v (λ k. cc ((==_iff m.kind offer).1 k))
            (λ k. cc ((==_iff m.kind err).1 k)))
  ]
]

size-payload : (m : Message) → IsWire m → 64 + total (payload m) ≡ size m
unfolding size payload
size-payload m v = elim (Bool-cases (m.kind == offer)) [
  | inl o ↦
      let w = v.offered ((==_iff m.kind offer).0 o) in rw o (omega (arith, total-offer m.info w))
  | inr no_offer ↦ elim (Bool-cases (m.kind == err)) [
    | inl e ↦
        let n = v.explained ((==_iff m.kind err).0 e) in
        rw (no_offer, e) (omega (arith, length-take 95 m.text))
    | inr no_err ↦ rw (no_offer, no_err) refl
  ]
]

length-fields : (m : Message) → IsWire m → length (concat (fields m)) ≡ size m
unfolding fields
length-fields m v =
    length-concat (datagram m (payload m)) ∙ total-datagram m v (payload m) ∙ size-payload m v

size_small : (m : Message) → IsWire m → size m ≤ 656
unfolding size
size_small m v = elim (Bool-cases (m.kind == offer)) [
  | inl o ↦ let w = v.offered ((==_iff m.kind offer).0 o) in rw o (omega (arith, w.table_wire.few))
  | inr no_offer ↦ rw no_offer (ground arith)
]

few_offered : (m : Message) → IsWire m → m.kind ≡ offer → m.info.table.n ≤ 128
few_offered m v k = (v.offered k).table_wire.few

not_too_many : (k n : ℕ) → (k ≡ offer → n ≤ 128) → (k == offer && ltb region_max n) ≡ false
not_too_many k n h = ground arith

not_too_large :
    (s room : ℕ) (z : Bool)
    → s ≤ room
    → s ≤ x_max
    → z ≡ true
    → (ltb room s || ltb x_max s || not z) ≡ false
not_too_large s room z h x e = ground arith

encode-fields :
    (m : Message) (room : ℕ) → IsWire m → size m ≤ room → encode m room ≡ some (concat (fields m))
unfolding encode
encode-fields m room v fit = rw (not_too_many m.kind m.info.table.n (few_offered m v)) (
    rw
      (not_too_large (size m) room (has_zero m.name) fit (omega (arith, size_small m v))
        v.name_ends)
      refl)

-- A message whose fields fit the wire, in a buffer that holds its size, is encoded into exactly that
-- many bytes, at most 656 of the 1232 allowed, and those bytes decode to the message.
pub decode-encode :
    (m : Message) (room : ℕ)
    → IsWire m
    → size m ≤ room
    → (bs : List ℕ) × (encode m room ≡ some bs)
      × (length bs ≡ size m)
      × (length bs ≤ 656)
      × (decode bs ≡ some m)
decode-encode m room v fit = (
  concat (fields m),
  encode-fields m room v fit,
  length-fields m v,
  omega (arith, length-fields m v, size_small m v),
  decode-fields m v,
)
