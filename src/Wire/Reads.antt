-- ===== src/Wire/Reads.antt =====
-- What `xchg_decode` reads at each offset of an encoded message.
use mcdma.Prelude.{
  ℕ, zero, suc, ◌+◌, ◌-◌, ◌*◌, ◌^◌, ◌≤◌, ◌<◌, ◌≡◌, refl, sym, ap, ap₂, ◌∙◌, ◌≢◌, ◌⊎◌, true, List,
  [], ◌∷◌, ◌++◌, arith, length, take, drop, replicate, le_bytes, of_le, length-le_bytes,
  of_le-le_bytes, length-append, length-take, All, All-take, take-append, drop-append,
  take-append_drop,
}
use mcdma.Prelude.Arrays.{
  slice, concat, field, offset, slice-concat, get_or-concat, drop-concat_last,
}
use mcdma.Wire.{
  Message, Info, Table, no_info, no_text, region_max, offer, err, roce, tb, has_zero, put_keys,
  get_keys, offer_fields, datagram, get_le, decode_head, decode_info,
}

-- A key table as a datagram carries it: at most 128 keys of 32 bits, zeros behind them.
pub record IsWireTable (t : Table) : Type 0 where
  pub base64 : t.base < 256 ^ 8
  pub len64 : t.len < 256 ^ 8
  pub seg64 : t.seg < 256 ^ 8
  pub few : t.n ≤ region_max
  pub keys_128 : length t.rkey ≡ region_max
  pub keys32 : All (λ k. k < 256 ^ 4) t.rkey
  pub padded : drop t.n t.rkey ≡ replicate (region_max - t.n) 0

pub record IsWireInfo (i : Info) : Type 0 where
  pub transport_known : (i.transport ≡ roce) ⊎ (i.transport ≡ tb)
  pub lid16 : i.lid < 256 ^ 2
  pub qpn32 : i.qpn < 256 ^ 4
  pub qpn2_32 : i.qpn2 < 256 ^ 4
  pub psn32 : i.psn < 256 ^ 4
  pub frames32 : i.frames < 256 ^ 4
  pub gid_16 : length i.gid ≡ 16
  pub req64 : i.req < 256 ^ 8
  pub rep64 : i.rep < 256 ^ 8
  pub table_wire : IsWireTable i.table

-- Each field of a message within its C type, the parts that its kind does not carry zero, and an
-- error's text ending in a zero.
pub record IsWire (m : Message) : Type 0 where
  pub kind_known : (offer ≤ m.kind) × (m.kind ≤ err)
  pub role_known : (1 ≤ m.role) × (m.role ≤ 3)
  pub name_24 : length m.name ≡ 24
  pub name_ends : has_zero m.name ≡ true
  pub from_16 : length m.from ≡ 16
  pub to_16 : length m.to ≡ 16
  pub offered : m.kind ≡ offer → IsWireInfo m.info
  pub info_zero : m.kind ≢ offer → m.info ≡ no_info
  pub explained : m.kind ≡ err → length m.text ≡ 96
  pub text_ends : m.kind ≡ err → drop 95 m.text ≡ 0 ∷ []
  pub text_zero : m.kind ≢ err → m.text ≡ no_text

-- A little-endian field reads back.
get_le-concat :
    (k : ℕ) (fs : List (List ℕ)) (o w v : ℕ)
    → k + 1 ≤ length fs
    → o ≡ offset k fs
    → field k fs ≡ le_bytes w v
    → v < 256 ^ w
    → get_le (concat fs) o w ≡ v
get_le-concat k fs o w v h e f b =
    ap of_le (slice-concat k fs o w h e (sym (ap length f ∙ length-le_bytes w v)) ∙ f)
    ∙ of_le-le_bytes w v b

-- The key loops undo one another.
get_keys-put_keys :
    (ks : List ℕ) (n : ℕ)
    → length ks ≡ n
    → All (λ k. k < 256 ^ 4) ks
    → get_keys n (put_keys ks) ≡ ks
unfolding get_keys put_keys
get_keys-put_keys [] zero e h = refl
get_keys-put_keys [] (suc n) e h = absurd (omega arith)
get_keys-put_keys (k ∷ ks) zero e h = absurd (omega arith)
get_keys-put_keys (k ∷ ks) (suc n) e (hk, hs) =
    ap₂ ◌∷◌
      (ap of_le (take-append 4 (le_bytes 4 k) (put_keys ks) (length-le_bytes 4 k))
        ∙ of_le-le_bytes 4 k hk)
      (ap (get_keys n) (drop-append 4 (le_bytes 4 k) (put_keys ks) (length-le_bytes 4 k))
        ∙ get_keys-put_keys ks n (omega arith) hs)

pub length-put_keys : (ks : List ℕ) → length (put_keys ks) ≡ 4 * length ks
unfolding put_keys
length-put_keys [] = omega arith
length-put_keys (k ∷ ks) =
    omega (
      arith,
      length-append {0} (le_bytes 4 k) (put_keys ks),
      length-le_bytes 4 k,
      length-put_keys ks,
    )

module _ (m : Message) (v : IsWire m) where
  read_name : (rest : List (List ℕ)) → slice 8 24 (concat (datagram m rest)) ≡ m.name
  read_name rest =
      slice-concat 5 (datagram m rest) 8 24 (omega arith) (omega arith) (omega (arith, v.name_24))

  read_from : (rest : List (List ℕ)) → slice 32 16 (concat (datagram m rest)) ≡ m.from
  read_from rest =
      slice-concat 6 (datagram m rest) 32 16 (omega arith) (omega (arith, v.name_24))
        (omega (arith, v.from_16))

  read_to : (rest : List (List ℕ)) → slice 48 16 (concat (datagram m rest)) ≡ m.to
  read_to rest =
      slice-concat 7 (datagram m rest) 48 16 (omega arith) (omega (arith, v.name_24, v.from_16))
        (omega (arith, v.to_16))

  -- The head reads back, whatever follows.
  pub decode_head-datagram :
      (rest : List (List ℕ))
      → decode_head (concat (datagram m rest)) ≡ record m { info = no_info; text = no_text }
  unfolding decode_head
  decode_head-datagram rest = cc (read_name rest, read_from rest, read_to rest)

-- The key table reads back from where it stands.
keys-take :
    (t : Table) (bs : List ℕ)
    → IsWireTable t
    → bs ≡ put_keys (take t.n t.rkey)
    → get_keys t.n bs ++ replicate (region_max - t.n) 0 ≡ t.rkey
keys-take t bs w e =
    let n = t.n in
    let some_keys =
      get_keys-put_keys (take n t.rkey) n (omega (arith, length-take n t.rkey, w.few, w.keys_128))
        (All-take _ n t.rkey w.keys32) in
    ap₂ (λ (a b : List ℕ). a ++ b) (ap (get_keys n) e ∙ some_keys) (sym w.padded)
    ∙ take-append_drop n t.rkey

module _ (m : Message) (v : IsWire m) (w : IsWireInfo m.info) where
  abbrev sent : List (List ℕ)
  sent = datagram m (offer_fields m.info)

  read_word :
      (k o n x : ℕ)
      → k + 1 ≤ 23
      → o ≡ offset k sent
      → field k sent ≡ le_bytes n x
      → x < 256 ^ n
      → get_le (concat sent) o n ≡ x
  read_word k o n x h e f b = get_le-concat k sent o n x h e f b

  read_table : (decode_info (concat sent)).table ≡ m.info.table
  unfolding decode_info
  read_table =
      let t = m.info.table in
      let n_read = read_word 21 140 4 t.n (omega arith) (omega (arith, length-le_bytes)) refl few in
      let all = drop-concat_last 22 sent 144 (omega arith) (omega (arith, length-le_bytes)) in
      λ i. record {
        base =
            read_word 18 116 8 t.base (omega arith) (omega (arith, length-le_bytes)) refl wt.base64
              i;
        len =
            read_word 19 124 8 t.len (omega arith) (omega (arith, length-le_bytes)) refl wt.len64 i;
        seg =
            read_word 20 132 8 t.seg (omega arith) (omega (arith, length-le_bytes)) refl wt.seg64 i;
        n = n_read i;
        rkey =
            (ap (λ (k : ℕ). get_keys k (drop 144 (concat sent)) ++ replicate (region_max - k) 0)
                  n_read
                ∙ keys-take t (drop 144 (concat sent)) wt all)
              i;
      }
    where
      open w use {table_wire as wt}

      few : m.info.table.n < 256 ^ 4
      few = omega (arith, w.table_wire.few)

  -- An offer's info reads back.
  pub decode_info-datagram : decode_info (concat sent) ≡ m.info
  unfolding decode_info
  decode_info-datagram = λ i. record {
    transport = get_or-concat 8 sent 64 m.info.transport 0 (omega arith) (omega arith) refl i;
    mode = get_or-concat 9 sent 65 m.info.mode 0 (omega arith) (omega arith) refl i;
    lid = read_word 10 66 2 m.info.lid (omega arith) (omega arith) refl w.lid16 i;
    qpn =
        read_word 11 68 4 m.info.qpn (omega arith) (omega (arith, length-le_bytes)) refl w.qpn32 i;
    qpn2 =
        read_word 12 72 4 m.info.qpn2 (omega arith) (omega (arith, length-le_bytes)) refl w.qpn2_32
          i;
    psn =
        read_word 13 76 4 m.info.psn (omega arith) (omega (arith, length-le_bytes)) refl w.psn32 i;
    frames =
        read_word 14 80 4 m.info.frames (omega arith) (omega (arith, length-le_bytes)) refl
          w.frames32 i;
    gid =
        slice-concat 15 sent 84 16 (omega arith) (omega (arith, length-le_bytes))
          (omega (arith, w.gid_16)) i;
    req =
        read_word 16 100 8 m.info.req (omega arith) (omega (arith, length-le_bytes)) refl w.req64 i;
    rep =
        read_word 17 108 8 m.info.rep (omega arith) (omega (arith, length-le_bytes)) refl w.rep64 i;
    table = read_table i;
  }
