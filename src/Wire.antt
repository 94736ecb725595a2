-- ===== src/Wire.antt =====
-- rpc/link_xchg.c and rpc/link.h: the setup exchange's datagrams. A byte array is a list of numbers
-- below 256; `xchg_encode` writes its fields one behind the other, so its output is their
-- concatenation, and `xchg_decode` reads at offsets.
use mcdma.Prelude.{
  ℕ, zero, suc, ◌+◌, ◌-◌, ◌*◌, Bool, true, false, not, ◌&&◌, ◌||◌, Option, none, some, List, [],
  ◌∷◌, ◌++◌, ltb, leb, ◌==◌, ◌!=◌, if◌then◌else◌, length, get_or, take, drop, replicate, le_bytes,
  of_le,
}
use mcdma.Prelude.Arrays.{slice, concat}
pub mod Reads
pub mod RoundTrip

abbrev pub region_max : ℕ
region_max = 128

abbrev pub x_max : ℕ
x_max = 1232

abbrev pub offer : ℕ
offer = 1

abbrev pub err : ℕ
err = 5

-- LINK_ROCE and LINK_TB
abbrev pub roce : ℕ
roce = 1

abbrev pub tb : ℕ
tb = 2

-- `struct table`; `rkey` has 128 elements.
pub record Table : Type 0 where
  pub base : ℕ
  pub len : ℕ
  pub seg : ℕ
  pub n : ℕ
  pub rkey : List ℕ

-- `struct xinfo`
pub record Info : Type 0 where
  pub transport : ℕ
  pub mode : ℕ
  pub lid : ℕ
  pub qpn : ℕ
  pub qpn2 : ℕ
  pub psn : ℕ
  pub frames : ℕ
  pub gid : List ℕ
  pub req : ℕ
  pub rep : ℕ
  pub table : Table

-- `struct xmsg`
pub record Message : Type 0 where
  pub kind : ℕ
  pub role : ℕ
  pub flags : ℕ
  pub name : List ℕ
  pub from : List ℕ
  pub to : List ℕ
  pub info : Info
  pub text : List ℕ

-- what `memset(m, 0, sizeof(*m))` leaves in the parts that a datagram does not carry
abbrev pub no_info : Info
no_info = record {
  transport = 0;
  mode = 0;
  lid = 0;
  qpn = 0;
  qpn2 = 0;
  psn = 0;
  frames = 0;
  gid = replicate 16 0;
  req = 0;
  rep = 0;
  table = record { base = 0; len = 0; seg = 0; n = 0; rkey = replicate region_max 0 };
}

abbrev pub no_text : List ℕ
no_text = replicate 96 0

-- `memchr(p, 0, n)` over the whole list
unfoldable pub has_zero : List ℕ → Bool
has_zero [] = false
has_zero (b ∷ bs) = b == 0 || has_zero bs

-- The key loops: four bytes for each key, from X_OFFER_FIXED on.
unfoldable pub put_keys : List ℕ → List ℕ
put_keys [] = []
put_keys (k ∷ ks) = le_bytes 4 k ++ put_keys ks

unfoldable pub get_keys : ℕ → List ℕ → List ℕ
get_keys zero bs = []
get_keys (suc n) bs = of_le (take 4 bs) ∷ get_keys n (drop 4 bs)

-- `n` of `xchg_encode`
unfoldable pub size : Message → ℕ
size m = if m.kind == offer then 144 + 4 * m.info.table.n else if m.kind == err then 64 + 96 else 64

-- An offer's fields, at offsets 64, 65, 66, 68, 72, 76, 80, 84, 100, 108, 116, 124, 132, 140, 144.
abbrev pub offer_fields : Info → List (List ℕ)
offer_fields i =
    (i.transport ∷ [])
    ∷ (i.mode ∷ [])
    ∷ le_bytes 2 i.lid
    ∷ le_bytes 4 i.qpn
    ∷ le_bytes 4 i.qpn2
    ∷ le_bytes 4 i.psn
    ∷ le_bytes 4 i.frames
    ∷ i.gid
    ∷ le_bytes 8 i.req
    ∷ le_bytes 8 i.rep
    ∷ le_bytes 8 i.table.base
    ∷ le_bytes 8 i.table.len
    ∷ le_bytes 8 i.table.seg
    ∷ le_bytes 4 i.table.n
    ∷ put_keys (take i.table.n i.table.rkey)
    ∷ []

-- what the kind adds at byte 64
unfoldable pub payload : Message → List (List ℕ)
payload m =
    if m.kind == offer
    then offer_fields m.info
    else if m.kind == err
    then take 95 m.text ∷ (0 ∷ []) ∷ []
    else []

-- the head's fields, at offsets 0, 4, 5, 6, 7, 8, 32, 48, and what follows at 64
abbrev pub datagram : Message → List (List ℕ) → List (List ℕ)
datagram m rest =
    (0x4d ∷ 0x43 ∷ 0x44 ∷ 0x58 ∷ [])
    ∷ (1 ∷ [])
    ∷ (m.kind ∷ [])
    ∷ (m.role ∷ [])
    ∷ (m.flags ∷ [])
    ∷ m.name
    ∷ m.from
    ∷ m.to
    ∷ rest

unfoldable pub fields : Message → List (List ℕ)
fields m = datagram m (payload m)

-- `xchg_encode`: `none` for its -1.
unfoldable pub encode : Message → ℕ → Option (List ℕ)
encode m cap =
    if m.kind == offer && ltb region_max m.info.table.n
    then none
    else if ltb cap (size m) || ltb x_max (size m) || not (has_zero m.name)
    then none
    else some (concat (fields m))

abbrev pub byte : List ℕ → ℕ → ℕ
byte bs o = get_or bs o 0

-- `get16`, `get32` and `get64` at an offset
abbrev pub get_le : List ℕ → ℕ → ℕ → ℕ
get_le bs o w = of_le (slice o w bs)

-- the head of a datagram, over a zeroed message
unfoldable pub decode_head : List ℕ → Message
decode_head bs = record {
  kind = byte bs 5;
  role = byte bs 6;
  flags = byte bs 7;
  name = slice 8 24 bs;
  from = slice 32 16 bs;
  to = slice 48 16 bs;
  info = no_info;
  text = no_text;
}

unfoldable pub decode_info : List ℕ → Info
decode_info bs = record {
  transport = byte bs 64;
  mode = byte bs 65;
  lid = get_le bs 66 2;
  qpn = get_le bs 68 4;
  qpn2 = get_le bs 72 4;
  psn = get_le bs 76 4;
  frames = get_le bs 80 4;
  gid = slice 84 16 bs;
  req = get_le bs 100 8;
  rep = get_le bs 108 8;
  table = record {
    base = get_le bs 116 8;
    len = get_le bs 124 8;
    seg = get_le bs 132 8;
    n = get_le bs 140 4;
    rkey = get_keys (get_le bs 140 4) (drop 144 bs) ++ replicate (region_max - get_le bs 140 4) 0;
  };
}

-- the first test of `xchg_decode`: size, magic and version
unfoldable pub framed : List ℕ → Bool
framed bs =
    leb 64 (length bs)
    && leb (length bs) x_max
    && (byte bs 0 == 0x4d && byte bs 1 == 0x43 && byte bs 2 == 0x44 && byte bs 3 == 0x58)
    && byte bs 4 == 1

-- An offer's tests: the key count, the size that it gives, the transport.
unfoldable pub admit_offer : Message → Info → ℕ → Option Message
admit_offer m info len =
    if ltb len 144
    then none
    else if ltb region_max info.table.n || len != 144 + 4 * info.table.n
    then none
    else if info.transport != roce && info.transport != tb
    then none
    else some (record m { info = info })

unfoldable pub admit_err : Message → List ℕ → ℕ → Option Message
admit_err m text len =
    if len != 64 + 96
    then none
    else if not (has_zero text)
    then none
    else some (record m { text = text })

-- The tests behind the first, on the head, the info and the text read from `len` bytes.
unfoldable pub admit : Message → Info → List ℕ → ℕ → Option Message
admit m info text len =
    if ltb m.kind offer || ltb err m.kind || ltb m.role 1 || ltb 3 m.role
    then none
    else if not (has_zero m.name)
    then none
    else if m.kind == offer
    then admit_offer m info len
    else if m.kind == err
    then admit_err m text len
    else if len != 64
    then none
    else some m

-- `xchg_decode`: `none` for its -1. What is read past the end of a short datagram is not used.
unfoldable pub decode : List ℕ → Option Message
decode bs =
    if framed bs then admit (decode_head bs) (decode_info bs) (slice 64 96 bs) (length bs) else none
