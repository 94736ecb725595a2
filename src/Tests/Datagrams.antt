-- ===== src/Tests/Datagrams.antt =====
-- The datagrams of rpc/link_xchg.c at concrete inputs.
use mcdma.Prelude.{ℕ, ◌≤◌, ◌≡◌, refl, true, some, List, ◌∷◌, arith, length, replicate}
use mcdma.Wire.{Message, has_zero, no_info, no_text, size, encode, decode}
use mcdma.Wire.Reads.{IsWire}
use mcdma.Wire.RoundTrip.{decode-encode}

-- a farewell: kind 4, no payload
abbrev farewell : Message
farewell = record {
  kind = 4;
  role = 1;
  flags = 0;
  name = 109 ∷ replicate 23 0;
  from = replicate 16 3;
  to = replicate 16 4;
  info = no_info;
  text = no_text;
}

farewell_named : has_zero farewell.name ≡ true
unfolding has_zero
farewell_named = refl

farewell-IsWire : IsWire farewell
farewell-IsWire = record {
  kind_known = (omega arith, omega arith);
  role_known = (omega arith, omega arith);
  name_24 = refl;
  name_ends = farewell_named;
  from_16 = refl;
  to_16 = refl;
  offered = λ e. absurd (omega arith);
  info_zero = λ n. refl;
  explained = λ e. absurd (omega arith);
  text_ends = λ e. absurd (omega arith);
  text_zero = λ n. refl;
}

farewell-size : size farewell ≡ 64
unfolding size
farewell-size = refl

decode-encode_example :
    (bs : List ℕ) × (encode farewell 64 ≡ some bs)
    × (length bs ≡ size farewell)
    × (length bs ≤ 656)
    × (decode bs ≡ some farewell)
decode-encode_example = decode-encode farewell 64 farewell-IsWire (omega (arith, farewell-size))
