-- ===== src/Tests/Packets.antt =====
-- The receive ring of rpc/link_tb.c at concrete inputs.
use mcdma.Prelude.{
  ℕ, ◌+◌, ◌%◌, ◌≤◌, ◌<◌, ◌≡◌, refl, Bool, true, false, some, arith, ◌==◌, if◌then◌else◌,
}
use mcdma.Tb.{u64, packets_of}
use mcdma.Tb.Ring.{Ring, success, length_error, arrive, find_end, message, next, consumed}
use mcdma.Tb.Ring.Inv.{IsRing}
use mcdma.Tb.Ring.Messages.{
  packet_bytes, next-message, Reached, fresh, after, by_arrival, by_take, Reached-IsRing,
}

abbrev empty_ring : Ring
empty_ring = record {
  slots = 4;
  filled = 0;
  used = 0;
  posted = 4;
  rx_len = λ i. 0;
  rx_last = λ i. false;
  byte = λ i. i;
}

abbrev arrived : Ring → ℕ → Bool → Ring
arrived r len last = record r {
  rx_len = λ i. if i == r.filled % r.slots then len else r.rx_len i;
  rx_last = λ i. if i == r.filled % r.slots then last else r.rx_last i;
  filled = u64 (r.filled + 1);
}

-- a message of 4200 bytes, in two packets
abbrev half : Ring
half = arrived empty_ring 4096 false

abbrev full : Ring
full = arrived half 104 true

arrive-half : arrive length_error 4096 0 empty_ring ≡ some half
unfolding arrive
arrive-half = refl

arrive-full : arrive success 104 1 half ≡ some full
unfolding arrive
arrive-full = refl

next-full : next full ≡ message 2 4200
unfolding next find_end
next-full = refl

full-Reached : Reached full
full-Reached =
    after
      (after (fresh (omega arith) (omega arith) refl refl refl)
        (by_arrival length_error 4096 0 arrive-half))
      (by_arrival success 104 1 arrive-full)

next-message_example :
    (full.used + 2 ≤ full.filled)
    × (2 ≤ full.slots)
    × (0 < 4200)
    × (packet_bytes full full.used 2 ≡ 4200)
    × (packets_of 4200 ≡ 2)
next-message_example = next-message full 2 4200 (Reached-IsRing full full-Reached) next-full

Reached-IsRing_example : IsRing (consumed full 2)
Reached-IsRing_example =
    Reached-IsRing (consumed full 2) (after full-Reached (by_take 2 4200 next-full))
