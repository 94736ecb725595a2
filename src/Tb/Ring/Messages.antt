-- ===== src/Tb/Ring/Messages.antt =====
-- What `drain` hands over from the receive ring, and every ring that the link can reach.
use mcdma.Prelude.{
  ℕ, zero, suc, ◌+◌, ◌-◌, ◌*◌, ◌%◌, ◌^◌, ◌≤◌, ◌<◌, ◌≡◌, ◌≢◌, sym, ap, ◌∙◌, inl, inr, Bool, true,
  false, Option, some, arith, Bool-cases,
}
use native.Mathlib.Decide.{ℕ_discrete}
use mcdma.Tb.{tb_packet, packets_of}
use mcdma.Tb.Ring.{Ring, Status, arrive, find_end, message, next, consumed, Receives, repost}
use mcdma.Tb.Ring.Inv.{IsRing, arrive-IsRing, consumed-IsRing, repost-IsRing}

-- The sum of the packets' lengths in `n` slots from counter `k` on.
abbrev pub packet_bytes : Ring → ℕ → ℕ → ℕ
packet_bytes r k zero = 0
packet_bytes r k (suc n) = r.rx_len (k % r.slots) + packet_bytes r (k + 1) n

-- What the search for a message's end found.
record Ended (r : Ring) (k fuel e : ℕ) : Type 0 where
  from : k ≤ e
  upto : e ≤ k + fuel
  found : e < k + fuel → r.rx_last (e % r.slots) ≡ true
  before : (j : ℕ) → k ≤ j → j < e → r.rx_last (j % r.slots) ≡ false

find_end-Ended : (fuel : ℕ) (r : Ring) (k : ℕ) → Ended r k fuel (find_end fuel r k)
unfolding find_end
find_end-Ended zero r k = record {
  from = omega arith;
  upto = omega arith;
  found = λ h. absurd (omega arith);
  before = λ j a b. absurd (omega arith);
}
find_end-Ended (suc fuel) r k = elim (Bool-cases (r.rx_last (k % r.slots))) [
  | inl last ↦ rw last (record {
    from = omega arith;
    upto = omega arith;
    found = λ h. last;
    before = λ j a b. absurd (omega arith);
  })
  | inr more ↦
      let d = find_end-Ended fuel r (k + 1) in
      rw more (record {
        from = omega (arith, d.from);
        upto = omega (arith, d.upto);
        found = λ h. d.found (omega arith);
        before = λ j a b. elim (ℕ_discrete j k) [
          | yes same ↦ rw same more
          | no later ↦ d.before j (omega arith) b
        ];
      })
]

-- Slots that no message ends in are whole packets.
packet_bytes_whole :
    (r : Ring) (k n : ℕ)
    → IsRing r
    → r.used ≤ k
    → k + n < r.filled
    → ((j : ℕ) → k ≤ j → j < k + n → r.rx_last (j % r.slots) ≡ false)
    → packet_bytes r k (n + 1) ≡ n * tb_packet + r.rx_len ((k + n) % r.slots)
packet_bytes_whole r k zero v u f open_slots =
    let here : k ≡ k + 0 = omega arith in omega (arith, ap (λ (j : ℕ). r.rx_len (j % r.slots)) here)
packet_bytes_whole r k (suc n) v u f open_slots =
    let shape : suc n + 1 ≡ suc (n + 1) = omega arith in
    let there : k + 1 + n ≡ k + suc n = omega arith in
    let first = v.whole k u (omega arith) (open_slots k (omega arith) (omega arith)) in
    let rest =
      packet_bytes_whole r (k + 1) n v (omega arith) (omega arith)
        (λ j a b. open_slots j (omega arith) (omega arith)) in
    ap (packet_bytes r k) shape
    ∙ omega (arith, first, rest, ap (λ (j : ℕ). r.rx_len (j % r.slots)) there)

next_inv :
    (r : Ring) (count bytes : ℕ)
    → next r ≡ message count bytes
    → let end = find_end (r.filled - r.used) r r.used in
      (r.used < r.filled)
      × (end ≢ r.filled)
      × (count ≡ end - r.used + 1)
      × (bytes ≡ (end - r.used) * tb_packet + r.rx_len (end % r.slots))
unfolding next
next_inv r count bytes e = ground (arith, e)

-- A message that `drain` hands to `take` stands in slots that were filled, at most the ring's; its byte
-- count is the sum of its packets' lengths, is not zero, and `packets` of it is the count of its slots.
pub next-message :
    (r : Ring) (count bytes : ℕ)
    → IsRing r
    → next r ≡ message count bytes
    → (r.used + count ≤ r.filled)
      × (count ≤ r.slots)
      × (0 < bytes)
      × (packet_bytes r r.used count ≡ bytes)
      × (packets_of bytes ≡ count)
next-message r count bytes v e =
    let end = find_end (r.filled - r.used) r r.used in
    let d = find_end-Ended (r.filled - r.used) r r.used in
    let (some_slots, inside, c, b) = next_inv r count bytes e in
    let here : end < r.filled = omega (arith, d.upto) in
    let n = end - r.used in
    let at : r.used + n ≡ end = omega (arith, d.from) in
    let sum =
      packet_bytes_whole r r.used n v (omega arith) (omega arith)
        (λ j a z. d.before j a (omega arith)) in
    let pos = v.nonempty end d.from here in
    let small = v.at_most end d.from here in
    (
      omega arith,
      omega (arith, v.filled_le, v.posted_le),
      omega arith,
      ap (packet_bytes r r.used) c
          ∙ sum
          ∙ ap (λ (j : ℕ). n * tb_packet + r.rx_len (j % r.slots)) at
          ∙ sym b,
      omega (arith, v.slots_few, v.filled_le, v.posted_le),
    )

-- One event at the ring: a receive completes, a message is taken, or receives are posted again.
pub data Event (r : Ring) : Ring → Type 0 where
  by_arrival :
      {r' : Ring} (status : Status) (len index : ℕ)
      → arrive status len index r ≡ some r'
      → Event r r'
  by_take : (count bytes : ℕ) → next r ≡ message count bytes → Event r (consumed r count)
  by_repost :
      (posts : Receives) (called : ℕ → Bool) (hurry : Option Bool)
      → r.used + r.slots < 2 ^ 63
      → Event r (repost posts called hurry r).1

-- The rings that `tb_init` and any events lead to.
pub data Reached : Ring → Type 0 where
  fresh :
      {q : Ring}
      → 0 < q.slots
      → q.slots ≤ 2048
      → q.used ≡ 0
      → q.filled ≡ 0
      → q.posted ≡ q.slots
      → Reached q
  after : {q q' : Ring} → Reached q → Event q q' → Reached q'

Event-IsRing : (r r' : Ring) → Event r r' → IsRing r → IsRing r'
Event-IsRing r r' (by_arrival status len index e) v = arrive-IsRing status len index r r' v e
Event-IsRing r r' (by_take count bytes e) v =
    consumed-IsRing r count v (next-message r count bytes v e).0
Event-IsRing r r' (by_repost posts called hurry y) v = repost-IsRing posts called hurry r v y

-- From `tb_init` on, whatever receives complete, messages are taken and receives are posted again, in
-- any order and before the 63rd bit of the counters: used, filled and posted stay in this order within
-- one ring, and a filled slot holds 1 to 4096 bytes, all 4096 unless it ends a message.
pub Reached-IsRing : (r : Ring) → Reached r → IsRing r
Reached-IsRing r (fresh pos few u f p) = record {
  slots_pos = pos;
  slots_few = few;
  used_le = omega arith;
  filled_le = omega arith;
  posted_le = omega arith;
  young = omega arith;
  nonempty = λ k a b. absurd (omega arith);
  at_most = λ k a b. absurd (omega arith);
  whole = λ k a b last. absurd (omega arith);
}
Reached-IsRing r (after {q = p} earlier e) = Event-IsRing p r e (Reached-IsRing p earlier)
