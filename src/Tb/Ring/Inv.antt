-- ===== src/Tb/Ring/Inv.antt =====
-- The receive ring keeps its counters in order, and every message it hands over fills its slots.
use mcdma.Prelude.{
  ℕ, zero, suc, ◌+◌, ◌-◌, ◌*◌, ◌/◌, ◌%◌, ◌^◌, ◌≤◌, ◌<◌, ◌≡◌, ◌≢◌, inl, inr, Bool, true, false, not,
  ◌&&◌, ◌||◌, Option, none, some, ltb, ◌==◌, if◌then◌else◌, min, arith, Bool-cases,
}
use native.Mathlib.Decide.{ℕ_discrete}
use mcdma.Tb.{tb_packet, u64}
use mcdma.Tb.Ring.{
  Ring, Status, success, length_error, other, plausible, is_success, arrive, consumed, Receives,
  repost_loop, repost,
}

-- The counters' order, at most TB_RING slots, no 64-bit counter near its end, and each filled slot with
-- a length: a whole packet unless it is a message's last.
pub record IsRing (r : Ring) : Type 0 where
  pub slots_pos : 0 < r.slots
  pub slots_few : r.slots ≤ 2048
  pub used_le : r.used ≤ r.filled
  pub filled_le : r.filled ≤ r.posted
  pub posted_le : r.posted ≤ r.used + r.slots
  pub young : r.posted < 2 ^ 63
  pub nonempty : (k : ℕ) → r.used ≤ k → k < r.filled → 0 < r.rx_len (k % r.slots)
  pub at_most : (k : ℕ) → r.used ≤ k → k < r.filled → r.rx_len (k % r.slots) ≤ tb_packet
  pub whole :
      (k : ℕ)
      → r.used ≤ k
      → k < r.filled
      → r.rx_last (k % r.slots) ≡ false
      → r.rx_len (k % r.slots) ≡ tb_packet

arrive_inv :
    (status : Status) (len index : ℕ) (r r' : Ring)
    → arrive status len index r ≡ some r'
    → (index ≡ r.filled % r.slots)
      × (r.filled < r.posted)
      × (plausible status len ≡ true)
      × (r' ≡ record r {
        rx_len = λ i. if i == index then len else r.rx_len i;
        rx_last = λ i. if i == index then is_success status else r.rx_last i;
        filled = u64 (r.filled + 1);
      })
unfolding arrive
arrive_inv status len index r r' e = ground (arith, e)

plausible-small :
    (status : Status) (len : ℕ) → plausible status len ≡ true → (0 < len) × (len ≤ tb_packet)
plausible-small success len e = ground arith
plausible-small length_error len e = ground arith
plausible-small other len e = ground arith

plausible-whole :
    (status : Status) (len : ℕ)
    → plausible status len ≡ true
    → is_success status ≡ false
    → len ≡ tb_packet
plausible-whole success len e n = ground arith
plausible-whole length_error len e n = ground arith
plausible-whole other len e n = ground arith

-- Two counters less than a ring apart share a slot only when they are the same.
slot_ne : (k f u s : ℕ) → 0 < s → u ≤ k → k < f → f < u + s → k % s ≢ f % s
slot_ne k f u s p a b c e = grind arith

pub arrive-IsRing :
    (status : Status) (len index : ℕ) (r r' : Ring)
    → IsRing r
    → arrive status len index r ≡ some r'
    → IsRing r'
arrive-IsRing status len index r r' v e =
    let (here, room, ok, shape) = arrive_inv status len index r r' e in
    let next : u64 (r.filled + 1) ≡ r.filled + 1 = omega (arith, v.young, v.filled_le) in
    let (pos, small) = plausible-small status len ok in
    let apart : (k : ℕ) → r.used ≤ k → k < r.filled → (k % r.slots == index) ≡ false = λ k a b.
      ground (
        arith,
        slot_ne k r.filled r.used r.slots v.slots_pos a b (omega (arith, v.posted_le)),
        here,
      ) in
    let self : (r.filled % r.slots == index) ≡ true = ground (arith, here) in
    rw shape (record {
      slots_pos = v.slots_pos;
      slots_few = v.slots_few;
      used_le = omega (arith, next, v.used_le);
      filled_le = omega (arith, next);
      posted_le = v.posted_le;
      young = v.young;
      nonempty = λ k a b. elim (ℕ_discrete k r.filled) [
        | yes same ↦ rw (same, self) pos
        | no old ↦ rw (apart k a (omega (arith, next))) (v.nonempty k a (omega (arith, next)))
      ];
      at_most = λ k a b. elim (ℕ_discrete k r.filled) [
        | yes same ↦ rw (same, self) small
        | no old ↦ rw (apart k a (omega (arith, next))) (v.at_most k a (omega (arith, next)))
      ];
      whole = λ k a b last. elim (ℕ_discrete k r.filled) [
        | yes same ↦ rw (same, self) (plausible-whole status len ok (rw (same, self) at last))
        | no old ↦
            rw (apart k a (omega (arith, next)))
              (v.whole k a (omega (arith, next)) (rw (apart k a (omega (arith, next))) at last))
      ];
    })

-- A message taken, of slots that were filled.
pub consumed-IsRing :
    (r : Ring) (count : ℕ) → IsRing r → r.used + count ≤ r.filled → IsRing (consumed r count)
consumed-IsRing r count v h =
    let next : u64 (r.used + count) ≡ r.used + count = omega (arith, v.young, v.filled_le) in
    record {
      slots_pos = v.slots_pos;
      slots_few = v.slots_few;
      used_le = omega (arith, next);
      filled_le = v.filled_le;
      posted_le = omega (arith, next, v.posted_le);
      young = v.young;
      nonempty = λ k a b. v.nonempty k (omega (arith, next)) b;
      at_most = λ k a b. v.at_most k (omega (arith, next)) b;
      whole = λ k a b last. v.whole k (omega (arith, next)) b last;
    }

posted-IsRing :
    (r : Ring) (n : ℕ)
    → IsRing r
    → r.posted + n ≤ r.used + r.slots
    → r.posted + n < 2 ^ 63
    → IsRing (record r { posted = u64 (r.posted + n) })
posted-IsRing r n v h y =
    let next : u64 (r.posted + n) ≡ r.posted + n = omega arith in
    record {
      slots_pos = v.slots_pos;
      slots_few = v.slots_few;
      used_le = v.used_le;
      filled_le = omega (arith, next, v.filled_le);
      posted_le = omega (arith, next);
      young = omega (arith, next);
      nonempty = v.nonempty;
      at_most = v.at_most;
      whole = v.whole;
    }

pub repost_loop-IsRing :
    (posts : Receives) (called : ℕ → Bool) (most fuel want : ℕ) (r : Ring)
    → IsRing r
    → r.posted + want ≤ r.used + r.slots
    → r.used + r.slots < 2 ^ 63
    → IsRing (repost_loop posts called most fuel want r).1
unfolding repost_loop
repost_loop-IsRing posts called most zero want r v h y = v
repost_loop-IsRing posts called most (suc fuel) want r v h y =
    elim (Bool-cases (want == 0 || called r.posted)) [
      | inl stop ↦ rw stop v
      | inr on ↦ elim (Bool-cases (posts r.posted)) [
        | inr bad ↦ rw (on, bad) v
        | inl ok ↦
            let n = min want most in
            let next : u64 (r.posted + n) ≡ r.posted + n = omega arith in
            rw (on, ok)
              (repost_loop-IsRing posts called most fuel (want - n) _
                (posted-IsRing r n v (omega arith) (omega arith)) (omega (arith, next)) y)
      ]
    ]

pub repost-IsRing :
    (posts : Receives) (called : ℕ → Bool) (hurry : Option Bool) (r : Ring)
    → IsRing r
    → r.used + r.slots < 2 ^ 63
    → IsRing (repost posts called hurry r).1
unfolding repost
repost-IsRing posts called none r v y =
    repost_loop-IsRing posts (λ x. false) 64 _ _ r v (omega (arith, v.posted_le)) y
repost-IsRing posts called (some landed) r v y =
    let want = r.used + r.slots - r.posted in
    let low = ltb (r.posted - r.filled) (r.slots * 3 / 4) in
    elim (Bool-cases (want == 0 || not low && landed)) [
      | inl stop ↦ rw stop v
      | inr on ↦ elim (Bool-cases low) [
        | inl l ↦
            rw (on, l)
              (repost_loop-IsRing posts called 8 want want r v (omega (arith, v.posted_le)) y)
        | inr l ↦
            rw (on, l)
              (repost_loop-IsRing posts called 2 (min want 2) (min want 2) r v
                (omega (arith, v.posted_le)) y)
      ]
    ]
