-- ===== src/Tb/Ring.antt =====
-- rpc/link_tb.c: the receive ring. A slot holds one packet; a message takes the slots up to one that
-- completed cleanly. `Ring` is the part of `struct tb` that the receive completions move.
use mcdma.Prelude.{
  ℕ, zero, suc, ◌+◌, ◌-◌, ◌*◌, ◌/◌, ◌%◌, ◌^◌, Bool, true, false, not, ◌&&◌, ◌||◌, Option, none,
  some, ltb, leb, ◌==◌, if◌then◌else◌, min,
}
use mcdma.Tb.{tb_packet, u64}
pub mod Inv
pub mod Copy
pub mod Messages

pub record Ring : Type 0 where
  pub slots : ℕ
  pub filled : ℕ
  pub used : ℕ
  pub posted : ℕ
  pub rx_len : ℕ → ℕ
  pub rx_last : ℕ → Bool
  pub byte : ℕ → ℕ

-- IBV_WC_SUCCESS, IBV_WC_LOC_LEN_ERR and every other status
pub data Status : Type 0 where
  success length_error other : Status

-- The test on a receive's status and length: only a message's last packet completes cleanly.
abbrev pub plausible : Status → ℕ → Bool
plausible success len = leb 1 len && leb len tb_packet
plausible length_error len = len == tb_packet
plausible other len = false

abbrev pub is_success : Status → Bool
is_success success = true
is_success length_error = false
is_success other = false

-- A completed receive, `complete` on T_RECV: `none` where it poisons the link.
unfoldable pub arrive : Status → ℕ → ℕ → Ring → Option Ring
arrive status len index r =
    if index == r.filled % r.slots && ltb r.filled r.posted && plausible status len
    then some (record r {
      rx_len = λ i. if i == index then len else r.rx_len i;
      rx_last = λ i. if i == index then is_success status else r.rx_last i;
      filled = u64 (r.filled + 1);
    })
    else none

-- The loop of `drain` that looks for the last slot of the message at `end`, over the `fuel` slots filled
-- from there on.
unfoldable pub find_end : ℕ → Ring → ℕ → ℕ
find_end zero r end = end
find_end (suc fuel) r end =
    let later = find_end fuel r (end + 1) in if r.rx_last (end % r.slots) then end else later

-- What `drain` finds at the head of the ring: no whole message, a message that fills the ring, or one of
-- `count` slots and `bytes` bytes.
pub data Next : Type 0 where
  idle too_large : Next
  message : ℕ → ℕ → Next

unfoldable pub next : Ring → Next
next r =
    let end = find_end (r.filled - r.used) r r.used in
    if not (ltb r.used r.filled)
    then Next.idle
    else if end == r.filled
    then (if r.filled - r.used == r.slots then Next.too_large else Next.idle)
    else message (end - r.used + 1) ((end - r.used) * tb_packet + r.rx_len (end % r.slots))

-- A message of `count` slots taken.
abbrev pub consumed : Ring → ℕ → Ring
consumed r count = record r { used = u64 (r.used + count) }

-- `post_recvs` at the slot counter: whether the provider takes the receives.
abbrev pub Receives : Type 0
Receives = ℕ → Bool

-- The loop of `repost`, on the receives still wanted as fuel: whether the link is still sound. `called`
-- is the caller's flag `wanted`, read at each round.
unfoldable pub repost_loop : Receives → (ℕ → Bool) → ℕ → ℕ → ℕ → Ring → Bool × Ring
repost_loop posts called most zero want r = (true, r)
repost_loop posts called most (suc fuel) want r =
    let n = min want most in
    let rest =
      repost_loop posts called most fuel (want - n) (record r { posted = u64 (r.posted + n) }) in
    if want == 0 || called r.posted then (true, r) else if posts r.posted then rest else (false, r)

-- `repost`. `hurry` is `none` without `wanted`, or else whether a message landed within
-- TB_REPOST_WAIT_NS.
unfoldable pub repost : Receives → (ℕ → Bool) → Option Bool → Ring → Bool × Ring
repost posts called none r =
    let want = r.used + r.slots - r.posted in repost_loop posts (λ x. false) 64 want want r
repost posts called (some landed) r =
    let want = r.used + r.slots - r.posted in
    let low = ltb (r.posted - r.filled) (r.slots * 3 / 4) in
    if want == 0 || not low && landed
    then (true, r)
    else if low
    then repost_loop posts called 8 want want r
    else repost_loop posts called 2 (min want 2) (min want 2) r

-- `copy_skip`'s bytes: two runs of the ring where it wraps. `copy_out` is the case of `skip` 0.
abbrev pub ring_size : Ring → ℕ
ring_size r = r.slots * tb_packet

abbrev pub start_of : Ring → ℕ → ℕ → ℕ
start_of r first skip = (first % r.slots * tb_packet + skip) % ring_size r

unfoldable pub copied : Ring → ℕ → ℕ → ℕ → ℕ → ℕ
copied r first skip len i =
    let at = start_of r first skip in
    let head = min len (ring_size r - at) in
    if ltb i head then r.byte (at + i) else r.byte (i - head)
