-- ===== src/Observer.antt =====
-- include/cx5_cq_observer.h: the completion queue as the provider observes it. `Buffer` is the mapped
-- memory: the live word, the consumer's doorbell word as a little-endian host loads it, and the bytes.
use mcdma.Prelude.{
  ℕ, zero, suc, ◌+◌, ◌*◌, ◌/◌, ◌%◌, ◌^◌, ◌<◌, ◌≡◌, ◌≢◌, ap, ap₂, ◌∙◌, Bool, ◌&&◌, List, [], ◌∷◌,
  ◌==◌, ◌!=◌, if◌then◌else◌, arith,
}

pub record Buffer : Type 0 where
  pub live : ℕ
  pub consumer_word : ℕ
  pub byte : ℕ → ℕ

-- MCDMA_CQ_LIVE_MAGIC
abbrev pub live_magic : ℕ
live_magic = 0x4d434401

-- `__builtin_bswap32`
abbrev pub bswap32 : ℕ → ℕ
bswap32 v =
    v % 256 * 2 ^ 24 + v / 2 ^ 8 % 256 * 2 ^ 16 + v / 2 ^ 16 % 256 * 2 ^ 8 + v / 2 ^ 24 % 256

-- `mcdma_cq_set_live`
unfoldable pub set_live : Buffer → Bool → Buffer
set_live b live = record b { live = if live then live_magic else 0 }

-- `mcdma_cq_set_consumer`
unfoldable pub set_consumer : Buffer → ℕ → Buffer
set_consumer b consumer = record b { consumer_word = bswap32 (consumer % 2 ^ 24) }

-- `mcdma_cq_consumer`
unfoldable pub consumer_of : Buffer → ℕ
consumer_of b = bswap32 b.consumer_word % 2 ^ 24

-- -1, 0 and 1 of `mcdma_cq_entry_ready`
pub data Ready : Type 0 where
  retired unpublished published : Ready

-- the test on an entry's owner byte
abbrev pub owned : ℕ → ℕ → Bool
owned owner index = owner / 16 != 15 && owner % 2 == index / 32 % 2

-- `mcdma_cq_entry_ready`
unfoldable pub entry_ready : Buffer → ℕ → Ready
entry_ready b index =
    if b.live != live_magic
    then retired
    else if owned (b.byte (index % 32 * 64 + 63)) index
    then published
    else unpublished

unfoldable pub copy_bytes : ℕ → (ℕ → ℕ) → ℕ → List ℕ
copy_bytes zero mem o = []
copy_bytes (suc n) mem o = mem o ∷ copy_bytes n mem (o + 1)

-- `mcdma_cq_entry`: the answer, and the entry's bytes where it is 1.
unfoldable pub entry : Buffer → ℕ → Ready × List ℕ
entry b index = elim (entry_ready b index) [
  | retired ↦ (retired, [])
  | unpublished ↦ (unpublished, [])
  | published ↦ (published, copy_bytes 64 b.byte (index % 32 * 64))
]

-- `mcdma_cq_observe`, whose consumer is not masked
unfoldable pub observe : Buffer → Ready
observe b =
    let consumer = bswap32 b.consumer_word in
    if b.live != live_magic
    then retired
    else if owned (b.byte (consumer % 32 * 64 + 63)) consumer
    then published
    else unpublished

bswap32-bswap32 : (v : ℕ) → v < 2 ^ 24 → bswap32 (bswap32 v) ≡ v
bswap32-bswap32 v h = omega arith

-- The state of the entry in a slot for a lap of a parity.
abbrev state : Buffer → ℕ → ℕ → Ready
state b slot lap =
    if b.live != live_magic
    then retired
    else if b.byte (slot * 64 + 63) / 16 != 15 && b.byte (slot * 64 + 63) % 2 == lap
    then published
    else unpublished

-- After the kernel publishes a consumer index, the provider reads its low 24 bits back, and what it
-- observes is the state of the entry at that index, whatever number of laps the index counts.
pub observe-set_consumer :
    (b : Buffer) (consumer : ℕ)
    → (consumer_of (set_consumer b consumer) ≡ consumer % 2 ^ 24)
      × (observe (set_consumer b consumer) ≡ entry_ready b consumer)
unfolding consumer_of set_consumer observe entry_ready
observe-set_consumer b consumer =
    let c = consumer % 2 ^ 24 in
    let swapped = bswap32-bswap32 c (omega arith) in
    let slot : c % 32 ≡ consumer % 32 = omega arith in
    let lap : c / 32 % 2 ≡ consumer / 32 % 2 = omega arith in
    (
      ap (λ (v : ℕ). v % 2 ^ 24) swapped ∙ omega arith,
      ap (λ (v : ℕ). state b (v % 32) (v / 32 % 2)) swapped ∙ ap₂ (state b) slot lap,
    )

-- An entry that is published at an index is not published at the index one lap later: the owner bit
-- tells a new entry from the one that stood there before.
pub entry_ready-next_lap :
    (b : Buffer) (index : ℕ)
    → entry_ready b index ≡ published
    → entry_ready b (index + 32) ≡ unpublished
unfolding entry_ready
entry_ready-next_lap b index e =
    let slot : (index + 32) % 32 ≡ index % 32 = omega arith in
    let lap : (index + 32) / 32 % 2 ≢ index / 32 % 2 = omega arith in
    rw slot (ground (arith, e, lap))
