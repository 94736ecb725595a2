-- ===== src/UserQueue.antt =====
-- include/cx5_user_completion.h: the userspace mirror of the kernel's work queue.
-- A slot is a field of `records` (32 of them); `x & 31u` is `x % 32`; `producer` is a uint32_t and
-- `counter` its low 16 bits. `occupied` is only ever 0 or 1 in the source and is a Bool here.
use mcdma.Prelude.{
  ℕ, zero, suc, ◌+◌, ◌-◌, ◌%◌, ◌^◌, Bool, true, false, not, ◌&&◌, ◌||◌, Option, none, some, List,
  ◌∷◌, ltb, ◌==◌, ◌!=◌, if◌then◌else◌, get_or, set, replicate,
}
pub mod Inv
pub mod Contents
pub mod Rollback

abbrev pub slots : ℕ
slots = 32

abbrev pub max_pending : ℕ
max_pending = 31

-- `struct mcdma_user_record`
pub record Record : Type 0 where
  pub id : ℕ
  pub len : ℕ
  pub counter : ℕ
  pub opcode : ℕ
  pub occupied : Bool

-- what `memset(r, 0, sizeof(*r))` leaves
abbrev pub empty : Record
empty = record { id = 0; len = 0; counter = 0; opcode = 0; occupied = false }

-- `struct mcdma_user_queue`
pub record Queue : Type 0 where
  pub records : List Record
  pub producer : ℕ
  pub pending : ℕ

-- `mcdma_user_queue_reset`
unfoldable pub reset : Queue
reset = record { records = replicate slots empty; producer = 0; pending = 0 }

abbrev pub u16 : ℕ → ℕ
u16 x = x % 2 ^ 16

-- `uint32_t` increment and decrement
abbrev pub inc32 : ℕ → ℕ
inc32 x = (x + 1) % 2 ^ 32

abbrev pub dec32 : ℕ → ℕ
dec32 x = (x + 2 ^ 32 - 1) % 2 ^ 32

-- `q->records[x & 31u]`
abbrev pub at : Queue → ℕ → Record
at q x = get_or q.records (x % slots) empty

abbrev pub put_at : Queue → ℕ → Record → List Record
put_at q x r = set q.records (x % slots) r

-- `mcdma_user_queue_can_post`
unfoldable pub can_post : Queue → Bool
can_post q = ltb q.pending max_pending && not (at q q.producer).occupied

-- the record that a post writes
abbrev pub fresh : Queue → ℕ → ℕ → ℕ → Record
fresh q id opcode len = record {
  id = id;
  len = len;
  counter = u16 q.producer;
  opcode = opcode;
  occupied = true;
}

-- the queue that a post leaves
abbrev pub posted : Queue → ℕ → ℕ → ℕ → Queue
posted q id opcode len = record {
  records = put_at q q.producer (fresh q id opcode len);
  producer = inc32 q.producer;
  pending = inc32 q.pending;
}

-- `mcdma_user_queue_post`: `none` for its 0, which leaves the queue alone.
unfoldable pub post : Queue → ℕ → ℕ → ℕ → Option Queue
unfolding can_post
post q id opcode len = if not (can_post q) || len == 0 then none else some (posted q id opcode len)

-- One round of `mcdma_user_queue_rollback`; `none` where the loop stops: the producer is 0, or the
-- newest record is not the one that the last post wrote.
unfoldable pub unpost : Queue → Option Queue
unpost q =
    let last = dec32 q.producer in
    let r = at q last in
    if q.producer == 0 || not r.occupied || r.counter != u16 last
    then none
    else some (record { records = put_at q last empty; producer = last; pending = dec32 q.pending })

-- `mcdma_user_queue_rollback`, by recursion on `count`.
unfoldable pub rollback : Queue → ℕ → Queue
rollback q zero = q
rollback q (suc count) = elim (unpost q) [ none ↦ q | some q' ↦ rollback q' count ]

-- `mcdma_user_queue_complete`: the record through `out` and the queue after, or `none` for its 0.
unfoldable pub complete : Queue → ℕ → Option (Record × Queue)
complete q counter =
    let r = at q counter in
    if not r.occupied || r.counter != counter
    then none
    else some (r, record q { records = put_at q counter empty; pending = dec32 q.pending })
