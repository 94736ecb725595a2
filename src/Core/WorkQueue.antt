-- ===== src/Core/WorkQueue.antt =====
-- include/cx5_work_queue.hpp: the kernel's queue of posted work requests, which the userspace mirror
-- follows. A slot is a field of `records` (32 of them); the producer is the caller's.
use mcdma.Prelude.{
  ℕ, zero, suc, ◌+◌, ◌-◌, ◌%◌, ◌^◌, Bool, true, false, not, ◌&&◌, ◌||◌, Option, none, some, List,
  [], ◌∷◌, ltb, ◌==◌, ◌!=◌, if◌then◌else◌, get_or, set, take, replicate,
}
pub mod Mirror

-- `WorkRecord`; `lkeys` has three elements.
pub record WorkRecord : Type 0 where
  pub id : ℕ
  pub len : ℕ
  pub lkey : ℕ
  pub counter : ℕ
  pub opcode : ℕ
  pub occupied : Bool
  pub lkeys : List ℕ
  pub lkey_count : ℕ

-- the record of `{}`
abbrev pub no_work : WorkRecord
no_work = record {
  id = 0;
  len = 0;
  lkey = 0;
  counter = 0;
  opcode = 0;
  occupied = false;
  lkeys = replicate 3 0;
  lkey_count = 0;
}

-- `WorkQueue`
pub record WorkQueue : Type 0 where
  pub records : List WorkRecord
  pub pending : ℕ

-- a queue as it is constructed
unfoldable pub new_queue : WorkQueue
new_queue = record { records = replicate 32 no_work; pending = 0 }

-- `records_[x & 31]`
abbrev pub work_at : WorkQueue → ℕ → WorkRecord
work_at q x = get_or q.records (x % 32) no_work

-- `can_post`
unfoldable pub can_post : WorkQueue → ℕ → Bool
can_post q producer = ltb q.pending 31 && not (work_at q producer).occupied

-- The loop of `post` over the first `n` keys: whether none is 0.
unfoldable pub keys_set : ℕ → List ℕ → Bool
keys_set zero ks = true
keys_set (suc n) [] = false
keys_set (suc n) (k ∷ ks) = k != 0 && keys_set n ks

-- the first three keys, padded with zeros
abbrev pub padded_keys : ℕ → List ℕ → List ℕ
padded_keys n ks = get_or (take n ks) 0 0 ∷ get_or (take n ks) 1 0 ∷ get_or (take n ks) 2 0 ∷ []

abbrev pub work_of : ℕ → ℕ → ℕ → ℕ → List ℕ → ℕ → WorkRecord
work_of producer id opcode len lkeys count = record {
  id = id;
  len = len;
  lkey = get_or lkeys 0 0;
  counter = producer % 2 ^ 16;
  opcode = opcode;
  occupied = true;
  lkeys = padded_keys count lkeys;
  lkey_count = count;
}

-- `post`: `none` for its false.
unfoldable pub post : WorkQueue → ℕ → ℕ → ℕ → ℕ → List ℕ → ℕ → Option WorkQueue
post q producer id opcode len lkeys count =
    if not (can_post q producer) || len == 0 || count == 0 || ltb 3 count
    then none
    else if not (keys_set count lkeys)
    then none
    else some (record {
      records = set q.records (producer % 32) (work_of producer id opcode len lkeys count);
      pending = (q.pending + 1) % 2 ^ 32;
    })

-- `complete`: the record through `result`, or `none` for its false.
unfoldable pub complete : WorkQueue → ℕ → Option (WorkRecord × WorkQueue)
complete q counter =
    let r = work_at q counter in
    if not r.occupied || r.counter != counter
    then none
    else some (
      r,
      record {
        records = set q.records (counter % 32) no_work;
        pending = (q.pending + 2 ^ 32 - 1) % 2 ^ 32;
      },
    )

-- Whether one of the first `n` keys is `lkey`.
unfoldable pub has_key : ℕ → List ℕ → ℕ → Bool
has_key zero ks lkey = false
has_key (suc n) [] lkey = false
has_key (suc n) (k ∷ ks) lkey = k == lkey || has_key n ks lkey

-- `references`
unfoldable pub references : List WorkRecord → ℕ → Bool
references [] lkey = false
references (r ∷ rs) lkey = r.occupied && has_key r.lkey_count r.lkeys lkey || references rs lkey

-- `removed`
unfoldable pub removed : WorkQueue → WorkQueue
removed q = record { records = replicate 32 no_work; pending = 0 }
