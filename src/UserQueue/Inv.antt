-- ===== src/UserQueue/Inv.antt =====
-- The invariant of the mirror queue: 32 slots, `pending` counts the occupied ones and stays at most
-- 31, a free slot is zeroed, and an occupied one holds the newest counter that falls on it.
use mcdma.Prelude.{
  ℕ, zero, suc, ◌+◌, ◌-◌, ◌%◌, ◌^◌, ◌≤◌, ◌<◌, ◌≡◌, refl, ◌≢◌, Bool, true, false, some, List, [],
  ◌∷◌, arith, length, get_or, set, length-set, get_or-set_self, get_or-set_ne, inl, inr, replicate,
  ◌∙◌, Option-cases,
}
use mcdma.UserQueue.{
  Record, Queue, empty, at, u16, post, unpost, rollback, complete, reset, put_at, fresh, inc32,
  dec32,
}
use native.Mathlib.Decide.{ℕ_discrete}

abbrev one_if : Bool → ℕ
one_if true = 1
one_if false = 0

-- the number of occupied records
abbrev pub occupied_count : List Record → ℕ
occupied_count [] = 0
occupied_count (r ∷ rs) = one_if r.occupied + occupied_count rs

-- A write at `i` changes the count by the change at `i`.
pub occupied_count-set :
    (rs : List Record) (i : ℕ) (r : Record)
    → i < length rs
    → occupied_count (set rs i r) + one_if (get_or rs i empty).occupied
      ≡ occupied_count rs + one_if r.occupied
occupied_count-set [] i r h = absurd (omega arith)
occupied_count-set (x ∷ rs) zero r h = omega arith
occupied_count-set (x ∷ rs) (suc i) r h = omega (arith, occupied_count-set rs i r (omega arith))

-- An occupied slot `i` holds the counter of one of the 32 newest posts, the one that falls on `i`.
-- A free slot is zeroed.
pub record SlotIsValid (producer i : ℕ) (r : Record) : Type 0 where
  pub on_slot : r.occupied ≡ true → r.counter % 32 ≡ i
  pub word16 : r.occupied ≡ true → r.counter < 2 ^ 16
  pub newest : r.occupied ≡ true → (producer + 2 ^ 16 - 1 - r.counter) % 2 ^ 16 < 32
  pub zeroed : r.occupied ≡ false → r ≡ empty

pub record IsValid (q : Queue) : Type 0 where
  pub slots_32 : length q.records ≡ 32
  pub counted : q.pending ≡ occupied_count q.records
  pub bounded : q.pending ≤ 31
  pub word : q.producer < 2 ^ 32
  pub slot : (i : ℕ) → i < 32 → SlotIsValid q.producer i (get_or q.records i empty)

-- A write at slot `i` and a new producer keep every slot valid, if they do so at `i` and elsewhere.
slots-set :
    (rs : List Record) (i p : ℕ) (r : Record)
    → i < length rs
    → SlotIsValid p i r
    → ((j : ℕ) → j < 32 → j ≢ i → SlotIsValid p j (get_or rs j empty))
    → (j : ℕ) → j < 32
    → SlotIsValid p j (get_or (set rs i r) j empty)
slots-set rs i p r hi here there j hj = elim (ℕ_discrete j i) [
  | yes e ↦ rw (e, get_or-set_self rs i r empty hi) here
  | no ne ↦ rw (get_or-set_ne rs i j r empty (λ e. ne (sym' e))) (there j hj ne)
]
  where
    sym' : i ≡ j → j ≡ i
    sym' e = omega arith

get_or-replicate : (n i : ℕ) → get_or (replicate n empty) i empty ≡ empty
get_or-replicate zero i = refl
get_or-replicate (suc n) zero = refl
get_or-replicate (suc n) (suc i) = get_or-replicate n i

empty-SlotIsValid : (p i : ℕ) → SlotIsValid p i empty
empty-SlotIsValid p i = record {
  on_slot = λ o. cc;
  word16 = λ o. cc;
  newest = λ o. cc;
  zeroed = λ o. refl;
}

pub reset-IsValid : IsValid reset
unfolding reset
reset-IsValid = record {
  slots_32 = refl;
  counted = refl;
  bounded = omega arith;
  word = omega arith;
  slot = λ i h. rw (get_or-replicate 32 i) (empty-SlotIsValid 0 i);
}

-- One post later, a record off the posted slot is still among the 32 newest.
older :
    (p i : ℕ) (r : Record)
    → p < 2 ^ 32
    → i ≢ p % 32
    → SlotIsValid p i r
    → SlotIsValid ((p + 1) % 2 ^ 32) i r
older p i r hp ne v = record {
  on_slot = v.on_slot;
  word16 = v.word16;
  zeroed = v.zeroed;
  newest = λ o. step (v.on_slot o) (v.word16 o) (v.newest o);
}
  where
    step :
        r.counter % 32 ≡ i
        → r.counter < 2 ^ 16
        → (p + 2 ^ 16 - 1 - r.counter) % 2 ^ 16 < 32
        → ((p + 1) % 2 ^ 32 + 2 ^ 16 - 1 - r.counter) % 2 ^ 16 < 32
    step a b c = omega arith

-- Taking the newest post back brings every other record one step nearer.
younger :
    (p i : ℕ) (r : Record)
    → p < 2 ^ 32
    → 0 < p
    → i ≢ (p - 1) % 32
    → SlotIsValid p i r
    → SlotIsValid (p - 1) i r
younger p i r hp pos ne v = record {
  on_slot = v.on_slot;
  word16 = v.word16;
  zeroed = v.zeroed;
  newest = λ o. step (v.on_slot o) (v.word16 o) (v.newest o);
}
  where
    step :
        r.counter % 32 ≡ i
        → r.counter < 2 ^ 16
        → (p + 2 ^ 16 - 1 - r.counter) % 2 ^ 16 < 32
        → (p - 1 + 2 ^ 16 - 1 - r.counter) % 2 ^ 16 < 32
    step a b c = omega arith

fresh-SlotIsValid :
    (q : Queue) (id opcode len : ℕ)
    → q.producer < 2 ^ 32
    → SlotIsValid (inc32 q.producer) (q.producer % 32) (fresh q id opcode len)
fresh-SlotIsValid q id opcode len h = record {
  on_slot = λ o. omega arith;
  word16 = λ o. omega arith;
  newest = λ o. omega arith;
  zeroed = λ o. cc;
}

-- What a successful post did, its guard included.
pub post_inv :
    (q : Queue) (id opcode len : ℕ) (q' : Queue)
    → post q id opcode len ≡ some q'
    → (q.pending < 31)
      × ((at q q.producer).occupied ≡ false)
      × (q' ≡ record {
        records = put_at q q.producer (fresh q id opcode len);
        producer = inc32 q.producer;
        pending = inc32 q.pending;
      })
unfolding post
post_inv q id opcode len q' e = ground arith

pub post-IsValid :
    (q : Queue) (id opcode len : ℕ) (q' : Queue)
    → IsValid q
    → post q id opcode len ≡ some q'
    → IsValid q'
post-IsValid q id opcode len q' v e =
    let (room, free, shape) = post_inv q id opcode len q' e in
    rw shape (record {
      slots_32 = length-set _ _ _ ∙ v.slots_32;
      counted = ground (
        arith,
        occupied_count-set q.records (q.producer % 32) (fresh q id opcode len),
        v.slots_32,
        v.counted,
      );
      bounded = omega arith;
      word = omega arith;
      slot =
          slots-set q.records (q.producer % 32) _ _ (omega (arith, v.slots_32))
            (fresh-SlotIsValid q id opcode len v.word)
            (λ j hj ne. older q.producer j _ v.word ne (v.slot j hj));
    })

-- What a successful completion did, its guard included.
pub complete_inv :
    (q : Queue) (c : ℕ) (r : Record) (q' : Queue)
    → complete q c ≡ some (r, q')
    → ((at q c).occupied ≡ true)
      × ((at q c).counter ≡ c)
      × (r ≡ at q c)
      × (q' ≡ record q { records = put_at q c empty; pending = dec32 q.pending })
unfolding complete
complete_inv q c r q' e = ground arith

-- The count of a queue with an occupied slot freed.
count-freed :
    (q : Queue) (x : ℕ)
    → IsValid q
    → (at q x).occupied ≡ true
    → dec32 q.pending ≡ occupied_count (put_at q x empty)
count-freed q x v o =
    ground (arith, occupied_count-set q.records (x % 32) empty, v.slots_32, v.counted, v.bounded)

pending_freed :
    (q : Queue) (x : ℕ) → IsValid q → (at q x).occupied ≡ true → dec32 q.pending + 1 ≡ q.pending
pending_freed q x v o =
    ground (arith, occupied_count-set q.records (x % 32) empty, v.slots_32, v.counted, v.bounded)

pub complete-IsValid :
    (q : Queue) (c : ℕ) (r : Record) (q' : Queue)
    → IsValid q
    → complete q c ≡ some (r, q')
    → IsValid q'
complete-IsValid q c r q' v e =
    let (o, same, out, shape) = complete_inv q c r q' e in
    rw shape (record {
      slots_32 = length-set _ _ _ ∙ v.slots_32;
      counted = count-freed q c v o;
      bounded = omega (arith, pending_freed q c v o);
      word = v.word;
      slot =
          slots-set q.records (c % 32) _ _ (omega (arith, v.slots_32)) (empty-SlotIsValid _ _)
            (λ j hj ne. v.slot j hj);
    })

pub unpost_inv :
    (q : Queue) (q' : Queue)
    → unpost q ≡ some q'
    → (q.producer ≢ 0)
      × ((at q (dec32 q.producer)).occupied ≡ true)
      × ((at q (dec32 q.producer)).counter ≡ u16 (dec32 q.producer))
      × (q' ≡ record {
        records = put_at q (dec32 q.producer) empty;
        producer = dec32 q.producer;
        pending = dec32 q.pending;
      })
unfolding unpost
unpost_inv q q' e = ground arith

unpost-IsValid : (q : Queue) (q' : Queue) → IsValid q → unpost q ≡ some q' → IsValid q'
unpost-IsValid q q' v e =
    let (pos, o, same, shape) = unpost_inv q q' e in
    let back : dec32 q.producer ≡ q.producer - 1 = omega (arith, v.word) in
    rw shape (record {
      slots_32 = length-set _ _ _ ∙ v.slots_32;
      counted = count-freed q (dec32 q.producer) v o;
      bounded = omega (arith, pending_freed q (dec32 q.producer) v o);
      word = omega arith;
      slot =
          slots-set q.records (dec32 q.producer % 32) _ _ (omega (arith, v.slots_32))
            (empty-SlotIsValid _ _)
            (λ j hj ne.
              rw back (younger q.producer j _ v.word (omega arith) (rw back at ne) (v.slot j hj)));
    })

pub rollback-IsValid : (q : Queue) (n : ℕ) → IsValid q → IsValid (rollback q n)
unfolding rollback
rollback-IsValid q zero v = v
rollback-IsValid q (suc n) v = elim (Option-cases (unpost q)) [
  | inl e ↦ rw (e, rollback) v
  | inr (q', e) ↦ rw (e, rollback) (rollback-IsValid q' n (unpost-IsValid q q' v e))
]

-- One call on a mirror queue: a request recorded, a completion matched, or the refused records of a
-- batch removed.
pub data Step (q : Queue) : Queue → Type 0 where
  by_post : {q' : Queue} (id opcode len : ℕ) → post q id opcode len ≡ some q' → Step q q'
  by_complete : {q' : Queue} (c : ℕ) (r : Record) → complete q c ≡ some (r, q') → Step q q'
  by_rollback : (n : ℕ) → Step q (rollback q n)

pub Step-IsValid : (q q' : Queue) → Step q q' → IsValid q → IsValid q'
Step-IsValid q q' (by_post id opcode len e) v = post-IsValid q id opcode len q' v e
Step-IsValid q q' (by_complete c r e) v = complete-IsValid q c r q' v e
Step-IsValid q q' (by_rollback n) v = rollback-IsValid q n v

-- The states of a mirror queue since its reset.
pub data Reachable : Queue → Type 0 where
  start : Reachable reset
  after : {q q' : Queue} → Reachable q → Step q q' → Reachable q'

-- Whatever calls follow a reset, in any order and across any number of wraps of the producer, the
-- mirror is valid: at most 31 records outstanding, exactly the occupied slots counted, and each
-- occupied slot holding one of the 32 newest counters, on its own slot.
pub Reachable-IsValid : (q : Queue) → Reachable q → IsValid q
Reachable-IsValid q start = reset-IsValid
Reachable-IsValid q (after {q = p} r s) = Step-IsValid p q s (Reachable-IsValid p r)
