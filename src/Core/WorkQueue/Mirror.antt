-- ===== src/Core/WorkQueue/Mirror.antt =====
-- The userspace mirror of include/cx5_user_completion.h beside the kernel's queue that it mirrors.
use mcdma.Prelude.{
  ℕ, zero, suc, ◌%◌, ◌≤◌, ◌≡◌, ◌≢◌, refl, ap, ◌∙◌, true, Option, none, some, List, [], ◌∷◌, All,
  get_or, set, arith, Option-cases, inl, inr,
}
use mcdma.UserQueue.{Record, Queue, empty, inc32, u16}
use mcdma.UserQueue as User
use mcdma.Core.WorkQueue.{
  WorkRecord, WorkQueue, no_work, new_queue, work_at, work_of, can_post, keys_set, post, complete,
}

-- what the mirror holds of a kernel record
abbrev pub shown : WorkRecord → Record
shown w = record {
  id = w.id;
  len = w.len;
  counter = w.counter;
  opcode = w.opcode;
  occupied = w.occupied;
}

abbrev pub shown_all : List WorkRecord → List Record
shown_all [] = []
shown_all (w ∷ ws) = shown w ∷ shown_all ws

-- The mirror that belongs to a kernel queue and its producer.
abbrev pub mirror_of : WorkQueue → ℕ → Queue
mirror_of q producer = record {
  records = shown_all q.records;
  producer = producer;
  pending = q.pending;
}

get_or-shown_all :
    (ws : List WorkRecord) (i : ℕ) → get_or (shown_all ws) i empty ≡ shown (get_or ws i no_work)
get_or-shown_all [] i = refl
get_or-shown_all (w ∷ ws) zero = refl
get_or-shown_all (w ∷ ws) (suc i) = get_or-shown_all ws i

shown_all-set :
    (ws : List WorkRecord) (i : ℕ) (w : WorkRecord)
    → shown_all (set ws i w) ≡ set (shown_all ws) i (shown w)
shown_all-set [] i w = refl
shown_all-set (v ∷ ws) zero w = refl
shown_all-set (v ∷ ws) (suc i) w = ap (λ (l : List Record). shown v ∷ l) (shown_all-set ws i w)

shown-work_at :
    (q : WorkQueue) (p x : ℕ) → get_or (mirror_of q p).records (x % 32) empty ≡ shown (work_at q x)
shown-work_at q p x = get_or-shown_all q.records (x % 32)

-- the keys of a request that the kernel accepts: one to three, none 0
abbrev pub IsKeyed : List ℕ → ℕ → Type 0
IsKeyed ks n = (n ≢ 0) × (n ≤ 3) × (keys_set n ks ≡ true)

abbrev pub mirrored : Option WorkQueue → ℕ → Option Queue
mirrored none producer = none
mirrored (some q) producer = some (mirror_of q producer)

pub post-mirror_of :
    (q : WorkQueue) (p id opcode len : ℕ) (ks : List ℕ) (n : ℕ)
    → IsKeyed ks n
    → User.post (mirror_of q p) id opcode len ≡ mirrored (post q p id opcode len ks n) (inc32 p)
unfolding post can_post User.post User.can_post
post-mirror_of q p id opcode len ks n (nz, few, set_keys) =
    let stored = shown_all-set q.records (p % 32) (work_of p id opcode len ks n) in
    rw (get_or-shown_all q.records (p % 32)) (ground (arith, set_keys, stored))

abbrev completed : Option (WorkRecord × WorkQueue) → ℕ → Option (Record × Queue)
completed none producer = none
completed (some (w, q)) producer = some (shown w, mirror_of q producer)

pub complete-mirror_of :
    (q : WorkQueue) (p c : ℕ) → User.complete (mirror_of q p) c ≡ completed (complete q c) p
unfolding complete User.complete
complete-mirror_of q p c =
    let stored = shown_all-set q.records (c % 32) no_work in
    rw (get_or-shown_all q.records (c % 32)) (ground (arith, stored))

-- What happens at a queue: a request that the kernel is asked to post, or a completed counter.
pub data Call : Type 0 where
  posting : (id opcode len : ℕ) (lkeys : List ℕ) (count : ℕ) → Call
  completing : (counter : ℕ) → Call

pub data Answer : Type 0 where
  accepted refused unknown : Answer
  finished : Record → Answer

abbrev pub CallIsKeyed : Call → Type 0
CallIsKeyed (posting id opcode len lkeys count) = IsKeyed lkeys count
CallIsKeyed (completing counter) = Unit {0}

-- The answers of the kernel's queue, whose caller counts the accepted posts.
unfoldable pub kernel_answers : List Call → WorkQueue → ℕ → List Answer
kernel_answers [] q p = []
kernel_answers (posting id opcode len lkeys count ∷ cs) q p =
    elim (post q p id opcode len lkeys count) [
      | none ↦ refused ∷ kernel_answers cs q p
      | some q' ↦ accepted ∷ kernel_answers cs q' (inc32 p)
    ]
kernel_answers (completing counter ∷ cs) q p = elim (complete q counter) [
  | none ↦ unknown ∷ kernel_answers cs q p
  | some (w, q') ↦ finished (shown w) ∷ kernel_answers cs q' p
]

-- The answers of the userspace mirror to the same calls.
unfoldable pub mirror_answers : List Call → Queue → List Answer
mirror_answers [] u = []
mirror_answers (posting id opcode len lkeys count ∷ cs) u = elim (User.post u id opcode len) [
  | none ↦ refused ∷ mirror_answers cs u
  | some u' ↦ accepted ∷ mirror_answers cs u'
]
mirror_answers (completing counter ∷ cs) u = elim (User.complete u counter) [
  | none ↦ unknown ∷ mirror_answers cs u
  | some (r, u') ↦ finished r ∷ mirror_answers cs u'
]

answers-step :
    (cs : List Call) (q : WorkQueue) (p : ℕ)
    → All CallIsKeyed cs
    → mirror_answers cs (mirror_of q p) ≡ kernel_answers cs q p
unfolding kernel_answers mirror_answers
answers-step [] q p v = refl
answers-step (posting id opcode len lkeys count ∷ cs) q p (k, v) =
    let same = post-mirror_of q p id opcode len lkeys count k in
    elim (Option-cases (post q p id opcode len lkeys count)) [
      | inl e ↦
          rw (mirror_answers, kernel_answers, same, e)
            (ap (λ (l : List Answer). refused ∷ l) (answers-step cs q p v))
      | inr (q', e) ↦
          rw (mirror_answers, kernel_answers, same, e)
            (ap (λ (l : List Answer). accepted ∷ l) (answers-step cs q' (inc32 p) v))
    ]
answers-step (completing counter ∷ cs) q p (k, v) =
    let same = complete-mirror_of q p counter in
    elim (Option-cases (complete q counter)) [
      | inl e ↦
          rw (mirror_answers, kernel_answers, same, e)
            (ap (λ (l : List Answer). unknown ∷ l) (answers-step cs q p v))
      | inr ((w, q'), e) ↦
          rw (mirror_answers, kernel_answers, same, e)
            (ap (λ (l : List Answer). finished (shown w) ∷ l) (answers-step cs q' p v))
    ]

-- From the reset on, the userspace mirror and the kernel's queue give the same answers to any calls
-- whose posts name one to three nonzero keys: they accept and refuse the same posts, and complete the
-- same counters with the same record.
pub mirror_answers-kernel_answers :
    (cs : List Call)
    → All CallIsKeyed cs
    → mirror_answers cs User.reset ≡ kernel_answers cs new_queue 0
mirror_answers-kernel_answers cs v =
    ap (mirror_answers cs) reset-mirror_of ∙ answers-step cs new_queue 0 v
  where
    reset-mirror_of : User.reset ≡ mirror_of new_queue 0
    reset-mirror_of = unfold User.reset in unfold new_queue in refl
