-- ===== src/UserQueue/Contents.antt =====
-- The mirror queue as a finite map from 16-bit counters to outstanding records.
use mcdma.Prelude.{
  ℕ, ◌+◌, ◌-◌, ◌%◌, ◌^◌, ◌<◌, ◌≡◌, ap, ◌≢◌, ◌⊎◌, Bool-cases, false, ◌&&◌, Option, none, some, arith,
  get_or, get_or-set_self, get_or-set_ne, if◌then◌else◌, ◌==◌, inl, inr, Option-cases,
}
use mcdma.UserQueue.{Record, Queue, empty, at, put_at, u16, fresh, posted, post, complete}
use mcdma.UserQueue.Inv.{IsValid, post_inv, complete_inv}
use native.Mathlib.Decide.{ℕ_discrete}

-- the outstanding record of counter `c`
unfoldable pub outstanding : Queue → ℕ → Option Record
outstanding q c = if (at q c).occupied && (at q c).counter == c then some (at q c) else none

at-put_same :
    (q : Queue) (x y : ℕ) (r : Record)
    → IsValid q
    → x % 32 ≡ y % 32
    → get_or (put_at q x r) (y % 32) empty ≡ r
at-put_same q x y r v e =
    rw (← e) (get_or-set_self q.records (x % 32) r empty (omega (arith, v.slots_32)))

at-put_other :
    (q : Queue) (x y : ℕ) (r : Record)
    → x % 32 ≢ y % 32
    → get_or (put_at q x r) (y % 32) empty ≡ at q y
at-put_other q x y r ne = get_or-set_ne q.records (x % 32) (y % 32) r empty ne

-- On a valid mirror a post adds its record under the low 16 bits of the producer, and what the other
-- 16-bit counters hold does not change.
pub post-outstanding :
    (q : Queue) (id opcode len : ℕ) (q' : Queue) (c : ℕ)
    → IsValid q
    → post q id opcode len ≡ some q'
    → c < 2 ^ 16
    → outstanding q' c
      ≡ (if c == u16 q.producer then some (fresh q id opcode len) else outstanding q c)
unfolding outstanding
post-outstanding q id opcode len q' c v e hc =
    let (room, free, shape) = post_inv q id opcode len q' e in
    rw shape (elim (ℕ_discrete (q.producer % 32) (c % 32)) [
      | yes p ↦
          rw (at-put_same q q.producer c (fresh q id opcode len) v p)
            (ground (arith, ap (λ k. get_or q.records k empty) p))
      | no p ↦ rw (at-put_other q q.producer c (fresh q id opcode len) p) (ground arith)
    ])

pub complete-none : (q : Queue) (c : ℕ) → complete q c ≡ none → outstanding q c ≡ none
unfolding complete outstanding
complete-none q c e = ground arith

pub none-complete : (q : Queue) (c : ℕ) → outstanding q c ≡ none → complete q c ≡ none
unfolding complete outstanding
none-complete q c e = ground arith

pub complete-some :
    (q : Queue) (c : ℕ) (r : Record) (q' : Queue)
    → complete q c ≡ some (r, q')
    → outstanding q c ≡ some r
unfolding outstanding
complete-some q c r q' e = let (o, same, out, shape) = complete_inv q c r q' e in ground arith

pub complete-after :
    (q : Queue) (c : ℕ) (r : Record) (q' : Queue) (d : ℕ)
    → IsValid q
    → complete q c ≡ some (r, q')
    → outstanding q' d ≡ (if d == c then none else outstanding q d)
unfolding outstanding
complete-after q c r q' d v e =
    let (o, same, out, shape) = complete_inv q c r q' e in
    rw shape (elim (ℕ_discrete (c % 32) (d % 32)) [
      | yes p ↦
          rw (at-put_same q c d empty v p) (ground (arith, ap (λ k. get_or q.records k empty) p))
      | no p ↦ rw (at-put_other q c d empty p) (ground arith)
    ])

-- On a valid mirror a completion of counter `c` succeeds exactly when `c` is outstanding, and hands out
-- that record; afterwards `c` is not outstanding and every other counter is as before.
pub complete-outstanding :
    (q : Queue) (c : ℕ)
    → IsValid q
    → ((complete q c ≡ none) × (outstanding q c ≡ none))
      ⊎ ((r : Record) × (q' : Queue) × (complete q c ≡ some (r, q'))
          × (outstanding q c ≡ some r)
          × ((d : ℕ) → outstanding q' d ≡ (if d == c then none else outstanding q d)))
complete-outstanding q c v = elim (Option-cases (complete q c)) [
  | inl e ↦ inl (e, complete-none q c e)
  | inr ((r, q'), e) ↦ inr (r, q', e, complete-some q c r q' e, λ d. complete-after q c r q' d v e)
]

slot_free :
    (q : Queue)
    → IsValid q
    → outstanding q (u16 (q.producer + 2 ^ 16 - 32)) ≡ none
    → (at q q.producer).occupied ≡ false
unfolding outstanding
slot_free q v h =
    let i = q.producer % 32 in
    let s = v.slot i (omega arith) in
    let same : u16 (q.producer + 2 ^ 16 - 32) % 32 ≡ i = omega arith in
    elim (Bool-cases (at q q.producer).occupied) [
      | inr free ↦ free
      | inl busy ↦
          let counter : (at q q.producer).counter ≡ u16 (q.producer + 2 ^ 16 - 32) =
            omega (arith, s.on_slot busy, s.word16 busy, s.newest busy, v.word) in
          ground (arith, ap (λ k. get_or q.records k empty) same)
    ]

-- On a valid mirror with fewer than 31 records outstanding, a nonempty request is recorded when the
-- request of 32 posts ago is not outstanding.
pub post_accepts :
    (q : Queue) (id opcode len : ℕ)
    → IsValid q
    → len ≢ 0
    → q.pending < 31
    → outstanding q (u16 (q.producer + 2 ^ 16 - 32)) ≡ none
    → (q' : Queue) × (post q id opcode len ≡ some q')
unfolding post
post_accepts q id opcode len v nonempty room done =
    (posted q id opcode len, ground (arith, slot_free q v done))
