-- ===== src/UserQueue/Rollback.antt =====
-- `mcdma_user_queue_rollback` against the posts that it takes back.
use mcdma.Prelude.{
  ℕ, zero, suc, ◌+◌, ◌-◌, ◌%◌, ◌^◌, ◌<◌, ◌≡◌, refl, sym, ap, ◌∙◌, Option, none, some, List, [], ◌∷◌,
  arith, length, set-set, set-get_or, get_or-set_self, inl, inr, Option-cases,
}
use mcdma.UserQueue.{Queue, empty, inc32, dec32, fresh, post, unpost, rollback}
use mcdma.UserQueue.Inv.{IsValid, post_inv, post-IsValid}

-- a request as `post` takes it
pub record Request : Type 0 where
  pub id : ℕ
  pub opcode : ℕ
  pub len : ℕ

-- Requests posted in order; `none` when one of them is refused.
unfoldable pub post_all : Queue → List Request → Option Queue
post_all q [] = some q
post_all q (r ∷ rs) = elim (post q r.id r.opcode r.len) [ none ↦ none | some q' ↦ post_all q' rs ]

unpost-post :
    (q : Queue) (id opcode len : ℕ) (q' : Queue)
    → IsValid q
    → q.producer + 1 < 2 ^ 32
    → post q id opcode len ≡ some q'
    → unpost q' ≡ some q
unfolding unpost
unpost-post q id opcode len q' v h e =
    let (room, free, shape) = post_inv q id opcode len q' e in
    let back : dec32 (inc32 q.producer) ≡ q.producer = omega arith in
    let i = q.producer % 32 in
    let here =
      get_or-set_self q.records i (fresh q id opcode len) empty (omega (arith, v.slots_32)) in
    let restored = set-set q.records i (fresh q id opcode len) empty in
    let was =
      set-get_or q.records i empty empty ((v.slot i (omega arith)).zeroed free)
        (omega (arith, v.slots_32)) in
    rw (shape, back, here) (ground (arith, back, here, restored, was, v.bounded))

rollback_stuck : (q : Queue) (n : ℕ) → unpost q ≡ none → rollback q n ≡ q
unfolding rollback
rollback_stuck q zero e = refl
rollback_stuck q (suc n) e = rw (e, rollback)

rollback_add : (q : Queue) (n m : ℕ) → rollback q (n + m) ≡ rollback (rollback q n) m
unfolding rollback
rollback_add q zero m = ap (rollback q) (omega arith)
rollback_add q (suc n) m =
    let e : suc n + m ≡ suc (n + m) = omega arith in
    rw e (elim (Option-cases (unpost q)) [
      | inl stop ↦ rw (stop, rollback) (sym (rollback_stuck q m stop))
      | inr (q', go) ↦ rw (go, rollback) (rollback_add q' n m)
    ])

rollback_one : (q q' : Queue) → unpost q ≡ some q' → rollback q 1 ≡ q'
unfolding rollback
rollback_one q q' e = rw (e, rollback)

rollback_zero : (q q' : Queue) → some q ≡ some q' → rollback q' 0 ≡ q
unfolding rollback
rollback_zero q q' e = cc

none-ne-some : {q : Queue} → none ≡ some q → ⊥
none-ne-some e = cc

succ_add : (n : ℕ) → suc n ≡ n + 1
succ_add n = omega arith

posted_producer :
    (q : Queue) (id opcode len : ℕ) (q' : Queue)
    → post q id opcode len ≡ some q'
    → q.producer + 1 < 2 ^ 32
    → q'.producer ≡ q.producer + 1
posted_producer q id opcode len q' e h =
    let (room, free, shape) = post_inv q id opcode len q' e in ground arith

-- Rolling back as many requests as were posted restores the queue exactly, as long as the 32-bit
-- producer did not wrap.
pub rollback-post_all :
    (q : Queue) (rs : List Request) (q' : Queue)
    → IsValid q
    → q.producer + length rs < 2 ^ 32
    → post_all q rs ≡ some q'
    → rollback q' (length rs) ≡ q
unfolding post_all
rollback-post_all q [] q' v h e = rollback_zero q q' e
rollback-post_all q (r ∷ rs) q' v h e = elim (Option-cases (post q r.id r.opcode r.len)) [
  | inl refused ↦ absurd (none-ne-some (rw (refused, post_all) at e))
  | inr (q1, first) ↦
      let v1 = post-IsValid q r.id r.opcode r.len q1 v first in
      let n1 : q1.producer ≡ q.producer + 1 =
        posted_producer q r.id r.opcode r.len q1 first (omega arith) in
      let ih = rollback-post_all q1 rs q' v1 (omega arith) (rw (first, post_all) at e) in
      let last = unpost-post q r.id r.opcode r.len q1 v (omega arith) first in
      ap (rollback q') (succ_add (length rs))
      ∙ rollback_add q' (length rs) 1
      ∙ ap (λ (p : Queue). rollback p 1) ih
      ∙ rollback_one q1 q last
]

-- At the wrap it takes nothing back: after the post that brings the producer from 2^32 - 1 to 0 the
-- refused record stays outstanding, whatever the count.
pub rollback_wrapped :
    (q : Queue) (id opcode len n : ℕ) (q' : Queue)
    → q.producer ≡ 2 ^ 32 - 1
    → post q id opcode len ≡ some q'
    → rollback q' n ≡ q'
unfolding unpost
rollback_wrapped q id opcode len n q' w e =
    let (room, free, shape) = post_inv q id opcode len q' e in rollback_stuck q' n (ground arith)
