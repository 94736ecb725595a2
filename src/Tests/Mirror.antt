-- ===== src/Tests/Mirror.antt =====
-- The mirror queue and the completion decoder of include/cx5_user_completion.h at concrete inputs.
use mcdma.Prelude.{
  ℕ, ◌+◌, ◌-◌, ◌^◌, ◌≤◌, ◌≡◌, refl, ◌&&◌, none, some, List, [], ◌∷◌, ◌++◌, arith, ◌==◌, Bool-cases,
  if◌then◌else◌, replicate, inl, inr, ◌⊎◌,
}
use mcdma.UserQueue.{Record, Queue, empty, reset, post, posted, fresh, rollback, complete, u16}
use mcdma.UserQueue.Inv.{IsValid, Reachable, by_post, by_rollback, start, after, Reachable-IsValid}
use mcdma.UserQueue.Contents.{outstanding, complete-outstanding}
use mcdma.UserQueue.Rollback.{Request, post_all, rollback-post_all, rollback_wrapped}
use mcdma.Cqe.{View, Queues, Completion, decode, report, status_of, opcode_of, counter_of, qpn_of}
use mcdma.Cqe.Decode.{target, IsDirected, decode_takes, decode_once}

abbrev one : Queue
one = posted reset 7 8 64

abbrev two : Queue
two = posted one 9 16 4096

post-one : post reset 7 8 64 ≡ some one
unfolding post reset
post-one = refl

post-two : post one 9 16 4096 ≡ some two
unfolding post reset
post-two = refl

one-Reachable : Reachable one
one-Reachable = after start (by_post 7 8 64 post-one)

two-Reachable : Reachable two
two-Reachable = after one-Reachable (by_post 9 16 4096 post-two)

one-IsValid : IsValid one
one-IsValid = Reachable-IsValid one one-Reachable

two-IsValid : IsValid two
two-IsValid = Reachable-IsValid two two-Reachable

Reachable-IsValid_example : IsValid (rollback two 1)
Reachable-IsValid_example = Reachable-IsValid (rollback two 1) (after two-Reachable (by_rollback 1))

reset-IsValid : IsValid reset
reset-IsValid = Reachable-IsValid reset start

complete-outstanding_example :
    ((complete two 0 ≡ none) × (outstanding two 0 ≡ none))
    ⊎ ((r : Record) × (q' : Queue) × (complete two 0 ≡ some (r, q'))
        × (outstanding two 0 ≡ some r)
        × ((d : ℕ) → outstanding q' d ≡ (if d == 0 then none else outstanding two d)))
complete-outstanding_example = complete-outstanding two 0 two-IsValid

none_at_65504 : outstanding reset (u16 (reset.producer + 2 ^ 16 - 32)) ≡ none
unfolding outstanding reset
none_at_65504 = refl

abbrev requests : List Request
requests = record { id = 7; opcode = 8; len = 64 } ∷ record { id = 9; opcode = 16; len = 4096 } ∷ []

posted_requests : post_all reset requests ≡ some two
unfolding post_all post reset
posted_requests = refl

rollback-post_all_example : rollback two 2 ≡ reset
unfolding reset
rollback-post_all_example =
    rollback-post_all reset requests two reset-IsValid (omega arith) posted_requests

abbrev worn : Queue
worn = record { records = replicate 32 empty; producer = 2 ^ 32 - 1; pending = 0 }

post-worn : post worn 7 8 64 ≡ some (posted worn 7 8 64)
unfolding post
post-worn = refl

rollback_wrapped_example : rollback (posted worn 7 8 64) 1 ≡ posted worn 7 8 64
rollback_wrapped_example = rollback_wrapped worn 7 8 64 1 (posted worn 7 8 64) refl post-worn

abbrev bytes_at_end : List ℕ → List ℕ
bytes_at_end tail = replicate 44 0 ++ tail

-- a receive entry for QP 5 and counter 0, of 48 bytes
abbrev pub received : List ℕ
received =
    bytes_at_end
      (0 ∷ 0 ∷ 0 ∷ 48 ∷ 0 ∷ 0 ∷ 0 ∷ 0 ∷ 0 ∷ 0 ∷ 0 ∷ 0 ∷ 0 ∷ 0 ∷ 0 ∷ 5 ∷ 0 ∷ 0 ∷ 0 ∷ 0x20 ∷ [])

abbrev pub lookup : ℕ → View
lookup qpn = record { sends = some 1; receives = some 2; user_posted = 0 }

abbrev pub mirrors : Queues
mirrors p = if p == 2 then two else one

mirrors-IsValid : (x : ℕ) → IsValid (mirrors x)
mirrors-IsValid x = elim (Bool-cases (x == 2)) [
  | inl e ↦ rw e two-IsValid
  | inr e ↦ rw e one-IsValid
]

abbrev pub completion : Completion
completion = record {
  id = 7;
  status = 0;
  opcode = 128;
  vendor = 0;
  bytes = 48;
  qpn = 5;
  counter = 0;
  user = 0;
  flags = 0;
  immediate = 0;
}

abbrev taken : Queue
taken = record {
  records = empty ∷ fresh one 9 16 4096 ∷ replicate 30 empty;
  producer = 2;
  pending = 1;
}

abbrev pub mirrors_after : Queues
mirrors_after x = if x == 2 then taken else mirrors x

pub decode-received : decode lookup received mirrors ≡ some (completion, mirrors_after)
unfolding decode report status_of complete reset
decode-received = refl

decode_once_example : decode lookup received mirrors_after ≡ none
decode_once_example =
    decode_once lookup received mirrors completion mirrors_after mirrors-IsValid decode-received

decode_takes_example :
    (p : ℕ) × (r : Record) × (target lookup received ≡ some p)
    × IsDirected lookup received p
    × (outstanding (mirrors p) (counter_of received) ≡ some r)
    × (completion.id ≡ r.id)
    × (completion.counter ≡ counter_of received)
    × (completion.qpn ≡ qpn_of received)
    × ((x d : ℕ)
        → outstanding (mirrors_after x) d
          ≡ (if x == p && d == counter_of received then none else outstanding (mirrors x) d))
decode_takes_example =
    decode_takes lookup received mirrors completion mirrors_after mirrors-IsValid decode-received

handled : (opcode_of received ≤ 4) ⊎ (opcode_of received ≡ 13) ⊎ (opcode_of received ≡ 14)
handled = inl (omega arith)
