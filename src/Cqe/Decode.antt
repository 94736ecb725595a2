-- ===== src/Cqe/Decode.antt =====
-- What `mcdma_user_decode` reports, and what it does to the mirror queues.
use mcdma.Prelude.{
  ℕ, ◌/◌, ◌%◌, ◌^◌, ◌≤◌, ◌≡◌, refl, ◌≢◌, ◌⊎◌, ◌∙◌, ◌&&◌, Option, none, some, List, ◌==◌,
  if◌then◌else◌, arith, ap, ==_iff, ==_refl, Option-cases, Bool-cases, inl, inr,
}
use mcdma.UserQueue.{Record, Queue, complete}
use mcdma.UserQueue.Inv.{IsValid}
use mcdma.UserQueue.Contents.{
  outstanding, complete-some, complete-after, complete-none, none-complete,
}
use native.Mathlib.Decide.{ℕ_discrete}
use mcdma.Cqe.{
  Completion, View, Queues, store, byte, be32, opcode_of, qpn_of, counter_of, is_send, report,
  decode, status_of,
}

-- the mirror queue that an entry is about
abbrev pub target : (ℕ → View) → List ℕ → Option ℕ
target lookup cqe =
    if is_send (opcode_of cqe) then (lookup (qpn_of cqe)).sends else (lookup (qpn_of cqe)).receives

-- The queue of an entry by its direction: opcodes 0 and 13 are about the sends of its queue pair, the others that are
-- handled about its receives.
abbrev pub IsDirected : (ℕ → View) → List ℕ → ℕ → Type 0
IsDirected lookup cqe p =
    (((byte cqe 63 / 16 ≡ 0) ⊎ (byte cqe 63 / 16 ≡ 13))
      × ((lookup (be32 cqe 56 % 2 ^ 24)).sends ≡ some p))
    ⊎ (((byte cqe 63 / 16 ≡ 1)
          ⊎ (byte cqe 63 / 16 ≡ 2)
          ⊎ (byte cqe 63 / 16 ≡ 3)
          ⊎ (byte cqe 63 / 16 ≡ 4)
          ⊎ (byte cqe 63 / 16 ≡ 14))
        × ((lookup (be32 cqe 56 % 2 ^ 24)).receives ≡ some p))

pub target-IsDirected :
    (lookup : ℕ → View) (cqe : List ℕ) (p : ℕ)
    → (opcode_of cqe ≤ 4) ⊎ ((opcode_of cqe ≡ 13) ⊎ (opcode_of cqe ≡ 14))
    → target lookup cqe ≡ some p
    → IsDirected lookup cqe p
target-IsDirected lookup cqe p known e = ground (arith, known, e)

-- What a decoded entry did.
pub record Decoded (lookup : ℕ → View) (cqe : List ℕ) (qs qs' : Queues) (out : Completion) (p : ℕ)
    (r : Record) (q' : Queue) : Type 0 where
  pub known : (opcode_of cqe ≤ 4) ⊎ ((opcode_of cqe ≡ 13) ⊎ (opcode_of cqe ≡ 14))
  pub pointer : target lookup cqe ≡ some p
  pub taken : complete (qs p) (counter_of cqe) ≡ some (r, q')
  pub reported : out ≡ report cqe (lookup (qpn_of cqe)) r
  pub stored : qs' ≡ store qs p q'

pub decode_inv :
    (lookup : ℕ → View) (cqe : List ℕ) (qs : Queues) (out : Completion) (qs' : Queues)
    → decode lookup cqe qs ≡ some (out, qs')
    → (p : ℕ) × (r : Record) × (q' : Queue) × Decoded lookup cqe qs qs' out p r q'
unfolding decode
decode_inv lookup cqe qs out qs' e = elim (Option-cases (target lookup cqe)) [
  | inl t ↦ absurd (ground (arith, t))
  | inr (p, t) ↦ elim (Option-cases (complete (qs p) (counter_of cqe))) [
    | inl c ↦ absurd (ground (arith, t, c))
    | inr ((r, q'), c) ↦ (
      p,
      r,
      q',
      record {
        known = ground (arith, t, c);
        pointer = t;
        taken = c;
        reported = ground (arith, t, c);
        stored = ground (arith, t, c);
      },
    )
  ]
]

report-id :
    (cqe : List ℕ) (view : View) (r : Record) (out : Completion)
    → out ≡ report cqe view r
    → out.id ≡ r.id
unfolding report
report-id cqe view r out e = ground arith

pub report-counter :
    (cqe : List ℕ) (view : View) (r : Record) (out : Completion)
    → out ≡ report cqe view r
    → out.counter ≡ counter_of cqe
unfolding report
report-counter cqe view r out e = ground arith

pub report-qpn :
    (cqe : List ℕ) (view : View) (r : Record) (out : Completion)
    → out ≡ report cqe view r
    → out.qpn ≡ qpn_of cqe
unfolding report
report-qpn cqe view r out e = ground arith

store-outstanding :
    (qs : Queues) (p : ℕ) (q' : Queue) (r : Record) (x d c : ℕ)
    → IsValid (qs p)
    → complete (qs p) c ≡ some (r, q')
    → outstanding (store qs p q' x) d ≡ (if x == p && d == c then none else outstanding (qs x) d)
store-outstanding qs p q' r x d c v e = elim (Bool-cases (x == p)) [
  | inl same ↦
      let here : qs x ≡ qs p = ap qs ((==_iff x p).0 same) in
      rw (same, here) (complete-after (qs p) c r q' d v e)
  | inr other ↦ rw other refl
]

-- With valid mirror queues, a decoded entry reports the id of a request that was outstanding under its counter on its QP's
-- queue, of sends for opcodes 0 and 13 and else of receives, and takes exactly that request: there only that counter
-- stops being outstanding, and no other queue changes.
pub decode_takes :
    (lookup : ℕ → View) (cqe : List ℕ) (qs : Queues) (out : Completion) (qs' : Queues)
    → ((x : ℕ) → IsValid (qs x))
    → decode lookup cqe qs ≡ some (out, qs')
    → (p : ℕ) × (r : Record) × (target lookup cqe ≡ some p)
      × IsDirected lookup cqe p
      × (outstanding (qs p) (counter_of cqe) ≡ some r)
      × (out.id ≡ r.id)
      × (out.counter ≡ counter_of cqe)
      × (out.qpn ≡ qpn_of cqe)
      × ((x d : ℕ)
          → outstanding (qs' x) d
            ≡ (if x == p && d == counter_of cqe then none else outstanding (qs x) d))
decode_takes lookup cqe qs out qs' v e =
    let (p, r, q', dec) = decode_inv lookup cqe qs out qs' e in
    (
      p,
      r,
      dec.pointer,
      target-IsDirected lookup cqe p dec.known dec.pointer,
      complete-some _ _ _ _ dec.taken,
      report-id cqe (lookup (qpn_of cqe)) r out dec.reported,
      report-counter cqe (lookup (qpn_of cqe)) r out dec.reported,
      report-qpn cqe (lookup (qpn_of cqe)) r out dec.reported,
      λ x d. rw (dec.stored) (store-outstanding qs p q' r x d (counter_of cqe) (v p) dec.taken),
    )

-- An entry of an opcode that the decoder handles (0 to 4, 13 or 14) is refused only where its QP has no
-- queue in that direction, or no request is outstanding there under its counter.
pub decode_refused :
    (lookup : ℕ → View) (cqe : List ℕ) (qs : Queues)
    → (opcode_of cqe ≤ 4) ⊎ (opcode_of cqe ≡ 13) ⊎ (opcode_of cqe ≡ 14)
    → decode lookup cqe qs ≡ none
    → (target lookup cqe ≡ none)
      ⊎ ((p : ℕ) × (target lookup cqe ≡ some p) × (outstanding (qs p) (counter_of cqe) ≡ none))
unfolding decode
decode_refused lookup cqe qs small e = elim (Option-cases (target lookup cqe)) [
  | inl t ↦ inl t
  | inr (p, t) ↦ elim (Option-cases (complete (qs p) (counter_of cqe))) [
    | inl c ↦ inr (p, t, complete-none _ _ c)
    | inr ((r, q'), c) ↦ absurd (ground (arith, t, c))
  ]
]

decode-none :
    (lookup : ℕ → View) (cqe : List ℕ) (qs : Queues) (p : ℕ)
    → target lookup cqe ≡ some p
    → complete (qs p) (counter_of cqe) ≡ none
    → decode lookup cqe qs ≡ none
unfolding decode
decode-none lookup cqe qs p t c = ground (arith, t, c)

-- With valid mirror queues, an entry that was decoded is refused when it comes again.
pub decode_once :
    (lookup : ℕ → View) (cqe : List ℕ) (qs : Queues) (out : Completion) (qs' : Queues)
    → ((x : ℕ) → IsValid (qs x))
    → decode lookup cqe qs ≡ some (out, qs')
    → decode lookup cqe qs' ≡ none
decode_once lookup cqe qs out qs' v e =
    let (p, r, t, d, o, id, ctr, qp, after) = decode_takes lookup cqe qs out qs' v e in
    let gone : outstanding (qs' p) (counter_of cqe) ≡ none =
      after p (counter_of cqe) ∙ rw (==_refl p, ==_refl (counter_of cqe)) in
    decode-none lookup cqe qs' p t (none-complete _ _ gone)

status_of-ne-zero : (s : ℕ) → status_of s ≢ 0
unfolding status_of
status_of-ne-zero s = ground arith

report-success :
    (cqe : List ℕ) (view : View) (r : Record) (out : Completion)
    → (opcode_of cqe ≤ 4) ⊎ ((opcode_of cqe ≡ 13) ⊎ (opcode_of cqe ≡ 14))
    → out ≡ report cqe view r
    → out.status ≡ 0
    → opcode_of cqe ≤ 3
unfolding report
report-success cqe view r out known e z = ground (arith, status_of-ne-zero (byte cqe 55))

report-within :
    (cqe : List ℕ) (view : View) (r : Record) (out : Completion)
    → out ≡ report cqe view r
    → out.status ≡ 0
    → (out.bytes ≤ r.len) ⊎ (opcode_of cqe ≡ 1)
unfolding report
report-within cqe view r out e z = elim (ℕ_discrete (opcode_of cqe) 1) [
  | yes written ↦ inr written
  | no other ↦ inl (ground (arith, other))
]

-- An entry that is reported as a success is no error entry (opcode 13 or 14) and no receive of an
-- unhandled format, and it completes an outstanding request; it reports at most that request's length,
-- unless it is a receive of the peer's RDMA WRITE with immediate, which fills no posted buffer.
pub decode_status :
    (lookup : ℕ → View) (cqe : List ℕ) (qs : Queues) (out : Completion) (qs' : Queues)
    → decode lookup cqe qs ≡ some (out, qs')
    → out.status ≡ 0
    → (opcode_of cqe ≤ 3)
      × (p : ℕ) × (r : Record) × (target lookup cqe ≡ some p)
      × (outstanding (qs p) (counter_of cqe) ≡ some r)
      × ((out.bytes ≤ r.len) ⊎ (opcode_of cqe ≡ 1))
decode_status lookup cqe qs out qs' e z =
    let (p, r, q', dec) = decode_inv lookup cqe qs out qs' e in
    (
      report-success cqe _ r out dec.known dec.reported z,
      p,
      r,
      dec.pointer,
      complete-some _ _ _ _ dec.taken,
      report-within cqe _ r out dec.reported z,
    )
