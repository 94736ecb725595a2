-- ===== src/Core/Entries/Agree.antt =====
-- The kernel's encoder and decoder beside those of userspace.
use mcdma.Prelude.{
  ℕ, ◌+◌, ◌*◌, ◌/◌, ◌%◌, ◌^◌, ◌≤◌, ◌<◌, ◌≡◌, ◌≢◌, ◌⊎◌, inl, inr, refl, sym, ap, ◌∙◌, arith, Bool,
  false, ◌||◌, some, List, [], ◌∷◌, ltb, ◌==◌, ◌!=◌, if◌then◌else◌, get_or, take, drop,
}
use mcdma.Prelude.Arrays.{get_or-drop}
use mcdma.UserPost.{Request, Sge}
use mcdma.UserPost as User
use mcdma.Core.Command.{read_be32}
use mcdma.UserQueue.{Record}
use mcdma.Cqe.{
  View, Queues, Completion, decode, report, be32, le_at, status_of, opcode_of, qpn_of, counter_of,
  byte,
}
use mcdma.UserQueue.Contents.{outstanding, complete-some}
use mathlib.Core.Path.{subst}
use mcdma.Cqe.Decode.{IsDirected, target-IsDirected, decode_inv, report-qpn, report-counter}
use native.Mathlib.Decide.{dec_lt}
use mcdma.Core.Entries.{
  encode_send_request, CqResult, empty, success, error, unsupported, Seen, nothing_seen, decode_cqe,
}
use mcdma.Core.Entries.Encoders.{request_bytes-user, units-units_of, written-entry_of}

-- With room for 64 bytes, the kernel's encoder accepts the requests that the userspace encoder
-- accepts, and makes the same entry of them.
pub encode_send_request-encode_send :
    (capacity qpn producer : ℕ) (r : Request)
    → 64 ≤ capacity
    → encode_send_request capacity qpn producer r ≡ User.encode_send qpn producer r
unfolding encode_send_request User.encode_send
encode_send_request-encode_send capacity qpn producer r room =
    let big : ltb capacity 64 ≡ false = ground (arith, room) in
    rw (big, request_bytes-user r, units-units_of r, written-entry_of qpn producer r) refl

read_at : (p : List ℕ) (o : ℕ) → read_be32 (drop o p) ≡ be32 p o
read_at p o =
    let first : get_or p o 0 ≡ get_or (drop o p) 0 0 =
      ap (λ j. get_or p j 0) (omega arith) ∙ get_or-drop o 0 p 0 in
    rw (first, get_or-drop o 1 p 0, get_or-drop o 2 p 0, get_or-drop o 3 p 0) refl

-- The chain of tests of `decode_cqe` on the opcode `o`, where `b` says that the entry is not its own.
abbrev verdict : ℕ → ℕ → Bool → Seen → ℕ → ℕ → CqResult × Seen
verdict k o b out syn ven =
    if ltb 23 k
    then (unsupported, nothing_seen)
    else if o == 15 || b
    then (empty, nothing_seen)
    else if o == 13 || o == 14
    then (error, record out { syndrome = syn; vendor_syndrome = ven })
    else if o == 0 || o == 1 || o == 2 || o == 3 || o == 4
    then (success, out)
    else (unsupported, out)

not_empty :
    (k o : ℕ) (b : Bool) (out : Seen) (syn ven : ℕ) (result : CqResult) (seen : Seen)
    → verdict k o b out syn ven ≡ (result, seen)
    → k ≤ 23
    → result ≢ empty
    → (o == 15 || b) ≡ false
not_empty k o b out syn ven result seen e few ours = ground (arith, e)

verdict_failed :
    (k o : ℕ) (b : Bool) (out : Seen) (syn ven : ℕ)
    → k ≤ 23
    → (o == 15 || b) ≡ false
    → (o ≡ 13) ⊎ (o ≡ 14)
    → verdict k o b out syn ven ≡ (error, record out { syndrome = syn; vendor_syndrome = ven })
verdict_failed k o b out syn ven few mine which = ground arith

verdict_done :
    (k o : ℕ) (b : Bool) (out : Seen) (syn ven : ℕ)
    → k ≤ 23
    → (o == 15 || b) ≡ false
    → o ≤ 4
    → verdict k o b out syn ven ≡ (success, out)
verdict_done k o b out syn ven few mine which = ground arith

-- How userspace's completion `out` of the request `r` answers to what the kernel saw, by the entry's opcode: an error
-- (13, 14), a send (0), a receive without immediate (2) or with it (1, 3), a receive too long for its buffer, and a
-- receive of a format that userspace does not handle (4).
pub data Agreed (r : Record) (out : Completion) (seen : Seen) (result : CqResult) : Type 0 where
  failed :
      (seen.opcode ≡ 13) ⊎ (seen.opcode ≡ 14)
      → result ≡ error
      → out.status ≡ status_of seen.syndrome
      → out.vendor ≡ seen.vendor_syndrome * 2 ^ 8 + seen.syndrome
      → Agreed r out seen result
  sent : seen.opcode ≡ 0 → result ≡ success → out.status ≡ 0 → Agreed r out seen result
  plain :
      seen.opcode ≡ 2
      → result ≡ success
      → out.status ≡ 0
      → out.bytes ≡ seen.bytes
      → out.flags ≡ 0
      → seen.bytes ≤ r.len
      → Agreed r out seen result
  with_immediate :
      (seen.opcode ≡ 1) ⊎ ((seen.opcode ≡ 3) × (seen.bytes ≤ r.len))
      → result ≡ success
      → out.status ≡ 0
      → out.bytes ≡ seen.bytes
      → out.flags ≡ 2
      → out.immediate ≡ le_at seen.immediate 0
      → Agreed r out seen result
  too_long :
      (seen.opcode ≡ 2) ⊎ (seen.opcode ≡ 3)
      → result ≡ success
      → out.status ≡ 1
      → r.len < seen.bytes
      → Agreed r out seen result
  unhandled : seen.opcode ≡ 4 → result ≡ success → out.status ≡ 21 → Agreed r out seen result

first_four : (xs : List ℕ) → le_at (take 4 xs) 0 ≡ le_at xs 0
first_four [] = refl
first_four (a ∷ []) = refl
first_four (a ∷ b ∷ []) = refl
first_four (a ∷ b ∷ c ∷ []) = refl
first_four (a ∷ b ∷ c ∷ d ∷ xs) = refl

immediate_at : (cqe : List ℕ) → le_at cqe 40 ≡ le_at (take 4 (drop 40 cqe)) 0
immediate_at cqe =
    let first : get_or cqe 40 0 ≡ get_or (drop 40 cqe) 0 0 = get_or-drop 40 0 cqe 0 in
    rw (first, get_or-drop 40 1 cqe 0, get_or-drop 40 2 cqe 0, get_or-drop 40 3 cqe 0)
      (sym (first_four (drop 40 cqe)))

-- The fields of the report of a receive, by its opcode.
abbrev Plain : List ℕ → Record → Completion → Type 0
Plain cqe r out = (out.status ≡ 0) × (out.bytes ≡ be32 cqe 44) × (out.flags ≡ 0)

abbrev WithImmediate : List ℕ → Completion → Type 0
WithImmediate cqe out =
    (out.status ≡ 0) × (out.bytes ≡ be32 cqe 44) × (out.flags ≡ 2) × (out.immediate ≡ le_at cqe 40)

module _ (cqe : List ℕ) (view : View) (r : Record) where
  report-failed :
      (opcode_of cqe ≡ 13) ⊎ (opcode_of cqe ≡ 14)
      → ((report cqe view r).status ≡ status_of (byte cqe 55))
        × ((report cqe view r).vendor ≡ byte cqe 54 * 2 ^ 8 + byte cqe 55)
  unfolding report
  report-failed which = ground arith

  report-sent : opcode_of cqe ≡ 0 → (report cqe view r).status ≡ 0
  unfolding report
  report-sent e = ground arith

  report-Plain : opcode_of cqe ≡ 2 → be32 cqe 44 ≤ r.len → Plain cqe r (report cqe view r)
  unfolding report
  report-Plain e fits = ground arith

  report-WithImmediate :
      (opcode_of cqe ≡ 1) ⊎ ((opcode_of cqe ≡ 3) × (be32 cqe 44 ≤ r.len))
      → WithImmediate cqe (report cqe view r)
  unfolding report
  report-WithImmediate which = ground arith

  report-too_long :
      (opcode_of cqe ≡ 2) ⊎ (opcode_of cqe ≡ 3)
      → r.len < be32 cqe 44
      → (report cqe view r).status ≡ 1
  unfolding report
  report-too_long which long = ground arith

  report-unhandled : opcode_of cqe ≡ 4 → (report cqe view r).status ≡ 21
  unfolding report
  report-unhandled e = ground arith

-- what `decode_cqe` reads of an entry that is no error
abbrev entry_of : List ℕ → Seen
entry_of cqe = record {
  qpn = read_be32 (drop 56 cqe) % 2 ^ 24;
  bytes = read_be32 (drop 44 cqe);
  wqe_counter = counter_of cqe;
  opcode = opcode_of cqe;
  syndrome = 0;
  vendor_syndrome = 0;
  immediate = take 4 (drop 40 cqe);
}

agreed_done :
    (cqe : List ℕ) (view : View) (r : Record)
    → opcode_of cqe ≤ 4
    → Agreed r (report cqe view r) (entry_of cqe) success
agreed_done cqe view r small =
    let bytes : be32 cqe 44 ≡ read_be32 (drop 44 cqe) = sym (read_at cqe 44) in
    elim (opcodes (opcode_of cqe) small) [
      | inl zeroth ↦ sent zeroth refl (report-sent cqe view r zeroth)
      | inr (inl first) ↦
          let (s, b, f, m) = report-WithImmediate cqe view r (inl first) in
          with_immediate (inl first) refl s (b ∙ bytes) f (m ∙ immediate_at cqe)
      | inr (inr (inl second)) ↦ elim (dec_lt r.len (be32 cqe 44)) [
        | yes long ↦
            too_long (inl second) refl (report-too_long cqe view r (inl second) long)
              (rw (sym bytes) long)
        | no fits ↦
            let (s, b, f) = report-Plain cqe view r second (omega (arith, fits)) in
            plain second refl s (b ∙ bytes) f (rw (sym bytes) (omega (arith, fits)))
      ]
      | inr (inr (inr (inl third))) ↦ elim (dec_lt r.len (be32 cqe 44)) [
        | yes long ↦
            too_long (inr third) refl (report-too_long cqe view r (inr third) long)
              (rw (sym bytes) long)
        | no fits ↦
            let (s, b, f, m) = report-WithImmediate cqe view r (inr (third, omega (arith, fits))) in
            with_immediate (inr (third, rw (sym bytes) (omega (arith, fits)))) refl s (b ∙ bytes) f
              (m ∙ immediate_at cqe)
      ]
      | inr (inr (inr (inr fourth))) ↦ unhandled fourth refl (report-unhandled cqe view r fourth)
    ]
  where
    opcodes : (o : ℕ) → o ≤ 4 → (o ≡ 0) ⊎ (o ≡ 1) ⊎ (o ≡ 2) ⊎ (o ≡ 3) ⊎ (o ≡ 4)
    opcodes o h = ground arith

-- What the two decoders make of one entry: the queue pair, counter, opcode and byte count that the kernel reads are
-- those of the entry, userspace reports the same queue pair and counter, and the rest agrees by the opcode.
pub record DecodersAgree (cqe : List ℕ) (r : Record) (out : Completion) (seen : Seen)
    (result : CqResult) : Type 0 where
  pub qpn : out.qpn ≡ seen.qpn
  pub counter : out.counter ≡ seen.wqe_counter
  pub opcode : seen.opcode ≡ byte cqe 63 / 16
  pub bytes : seen.bytes ≡ be32 cqe 44
  pub agreed : Agreed r out seen result

both_read :
    (cqe : List ℕ) (view : View) (r : Record)
    → (opcode_of cqe ≤ 4) ⊎ ((opcode_of cqe ≡ 13) ⊎ (opcode_of cqe ≡ 14))
    → (log_entries : ℕ) (b : Bool) → log_entries ≤ 23
    → (opcode_of cqe == 15 || b) ≡ false
    → let w = verdict log_entries (opcode_of cqe) b (entry_of cqe) (byte cqe 55) (byte cqe 54) in
      DecodersAgree cqe r (report cqe view r) (w.1) (w.0)
both_read cqe view r known log_entries b few mine = elim known [
  | inl small ↦
      rw
        (verdict_done log_entries (opcode_of cqe) b (entry_of cqe) (byte cqe 55) (byte cqe 54) few
          mine small)
        (record {
          qpn = qpn;
          counter = counter;
          opcode = refl;
          bytes = read_at cqe 44;
          agreed = agreed_done cqe view r small;
        })
  | inr bad ↦
      let (status, vendor) = report-failed cqe view r bad in
      rw
        (verdict_failed log_entries (opcode_of cqe) b (entry_of cqe) (byte cqe 55) (byte cqe 54) few
          mine bad)
        (record {
          qpn = qpn;
          counter = counter;
          opcode = refl;
          bytes = read_at cqe 44;
          agreed = failed bad refl status vendor;
        })
]
  where
    qpn : (report cqe view r).qpn ≡ read_be32 (drop 56 cqe) % 2 ^ 24
    qpn = report-qpn cqe view r _ refl ∙ ap (λ x. x % 2 ^ 24) (sym (read_at cqe 56))

    counter : (report cqe view r).counter ≡ counter_of cqe
    counter = report-counter cqe view r _ refl

-- Of an entry that `mcdma_user_decode` takes and `decode_cqe` does not find empty, at most 2 ^ 23
-- entries in the queue, both give the same queue pair and counter, `decode_cqe` gives the entry's opcode and
-- byte count, and by that opcode: of an error entry (13, 14) `decode_cqe` answers `error` with syndromes whose
-- status and vendor code userspace reports, of any other `success`; userspace reports a send (0) as done, a receive
-- (1 to 3) with `decode_cqe`'s byte count and for 1 and 3 its immediate, or, for 2 and 3 alone, status 1 where those
-- bytes are more than the outstanding request has, and status 21 for opcode 4.
pub decode_cqe-decode :
    (lookup : ℕ → View) (cqe : List ℕ) (qs qs' : Queues) (out : Completion)
    (consumer log_entries : ℕ) (seen : Seen) (result : CqResult)
    → decode lookup cqe qs ≡ some (out, qs')
    → decode_cqe cqe consumer log_entries ≡ (result, seen)
    → log_entries ≤ 23
    → result ≢ empty
    → (p : ℕ) × (r : Record) × IsDirected lookup cqe p
      × (outstanding (qs p) seen.wqe_counter ≡ some r)
      × DecodersAgree cqe r out seen result
unfolding decode_cqe
decode_cqe-decode lookup cqe qs qs' out consumer log_entries seen result taken read few ours =
    let (p, r, q', dec) = decode_inv lookup cqe qs out qs' taken in
    let b = byte cqe 63 % 2 != consumer / 2 ^ log_entries % 2 in
    let mine =
      not_empty log_entries (opcode_of cqe) b (entry_of cqe) (byte cqe 55) (byte cqe 54) result seen
        read few ours in
    let same = both_read cqe (lookup (qpn_of cqe)) r dec.known log_entries b few mine in
    let found = complete-some _ _ _ _ dec.taken in
    let agree : DecodersAgree cqe r out seen result =
      subst (λ c. DecodersAgree cqe r c seen result) (sym dec.reported)
        (subst (λ w. DecodersAgree cqe r (report cqe (lookup (qpn_of cqe)) r) (w.1) (w.0)) read
          same) in
    let seen_same : counter_of cqe ≡ seen.wqe_counter =
      sym (report-counter cqe (lookup (qpn_of cqe)) r out dec.reported) ∙ agree.counter in
    (
      p,
      r,
      target-IsDirected lookup cqe p dec.known dec.pointer,
      sym (ap (outstanding (qs p)) seen_same) ∙ found,
      agree,
    )
