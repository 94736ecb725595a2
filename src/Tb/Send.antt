-- ===== src/Tb/Send.antt =====
-- What a write hands the provider: the sender's side of `tb_write_try`.
use mcdma.Prelude.{
  ℕ, zero, suc, ◌+◌, ◌-◌, ◌%◌, ◌≡◌, refl, sym, ap, ◌∙◌, ◌≢◌, inl, inr, Bool, true, false, not, ◌||◌,
  List, [], ◌∷◌, ◌++◌, leb, ◌==◌, if◌then◌else◌, length, arith, Bool-cases, append_assoc,
  append-nil, min,
}
use native.Mathlib.Decide.{ℕ_discrete}
use mathlib.Core.Path.{subst}
use mcdma.Tb.{
  Link, Provider, Source, u32, u64, read, c_write, c_inline, inline_max, post_send, send_head,
  headed, msg_max, chunk, send_chunk, write_loop,
}
use mcdma.Tb.Receive.Chunk.{chunk_messages}

-- What a successful post does to what the wire saw, the rest of the state aside.
pub record Handed (t t' : Link) (ms : List (List ℕ)) : Type 0 where
  pub wire : t'.wire ≡ t.wire ++ ms
  pub depth : t'.depth ≡ t.depth
  pub peer : t'.peer_slots ≡ t.peer_slots

pub post_send-Handed :
    (accepts : Provider) (m : List ℕ) (staged payload : ℕ) (t t' : Link)
    → post_send accepts m staged payload t ≡ (true, t')
    → Handed t t' (m ∷ []) × (t'.tx_seq ≡ t.tx_seq)
unfolding post_send
post_send-Handed accepts m staged payload t t' e =
    elim (Bool-cases (length m == 0 || not (accepts t.tx_posted))) [
      | inl bad ↦ absurd (ground (arith, bad))
      | inr good ↦
          let shape = ap (λ (p : Bool × Link). p.1) (rw good at e) in
          (
            record {
              wire = sym (ap (λ (u : Link). u.wire) shape);
              depth = sym (ap (λ (u : Link). u.depth) shape);
              peer = sym (ap (λ (u : Link). u.peer_slots) shape);
            },
            sym (ap (λ (u : Link). u.tx_seq) shape),
          )
    ]

send_head-Handed :
    (accepts : Provider) (kind off len value : ℕ) (bytes : List ℕ) (t t' : Link)
    → send_head accepts kind off len value bytes t ≡ (true, t')
    → Handed t t' (headed t kind off len value bytes ∷ []) × (t'.tx_seq ≡ u32 (t.tx_seq + 1))
unfolding send_head
send_head-Handed accepts kind off len value bytes t t' e =
    let m = headed t kind off len value bytes in
    let payload = if kind == c_inline then len else 0 in
    let post = post_send accepts m 1 payload t in
    elim (Bool-cases post.0) [
      | inr bad ↦ absurd (true-ne-false (sym (ap (λ (p : Bool × Link). p.0) (rw bad at e))))
      | inl ok ↦
          let (hd, seq) = post_send-Handed accepts m 1 payload t post.1 (pair_eq post ok) in
          let shape = ap (λ (p : Bool × Link). p.1) (rw ok at e) in
          (
            record {
              wire = sym (ap (λ (u : Link). u.wire) shape) ∙ hd.wire;
              depth = sym (ap (λ (u : Link). u.depth) shape) ∙ hd.depth;
              peer = sym (ap (λ (u : Link). u.peer_slots) shape) ∙ hd.peer;
            },
            sym (ap (λ (u : Link). u.tx_seq) shape) ∙ ap (λ (k : ℕ). u32 (k + 1)) seq,
          )
    ]
  where
    true-ne-false : true ≡ false → ⊥
    true-ne-false p = cc

    pair_eq : (p : Bool × Link) → p.0 ≡ true → p ≡ (true, p.1)
    pair_eq p q = λ i. (q i, p.1)

counted_ok :
    (p : Bool × Link) (t' : Link)
    → ◌≡◌ {A = Bool × Link}
        (p.0, if p.0 then record (p.1) { writes_posted = u64 (p.1.writes_posted + 1) } else p.1)
        (true, t')
    → (p ≡ (true, p.1)) × (record (p.1) { writes_posted = u64 (p.1.writes_posted + 1) } ≡ t')
counted_ok (true, u) t' e = (refl, ap (λ (p : Bool × Link). p.1) e)
counted_ok (false, u) t' e = cc

both_ok :
    (p rest : Bool × Link) (t' : Link)
    → (if p.0 then rest else (false, p.1)) ≡ (true, t')
    → (p ≡ (true, p.1)) × (rest ≡ (true, t'))
both_ok (true, u) rest t' e = (refl, e)
both_ok (false, u) rest t' e = cc

counted-Handed :
    (t u t' : Link) (ms : List (List ℕ))
    → Handed t u ms
    → record u { writes_posted = u64 (u.writes_posted + 1) } ≡ t'
    → Handed t t' ms
counted-Handed t u t' ms h e = record {
  wire = sym (ap (λ (v : Link). v.wire) e) ∙ h.wire;
  depth = sym (ap (λ (v : Link). v.depth) e) ∙ h.depth;
  peer = sym (ap (λ (v : Link). v.peer_slots) e) ∙ h.peer;
}

Handed-trans :
    (t u v : Link) (ms ns : List (List ℕ)) → Handed t u ms → Handed u v ns → Handed t v (ms ++ ns)
Handed-trans t u v ms ns a b = record {
  wire = b.wire ∙ ap (λ (w : List (List ℕ)). w ++ ns) a.wire ∙ append_assoc t.wire ms ns;
  depth = b.depth ∙ a.depth;
  peer = b.peer ∙ a.peer;
}

-- A round of a write that succeeds has handed over exactly its messages.
pub send_chunk-Handed :
    (accepts : Provider) (src : Source) (off roff take : ℕ) (t t' : Link)
    → send_chunk accepts src off roff take t ≡ (true, t')
    → Handed t t' (chunk_messages t.tx_seq src.byte off roff take)
      × (t'.tx_seq ≡ u32 (t.tx_seq + 1))
unfolding send_chunk
send_chunk-Handed accepts src off roff take t t' e =
    let bytes = read src.byte off take in
    elim (Bool-cases (leb take inline_max)) [
      | inl small ↦
          let sent = send_head accepts c_inline roff take 0 bytes t in
          let (ok, shape) = counted_ok sent t' (rw small at e) in
          let (hd, seq) = send_head-Handed accepts c_inline roff take 0 bytes t sent.1 ok in
          rw small
            (counted-Handed t sent.1 t' _ hd shape, sym (ap (λ (u : Link). u.tx_seq) shape) ∙ seq)
      | inr large ↦
          let head = send_head accepts c_write roff take 0 [] t in
          let body = post_send accepts bytes 0 take head.1 in
          let (ok, later) = both_ok head _ t' (rw large at e) in
          let (ok2, shape) = counted_ok body t' later in
          let (hd, seq) = send_head-Handed accepts c_write roff take 0 [] t head.1 ok in
          let (hd2, seq2) = post_send-Handed accepts bytes 0 take head.1 body.1 ok2 in
          rw large (
            counted-Handed t body.1 t' _ (Handed-trans t head.1 body.1 _ _ hd hd2) shape,
            sym (ap (λ (u : Link). u.tx_seq) shape) ∙ seq2 ∙ seq,
          )
    ]

-- The messages of a whole write, round by round, from sequence number `seq` up to `seq'`.
pub data Rounds (src : Source) (max : ℕ) : ℕ → ℕ → ℕ → ℕ → ℕ → List (List ℕ) → Type 0 where
  end : (seq off roff len : ℕ) → len ≡ 0 → Rounds src max seq seq off roff len []
  round :
      {seq seq' off roff len : ℕ} {ms : List (List ℕ)} (take : ℕ)
      → take ≡ min (min len max) (src.seg - off % src.seg)
      → len ≢ 0
      → Rounds src max (u32 (seq + 1)) seq' (off + take) (roff + take) (len - take) ms
      → Rounds src max seq seq' off roff len (chunk_messages seq src.byte off roff take ++ ms)

pub msg_max-Handed : (t u : Link) (ms : List (List ℕ)) → Handed t u ms → msg_max u ≡ msg_max t
unfolding msg_max
msg_max-Handed t u ms h = rw (h.depth, h.peer) refl

-- What the loop of a write that returned 0 has handed over.
pub record Written (src : Source) (off roff len : ℕ) (t t' : Link) : Type 0 where
  pub messages : List (List ℕ)
  pub rounds : Rounds src (msg_max t) t.tx_seq t'.tx_seq off roff len messages
  pub handed : Handed t t' messages

nothing : (src : Source) (off roff len : ℕ) (t : Link) → len ≡ 0 → Written src off roff len t t
nothing src off roff len t z = record {
  messages = [];
  rounds = end t.tx_seq off roff len z;
  handed = record { wire = sym (append-nil t.wire); depth = refl; peer = refl };
}

zero_len :
    (accepts : Provider) (src : Source) (off roff len : ℕ) (t t' : Link)
    → write_loop accepts 0 src off roff len t ≡ (true, t')
    → len ≡ 0
unfolding write_loop
zero_len accepts src off roff len t t' e =
    let z = ap (λ (p : Bool × Link). p.0) e in ground (arith, z)

Rounds-from :
    (src : Source) (max max' seq seq0 seq' off roff len : ℕ) (ms : List (List ℕ))
    → max ≡ max'
    → seq ≡ seq0
    → Rounds src max seq seq' off roff len ms
    → Rounds src max' seq0 seq' off roff len ms
Rounds-from src max max' seq seq0 seq' off roff len ms a b r =
    subst (λ (k : ℕ). Rounds src k seq0 seq' off roff len ms) a
      (subst (λ (k : ℕ). Rounds src max k seq' off roff len ms) b r)

write_loop_end :
    (accepts : Provider) (fuel : ℕ) (src : Source) (off roff len : ℕ) (t t' : Link)
    → len ≡ 0
    → write_loop accepts fuel src off roff len t ≡ (true, t')
    → t' ≡ t
unfolding write_loop
write_loop_end accepts zero src off roff len t t' z e = ap (λ (p : Bool × Link). p.1) (sym e)
write_loop_end accepts (suc fuel) src off roff len t t' z e =
    let z' : (len == 0) ≡ true = ground arith in ap (λ (p : Bool × Link). p.1) (sym (rw (z') at e))

write_loop_more :
    (accepts : Provider) (fuel : ℕ) (src : Source) (off roff len : ℕ) (t t' : Link)
    → len ≢ 0
    → write_loop accepts (suc fuel) src off roff len t ≡ (true, t')
    → let take = chunk t src off len in
      let sent = send_chunk accepts src off roff take t in
      (sent ≡ (true, sent.1))
      × (write_loop accepts fuel src (off + take) (roff + take) (len - take) sent.1 ≡ (true, t'))
unfolding write_loop
write_loop_more accepts fuel src off roff len t t' nz e =
    let nz' : (len == 0) ≡ false = ground arith in
    both_ok (send_chunk accepts src off roff (chunk t src off len) t) _ t' (rw nz' at e)

pub write_loop-Written :
    (accepts : Provider) (fuel : ℕ) (src : Source) (off roff len : ℕ) (t t' : Link)
    → write_loop accepts fuel src off roff len t ≡ (true, t')
    → Written src off roff len t t'
write_loop-Written accepts zero src off roff len t t' e =
    let z : len ≡ 0 = zero_len accepts src off roff len t t' e in
    rw (write_loop_end accepts zero src off roff len t t' z e) (nothing src off roff len t z)
write_loop-Written accepts (suc fuel) src off roff len t t' e = elim (ℕ_discrete len 0) [
  | yes z ↦
      rw (write_loop_end accepts (suc fuel) src off roff len t t' z e)
        (nothing src off roff len t z)
  | no nz ↦
      let take = chunk t src off len in
      let u = (send_chunk accepts src off roff take t).1 in
      let (ok, rest) = write_loop_more accepts fuel src off roff len t t' nz e in
      let (hd, seq) = send_chunk-Handed accepts src off roff take t u ok in
      let w =
        write_loop-Written accepts fuel src (off + take) (roff + take) (len - take) u t' rest in
      record {
        messages = chunk_messages t.tx_seq src.byte off roff take ++ w.messages;
        rounds = round take refl nz (
            Rounds-from src _ _ _ _ t'.tx_seq _ _ _ w.messages (msg_max-Handed t u _ hd) seq
              w.rounds);
        handed = Handed-trans t u t' _ _ hd w.handed;
      }
]
