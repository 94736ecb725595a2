-- ===== src/Tb/Total.antt =====
-- rpc/link_tb.c: a write that `tb_can_write` allows is posted whole by `tb_write_try`.
use mcdma.Prelude.{
  ℕ, zero, suc, ◌+◌, ◌-◌, ◌%◌, ◌^◌, ◌<◌, ◌≡◌, refl, ap, ◌∙◌, ◌≢◌, inl, inr, Bool, true, false,
  Option, none, some, List, [], ltb, leb, ◌==◌, if◌then◌else◌, length, arith, Bool-cases,
  Option-cases, min,
}
use native.Mathlib.Decide.{ℕ_discrete}
use mcdma.Tb.{
  Link, Head, Provider, Source, Can, Tried, read, c_write, c_inline, inline_max, tb_stage, magic,
  post_send, send_head, headed, msg_max, chunk, count_write, can_write, send_chunk, write_loop,
  write_try,
}
use mcdma.Tb.HeadBytes.{length-sent}
use mcdma.Tb.Send.{send_chunk-Handed, msg_max-Handed}
use mcdma.Tb.Receive.Chunk.{length-read}
use mcdma.Tb.Receive.Deliver.{can_write-ready}

-- A provider that takes every post.
abbrev pub Takes : Provider → Type 0
Takes accepts = (k : ℕ) → accepts k ≡ true

Succeeds : Bool × Link → Type 0
Succeeds p = p ≡ (true, p.1)

post_send_ok :
    (accepts : Provider) (m : List ℕ) (staged payload : ℕ) (t : Link)
    → Takes accepts
    → 0 < length m
    → post_send accepts m staged payload t ≡ (true, (post_send accepts m staged payload t).1)
unfolding post_send
post_send_ok accepts m staged payload t g pos =
    let some_bytes : (length m == 0) ≡ false = ground arith in rw (some_bytes, g t.tx_posted) refl

send_head_ok :
    (accepts : Provider) (kind off len value : ℕ) (bytes : List ℕ) (t : Link)
    → Takes accepts
    → send_head accepts kind off len value bytes t
      ≡ (true, (send_head accepts kind off len value bytes t).1)
unfolding send_head
send_head_ok accepts kind off len value bytes t g =
    let m = headed t kind off len value bytes in
    let h : Head = record {
      magic = magic;
      seq = t.tx_seq;
      kind = kind;
      pad = 0;
      len = len;
      off = off;
      value = value;
    } in
    let n = length-sent h bytes in
    rw (post_send_ok accepts m 1 (if kind == c_inline then len else 0) t g (omega (arith, n))) refl

send_chunk_ok :
    (accepts : Provider) (src : Source) (off roff take : ℕ) (t : Link)
    → Takes accepts
    → 0 < take
    → send_chunk accepts src off roff take t ≡ (true, (send_chunk accepts src off roff take t).1)
unfolding send_chunk
send_chunk_ok accepts src off roff take t g pos = elim (Bool-cases (leb take inline_max)) [
  | inl small ↦
      rw (small, send_head_ok accepts c_inline roff take 0 (read src.byte off take) t g) refl
  | inr large ↦
      let head = send_head_ok accepts c_write roff take 0 [] t g in
      rw
        (
          large,
          head,
          post_send_ok accepts (read src.byte off take) 0 take
              (send_head accepts c_write roff take 0 [] t).1 g
              (rw (length-read src.byte off take) pos),
        )
        refl
]

count_write_zero :
    (t : Link) (src : Source) (off len n sends stages : ℕ) (out : ℕ × ℕ × ℕ)
    → count_write 0 t src off len n sends stages ≡ some out
    → len ≡ 0
unfolding count_write
count_write_zero t src off len n sends stages out e = ground (arith, e)

past :
    (z b : Bool) (d rest : Option (ℕ × ℕ × ℕ)) (out : ℕ × ℕ × ℕ)
    → z ≡ false
    → (if z then d else if b then none else rest) ≡ some out
    → rest ≡ some out
past true b d rest out z e = cc
past false true d rest out z e = cc
past false false d rest out z e = e

count_write-suc :
    (fuel : ℕ) (t : Link) (src : Source) (off len n sends stages : ℕ) (out : ℕ × ℕ × ℕ)
    → len ≢ 0
    → count_write (suc fuel) t src off len n sends stages ≡ some out
    → let take = chunk t src off len in
      (n' : ℕ) × (sends' : ℕ) × (count_write fuel t src
          (off + take)
          (len - take)
          n'
          sends'
          (stages + 1)
        ≡ some out)
unfolding count_write
count_write-suc fuel t src off len n sends stages out nz e =
    (_, _, past (len == 0) _ _ _ out (ground arith) e)

write_loop_zero :
    (accepts : Provider) (fuel : ℕ) (src : Source) (off roff len : ℕ) (t : Link)
    → len ≡ 0
    → write_loop accepts fuel src off roff len t ≡ (true, t)
unfolding write_loop
write_loop_zero accepts zero src off roff len t z = rw z refl
write_loop_zero accepts (suc fuel) src off roff len t z = rw z refl

write_loop-suc :
    (accepts : Provider) (fuel : ℕ) (src : Source) (off roff len take : ℕ) (t u t' : Link)
    → len ≢ 0
    → chunk t src off len ≡ take
    → send_chunk accepts src off roff take t ≡ (true, u)
    → write_loop accepts fuel src (off + take) (roff + take) (len - take) u ≡ (true, t')
    → write_loop accepts (suc fuel) src off roff len t ≡ (true, t')
unfolding write_loop
write_loop-suc accepts fuel src off roff len take t u t' nz c e rest =
    let nz' : (len == 0) ≡ false = ground arith in rw (nz', c, e) rest

write_loop_total :
    (accepts : Provider) (fuel : ℕ) (src : Source) (off roff len n sends stages : ℕ) (t u : Link)
    (out : ℕ × ℕ × ℕ)
    → Takes accepts
    → 0 < src.seg
    → 0 < msg_max t
    → msg_max u ≡ msg_max t
    → count_write fuel t src off len n sends stages ≡ some out
    → (t' : Link) × (write_loop accepts fuel src off roff len u ≡ (true, t'))
write_loop_total accepts zero src off roff len n sends stages t u out g seg pos same e = (
  u,
  write_loop_zero accepts 0 src off roff len u
      (count_write_zero t src off len n sends stages out e),
)
write_loop_total accepts (suc fuel) src off roff len n sends stages t u out g seg pos same e =
    elim (ℕ_discrete len 0) [
      | yes z ↦ (u, write_loop_zero accepts (suc fuel) src off roff len u z)
      | no nz ↦
          let take = chunk t src off len in
          let below : off % src.seg < src.seg = grind arith in
          let some_bytes : 0 < take = ground arith in
          let here : chunk u src off len ≡ take =
            ap (λ (k : ℕ). min (min len k) (src.seg - off % src.seg)) same in
          let sent = send_chunk_ok accepts src off roff take u g some_bytes in
          let v = (send_chunk accepts src off roff take u).1 in
          let (n', sends', more) = count_write-suc fuel t src off len n sends stages out nz e in
          let (hd, seq) = send_chunk-Handed accepts src off roff take u v sent in
          let (t', rest) =
            write_loop_total accepts fuel src (off + take) (roff + take) (len - take) n' sends'
              (stages + 1) t v out g seg pos (msg_max-Handed u v _ hd ∙ same) more in
          (t', write_loop-suc accepts fuel src off roff len take u v t' nz here sent rest)
    ]

can_write-count :
    (t : Link) (src : Source) (off len : ℕ)
    → can_write t src off len ≡ Can.ready
    → (out : ℕ × ℕ × ℕ) × (count_write tb_stage t src off len 0 0 0 ≡ some out)
unfolding can_write
can_write-count t src off len e = elim (Option-cases (count_write tb_stage t src off len 0 0 0)) [
  | inl bad ↦ absurd (ground (arith, bad))
  | inr (out, ok) ↦ (out, ok)
]

pub write_try_total :
    (accepts : Provider) (src : Source) (off roff len : ℕ) (t : Link)
    → Takes accepts
    → roff + len < 2 ^ 64
    → can_write t src off len ≡ Can.ready
    → (t' : Link) × (write_try accepts src off roff len t ≡ (Tried.written, t'))
unfolding write_try
write_try_total accepts src off roff len t g w ready =
    let (seg, pos) = can_write-ready t src off len ready in
    let (out, counted) = can_write-count t src off len ready in
    let (t', e) =
      write_loop_total accepts tb_stage src off roff len 0 0 0 t t out g seg pos refl counted in
    let wraps : ltb (2 ^ 64 - 1 - roff) len ≡ false = ground arith in
    (t', rw (wraps, ready, e) refl)
