-- ===== src/Tb/Receive/Deliver.antt =====
-- A write that the sender posted, taken by the receiver: the bytes land where they were sent.
use mcdma.Prelude.{
  ℕ, zero, suc, ◌+◌, ◌-◌, ◌%◌, ◌^◌, ◌≤◌, ◌<◌, ◌≡◌, refl, sym, ap, ◌∙◌, ◌≢◌, fun_ext, inl, inr, Bool,
  true, false, ◌&&◌, List, ◌++◌, ltb, leb, if◌then◌else◌, get_or, arith, Bool-cases, min,
}
use mcdma.Tb.{
  Link, Provider, Source, Can, Tried, tb_msg, tb_stage, u32, read, msg_max, can_write, write_loop,
  write_try,
}
use mcdma.Tb.Send.{Rounds, end, round, write_loop-Written}
use mcdma.Tb.Receive.{Taken, write_mem, take_all}
use mcdma.Tb.Receive.Chunk.{IsOpen, Landed, length-read, take_chunk}

get_or-read : (mem : ℕ → ℕ) (off n i : ℕ) → i < n → get_or (read mem off n) i 0 ≡ mem (off + i)
unfolding read
get_or-read mem off zero i h = absurd (omega arith)
get_or-read mem off (suc n) zero h = ap mem (omega arith)
get_or-read mem off (suc n) (suc i) h =
    get_or-read mem (off + 1) n i (omega arith) ∙ ap mem (omega arith)

-- A write at `roff` of what stands at `off`, in plain terms.
pub write_mem-read :
    (dst src : ℕ → ℕ) (off roff n x : ℕ)
    → write_mem dst roff (read src off n) x
      ≡ (if leb roff x && ltb x (roff + n) then src (off + (x - roff)) else dst x)
write_mem-read dst src off roff n x = elim (Bool-cases (leb roff x && ltb x (roff + n))) [
  | inl i ↦ ground (arith, i, length-read src off n, get_or-read src off n (x - roff))
  | inr o ↦ ground (arith, o, length-read src off n)
]

-- Two writes side by side are one.
write_mem_join :
    (dst src : ℕ → ℕ) (off roff a b : ℕ)
    → write_mem (write_mem dst roff (read src off a)) (roff + a) (read src (off + a) b)
      ≡ write_mem dst roff (read src off (a + b))
write_mem_join dst src off roff a b = fun_ext λ x.
    write_mem-read (write_mem dst roff (read src off a)) src (off + a) (roff + a) b x
    ∙ ap
        (λ (k : ℕ).
          if leb (roff + a) x && ltb x (roff + a + b) then src (off + a + (x - (roff + a))) else k)
        (write_mem-read dst src off roff a x)
    ∙ pointwise x
    ∙ sym (write_mem-read dst src off roff (a + b) x)
  where
    shift :
        (x : ℕ)
        → leb (roff + a) x ≡ true
        → src (off + a + (x - (roff + a))) ≡ src (off + (x - roff))
    shift x h = ap src (ground (arith, h))

    pointwise :
        (x : ℕ)
        → (if leb (roff + a) x && ltb x (roff + a + b)
            then src (off + a + (x - (roff + a)))
            else if leb roff x && ltb x (roff + a)
            then src (off + (x - roff))
            else dst x)
          ≡ (if leb roff x && ltb x (roff + (a + b)) then src (off + (x - roff)) else dst x)
    pointwise x = elim (Bool-cases (leb (roff + a) x)) [
      | inl big ↦ let e = shift x big in ground (arith, e, big)
      | inr small ↦ ground (arith, small)
    ]

write_mem_none :
    (dst src : ℕ → ℕ) (off roff n : ℕ) → n ≡ 0 → dst ≡ write_mem dst roff (read src off n)
write_mem_none dst src off roff n z =
    fun_ext λ x. let e = write_mem-read dst src off roff n x in ground (arith, e)

-- What the messages of a write do to the receiver.
pub record Delivered (accepts : Provider) (ms : List (List ℕ)) (r : Link) (seq lo hi : ℕ) (roff : ℕ)
    (bytes : List ℕ) : Type 0 where
  pub after : Link
  pub takes : take_all accepts ms r ≡ (Taken.taken, after)
  pub lands : after.mem ≡ write_mem r.mem roff bytes
  pub ready : IsOpen after seq lo hi

Landed-IsOpen :
    (r r' : Link) (seq lo hi off : ℕ) (bs : List ℕ)
    → IsOpen r seq lo hi
    → Landed r r' off bs
    → IsOpen r' (u32 (seq + 1)) lo hi
Landed-IsOpen r r' seq lo hi off bs o l = record {
  expects = l.next ∙ ap (λ (k : ℕ). u32 (k + 1)) o.expects;
  between = l.idle;
  window_open = l.window ∙ o.window_open;
  not_poisoned = l.sound ∙ o.not_poisoned;
  high = o.high;
  seq_word = omega arith;
}

module _ (src : Source) (max : ℕ) (accepts : Provider) (lo hi : ℕ) (seg : 0 < src.seg)
    (pos : 0 < max) (bounded : max ≤ tb_msg) where
  take_bounds :
      (off len take : ℕ)
      → take ≡ min (min len max) (src.seg - off % src.seg)
      → len ≢ 0
      → (0 < take) × (take ≤ tb_msg) × (take ≤ len)
  take_bounds off len take e nz =
      let below : off % src.seg < src.seg = grind arith in
      (ground arith, ground arith, ground arith)

  pub Rounds-Delivered :
      {seq seq' off roff len : ℕ} {ms : List (List ℕ)} (r : Link)
      → Rounds src max seq seq' off roff len ms
      → IsOpen r seq lo hi
      → lo ≤ roff
      → roff + len ≤ hi
      → Delivered accepts ms r seq' lo hi roff (read src.byte off len)
  Rounds-Delivered r (end seq off roff len z) o low top = record {
    after = r;
    takes = unfold take_all in refl;
    lands = write_mem_none r.mem src.byte off roff len z;
    ready = o;
  }
  Rounds-Delivered r (round {seq} {seq'} {off} {roff} {len} {ms} take e nz more) o low top =
      let (tpos, tmax, tlen) = take_bounds off len take e nz in
      let (r1, first, landed) =
        take_chunk accepts r seq lo hi src.byte off roff take o tpos tmax low (omega arith) ms in
      let d =
        Rounds-Delivered r1 more (Landed-IsOpen r r1 seq lo hi roff _ o landed) (omega arith)
          (omega arith) in
      record {
        after = d.after;
        takes = first ∙ d.takes;
        lands =
            d.lands
            ∙ ap
                (λ (k : ℕ → ℕ). write_mem k (roff + take) (read src.byte (off + take) (len - take)))
                landed.mem
            ∙ write_mem_join r.mem src.byte off roff take (len - take)
            ∙ ap (λ (k : ℕ). write_mem r.mem roff (read src.byte off k)) (omega arith);
        ready = d.ready;
      }

pub can_write-ready :
    (t : Link) (src : Source) (off len : ℕ)
    → can_write t src off len ≡ Can.ready
    → (0 < src.seg) × (0 < msg_max t)
unfolding can_write
can_write-ready t src off len e = (ground (arith, e), ground (arith, e))

msg_max-bound : (t : Link) → msg_max t ≤ tb_msg
unfolding msg_max
msg_max-bound t = ground arith

outcome :
    (wraps : Bool) (c : Can) (p : Bool × Link) (t t' : Link)
    → ◌≡◌ {A = Tried × Link}
        (if wraps then (Tried.failed, t) else elim c [
          | Can.invalid ↦ (Tried.failed, t)
          | Can.no_room ↦ (Tried.full, t)
          | Can.ready ↦ (if p.0 then Tried.written else Tried.failed, p.1)
        ])
        (Tried.written, t')
    → (c ≡ Can.ready) × (p ≡ (true, t'))
outcome true c p t t' e = cc
outcome false Can.invalid p t t' e = cc
outcome false Can.no_room p t t' e = cc
outcome false Can.ready (true, u) t t' e = (refl, ap (λ (q : Tried × Link). (true, q.1)) e)
outcome false Can.ready (false, u) t t' e = cc

write_try-written :
    (accepts : Provider) (src : Source) (off roff len : ℕ) (t t' : Link)
    → write_try accepts src off roff len t ≡ (Tried.written, t')
    → (can_write t src off len ≡ Can.ready)
      × (write_loop accepts tb_stage src off roff len t ≡ (true, t'))
unfolding write_try
write_try-written accepts src off roff len t t' e =
    outcome (ltb (2 ^ 64 - 1 - roff) len) (can_write t src off len)
      (write_loop accepts tb_stage src off roff len t) t t' e

-- A write that `tb_write_try` answers 0 to has appended messages to the wire; a receiver that is not
-- poisoned, is between messages, expects the sender's next number and lets the peer write the target range takes
-- them all, and its memory is as it was with the source's bytes written at the target offset.
-- It is then between messages again and expects the number the sender uses next.
pub write_try-Delivered :
    (accepts peer : Provider) (src : Source) (off roff len lo hi : ℕ) (t t' r : Link)
    → write_try accepts src off roff len t ≡ (Tried.written, t')
    → IsOpen r t.tx_seq lo hi
    → lo ≤ roff
    → roff + len ≤ hi
    → (ms : List (List ℕ)) × (t'.wire ≡ t.wire ++ ms)
      × Delivered peer ms r t'.tx_seq lo hi roff (read src.byte off len)
write_try-Delivered accepts peer src off roff len lo hi t t' r e o low top =
    let (can, loop) = write_try-written accepts src off roff len t t' e in
    let (seg, pos) = can_write-ready t src off len can in
    let w = write_loop-Written accepts tb_stage src off roff len t t' loop in
    (
      w.messages,
      w.handed.wire,
      Rounds-Delivered src (msg_max t) peer lo hi seg pos (msg_max-bound t) r w.rounds o low top,
    )
