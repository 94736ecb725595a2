-- ===== src/Tb/Account.antt =====
-- The sender's books: what is in flight is exactly what the send ring's slots say.
use mcdma.Prelude.{
  ℕ, zero, suc, ◌+◌, ◌-◌, ◌%◌, ◌^◌, ◌≤◌, ◌<◌, ◌≡◌, refl, sym, ap, ◌∙◌, ◌≢◌, Bool, true, false, List,
  [], ◌∷◌, ◌++◌, arith, length, not, ◌||◌, Bool-cases, inl, inr, ◌==◌, if◌then◌else◌,
}
use mathlib.Core.Path.{subst}
use mcdma.Tb.HeadBytes.{length-sent}
use mcdma.Tb.{
  Link, Sent, Provider, update, packets_of, tb_send_wr, tb_stage, u32, u64, post_send, has_room,
  complete_send, send_head, headed, inline_max, c_inline, magic,
}

-- The sum of `f` over the `n` sends from index `i` on.
abbrev pub in_flight : (Sent → ℕ) → (ℕ → Sent) → ℕ → ℕ → ℕ
in_flight f tx i zero = 0
in_flight f tx i (suc n) = f (tx (i % 1024)) + in_flight f tx (i + 1) n

in_flight-update :
    (f : Sent → ℕ) (tx : ℕ → Sent) (v : Sent) (i n p : ℕ)
    → n < 1024
    → i + n ≡ p
    → in_flight f (update tx (p % 1024) v) i n ≡ in_flight f tx i n
in_flight-update f tx v i zero p h e = refl
in_flight-update f tx v i (suc n) p h e =
    let ne : i % 1024 ≢ p % 1024 = omega arith in
    ground (arith, ne, in_flight-update f tx v (i + 1) n p (omega arith) (omega arith))

in_flight_snoc :
    (f : Sent → ℕ) (tx : ℕ → Sent) (i n : ℕ)
    → in_flight f tx i (suc n) ≡ in_flight f tx i n + f (tx ((i + n) % 1024))
in_flight_snoc f tx i zero =
    let shift : i ≡ i + 0 = omega arith in omega (arith, ap (λ (k : ℕ). f (tx (k % 1024))) shift)
in_flight_snoc f tx i (suc n) =
    let shift : i + 1 + n ≡ i + suc n = omega arith in
    omega (arith, in_flight_snoc f tx (i + 1) n, ap (λ (k : ℕ). f (tx (k % 1024))) shift)

-- A post adds its own slot's value to the sum.
sum_posted :
    (f : Sent → ℕ) (tx : ℕ → Sent) (v : Sent) (done posted : ℕ)
    → done ≤ posted
    → posted - done < 1024
    → in_flight f (update tx (posted % 1024) v) done (posted + 1 - done)
      ≡ in_flight f tx done (posted - done) + f v
sum_posted f tx v done posted h room =
    let n = posted - done in
    let more : posted + 1 - done ≡ suc n = omega arith in
    let at : done + n ≡ posted = omega arith in
    ap (in_flight f (update tx (posted % 1024) v) done) more
    ∙ in_flight_snoc f (update tx (posted % 1024) v) done n
    ∙ omega (
      arith,
      in_flight-update f tx v done n posted room at,
      ap (λ (k : ℕ). f (update tx (posted % 1024) v (k % 1024))) at,
      newest,
    )
  where
    newest : f (update tx (posted % 1024) v (posted % 1024)) ≡ f v
    newest = ground arith

-- A completion takes the oldest slot's value out.
sum_done :
    (f : Sent → ℕ) (tx : ℕ → Sent) (done posted : ℕ)
    → done < posted
    → in_flight f tx done (posted - done)
      ≡ f (tx (done % 1024)) + in_flight f tx (done + 1) (posted - (done + 1))
sum_done f tx done posted h =
    let n : posted - done ≡ suc (posted - (done + 1)) = omega arith in ap (in_flight f tx done) n

-- The link's books. `staged` may run ahead of the slots by `extra`, between a post and its count.
pub record IsBooked (t : Link) : Type 0 where
  pub done_le : t.tx_done ≤ t.tx_posted
  pub ring : t.tx_posted ≤ t.tx_done + tb_send_wr
  pub packets_sum : t.packets ≡ in_flight (λ s. s.packets) t.tx t.tx_done (t.tx_posted - t.tx_done)
  pub staged_sum :
      t.staged ≡ t.unstaged + in_flight (λ s. s.staged) t.tx t.tx_done (t.tx_posted - t.tx_done)
  pub bytes_sum :
      t.sent_bytes
      ≡ t.completed_bytes + in_flight (λ s. s.bytes) t.tx t.tx_done (t.tx_posted - t.tx_done)
  pub depth_ok : t.packets ≤ t.depth
  pub stage_ok : t.staged ≤ t.unstaged + tb_stage
  pub depth_word : t.depth < 2 ^ 16

-- No 64-bit counter is near its end.
pub record IsYoung (t : Link) : Type 0 where
  pub posts : t.tx_posted < 2 ^ 63
  pub stages : t.staged < 2 ^ 63
  pub sent : t.sent_bytes < 2 ^ 63

complete_send_inv :
    (index : ℕ) (t : Link)
    → index ≡ t.tx_done % tb_send_wr
    → t.tx_done < t.tx_posted
    → complete_send true index t ≡ record t {
      packets = u32 (t.packets + 2 ^ 32 - (t.tx index).packets);
      unstaged = u64 (t.unstaged + (t.tx index).staged);
      completed_bytes = u64 (t.completed_bytes + (t.tx index).bytes);
      completed_payload = u64 (t.completed_payload + (t.tx index).payload);
      tx_done = u64 (t.tx_done + 1);
    }
unfolding complete_send
complete_send_inv index t e h = ground arith

-- The completion of the oldest send in flight keeps the books, as long as no 64-bit counter is near its
-- end.
pub complete_send-IsBooked :
    (t : Link)
    → IsBooked t
    → IsYoung t
    → t.tx_done < t.tx_posted
    → IsBooked (complete_send true (t.tx_done % tb_send_wr) t)
complete_send-IsBooked t b y h =
    let i = t.tx_done % 1024 in
    let left = t.tx_posted - (t.tx_done + 1) in
    let p = sum_done (λ s. s.packets) t.tx t.tx_done t.tx_posted h in
    let s = sum_done (λ s. s.staged) t.tx t.tx_done t.tx_posted h in
    let z = sum_done (λ s. s.bytes) t.tx t.tx_done t.tx_posted h in
    let next : u64 (t.tx_done + 1) ≡ t.tx_done + 1 = omega (arith, b.done_le, y.posts) in
    rw (complete_send_inv i t refl h) (record {
      done_le = rw next (omega arith);
      ring = rw next (omega (arith, b.ring));
      packets_sum = rw next (omega (arith, p, b.packets_sum, b.depth_ok, b.depth_word));
      staged_sum = rw next (omega (arith, s, b.staged_sum, y.stages));
      bytes_sum = rw next (omega (arith, z, b.bytes_sum, y.sent));
      depth_ok = omega (arith, p, b.packets_sum, b.depth_ok, b.depth_word);
      stage_ok = omega (arith, s, b.staged_sum, b.stage_ok, y.stages);
      depth_word = b.depth_word;
    })

-- A send in flight, with the counters that `post_send` and `send_head` move.
abbrev pub pushed : Link → Sent → ℕ → ℕ → ℕ → List (List ℕ) → Link
pushed t v payload seq writes wire = record t {
  tx = update t.tx (t.tx_posted % tb_send_wr) v;
  sent_bytes = u64 (t.sent_bytes + v.bytes);
  sent_payload = payload;
  packets = u32 (t.packets + v.packets);
  tx_posted = u64 (t.tx_posted + 1);
  staged = u64 (t.staged + v.staged);
  tx_seq = seq;
  writes_posted = writes;
  wire = wire;
}

-- One more send keeps the books, given room for its packets, its slot and its staging slot.
pub pushed-IsBooked :
    (t : Link) (v : Sent) (payload seq writes : ℕ) (wire : List (List ℕ))
    → IsBooked t
    → IsYoung t
    → t.tx_posted < t.tx_done + tb_send_wr
    → t.packets + v.packets ≤ t.depth
    → t.staged + v.staged ≤ t.unstaged + tb_stage
    → v.bytes < 2 ^ 62
    → v.staged ≤ 1
    → IsBooked (pushed t v payload seq writes wire)
pushed-IsBooked t v payload seq writes wire b y ring fits stage small one =
    let p =
      sum_posted (λ s. s.packets) t.tx v t.tx_done t.tx_posted b.done_le
        (omega (arith, b.done_le)) in
    let s =
      sum_posted (λ s. s.staged) t.tx v t.tx_done t.tx_posted b.done_le
        (omega (arith, b.done_le)) in
    let z =
      sum_posted (λ s. s.bytes) t.tx v t.tx_done t.tx_posted b.done_le (omega (arith, b.done_le)) in
    let next : u64 (t.tx_posted + 1) ≡ t.tx_posted + 1 = omega (arith, y.posts) in
    record {
      done_le = omega (arith, next, b.done_le);
      ring = omega (arith, next, ring);
      packets_sum = rw next (omega (arith, p, b.packets_sum, b.depth_word));
      staged_sum = rw next (omega (arith, s, b.staged_sum, y.stages));
      bytes_sum = rw next (omega (arith, z, b.bytes_sum, y.sent));
      depth_ok = omega (arith, b.depth_word);
      stage_ok = omega (arith, y.stages);
      depth_word = b.depth_word;
    }

-- what `post_send` keeps of a message
abbrev slot_of : List ℕ → ℕ → ℕ → Sent
slot_of m staged payload = record {
  packets = packets_of (length m) % 2 ^ 16;
  staged = staged;
  bytes = length m;
  payload = payload;
}

-- A send that succeeded, `staged` slots behind it, in terms of `pushed`.
post_send-pushed :
    (accepts : Provider) (m : List ℕ) (staged payload : ℕ) (t t' : Link)
    → post_send accepts m staged payload t ≡ (true, t')
    → t' ≡ record t {
      tx = update t.tx (t.tx_posted % tb_send_wr) (slot_of m staged payload);
      sent_bytes = u64 (t.sent_bytes + length m);
      sent_payload = u64 (t.sent_payload + payload);
      packets = u32 (t.packets + packets_of (length m));
      tx_posted = u64 (t.tx_posted + 1);
      wire = t.wire ++ (m ∷ []);
    }
unfolding post_send
post_send-pushed accepts m staged payload t t' e =
    elim (Bool-cases (length m == 0 || not (accepts t.tx_posted))) [
      | inl bad ↦ absurd (ground (arith, bad))
      | inr good ↦ ap (λ (p : Bool × Link). p.1) (sym (rw good at e))
    ]

-- A post of a message that is not staged keeps the books, given room for its packets, a free slot and
-- 64-bit counters that are not near their end.
pub post_send-IsBooked :
    (accepts : Provider) (m : List ℕ) (payload : ℕ) (t t' : Link)
    → post_send accepts m 0 payload t ≡ (true, t')
    → IsBooked t
    → IsYoung t
    → t.tx_posted < t.tx_done + tb_send_wr
    → t.packets + packets_of (length m) ≤ t.depth
    → length m < 2 ^ 62
    → IsBooked t'
post_send-IsBooked accepts m payload t t' e b y ring fits small =
    let n : packets_of (length m) % 2 ^ 16 ≡ packets_of (length m) = omega (arith, b.depth_word) in
    let v = slot_of m 0 payload in
    let s : u64 (t.staged + 0) ≡ t.staged = omega (arith, y.stages) in
    let k : u32 (t.packets + packets_of (length m) % 2 ^ 16)
        ≡ u32 (t.packets + packets_of (length m)) =
      ap (λ (x : ℕ). u32 (t.packets + x)) n in
    let p : pushed t v (u64 (t.sent_payload + payload)) t.tx_seq t.writes_posted
          (t.wire ++ (m ∷ []))
        ≡ t' =
      (λ i.
        record (pushed t v (u64 (t.sent_payload + payload)) t.tx_seq t.writes_posted
          (t.wire ++ (m ∷ []))) { staged = s i; packets = k i })
      ∙ sym (post_send-pushed accepts m 0 payload t t' e) in
    subst IsBooked p (
      pushed-IsBooked t v _ _ _ _ b y ring (omega (arith, n)) (omega (arith, b.stage_ok)) small
        (omega arith))

-- A header that `send_head` staged, with at most the bytes that fit behind it, keeps the books where
-- `has_room` allowed one send of its packets, as a fence's answer or not, as long as no 64-bit counter
-- is near its end.
pub send_head-IsBooked :
    (accepts : Provider) (kind off len value : ℕ) (bytes : List ℕ) (reply : Bool) (t t' : Link)
    → has_room t (packets_of (length (headed t kind off len value bytes))) 1 reply ≡ true
    → send_head accepts kind off len value bytes t ≡ (true, t')
    → IsBooked t
    → IsYoung t
    → length bytes ≤ inline_max
    → IsBooked t'
unfolding has_room send_head
send_head-IsBooked accepts kind off len value bytes reply t t' room e b y small =
    let m = headed t kind off len value bytes in
    let payload = if kind == c_inline then len else 0 in
    let p = post_send accepts m 1 payload t in
    let n : length m ≡ 32 + length bytes =
      length-sent
        (record {
          magic = magic;
          seq = t.tx_seq;
          kind = kind;
          pad = 0;
          len = len;
          off = off;
          value = value;
        })
        bytes in
    let one : packets_of (length m) ≡ 1 = omega (arith, n) in
    let k : u32 (t.packets + packets_of (length m) % 2 ^ 16)
        ≡ u32 (t.packets + packets_of (length m)) =
      ap (λ (x : ℕ). u32 (t.packets + x)) (omega (arith, one)) in
    elim (Bool-cases p.0) [
      | inr bad ↦ absurd (true-ne-false (sym (ap (λ (q : Bool × Link). q.0) (rw bad at e))))
      | inl ok ↦
          let shape = ap (λ (q : Bool × Link). q.1) (rw ok at e) in
          let u = post_send-pushed accepts m 1 payload t p.1 (pair_eq p ok) in
          subst IsBooked
            ((λ i.
                record (pushed t (slot_of m 1 payload) (u64 (t.sent_payload + payload))
                  (u32 (t.tx_seq + 1)) t.writes_posted (t.wire ++ (m ∷ []))) { packets = k i })
              ∙ ap
                  (λ (q : Link). record q {
                    tx_seq = u32 (q.tx_seq + 1);
                    staged = u64 (q.staged + 1);
                  })
                  (sym u)
              ∙ shape)
            (pushed-IsBooked t (slot_of m 1 payload) _ _ _ _ b y (ground (arith, room))
              (ground (arith, room)) (ground (arith, room, b.stage_ok)) (omega (arith, n))
              (omega arith))
    ]
  where
    true-ne-false : true ≡ false → ⊥
    true-ne-false p = cc

    pair_eq : (p : Bool × Link) → p.0 ≡ true → p ≡ (true, p.1)
    pair_eq p q = λ i. (q i, p.1)
