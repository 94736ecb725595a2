-- ===== src/Tb/Receive/Guard.antt =====
-- No message, well formed or not, changes memory outside the window that `tb_accept` opened.
use mcdma.Prelude.{
  ℕ, ◌+◌, ◌-◌, ◌%◌, ◌≤◌, ◌<◌, ◌≡◌, refl, ap, ◌∙◌, ◌≢◌, ◌⊎◌, inl, inr, Bool, true, false, not, ◌&&◌,
  ◌||◌, Option, none, some, List, [], ◌∷◌, ltb, leb, ◌==◌, ◌!=◌, if◌then◌else◌, length, le_bytes,
  of_le, length-le_bytes, drop, arith, length-drop, Bool-cases, Option-cases, ==_iff,
}
use mcdma.Prelude.Arrays.{slice}
use mcdma.Tb.{
  Link, Head, Reason, Provider, head_of, is_poisoned, poison, has_room, post_send, send_head,
  headed, magic, head_size, ws_head, c_write, c_inline, c_signal, c_fence, c_fence_ack,
  c_write_signal, packets_of,
}
use mcdma.Tb.Receive.{
  Taken, write_mem, inside, accepted, fail, take_bytes, take_write_signal, refusal, apply,
  take_head, take_message, take_all,
}

-- `x` is not an address of the window.
abbrev pub Outside : Option (ℕ × ℕ) → ℕ → Type 0
Outside none x = Unit {0}
Outside (some (lo, hi)) x = (x < lo) ⊎ (hi ≤ x)

write_mem-Outside :
    (w : Option (ℕ × ℕ)) (mem : ℕ → ℕ) (off : ℕ) (bs : List ℕ) (x : ℕ)
    → inside w off (length bs) ≡ true
    → Outside w x
    → write_mem mem off bs x ≡ mem x
write_mem-Outside none mem off bs x h o = ground arith
write_mem-Outside (some (lo, hi)) mem off bs x h o = ground arith

-- Bytes that are still to come belong inside the window.
pub record IsConfined (t : Link) : Type 0 where
  pub awaited : t.want_len ≢ 0 → inside t.window t.want_off t.want_len ≡ true

-- What a step may do: it keeps the window and the confinement, and leaves all other memory alone.
pub record IsSafe (t t' : Link) : Type 0 where
  pub window_kept : t'.window ≡ t.window
  pub confined : IsConfined t'
  pub rest_kept : (x : ℕ) → Outside t.window x → t'.mem x ≡ t.mem x

-- A step that touches nothing on the receiving side but counters.
record IsApart (t t' : Link) : Type 0 where
  window : t'.window ≡ t.window
  want_len : t'.want_len ≡ t.want_len
  want_off : t'.want_off ≡ t.want_off
  mem : t'.mem ≡ t.mem

IsApart-IsSafe : (t t' : Link) → IsApart t t' → IsConfined t → IsSafe t t'
IsApart-IsSafe t t' a c = record {
  window_kept = a.window;
  confined = record {
    awaited = λ n. rw (a.window, a.want_off, a.want_len) (c.awaited (rw a.want_len at n));
  };
  rest_kept = λ x o. ap (λ (f : ℕ → ℕ). f x) a.mem;
}

poison-IsApart : (why : Reason) (t : Link) → IsApart t (poison why t)
unfolding poison
poison-IsApart why t = elim (Option-cases t.poisoned) [
  | inl fresh ↦ rw (fresh) (record { window = refl; want_len = refl; want_off = refl; mem = refl })
  | inr (w, old) ↦ rw (old) (record { window = refl; want_len = refl; want_off = refl; mem = refl })
]

fail-IsSafe : (why : Reason) (t : Link) → IsConfined t → IsSafe t (fail why t).1
fail-IsSafe why t c = IsApart-IsSafe t (poison why t) (poison-IsApart why t) c

take_bytes-IsSafe :
    (m : List ℕ) (t : Link) → t.want_len ≢ 0 → IsConfined t → IsSafe t (take_bytes m t).1
unfolding take_bytes
take_bytes-IsSafe m t nz c = elim (Bool-cases (length m != t.want_len)) [
  | inl bad ↦ rw bad (fail-IsSafe Reason.length_differs t c)
  | inr good ↦
      let same : length m ≡ t.want_len = ground (arith, good) in
      rw good (record {
        window_kept = refl;
        confined = record { awaited = λ n. absurd (n refl) };
        rest_kept =
            λ x o. write_mem-Outside t.window t.mem t.want_off m x (rw same (c.awaited nz)) o;
      })
]

-- A step that writes `bs` inside the window, and awaits nothing.
written-IsSafe :
    (t t' : Link) (off : ℕ) (bs : List ℕ)
    → t.want_len ≡ 0
    → inside t.window off (length bs) ≡ true
    → t'.window ≡ t.window
    → t'.want_len ≡ t.want_len
    → t'.mem ≡ write_mem t.mem off bs
    → IsSafe t t'
written-IsSafe t t' off bs z i w l m = record {
  window_kept = w;
  confined = record { awaited = λ n. absurd (n (l ∙ z)) };
  rest_kept = λ x o. ap (λ (f : ℕ → ℕ). f x) m ∙ write_mem-Outside t.window t.mem off bs x i o;
}

-- What the test of a write-and-signal message lets through.
all_passed :
    (a b c d e : Bool)
    → (a || b || c || not d || not e) ≡ false
    → (a ≡ false) × (d ≡ true) × (e ≡ true)
all_passed a b c d e h = ground arith

drop_len : (m : List ℕ) (k n : ℕ) → (length m != k + n) ≡ false → length (drop k m) ≡ n
drop_len m k n h = ground (arith, length-drop k m)

take_write_signal-IsSafe :
    (h : Head) (m : List ℕ) (t : Link)
    → t.want_len ≡ 0
    → IsConfined t
    → IsSafe t (take_write_signal h m t).1
unfolding take_write_signal
take_write_signal-IsSafe h m t z c =
    let soff = if leb ws_head (length m) then of_le (slice head_size 8 m) else 0 in
    elim (Bool-cases (
      length m != ws_head + h.len
      || h.len == 0
      || soff % 8 != 0
      || not (inside t.window h.off h.len)
      || not (inside t.window soff 8))) [
        | inl bad ↦ rw bad (fail-IsSafe Reason.malformed_write_signal t c)
        | inr good ↦
            let bytes = drop ws_head m in
            let (len, first, second) = all_passed _ _ _ _ _ good in
            let i1 : inside t.window h.off (length bytes) ≡ true =
              ap (inside t.window h.off) (drop_len m ws_head h.len len) ∙ first in
            let i2 : inside t.window soff (length (le_bytes 8 h.value)) ≡ true =
              ap (inside t.window soff) (length-le_bytes 8 h.value) ∙ second in
            rw good (record {
              window_kept = refl;
              confined = record { awaited = λ n. absurd (n z) };
              rest_kept = λ x o.
                  write_mem-Outside t.window (write_mem t.mem h.off bytes) soff (le_bytes 8 h.value)
                    x i2 o
                  ∙ write_mem-Outside t.window t.mem h.off bytes x i1 o;
            })
      ]

-- What `refusal` lets through, for each kind.
pub record IsAllowed (h : Head) (n : ℕ) (t : Link) : Type 0 where
  pub kind_known : (1 ≤ h.kind) × (h.kind ≤ 5)
  pub write_inside : h.kind ≡ c_write → inside t.window h.off h.len ≡ true
  pub inline_inside : h.kind ≡ c_inline → inside t.window h.off h.len ≡ true
  pub inline_len : h.kind ≡ c_inline → h.len ≡ n - head_size
  pub signal_inside : h.kind ≡ c_signal → inside t.window h.off 8 ≡ true

refusal-IsAllowed : (h : Head) (n : ℕ) (t : Link) → refusal h n t ≡ none → IsAllowed h n t
unfolding refusal
refusal-IsAllowed h n t r = record {
  kind_known = (ground arith, ground arith);
  write_inside = λ k. ground arith;
  inline_inside = λ k. ground arith;
  inline_len = λ k. ground arith;
  signal_inside = λ k. ground arith;
}

post_send-IsApart :
    (accepts : Provider) (m : List ℕ) (staged payload : ℕ) (t : Link)
    → IsApart t (post_send accepts m staged payload t).1
unfolding post_send
post_send-IsApart accepts m staged payload t =
    elim (Bool-cases (length m == 0 || not (accepts t.tx_posted))) [
      | inl bad ↦ rw bad (poison-IsApart Reason.post_failed t)
      | inr good ↦ rw good (record { window = refl; want_len = refl; want_off = refl; mem = refl })
    ]

send_head-IsApart :
    (accepts : Provider) (kind off len value : ℕ) (bytes : List ℕ) (t : Link)
    → IsApart t (send_head accepts kind off len value bytes t).1
unfolding send_head
send_head-IsApart accepts kind off len value bytes t =
    let m = headed t kind off len value bytes in
    let payload = if kind == c_inline then len else 0 in
    let a = post_send-IsApart accepts m 1 payload t in
    elim (Bool-cases (post_send accepts m 1 payload t).0) [
      | inl ok ↦
          rw ok (record {
            window = a.window;
            want_len = a.want_len;
            want_off = a.want_off;
            mem = a.mem;
          })
      | inr bad ↦ rw bad a
    ]

apply-IsSafe :
    (accepts : Provider) (h : Head) (m : List ℕ) (t : Link)
    → t.want_len ≡ 0
    → IsConfined t
    → head_size ≤ length m
    → IsAllowed h (length m) t
    → IsSafe t (apply accepts h m t).1
unfolding apply
apply-IsSafe accepts h m t z c n a = elim (Bool-cases (h.kind == c_fence)) [
  | inl fence ↦ elim (Bool-cases (not (has_room t 1 1 true))) [
    | inl full ↦
        rw (fence, full)
          (IsApart-IsSafe t t
            (record { window = refl; want_len = refl; want_off = refl; mem = refl }) c)
    | inr free ↦
        let b = send_head-IsApart accepts c_fence_ack 0 0 h.value [] t in
        elim (Bool-cases (send_head accepts c_fence_ack 0 0 h.value [] t).0) [
          | inl ok ↦
              rw (fence, free, ok)
                (IsApart-IsSafe t _
                  (record {
                    window = b.window;
                    want_len = b.want_len;
                    want_off = b.want_off;
                    mem = b.mem;
                  })
                  c)
          | inr bad ↦ rw (fence, free, bad) (IsApart-IsSafe t _ b c)
        ]
  ]
  | inr no_fence ↦ elim (Bool-cases (h.kind == c_inline)) [
    | inl inl_ ↦
        let k = (==_iff h.kind c_inline).0 inl_ in
        let len : length (drop head_size m) ≡ h.len =
          omega (arith, length-drop head_size m, a.inline_len k) in
        rw (no_fence, inl_)
          (written-IsSafe t _ h.off (drop head_size m) z
            (ap (inside t.window h.off) len ∙ a.inline_inside k) refl refl refl)
    | inr no_inline ↦ elim (Bool-cases (h.kind == c_write)) [
      | inl wr ↦
          let k = (==_iff h.kind c_write).0 wr in
          rw (no_fence, no_inline, wr)
            (record {
              window_kept = refl;
              confined = record { awaited = λ n. a.write_inside k };
              rest_kept = λ x o. refl;
            })
      | inr no_write ↦ elim (Bool-cases (h.kind == c_signal)) [
        | inl sig ↦
            let k = (==_iff h.kind c_signal).0 sig in
            rw (no_fence, no_inline, no_write, sig)
              (written-IsSafe t _ h.off (le_bytes 8 h.value) z
                (ap (inside t.window h.off) (length-le_bytes 8 h.value) ∙ a.signal_inside k) refl
                refl refl)
        | inr ack ↦
            rw (no_fence, no_inline, no_write, ack)
              (IsApart-IsSafe t _
                (record { window = refl; want_len = refl; want_off = refl; mem = refl }) c)
      ]
    ]
  ]
]

take_head-IsSafe :
    (accepts : Provider) (count : ℕ) (m : List ℕ) (t : Link)
    → t.want_len ≡ 0
    → head_size ≤ length m
    → IsConfined t
    → IsSafe t (take_head accepts count m t).1
unfolding take_head
take_head-IsSafe accepts count m t z n c =
    let h = head_of m in
    let ours = h.magic == magic && h.seq == t.rx_seq && accepted t.window in
    elim (Bool-cases (ours && h.kind == c_write_signal)) [
      | inl ws ↦ rw ws (take_write_signal-IsSafe h m t z c)
      | inr no_ws ↦
          elim (Bool-cases (ours && (h.kind == 7 || h.kind == 9 || h.kind == 10 || h.kind == 11))) [
            | inl b ↦ rw (no_ws, b) (fail-IsSafe Reason.bonded t c)
            | inr no_b ↦ elim (Bool-cases (count != 1)) [
              | inl many ↦ rw (no_ws, no_b, many) (fail-IsSafe Reason.malformed_head t c)
              | inr one ↦ elim (Option-cases (refusal h (length m) t)) [
                | inr (why, r) ↦ rw (no_ws, no_b, one, r) (fail-IsSafe why t c)
                | inl r ↦
                    rw (no_ws, no_b, one, r)
                      (apply-IsSafe accepts h m t z c n (refusal-IsAllowed h (length m) t r))
              ]
            ]
          ]
    ]

take_message-IsSafe :
    (accepts : Provider) (count : ℕ) (m : List ℕ) (t : Link)
    → IsConfined t
    → IsSafe t (take_message accepts count m t).1
unfolding take_message
take_message-IsSafe accepts count m t c = elim (Bool-cases (t.want_len != 0)) [
  | inl w ↦ rw w (take_bytes-IsSafe m t (ground arith) c)
  | inr nw ↦ elim (Bool-cases (ltb (length m) head_size)) [
    | inl short ↦ rw (nw, short) (fail-IsSafe Reason.malformed_head t c)
    | inr long ↦ rw (nw, long) (take_head-IsSafe accepts count m t (ground arith) (ground arith) c)
  ]
]

IsSafe-trans : (t u v : Link) → IsSafe t u → IsSafe u v → IsSafe t v
IsSafe-trans t u v a b = record {
  window_kept = b.window_kept ∙ a.window_kept;
  confined = b.confined;
  rest_kept = λ x o. b.rest_kept x (rw a.window_kept o) ∙ a.rest_kept x o;
}

stopped_or_on :
    (t u : Link) (v : Taken × Link) (r : Taken)
    → IsSafe t u
    → IsSafe t v.1
    → IsSafe t
        (elim r as (λ _. Taken × Link) [
          | Taken.taken ↦ v
          | Taken.not_yet ↦ (Taken.not_yet, u)
          | Taken.broken ↦ (Taken.broken, u)
        ]).1
stopped_or_on t u v Taken.taken a b = b
stopped_or_on t u v Taken.not_yet a b = a
stopped_or_on t u v Taken.broken a b = a

-- Whatever messages arrive, well formed or not, on a link whose awaited bytes belong in the window that
-- `tb_accept` opened: memory outside the window keeps its contents, the window stays as it is, and what
-- is then awaited belongs in it.
pub take_all-IsSafe :
    (accepts : Provider) (ms : List (List ℕ)) (t : Link)
    → IsConfined t
    → IsSafe t (take_all accepts ms t).1
unfolding take_all
take_all-IsSafe accepts [] t c =
    IsApart-IsSafe t t (record { window = refl; want_len = refl; want_off = refl; mem = refl }) c
take_all-IsSafe accepts (m ∷ ms) t c =
    let s = take_message-IsSafe accepts (packets_of (length m)) m t c in
    let u = (take_message accepts (packets_of (length m)) m t).1 in
    elim (Bool-cases (is_poisoned t)) [
      | inl gone ↦ rw gone (
          IsApart-IsSafe t t
            (record { window = refl; want_len = refl; want_off = refl; mem = refl }) c)
      | inr sound ↦
          rw sound (
            stopped_or_on t u _ _ s
              (IsSafe-trans t u _ s (take_all-IsSafe accepts ms u s.confined)))
    ]
