-- ===== src/Daemon/System/Listening.antt =====
-- What each operation of the listen end, rpc/rpcd_listen.c, may do to the link: leave its queue pair, sessions
-- and offer as they are, drop the session, or accept an offer.
use mcdma.Prelude.{
  ℕ, ◌+◌, ◌-◌, Bool, true, false, not, ◌&&◌, ◌||◌, List, [], ◌∷◌, ltb, ◌==◌, ◌!=◌, if◌then◌else◌,
  ◌≡◌, refl, sym, ◌∙◌, if_lem, both_left,
}
use mathlib.Core.Path.{subst}
use mcdma.Wire.{no_info}
use mcdma.Daemon.{
  Kind, handshake_ns, resend_ns, liveness_ns, ctrl, word_seq, word_len, Datagram, listen, err, bye,
  ping, pong, offer, strange, Setup, answer, is_offer,
}
use mcdma.Daemon.Listen.{
  Listener, listen_drop, listen_current, listen_timeouts, attach, progress_failed, listen_reply,
  listen_staged,
}
use mcdma.Daemon.System.Sends.{Sends, Sends-none, Sends-one, Sends-if}

abbrev pub Same : Listener → Listener → Type 0
Same s s' =
    (s'.hello ≡ s.hello)
    × (s'.qp ≡ s.qp)
    × (s'.session ≡ s.session)
    × (s'.peer_session ≡ s.peer_session)
    × (s'.reply ≡ s.reply)

-- a datagram of the listen end that is not an offer
pub record IsPlain (session : ℕ) (d : Datagram) : Type 0 where
  pub from : d.from ≡ session
  pub kind : is_offer d ≡ false
  pub role : d.role ≡ listen

pub data Own (s : Listener) (d : Datagram) : Type 0 where
  plain : IsPlain s.session d → Own s d
  reply : s.hello ≡ true → d ≡ s.reply → Own s d

-- A listener is armed by a session that it holds.
abbrev pub IsSound : Listener → Type 0
IsSound s = s.armed ≡ true → s.hello ≡ true

pub data Effect (s : Listener) (r : Listener × List Datagram) : Type 0 where
  kept : Same s r.0 → IsSound r.0 → Sends (Own s) r.1 → Effect s r
  dropped :
      r.0.hello ≡ false
      → r.0.armed ≡ false
      → r.0.session ≡ s.session
      → Sends (IsPlain s.session) r.1
      → Effect s r

pub Same-refl : (s : Listener) → Same s s
Same-refl s = (refl, refl, refl, refl, refl)

pub idles : (s : Listener) → IsSound s → Effect s (s, [])
idles s sound = kept (Same-refl s) sound (Sends-none (Own s))

pub plainly : (session to : ℕ) → IsPlain session (answer session to bye listen no_info)
plainly session to = record { from = refl; kind = refl; role = refl }

pub listen_drop-IsPlain : (s : Listener) → Sends (IsPlain s.session) (listen_drop s).1
unfolding listen_drop
listen_drop-IsPlain s =
    Sends-if (IsPlain s.session) (s.peer_session != 0) (λ _. plainly s.session s.peer_session)

pub listen_drop-effect : (s : Listener) → Effect s (listen_drop s)
unfolding listen_drop
listen_drop-effect s = dropped refl refl refl (listen_drop-IsPlain s)

-- The counters and the mailbox's words are beside the point.
pub effect-same :
    {s s' : Listener} {r : Listener × List Datagram} → Same s s' → Effect s' r → Effect s r
effect-same {s} {s'} {r} (hello, qp, session, peer, reply') f = elim f [
  | kept (hello', qp', session', peer', reply'') sound own ↦
      kept (hello' ∙ hello, qp' ∙ qp, session' ∙ session, peer' ∙ peer, reply'' ∙ reply') sound
        (λ d m. elim (own d m) [
          | plain p ↦ plain (subst (λ n. IsPlain n d) session p)
          | reply h e ↦ reply (sym hello ∙ h) (e ∙ reply')
        ])
  | dropped h a e sent ↦ dropped h a (e ∙ session) (subst (λ n. Sends (IsPlain n) r.1) session sent)
]

pub listen_timeouts-effect : (now : ℕ) (s : Listener) → IsSound s → Effect s (listen_timeouts now s)
unfolding listen_timeouts
listen_timeouts-effect now s sound =
    if_lem (Effect s) (s.hello && not s.armed && ltb handshake_ns (now - s.hello_since))
      (λ _. listen_drop-effect s)
      (λ _.
        if_lem (Effect s) (s.hello && not s.armed && ltb resend_ns (now - s.offered))
          (λ h. kept (Same-refl s) sound (
            Sends-one (Own s) (
              reply (both_left s.hello (not s.armed) (both_left (s.hello && not s.armed) _ h))
                refl)))
          (λ _.
            if_lem (Effect s) (s.armed && ltb liveness_ns (now - s.heard))
              (λ _. listen_drop-effect s) (λ _. idles s sound)))

pub attach-effect : (s : Listener) → IsSound s → Effect s (attach s, [])
unfolding attach
attach-effect s sound =
    if_lem (λ s'. Effect s (s', [])) s.attached (λ _. idles s sound)
      (λ _. kept (Same-refl s) sound (Sends-none (Own s)))

pub progress_failed-effect : (s : Listener) → IsSound s → Effect s (progress_failed s)
unfolding progress_failed
progress_failed-effect s sound =
    if_lem (Effect s) s.hello
      (λ _. effect-same (Same-refl s) (listen_drop-effect (record s { failures = s.failures + 1 })))
      (λ _. idles s sound)

listen_reply-Same :
    (lands : Bool) (seq len : ℕ) (s : Listener)
    → Same s (listen_reply lands seq len s).1 × ((listen_reply lands seq len s).1.armed ≡ s.armed)
unfolding listen_reply
listen_reply-Same lands seq len s =
    if_lem (λ (r : Bool × Listener). Same s r.1 × (r.1.armed ≡ s.armed)) lands
      (λ _. (Same-refl s, refl)) (λ _. (Same-refl s, refl))

pub listen_staged-effect :
    (b : Setup) (lands : Bool) (s : Listener) → IsSound s → Effect s (listen_staged b lands s)
unfolding listen_staged
listen_staged-effect b lands s sound =
    let taken : Listener = record s { last_staged = word_seq s.staged_word } in
    let r : Bool × Listener =
      listen_reply lands (word_seq s.staged_word) (word_len s.staged_word) taken in
    let (same, armed) =
      listen_reply-Same lands (word_seq s.staged_word) (word_len s.staged_word) taken in
    let after : Same s r.1 = same in
    let long : Bool = ltb (b.rep - ctrl) (word_len s.staged_word) in
    let lost : Listener = if long then taken else r.1 in
    let lost-same : Same s lost = if_lem (Same s) long (λ _. Same-refl s) (λ _. after) in
    if_lem (Effect s)
      (not (s.attached && s.armed)
        || word_seq s.staged_word == 0
        || word_seq s.staged_word == s.last_staged)
      (λ _. idles s sound)
      (λ _.
        if_lem (Effect s) (long || not r.0)
          (λ _.
            effect-same lost-same
              (listen_drop-effect (record lost { failures = lost.failures + 1 })))
          (λ _. kept after (λ a. same.0 ∙ sound (sym armed ∙ a)) (Sends-none (Own s))))

pub current-kind :
    (k : Kind) (m : Datagram) (s : Listener)
    → m.kind ≡ k
    → s.hello ≡ true
    → Effect s (listen_current m s)
unfolding listen_current
current-kind offer m s e h = rw (e) (
    if_lem (λ (s' : Listener). Effect s (s', if s'.armed then [] else s.reply ∷ [])) m.have
      {x = record s { armed = true }} {y = s}
      (λ _. kept (Same-refl s) (λ _. h) (Sends-none (Own s)))
      (λ _.
        kept (Same-refl s) (λ _. h)
          (if_lem (Sends (Own s)) s.armed (λ _. Sends-none (Own s))
            (λ _. Sends-one (Own s) (reply h refl)))))
current-kind ping m s e h = rw (e) (
    kept (Same-refl s) (λ _. h)
      (Sends-one (Own s) (plain (record { from = refl; kind = refl; role = refl }))))
current-kind bye m s e h = rw (e) (listen_drop-effect s)
current-kind err m s e h = rw (e) (listen_drop-effect s)
current-kind pong m s e h = rw (e) (idles s (λ _. h))
current-kind strange m s e h = rw (e) (idles s (λ _. h))
