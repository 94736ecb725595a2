-- ===== src/Bond/Signals/Calls.antt =====
-- What the links' threads may call on a bonded peer of rpc/libmcdma_fabric.c, with the sender's whole counts.
use mcdma.Prelude.{ℕ, ◌+◌, ◌*◌, ◌%◌, ◌^◌, ◌≤◌, ◌<◌, ◌≡◌, List, [], ◌∷◌, map, refl, ap₂, get_or}
use mcdma.Bond.Signals.{bond_signals, Signal, Peer, Call, signals, places, act, widen_all}
use mcdma.Bond.Signals.Widen.{widen_lem}

-- What reaches a link of a call with the sender's whole counts: a frame holds the low 32 bits of each.
abbrev pub arriving : Call → Call
arriving (signals seq need off value) = signals seq (map (λ c. c % 2 ^ 32) need) off value
arriving (places lane count) = places lane count

-- The call that sent a signal.
abbrev pub call_of : Signal → Call
call_of s = signals s.seq s.need s.off s.value

-- The sender's count of each link's writes, against this end's: less than 2^31 ahead, at most 2^31 behind.
pub data AreNear : List ℕ → List ℕ → Type 0 where
  no_links : AreNear [] []
  link :
      {near count : ℕ} {nears counts : List ℕ}
      → near < 2 ^ 64
      → count < 2 ^ 64
      → count < near + 2 ^ 31
      → near ≤ count + 2 ^ 31
      → AreNear nears counts
      → AreNear (near ∷ nears) (count ∷ counts)

pub widen_all-counts :
    {nears counts : List ℕ}
    → AreNear nears counts
    → widen_all nears (map (λ c. c % 2 ^ 32) counts) ≡ counts
widen_all-counts no_links = refl
widen_all-counts (link {near} {count} n c ahead behind rest) =
    ap₂ (λ (x : ℕ) (xs : List ℕ). x ∷ xs) (widen_lem near count c n ahead behind)
      (widen_all-counts rest)

-- What a link may report: a number that does not fall, and a signal's number far from where 64 bits end, with counts
-- that are near this end's.
abbrev pub IsLegal : Call → Peer → Type 0
IsLegal (signals seq need off value) p = (seq + 2 * bond_signals < 2 ^ 64) × AreNear p.placed need
IsLegal (places lane count) p = get_or p.placed lane 0 ≤ count

abbrev pub AreLegal : List Call → Peer → Type 0
AreLegal [] p = Unit
AreLegal (c ∷ cs) p = IsLegal c p × AreLegal cs (act (arriving c) p)
