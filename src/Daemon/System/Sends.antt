-- ===== src/Daemon/System/Sends.antt =====
-- What holds of every datagram of a list: the datagrams that an operation sends, or all that were ever sent.
use mathlib.Core.Path.{subst}
use mathlib.Core.List.{Memᴰ}
use mathlib.Core.List.Memᴰ
use mcdma.Prelude.{Bool, true, List, [], ◌∷◌, ◌++◌, if◌then◌else◌, ◌≡◌, sym, inl, inr, if_lem}
use mcdma.Daemon.{Datagram}

abbrev pub Sends : (Datagram → Type 0) → List Datagram → Type 0
Sends P l = (d : Datagram) → Memᴰ d l → P d

pub Sends-none : (P : Datagram → Type 0) → Sends P []
Sends-none P d m = absurd (Memᴰ.not-nil m)

pub Sends-one : (P : Datagram → Type 0) {e : Datagram} → P e → Sends P (e ∷ [])
Sends-one P p d m = subst P (sym (Memᴰ.eq_of_singleton m)) p

pub Sends-both :
    (P : Datagram → Type 0) (a : List Datagram) {b : List Datagram}
    → Sends P a
    → Sends P b
    → Sends P (a ++ b)
Sends-both P a p q d m = elim (Memᴰ.append_cases a m) [ inl m' ↦ p d m' | inr m' ↦ q d m' ]

pub Sends-if :
    (P : Datagram → Type 0) (b : Bool) {e : Datagram}
    → (b ≡ true → P e)
    → Sends P (if b then e ∷ [] else [])
Sends-if P b p = if_lem (Sends P) b (λ t. Sends-one P (p t)) (λ _. Sends-none P)
