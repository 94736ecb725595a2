-- ===== src/Core/Command/Lease.antt =====
-- core/cx5_protocol.cpp: `CommandLease`, the owner of the one command slot.
use mcdma.Prelude.{
  ℕ, ◌≡◌, ◌≢◌, Bool, true, false, List, [], ◌∷◌, ◌==◌, ◌!=◌, if◌then◌else◌, Option, none, some,
}
use mcdma.Core.Command.{Error, ok, poisoned, busy, invalid_token, token_mismatch}

-- `CommandLease::State`
pub data State : Type 0 where
  idle : State
  submitted : State
  quarantined : State

-- `CommandLease`
pub record Lease : Type 0 where
  pub state : State
  pub token : ℕ

abbrev pub new_lease : Lease
new_lease = record { state = idle; token = 0 }

-- `begin`
unfoldable pub begin : Lease → ℕ → Error × Lease
begin l t = elim l.state [
  | quarantined ↦ (poisoned, l)
  | submitted ↦ (busy, l)
  | idle ↦ if t == 0 then (invalid_token, l) else (ok, record { state = submitted; token = t })
]

-- `finish`
unfoldable pub finish : Lease → ℕ → Error × Lease
finish l t = elim l.state [
  | quarantined ↦ (poisoned, l)
  | idle ↦ (busy, l)
  | submitted ↦
      if t != l.token
      then (token_mismatch, record l { state = quarantined })
      else (ok, record l { state = idle })
]

-- `timeout`
unfoldable pub time_out : Lease → Lease
time_out l = elim l.state [ submitted ↦ record l { state = quarantined } | _ ↦ l ]

-- `releasable`
abbrev pub releasable : Lease → Bool
releasable l = elim l.state [ idle ↦ true | _ ↦ false ]

-- A call of the driver.
pub data LeaseCall : Type 0 where
  beginning : ℕ → LeaseCall
  finishing : ℕ → LeaseCall
  timing_out : LeaseCall

-- The lease after one call.
unfoldable pub after : Lease → LeaseCall → Lease
after l (beginning t) = (begin l t).1
after l (finishing t) = (finish l t).1
after l timing_out = time_out l

unfoldable pub after_all : Lease → List LeaseCall → Lease
after_all l [] = l
after_all l (c ∷ cs) = after_all (after l c) cs

-- The token of a command that the device may still answer, kept from what the calls returned:
-- a `begin` that succeeds hands one out and a `finish` that succeeds takes it back.
unfoldable pub outstanding : Option ℕ → Lease → LeaseCall → Option ℕ
outstanding o l (beginning t) = elim (begin l t).0 [ ok ↦ some t | _ ↦ o ]
outstanding o l (finishing t) = elim (finish l t).0 [ ok ↦ none | _ ↦ o ]
outstanding o l timing_out = o

unfoldable pub outstanding_all : Option ℕ → Lease → List LeaseCall → Option ℕ
outstanding_all o l [] = o
outstanding_all o l (c ∷ cs) = outstanding_all (outstanding o l c) (after l c) cs

-- What the lease knows of the outstanding command.
abbrev pub Knows : Lease → Option ℕ → Type 0
Knows l o = elim l.state [ idle ↦ o ≡ none | _ ↦ (o ≡ some l.token) × (l.token ≢ 0) ]
