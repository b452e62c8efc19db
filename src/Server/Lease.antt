-- ===== src/Server/Lease.antt =====
-- src/marketplace-server.ts, lines 505 to 557: the lease under which one task at a time sends
-- transactions to the chain. `Date.now()` is an argument wherever it is read. Between two visits of
-- the loop in `acquireChainMutationLease`, while it sleeps, other requests may change the lease, so a
-- visit brings the lease that it finds.
mod Exclusion
mod Tests
use perfect_weather_predicti.Prelude.{
  ℕ, ◌+◌, Bool, true, false, Option, none, some, List, [], ◌∷◌, String, str_eq, leb, if◌then◌else◌,
}

pub record Lease : Type 0 where
  pub owner : String
  pub kind : String
  pub expires_at_unix_ms : ℕ

-- The parameters of `acquireChainMutationLease`, less `waitMs`.
pub record Request : Type 0 where
  pub owner : String
  pub kind : String
  pub hold_ms : ℕ

-- `getChainMutationLeaseStatus`: the lease after the call, which it also returns.
unfoldable pub lease_status : (now : ℕ) → Option Lease → Option Lease
lease_status now none = none
lease_status now (some l) = if leb l.expires_at_unix_ms now then none else some l

-- `!current || current.owner === params.owner`
abbrev pub is_free_for : String → Option Lease → Bool
is_free_for owner none = true
is_free_for owner (some l) = str_eq l.owner owner

abbrev granted : Request → (now : ℕ) → Lease
granted r now = record { owner = r.owner; kind = r.kind; expires_at_unix_ms = now + r.hold_ms }

-- The body of the loop: the lease that it grants, if any. `checked_at` is read by the status, and
-- `set_at` by the lease.
unfoldable pub poll : (checked_at set_at : ℕ) → Request → Option Lease → Option Lease
unfolding lease_status
poll checked_at set_at r lease =
    if is_free_for r.owner (lease_status checked_at lease) then some (granted r set_at) else none

-- A visit of the loop: the readings of the clock, and the lease that other requests have left.
pub record Visit : Type 0 where
  pub tested_at : ℕ
  pub checked_at : ℕ
  pub set_at : ℕ
  pub lease : Option Lease

-- `busy` is the thrown error, with the kind of the lease in the way; `waiting` is a loop that has had
-- the visits given, and sleeps.
pub data Acquired : Type 0 where
  acquired : Lease → Acquired
  busy : Option String → Acquired
  waiting : Acquired

abbrev pub kind_of : Option Lease → Option String
kind_of none = none
kind_of (some l) = some l.kind

unfoldable pub visit_answer :
    (deadline : ℕ) → Request → Visit → (granted : Option Lease) → Acquired → Acquired
unfolding lease_status
visit_answer deadline r v (some l) rest =
    if leb v.tested_at deadline
    then acquired l
    else busy (kind_of (lease_status v.checked_at v.lease))
visit_answer deadline r v none rest =
    if leb v.tested_at deadline then rest else busy (kind_of (lease_status v.checked_at v.lease))

-- The loop of `acquireChainMutationLease`, `deadline` being its start plus `waitMs`.
unfoldable pub acquire : (deadline : ℕ) → Request → List Visit → Acquired
unfolding poll visit_answer
acquire deadline r [] = waiting
acquire deadline r (v ∷ visits) =
    let rest = acquire deadline r visits in
    visit_answer deadline r v (poll v.checked_at v.set_at r v.lease) rest

-- `releaseChainMutationLease`
unfoldable pub release : (now : ℕ) → String → Option Lease → Option Lease
unfolding lease_status
release now owner lease =
    let current = lease_status now lease in
    elim current [ none ↦ none | some l ↦ if str_eq l.owner owner then none else some l ]
