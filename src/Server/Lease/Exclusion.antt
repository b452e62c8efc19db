-- ===== src/Server/Lease/Exclusion.antt =====
-- The lease on the chain, among several tasks (src/marketplace-server.ts, lines 505 to 542).
use perfect_weather_predicti.Prelude.{
  ℕ, ◌≤◌, ◌<◌, ◌≡◌, ◌≢◌, ◌⊎◌, ◌↔◌, inl, inr, refl, sym, subst, Bool-cases, true, false, leb, Option,
  none, some, List, [], ◌∷◌, String, eq_iff, arith,
}
use perfect_weather_predicti.Server.Lease.{
  Lease, Request, Visit, Acquired, acquired, busy, waiting, kind_of, lease_status, poll, acquire,
  visit_answer, release,
}

-- What a request does with the lease, at a time: a visit of the loop (the one that grants, and the
-- one that does not), or a release.
pub data Operation : Type 0 where
  polled : (checked_at set_at : ℕ) → Request → Operation
  released : (now : ℕ) → String → Operation

abbrev pub time_of : Operation → ℕ
time_of (polled checked_at set_at r) = checked_at
time_of (released now owner) = now

abbrev pub actor_of : Operation → String
actor_of (polled checked_at set_at r) = r.owner
actor_of (released now owner) = owner

abbrev or_else : Option Lease → Option Lease → Option Lease
or_else none other = other
or_else (some l) other = some l

-- The lease after the operation.
unfoldable pub perform : Operation → Option Lease → Option Lease
perform (polled checked_at set_at r) lease =
    or_else (poll checked_at set_at r lease) (lease_status checked_at lease)
perform (released now owner) lease = release now owner lease

unfoldable pub perform_all : List Operation → Option Lease → Option Lease
perform_all [] lease = lease
perform_all (op ∷ ops) lease = perform_all ops (perform op lease)

-- Every operation is another owner's, before the time given.
pub data AreOthers (owner : String) (until : ℕ) : List Operation → Type 0 where
  no_more : AreOthers owner until []
  and_then :
      {op : Operation} {ops : List Operation}
      → time_of op < until
      → owner ≢ actor_of op
      → AreOthers owner until ops
      → AreOthers owner until (op ∷ ops)

-- A visit of the loop grants the lease exactly where there is none, it has expired, or it is the
-- asking owner's; and what it grants is held from then on by that owner.
pub poll_grants_iff :
    (checked_at set_at : ℕ) (r : Request) (l : Lease)
    → ((poll checked_at set_at r (some l) ≢ none)
        ↔ ((l.expires_at_unix_ms ≤ checked_at) ⊎ (l.owner ≡ r.owner)))
unfolding poll lease_status
poll_grants_iff checked_at set_at r l = ground (arith, eq_iff l.owner r.owner)

perform_other :
    (op : Operation) (l : Lease)
    → time_of op < l.expires_at_unix_ms
    → l.owner ≢ actor_of op
    → perform op (some l) ≡ some l
unfolding perform poll release lease_status
perform_other (polled checked_at set_at r) l before other = ground (arith, eq_iff l.owner r.owner)
perform_other (released now owner) l before other = ground (arith, eq_iff l.owner owner)

-- Until it expires, no sequence of operations of other owners takes a lease away or changes it.
pub lease_excludes_others :
    (ops : List Operation) (l : Lease)
    → AreOthers l.owner l.expires_at_unix_ms ops
    → perform_all ops (some l) ≡ some l
unfolding perform_all
lease_excludes_others [] l no_more = refl
lease_excludes_others (op ∷ ops) l (and_then before other rest) =
    subst (λ lease. perform_all ops lease ≡ some l) (sym (perform_other op l before other))
      (lease_excludes_others ops l rest)

pub data Some (P : Visit → Type 0) : List Visit → Type 0 where
  here : {v : Visit} {visits : List Visit} → P v → Some P (v ∷ visits)
  there : {v : Visit} {visits : List Visit} → Some P visits → Some P (v ∷ visits)

-- The visit is in time and the loop's body grants the lease there.
abbrev pub Grants : (deadline : ℕ) → Request → Lease → Visit → Type 0
Grants deadline r l v = (v.tested_at ≤ deadline) × (poll v.checked_at v.set_at r v.lease ≡ some l)

-- What an answer of the loop says of its visits.
abbrev pub Explains : (deadline : ℕ) → Request → List Visit → Acquired → Type 0
Explains deadline r visits (acquired l) = Some (Grants deadline r l) visits
Explains deadline r visits (busy kind) = Some (λ v. deadline < v.tested_at) visits
Explains deadline r visits waiting = Unit {0}

later :
    (deadline : ℕ) (r : Request) (v : Visit) (visits : List Visit) (answer : Acquired)
    → Explains deadline r visits answer
    → Explains deadline r (v ∷ visits) answer
later deadline r v visits (acquired l) explained = there explained
later deadline r v visits (busy kind) explained = there explained
later deadline r v visits waiting explained = explained

-- The answer of a visit in time, and of one that is late.
in_time :
    (deadline : ℕ) (r : Request) (v : Visit) (found : Option Lease) (rest : Acquired)
    → leb v.tested_at deadline ≡ true
    → visit_answer deadline r v found rest ≡ elim found [ none ↦ rest | some l ↦ acquired l ]
unfolding visit_answer
in_time deadline r v none rest h = ground arith
in_time deadline r v (some l) rest h = ground arith

late :
    (deadline : ℕ) (r : Request) (v : Visit) (found : Option Lease) (rest : Acquired)
    → leb v.tested_at deadline ≡ false
    → visit_answer deadline r v found rest ≡ busy (kind_of (lease_status v.checked_at v.lease))
unfolding visit_answer
late deadline r v none rest h = ground arith
late deadline r v (some l) rest h = ground arith

visited_in_time :
    (deadline : ℕ) (r : Request) (v : Visit) (visits : List Visit)
    → (found : Option Lease) (rest : Acquired) → poll v.checked_at v.set_at r v.lease ≡ found
    → Explains deadline r visits rest
    → v.tested_at ≤ deadline
    → Explains deadline r (v ∷ visits) (elim found [ none ↦ rest | some l ↦ acquired l ])
visited_in_time deadline r v visits none rest found explained before =
    later deadline r v visits rest explained
visited_in_time deadline r v visits (some l) rest found explained before = here (before, found)

visited :
    (deadline : ℕ) (r : Request) (v : Visit) (visits : List Visit)
    → (found : Option Lease) (rest : Acquired) → poll v.checked_at v.set_at r v.lease ≡ found
    → Explains deadline r visits rest
    → Explains deadline r (v ∷ visits) (visit_answer deadline r v found rest)
visited deadline r v visits found rest grants explained =
    elim (Bool-cases (leb v.tested_at deadline)) [
      | inl t ↦
          subst (Explains deadline r (v ∷ visits)) (sym (in_time deadline r v found rest t))
            (visited_in_time deadline r v visits found rest grants explained (ground arith))
      | inr f ↦
          subst (Explains deadline r (v ∷ visits)) (sym (late deadline r v found rest f))
            (here (ground arith))
    ]

-- The loop of `acquireChainMutationLease` returns only after a visit within its deadline that
-- granted the lease, and it gives up only after one past the deadline.
pub acquire-Explains :
    (deadline : ℕ) (r : Request) (visits : List Visit)
    → Explains deadline r visits (acquire deadline r visits)
unfolding acquire
acquire-Explains deadline r [] = tt
acquire-Explains deadline r (v ∷ visits) =
    visited deadline r v visits _ _ refl (acquire-Explains deadline r visits)

-- After its owner has released the lease, a visit of any other task is granted it.
pub released_lease_is_free :
    (now checked_at set_at : ℕ) (l : Lease) (r : Request)
    → poll checked_at set_at r (release now l.owner (some l)) ≢ none
unfolding poll release lease_status
released_lease_is_free now checked_at set_at l r = ground (arith, eq_iff l.owner l.owner)
