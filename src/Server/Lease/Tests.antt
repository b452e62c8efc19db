-- ===== src/Server/Lease/Tests.antt =====
-- The chain lease with two tasks.
use perfect_weather_predicti.Prelude.{
  ◌≡◌, ◌≢◌, refl, false, none, some, List, [], ◌∷◌, str_eq, eq_iff, arith,
}
use perfect_weather_predicti.Server.Lease.{
  Lease, Request, Visit, poll, lease_status, acquire, visit_answer, acquired, release,
}
use perfect_weather_predicti.Server.Lease.Exclusion.{
  Operation, polled, released, no_more, and_then, perform_all, lease_excludes_others,
  released_lease_is_free,
}

abbrev bets : Lease
bets = record { owner = "bets"; kind = "bet"; expires_at_unix_ms = 1_000 }

abbrev claims : Request
claims = record { owner = "claims"; kind = "claim"; hold_ms = 500 }

abbrev attempts : List Operation
attempts = polled 100 100 claims ∷ released 200 "claims" ∷ polled 999 999 claims ∷ []

abbrev visits : List Visit
visits =
    record { tested_at = 900; checked_at = 900; set_at = 900; lease = some bets }
    ∷ record { tested_at = 1_150; checked_at = 1_150; set_at = 1_150; lease = some bets }
    ∷ []

differ : str_eq "bets" "claims" ≡ false
differ = refl

others : bets.owner ≢ claims.owner
others e = ground (arith, eq_iff "bets" "claims", differ, e)

lease_excludes_others_example : perform_all attempts (some bets) ≡ some bets
lease_excludes_others_example = lease_excludes_others attempts bets (
    and_then (omega arith) others
      (and_then (omega arith) others (and_then (omega arith) others no_more)))

-- The second visit finds that the lease has expired.
second_visit_grants :
    acquire 2_000 claims visits
    ≡ acquired (record { owner = "claims"; kind = "claim"; expires_at_unix_ms = 1_650 })
unfolding acquire visit_answer poll lease_status
second_visit_grants = refl

released_lease_is_free_example : poll 300 300 claims (release 200 "bets" (some bets)) ≢ none
released_lease_is_free_example = released_lease_is_free 200 300 300 bets claims
