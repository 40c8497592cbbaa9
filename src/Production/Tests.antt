-- ===== src/Production/Tests.antt =====
-- A failover, and the restore of two events.
use aegis_framework_platform.Base.{
  ℕ, ◌+◌, ◌≡◌, ◌≢◌, refl, true, [], ◌∷◌, string_eq, length, contains, all_distinct, policy_denied,
  ok, err,
}
use aegis_framework_platform.Base.Dict.{get, put}
use aegis_framework_platform.Runtime.Plain.{plain, clean}
use aegis_framework_platform.Production.{
  RegionTopology, validate_regions, FailoverAuthorization, validate_generation, ActiveRegion,
  authorize_failover, RestoreLedgerEvent, RestoreVerification, zero_hash, calculated_hash,
  restore_event, verify_restored_ledger,
}
use aegis_framework_platform.Production.Failover.{failover_fenced, failover_once}
use aegis_framework_platform.Production.Restore.{IsRestored, IsRestored-sound, IsRestored-complete}

abbrev topology : ℕ → RegionTopology
topology generation = record {
  home_region = "eu-west-1";
  writer_region = "eu-west-1";
  standby_regions = "eu-central-1" ∷ [];
  generation = generation;
}

abbrev authorization : FailoverAuthorization
authorization = record {
  source_region = "eu-west-1";
  target_region = "eu-central-1";
  expected_generation = 4;
  next_generation = 5;
  approval_ref = "ap";
  fence_digest = "d";
}

abbrev active : ActiveRegion
active = record { region = "eu-central-1"; generation = 5; previous_home_region = "eu-west-1" }

topology_test : validate_regions (topology 4) ≡ ok tt
unfolding validate_regions contains all_distinct
topology_test = refl

authorization_test : validate_generation authorization ≡ ok tt
unfolding validate_generation
authorization_test = refl

failover_test : authorize_failover (topology 4) authorization ≡ ok active
unfolding authorize_failover contains
failover_test = refl

failover_fenced_example :
    (active.generation ≡ (topology 4).generation + 1)
    × (contains active.region (topology 4).standby_regions ≡ true)
    × (active.region ≢ (topology 4).writer_region)
    × (active.previous_home_region ≡ (topology 4).writer_region)
failover_fenced_example =
    failover_fenced (topology 4) authorization active topology_test authorization_test failover_test

failover_once_example : authorize_failover (topology 5) authorization ≡ err policy_denied
failover_once_example =
    failover_once (topology 4) authorization active topology_test authorization_test failover_test
      (topology 5) refl

abbrev first : RestoreLedgerEvent
first = record {
  cursor = 1;
  aggregate_id = "run";
  aggregate_sequence = 1;
  aggregate_previous_hash = zero_hash;
  tenant_previous_hash = zero_hash;
  payload_digest = "p";
  record_hash = "{}";
}

abbrev second : RestoreLedgerEvent
second = record first {
  cursor = 2;
  aggregate_sequence = 2;
  aggregate_previous_hash = "{}";
  tenant_previous_hash = "{}";
}

abbrev verified : RestoreVerification
verified = record { event_count = 2; aggregate_count = 1; last_cursor = 2; last_tenant_hash = "{}" }

restore_test : verify_restored_ledger plain (first ∷ second ∷ []) ≡ ok verified
unfolding verify_restored_ledger restore_event calculated_hash get put clean
restore_test = refl

IsRestored-sound_example :
    IsRestored plain [] (first ∷ second ∷ [])
    × (verified.event_count ≡ length (first ∷ second ∷ []))
    × (verified.last_cursor ≡ length (first ∷ second ∷ []))
IsRestored-sound_example = IsRestored-sound plain (first ∷ second ∷ []) verified restore_test

IsRestored-complete_example :
    (v : RestoreVerification) × (verify_restored_ledger plain (first ∷ second ∷ []) ≡ ok v)
IsRestored-complete_example =
    IsRestored-complete plain first (second ∷ [])
      (IsRestored-sound plain (first ∷ second ∷ []) verified restore_test).0
