-- ===== src/Remediation/Tests.antt =====
-- The ledger's theorems at a plan of three facts.
use aegis_framework_platform.Base.{
  ℕ, String, ◌≡◌, refl, ◌≢◌, true, [], ◌∷◌, some, none, string_eq, pair_eq, ok, err, or_raise,
  integrity_failure, idempotency_conflict,
}
use aegis_framework_platform.Base.Dict.{get, put}
use aegis_framework_platform.Runtime.{Runtime, Payload, text, is_identifier, is_sha256, json_str}
use aegis_framework_platform.Remediation.{
  RemediationFactType, RemediationFact, RemediationProjection, canonical_digest, proposal_recorded,
  approval_requested, approval_granted, proposed, approved,
}
use aegis_framework_platform.Remediation.Reduce.{reduce_remediation}
use aegis_framework_platform.Remediation.Reduce.Safety.{any_grant}
use aegis_framework_platform.Remediation.Ledger.{
  Ledger, empty, Command, command_key, facts_at, last_digest, append, projection, rebuild, plan_key,
  build_fact,
}
use aegis_framework_platform.Remediation.Ledger.Replay.{
  LedgerReach, start, after, rebuild_agrees, stored_effects_need_grant,
}
use aegis_framework_platform.Remediation.Ledger.Commands.{input_of, append_once}

abbrev digest : String
digest = "aaaaaaaaaaaaaaaaaaaaaaaaaaaaaaaaaaaaaaaaaaaaaaaaaaaaaaaaaaaaaaaa"

-- A runtime whose every digest is the same.
abbrev plain : Runtime
plain = record {
  sha256_hex = λ s. digest;
  canonical_json = λ j. "{}";
  python_str = λ j. "?";
  isoformat = λ n. "1970";
}

abbrev command : String → ℕ → RemediationFactType → Payload → Command
command command_id expected_version fact_type payload = record {
  tenant_id = "a";
  plan_id = "plan";
  expected_version = expected_version;
  fact_type = fact_type;
  command_id = command_id;
  actor_ref = "ann";
  recorded_at = 7;
  payload = payload;
}

abbrev propose : Command
propose =
    command "c1" 0 proposal_recorded
      (("run_id", text "run") ∷ ("plan_digest", text digest) ∷ ("fence_token", text "f") ∷ [])

abbrev request : Command
request =
    command "c2" 1 approval_requested
      (("approval_id", text "ap") ∷ ("approval_digest", text digest) ∷ [])

abbrev grant : Command
grant = command "c3" 2 approval_granted []

abbrev one_fact : Ledger
one_fact = (append plain propose empty).1

abbrev granted : Ledger
granted = (append plain grant (append plain request one_fact).1).1

granted-reached : LedgerReach plain empty granted
granted-reached = after grant (after request (after propose start))

abbrev key : String × String
key = ("a", "plan")

abbrev first_view : RemediationProjection
first_view = record {
  tenant_id = "a";
  plan_id = "plan";
  run_id = "run";
  status = proposed;
  version = 1;
  plan_digest = digest;
  approval_id = none;
  approval_digest = none;
  effect_receipt_digest = none;
  verification_digest = none;
  fence_token = "f";
  last_fact_digest = digest;
  updated_at = 7;
}

abbrev granted_view : RemediationProjection
granted_view = record first_view {
  status = approved;
  version = 3;
  approval_id = some "ap";
  approval_digest = some digest;
}

propose_test : (append plain propose empty).0 ≡ ok first_view
unfolding append get put reduce_remediation build_fact last_digest or_raise is_identifier is_sha256
    json_str canonical_digest aegis_framework_platform.Remediation.Ledger.is_invalid
    aegis_framework_platform.Runtime.all_identifiers
propose_test = refl

granted_test : projection granted key ≡ some granted_view
unfolding append get put reduce_remediation build_fact last_digest or_raise is_identifier is_sha256
    json_str canonical_digest aegis_framework_platform.Remediation.Ledger.is_invalid
    aegis_framework_platform.Runtime.all_identifiers
granted_test = refl

rebuild_agrees_example :
    rebuild plain granted key ≡ or_raise (projection granted key) integrity_failure
rebuild_agrees_example = rebuild_agrees plain granted granted-reached key

stored_effects_need_grant_example : any_grant (facts_at granted key) ≡ true
stored_effects_need_grant_example =
    stored_effects_need_grant plain granted granted-reached key granted_view granted_test refl

append_once_example :
    ((q : RemediationProjection) × (projection granted (plan_key propose) ≡ some q)
      × (append plain propose granted ≡ (ok q, granted)))
    × ((d : Command)
        → command_key propose ≡ command_key d
        → input_of plain propose ≢ input_of plain d
        → append plain d granted ≡ (err idempotency_conflict, granted))
append_once_example =
    append_once plain propose empty granted first_view (unfold get in refl) propose_test
      (after grant (after request start))

abbrev some_fact : RemediationFact
some_fact = record {
  tenant_id = "a";
  plan_id = "plan";
  sequence = 2;
  fact_id = "f2";
  fact_type = approval_granted;
  command_id = "c";
  actor_ref = "ann";
  recorded_at = 8;
  payload = [];
  previous_digest = digest;
  canonical_digest = digest;
}
