-- ===== src/Interoperability/Ledger/Tests.antt =====
-- Tests of `InteroperabilityLedger` and of what its payloads may hold.
use aegis_framework_platform.Base.{
  String, ◌≡◌, refl, true, false, [], ◌∷◌, none, Result, ok, err, integrity_failure, contains,
}
use aegis_framework_platform.Base.Dict.{get}
use aegis_framework_platform.Runtime.{text, is_identifier, decimal, text_length}
use aegis_framework_platform.Runtime.Plain.{plain, clean}
use aegis_framework_platform.Interoperability.Kinds.{invocation_requested, fact_type_text}
use aegis_framework_platform.Interoperability.Documents.{
  Unicode, reject_raw_ledger_payload, digest_value, normalize_json, bound_json,
  validate_untrusted_text, member_count,
}
use aegis_framework_platform.Interoperability.Ledger.{
  InteroperabilityLedger, no_facts, Recording, InteroperabilityFact, genesis_digest, append,
  append_digested, append_known, stored, build_fact, check_fact, check_new, undigested,
  fact_material, newest_digest, verify,
}
use aegis_framework_platform.Interoperability.Ledger.Repeated.{append_again}
use aegis_framework_platform.Interoperability.Ledger.Chain.{start, after, appended_verifies}

-- Texts are normal and have no control characters.
abbrev ascii : Unicode
ascii = record { normalize_nfc = λ s. s; is_control = λ c. false; lower = λ s. s }

abbrev recording : String → Recording
recording command_ref = record {
  operation_id = "op";
  fact_type = invocation_requested;
  command_ref = command_ref;
  actor_ref = "ann";
  peer_id = "p";
  payload = ("fence_token", text "f") ∷ [];
  recorded_at = 7;
}

abbrev two_facts : InteroperabilityLedger
two_facts =
    (append ascii plain (recording "c2") none
      (append ascii plain (recording "c1") none no_facts).1).1

appended_verifies_example : verify ascii plain two_facts "op" ≡ ok true
appended_verifies_example =
    appended_verifies ascii plain two_facts "op"
      (after (recording "c2") none (after (recording "c1") none start))

abbrev one_fact : Result InteroperabilityFact × InteroperabilityLedger
one_fact = append ascii plain (recording "c1") none no_facts

abbrev first_fact : InteroperabilityFact
first_fact = record {
  fact_id = "interop-fact-op-1";
  operation_id = "op";
  sequence = 1;
  fact_type = invocation_requested;
  command_ref = "c1";
  actor_ref = "ann";
  peer_id = "p";
  payload = ("fence_token", text "f") ∷ [];
  previous_digest = genesis_digest;
  fact_digest = "{}";
  recorded_at = 7;
}

one_fact_lem : one_fact.0 ≡ ok first_fact
unfolding append append_digested append_known stored build_fact check_fact check_new undigested
    fact_material newest_digest reject_raw_ledger_payload digest_value normalize_json bound_json
    validate_untrusted_text member_count fact_type_text contains text_length decimal is_identifier
    get clean
one_fact_lem = refl

append_again_example :
    append ascii plain (recording "c1") none one_fact.1 ≡ (ok first_fact, one_fact.1)
append_again_example =
    append_again ascii plain no_facts (recording "c1") none first_fact start one_fact_lem

-- Neither a secret nor a token that is not listed as safe may be recorded.
secret_refused :
    reject_raw_ledger_payload ascii (("my_secret", text "s") ∷ []) ≡ err integrity_failure
unfolding reject_raw_ledger_payload contains
secret_refused = refl

fence_accepted : reject_raw_ledger_payload ascii (("fence_token", text "s") ∷ []) ≡ ok tt
unfolding reject_raw_ledger_payload contains bound_json validate_untrusted_text text_length
fence_accepted = refl
