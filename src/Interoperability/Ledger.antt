-- ===== src/Interoperability/Ledger.antt =====
-- interoperability.py: `InteroperabilityLedger`, the facts about calls of other agents.
pub mod Chain
pub mod Repeated
mod Tests
use Prim.Native.String.{◌++◌ as ◌+str+◌}
use aegis_framework_platform.Base.{
  ℕ, suc, ◌+◌, String, Bool, true, false, not, ◌||◌, Option, none, some, List, [], ◌∷◌, ◌++◌, ltb,
  nat_beq, ◌==◌, if◌then◌else◌, string_eq, pair_eq, length, last_of, idempotency_conflict,
  concurrency_conflict, value_error, stop_iteration, Result, ok, err, ◌>>=◌, ◌>>◌, raise_if,
  or_raise, or_default, Action,
}
use aegis_framework_platform.Base.Dict.{Dict, get, put}
use aegis_framework_platform.Runtime.{
  Json, int, text, object, end, field, Payload, fields_of, Runtime, is_identifier, decimal,
}
use aegis_framework_platform.Interoperability.Kinds.{
  ProtocolKind, RiskLevel, InvocationState, InteroperabilityFactType, fact_type_text,
}
use aegis_framework_platform.Interoperability.Documents.{
  Unicode, reject_raw_ledger_payload, digest_value,
}

pub record InteroperabilityFact : Type 0 where
  pub fact_id : String
  pub operation_id : String
  pub sequence : ℕ
  pub fact_type : InteroperabilityFactType
  pub command_ref : String
  pub actor_ref : String
  pub peer_id : String
  pub payload : Payload
  pub previous_digest : String
  pub fact_digest : String
  pub recorded_at : ℕ

pub record InvocationProjection : Type 0 where
  pub operation_id : String
  pub tenant_ref : String
  pub peer_id : String
  pub protocol : ProtocolKind
  pub capability_id : String
  pub risk : RiskLevel
  pub state : InvocationState
  pub version : ℕ
  pub request_digest : String
  pub trust_digest : String
  pub policy_digest : String
  pub trust_revision : ℕ
  pub fence_token : String
  pub cursor_digest : Option String
  pub result_digest : Option String
  pub error_code : Option String
  pub ambiguous : Bool
  pub cancellation_requested : Bool
  pub updated_at : ℕ

pub record InteroperabilityLedger : Type 0 where
  pub facts : Dict String (List InteroperabilityFact)
  pub commands : Dict String (String × String)
  pub projections : Dict String InvocationProjection

abbrev pub no_facts : InteroperabilityLedger
no_facts = record { facts = []; commands = []; projections = [] }

-- The keyword arguments of `append`, without the projection.
pub record Recording : Type 0 where
  pub operation_id : String
  pub fact_type : InteroperabilityFactType
  pub command_ref : String
  pub actor_ref : String
  pub peer_id : String
  pub payload : Payload
  pub recorded_at : ℕ

abbrev pub genesis_digest : String
genesis_digest = "0000000000000000000000000000000000000000000000000000000000000000"

-- `self._facts.get(operation_id, ())`, which is also the method `facts`
abbrev pub facts_of : InteroperabilityLedger → String → List InteroperabilityFact
facts_of s operation_id = or_default (get operation_id s.facts) []

-- `facts[-1].fact_digest if facts else "0" * 64`
unfoldable pub newest_digest : List InteroperabilityFact → String
newest_digest [] = genesis_digest
newest_digest (fact ∷ rest) = (last_of fact rest).fact_digest

-- `next(fact for fact in ... if fact.command_ref == command_ref)`
unfoldable pub first_of_command : String → List InteroperabilityFact → Option InteroperabilityFact
first_of_command command_ref [] = none
first_of_command command_ref (fact ∷ rest) =
    if fact.command_ref == command_ref then some fact else first_of_command command_ref rest

unfoldable pub version_of : Option InvocationProjection → ℕ
version_of none = 0
version_of (some current) = current.version

-- The projection that comes with a repeated command.
unfoldable pub check_repeated :
    Option InvocationProjection → Option InvocationProjection → Result (Unit {0})
check_repeated none current = ok tt
check_repeated (some projection) none = err concurrency_conflict
check_repeated (some projection) (some current) =
    raise_if (not (nat_beq projection.version (current.version + 1))) concurrency_conflict

-- The projection that comes with a new command.
unfoldable pub check_new :
    Option InvocationProjection → Option InvocationProjection → Result (Unit {0})
check_new none current = ok tt
check_new (some projection) current =
    raise_if (not (nat_beq projection.version (version_of current + 1))) concurrency_conflict

unfoldable pub put_projection :
    String
    → Option InvocationProjection
    → Dict String InvocationProjection
    → Dict String InvocationProjection
put_projection operation_id none projections = projections
put_projection operation_id (some projection) projections = put operation_id projection projections

module _ (u : Unicode) (rt : Runtime) where
  -- `model_dump(mode="json", exclude={"fact_digest"})`, with instants in UTC
  unfoldable pub fact_material : InteroperabilityFact → Json
  fact_material fact = object (
      field "actor_ref" (text fact.actor_ref) (
        field "command_ref" (text fact.command_ref) (
          field "fact_id" (text fact.fact_id) (
            field "fact_type" (text (fact_type_text fact.fact_type)) (
              field "operation_id" (text fact.operation_id) (
                field "payload" (object (fields_of fact.payload)) (
                  field "peer_id" (text fact.peer_id) (
                    field "previous_digest" (text fact.previous_digest) (
                      field "recorded_at" (text (rt.isoformat fact.recorded_at)) (
                        field "schema_version" (int 1)
                          (field "sequence" (int fact.sequence) end)))))))))))

  -- The fields of the next fact, its digest still to come.
  unfoldable pub undigested : Recording → List InteroperabilityFact → InteroperabilityFact
  undigested r facts = record {
    fact_id = "interop-fact-" +str+ r.operation_id +str+ "-" +str+ decimal (suc (length facts));
    operation_id = r.operation_id;
    sequence = suc (length facts);
    fact_type = r.fact_type;
    command_ref = r.command_ref;
    actor_ref = r.actor_ref;
    peer_id = r.peer_id;
    payload = r.payload;
    previous_digest = newest_digest facts;
    fact_digest = "";
    recorded_at = r.recorded_at;
  }

  -- The bounds of `InteroperabilityFact`, whose `ValidationError` is a `ValueError`.
  unfoldable pub check_fact : InteroperabilityFact → Result (Unit {0})
  check_fact fact = do
    raise_if (not (is_identifier fact.fact_id)) value_error
    raise_if (not (is_identifier fact.operation_id)) value_error
    raise_if (ltb 128 fact.sequence) value_error
    raise_if (not (is_identifier fact.command_ref)) value_error
    raise_if (not (is_identifier fact.actor_ref)) value_error
    raise_if (not (is_identifier fact.peer_id)) value_error
    raise_if (ltb 32 (length fact.payload)) value_error

  unfoldable pub build_fact : Recording → List InteroperabilityFact → Result InteroperabilityFact
  build_fact r facts = do
    digest ← digest_value u rt (fact_material (undigested r facts))
    check_fact (undigested r facts)
    ok (record (undigested r facts) { fact_digest = digest })

  -- The writes of a new command.
  unfoldable pub store_fact :
      Recording
      → String
      → Option InvocationProjection
      → InteroperabilityLedger
      → InteroperabilityFact
      → InteroperabilityLedger
  store_fact r payload_digest projection s fact = record {
    facts = put r.operation_id (facts_of s r.operation_id ++ fact ∷ []) s.facts;
    commands = put r.command_ref (r.operation_id, payload_digest) s.commands;
    projections = put_projection r.operation_id projection s.projections;
  }

  -- A method whose result is known: what it raises leaves the ledger as it was.
  unfoldable pub stored :
      Recording
      → String
      → Option InvocationProjection
      → Result InteroperabilityFact
      → Action InteroperabilityLedger InteroperabilityFact
  stored r payload_digest projection (err e) s = (err e, s)
  stored r payload_digest projection (ok fact) s =
      (ok fact, store_fact r payload_digest projection s fact)

  unfoldable pub append_known :
      Recording
      → String
      → Option InvocationProjection
      → Option (String × String)
      → Action InteroperabilityLedger InteroperabilityFact
  append_known r payload_digest projection (some existing) s = (
    (do
      raise_if (not (existing == (r.operation_id, payload_digest))) idempotency_conflict
      check_repeated projection (get r.operation_id s.projections)
      or_raise (first_of_command r.command_ref (facts_of s r.operation_id)) stop_iteration),
    s,
  )
  append_known r payload_digest projection none s =
      stored r payload_digest projection
        (do
          fact ← build_fact r (facts_of s r.operation_id)
          check_new projection (get r.operation_id s.projections)
          ok fact)
        s

  unfoldable pub append_digested :
      Recording
      → Option InvocationProjection
      → Result String
      → Action InteroperabilityLedger InteroperabilityFact
  append_digested r projection (err e) s = (err e, s)
  append_digested r projection (ok payload_digest) s =
      append_known r payload_digest projection (get r.command_ref s.commands) s

  -- `InteroperabilityLedger.append`
  unfoldable pub append :
      Recording → Option InvocationProjection → Action InteroperabilityLedger InteroperabilityFact
  append r projection s =
      append_digested r projection
        (do reject_raw_ledger_payload u r.payload; digest_value u rt (object (fields_of r.payload)))
        s

  -- The loop of `verify`, from the given sequence and digest on.
  unfoldable pub verify_facts : ℕ → String → List InteroperabilityFact → Result Bool
  verify_facts expected previous [] = ok true
  verify_facts expected previous (fact ∷ rest) =
      if not (nat_beq fact.sequence expected) || not (fact.previous_digest == previous)
      then ok false
      else do
        digest ← digest_value u rt (fact_material fact)
        (if not (digest == fact.fact_digest)
            then ok false
            else verify_facts (expected + 1) fact.fact_digest rest)

  unfoldable pub verify : InteroperabilityLedger → String → Result Bool
  verify s operation_id = verify_facts 1 genesis_digest (facts_of s operation_id)
