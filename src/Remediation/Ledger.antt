-- ===== src/Remediation/Ledger.antt =====
-- `InMemoryRemediationLedger` of remediation.py: facts of a plan, appended by commands.
pub mod Replay
pub mod Commands
use aegis_framework_platform.Base.{
  ℕ, ◌+◌, String, Bool, not, ◌||◌, Option, none, some, List, [], ◌∷◌, ◌++◌, leb, ltb, nat_beq, ◌==◌,
  if◌then◌else◌, length, last_of, string_eq, pair_eq, integrity_failure, concurrency_conflict,
  idempotency_conflict, key_error, value_error, Result, ok, err, or_raise, or_default, Action,
}
use aegis_framework_platform.Base.Dict.{Dict, get, put}
use aegis_framework_platform.Runtime.{
  Runtime, Json, int, text, object, Payload, fields_of, stable_id, decimal, all_identifiers,
}
use aegis_framework_platform.Remediation.{
  RemediationFactType, RemediationFact, RemediationProjection, fact_type_value, canonical_digest,
}
use aegis_framework_platform.Remediation.Reduce.{reduce_remediation, replay}

-- The object's attributes but its lock.
pub record Ledger : Type 0 where
  pub facts : Dict (String × String) (List RemediationFact)
  pub commands : Dict (String × String) (String × String)
  pub projections : Dict (String × String) RemediationProjection

abbrev pub empty : Ledger
empty = record { facts = []; commands = []; projections = [] }

abbrev pub max_facts : ℕ
max_facts = 500

-- "0" * 64
abbrev pub zero_digest : String
zero_digest = "0000000000000000000000000000000000000000000000000000000000000000"

-- The arguments of `append`.
pub record Command : Type 0 where
  pub tenant_id : String
  pub plan_id : String
  pub expected_version : ℕ
  pub fact_type : RemediationFactType
  pub command_id : String
  pub actor_ref : String
  pub recorded_at : ℕ
  pub payload : Payload

abbrev pub plan_key : Command → String × String
plan_key c = (c.tenant_id, c.plan_id)

abbrev pub command_key : Command → String × String
command_key c = (c.tenant_id, c.command_id)

-- `self._facts.get(key, ())`
abbrev pub facts_at : Ledger → String × String → List RemediationFact
facts_at s key = or_default (get key s.facts) []

-- `facts[-1].canonical_digest if facts else "0" * 64`
unfoldable pub last_digest : List RemediationFact → String
last_digest [] = zero_digest
last_digest (fact ∷ rest) = (last_of fact rest).canonical_digest

-- The bounds of `RemediationFact` that the arguments of `append` can leave.
unfoldable pub is_invalid : Command → Bool
is_invalid c =
    ltb 32 (length c.payload)
    || not (all_identifiers (c.tenant_id ∷ c.plan_id ∷ c.command_id ∷ c.actor_ref ∷ []))

module _ (rt : Runtime) where
  unfoldable pub command_fingerprint : Command → String
  command_fingerprint c = canonical_digest rt (
      object (
        fields_of (
          ("fact_type", text (fact_type_value c.fact_type))
          ∷ ("payload", object (fields_of c.payload))
          ∷ [])))

  unfoldable pub fact_id_of : Command → ℕ → String
  fact_id_of c sequence =
      stable_id rt "remediation-fact"
        (c.tenant_id ∷ c.plan_id ∷ decimal sequence ∷ c.command_id ∷ []) 32

  unfoldable pub fact_material : Command → ℕ → String → Json
  unfolding fact_id_of
  fact_material c sequence previous = object (
      fields_of (
        ("actor_ref", text c.actor_ref)
        ∷ ("command_id", text c.command_id)
        ∷ ("fact_id", text (fact_id_of c sequence))
        ∷ ("fact_type", text (fact_type_value c.fact_type))
        ∷ ("payload", object (fields_of c.payload))
        ∷ ("plan_id", text c.plan_id)
        ∷ ("previous_digest", text previous)
        ∷ ("recorded_at", text (rt.isoformat c.recorded_at))
        ∷ ("schema_version", int 1)
        ∷ ("sequence", int sequence)
        ∷ ("tenant_id", text c.tenant_id)
        ∷ []))

  unfoldable pub build_fact : Command → List RemediationFact → RemediationFact
  unfolding fact_material
  build_fact c facts =
      let sequence = length facts + 1 in
      let previous = last_digest facts in
      record {
        tenant_id = c.tenant_id;
        plan_id = c.plan_id;
        sequence = sequence;
        fact_id = fact_id_of c sequence;
        fact_type = c.fact_type;
        command_id = c.command_id;
        actor_ref = c.actor_ref;
        recorded_at = c.recorded_at;
        payload = c.payload;
        previous_digest = previous;
        canonical_digest = canonical_digest rt (fact_material c sequence previous);
      }

  -- A command id that is known: its input must be the same.
  unfoldable pub replay_command : Command → String × String → Action Ledger RemediationProjection
  replay_command c existing s =
      if not (existing == (c.plan_id, command_fingerprint c))
      then (err idempotency_conflict, s)
      else (or_raise (get (plan_key c) s.projections) key_error, s)

  -- The end of `append`, behind the reduction of the new fact.
  unfoldable pub store_fact :
      Command
      → List RemediationFact
      → Result RemediationProjection
      → Action Ledger RemediationProjection
  store_fact c facts (err e) s = (err e, s)
  store_fact c facts (ok projection) s = (
    ok projection,
    record {
      facts = put (plan_key c) (facts ++ (build_fact c facts ∷ [])) s.facts;
      commands = put (command_key c) (c.plan_id, command_fingerprint c) s.commands;
      projections = put (plan_key c) projection s.projections;
    },
  )

  -- The guards, the model's bounds among them, and the reduction.
  unfoldable pub append_fact : Command → List RemediationFact → Action Ledger RemediationProjection
  unfolding store_fact
  append_fact c facts s =
      if leb max_facts (length facts)
      then (err integrity_failure, s)
      else if not (nat_beq (length facts) c.expected_version)
      then (err concurrency_conflict, s)
      else if is_invalid c
      then (err value_error, s)
      else store_fact c facts
          (reduce_remediation rt (get (plan_key c) s.projections) (build_fact c facts)) s

  unfoldable pub append_command :
      Command → Option (String × String) → Action Ledger RemediationProjection
  unfolding replay_command append_fact
  append_command c (some existing) s = replay_command c existing s
  append_command c none s =
      let facts = facts_at s (plan_key c) in
      append_fact c facts (record s { facts = put (plan_key c) facts s.facts })

  unfoldable pub append : Command → Action Ledger RemediationProjection
  unfolding append_command
  append c s = append_command c (get (command_key c) s.commands) s

-- `projection`
abbrev pub projection : Ledger → String × String → Option RemediationProjection
projection s key = get key s.projections

module _ (rt : Runtime) where
  unfoldable pub rebuilt : Result (Option RemediationProjection) → Result RemediationProjection
  rebuilt (err e) = err e
  rebuilt (ok none) = err integrity_failure
  rebuilt (ok (some p)) = ok p

  unfoldable pub rebuild : Ledger → String × String → Result RemediationProjection
  unfolding rebuilt
  rebuild s key = rebuilt (replay rt none (facts_at s key))
