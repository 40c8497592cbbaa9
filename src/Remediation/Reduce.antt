-- ===== src/Remediation/Reduce.antt =====
-- `reduce_remediation` and `_validate_transition` of remediation.py.
pub mod Safety
use aegis_framework_platform.Base.{
  ◌+◌, String, Bool, true, false, not, Option, none, some, List, [], ◌∷◌, nat_beq, ◌==◌,
  if◌then◌else◌, string_eq, integrity_failure, key_error, value_error, Result, ok, err, or_raise,
  ◌>>=◌, ◌>>◌, raise_if,
}
use aegis_framework_platform.Base.Dict.{get}
use aegis_framework_platform.Runtime.{
  Json, text, Payload, Runtime, json_str, is_identifier, is_sha256,
}
use aegis_framework_platform.Remediation.{
  RemediationStatus, RemediationFactType, RemediationFact, RemediationProjection, proposed,
  approval_pending, approved, denied, expired, revoked, preflight, executing, succeeded, failed,
  ambiguous, reconciling, rolling_back, rolled_back, cancelled, verified, verification_failed,
  escalated, proposal_recorded, policy_decided, approval_requested, approval_granted,
  approval_denied, approval_expired, approval_revoked, preflight_requested, dry_run_succeeded,
  execution_requested, execution_started, execution_succeeded, execution_failed,
  execution_ambiguous, reconciliation_started, reconciliation_resolved, rollback_requested,
  rollback_succeeded, rollback_failed, cancellation_requested, verification_requested,
}

-- The table of `reduce_remediation`.
unfoldable pub status_by_fact : RemediationFactType → RemediationStatus
status_by_fact proposal_recorded = RemediationStatus.proposed
status_by_fact policy_decided = RemediationStatus.proposed
status_by_fact approval_requested = RemediationStatus.approval_pending
status_by_fact approval_granted = RemediationStatus.approved
status_by_fact approval_denied = RemediationStatus.denied
status_by_fact approval_expired = RemediationStatus.expired
status_by_fact approval_revoked = RemediationStatus.revoked
status_by_fact preflight_requested = RemediationStatus.preflight
status_by_fact dry_run_succeeded = RemediationStatus.preflight
status_by_fact execution_requested = RemediationStatus.executing
status_by_fact execution_started = RemediationStatus.executing
status_by_fact execution_succeeded = RemediationStatus.succeeded
status_by_fact execution_failed = RemediationStatus.failed
status_by_fact execution_ambiguous = RemediationStatus.ambiguous
status_by_fact reconciliation_started = RemediationStatus.reconciling
status_by_fact reconciliation_resolved = RemediationStatus.succeeded
status_by_fact rollback_requested = RemediationStatus.rolling_back
status_by_fact rollback_succeeded = RemediationStatus.rolled_back
status_by_fact rollback_failed = RemediationStatus.escalated
status_by_fact cancellation_requested = RemediationStatus.cancelled
status_by_fact cancelled = RemediationStatus.cancelled
status_by_fact verification_requested = RemediationStatus.succeeded
status_by_fact verified = RemediationStatus.verified
status_by_fact verification_failed = RemediationStatus.verification_failed
status_by_fact escalated = RemediationStatus.escalated

abbrev pub is_terminal : RemediationStatus → Bool
is_terminal denied = true
is_terminal expired = true
is_terminal revoked = true
is_terminal rolled_back = true
is_terminal cancelled = true
is_terminal verified = true
is_terminal escalated = true
is_terminal _ = false

-- The table of `_validate_transition`, by the status in front.
unfoldable pub is_allowed : RemediationStatus → RemediationStatus → Bool
is_allowed proposed proposed = true
is_allowed proposed approval_pending = true
is_allowed approval_pending approval_pending = true
is_allowed approval_pending approved = true
is_allowed approval_pending denied = true
is_allowed approval_pending expired = true
is_allowed approval_pending revoked = true
is_allowed approval_pending cancelled = true
is_allowed approved preflight = true
is_allowed approved revoked = true
is_allowed approved cancelled = true
is_allowed preflight preflight = true
is_allowed preflight executing = true
is_allowed preflight failed = true
is_allowed preflight cancelled = true
is_allowed executing executing = true
is_allowed executing succeeded = true
is_allowed executing failed = true
is_allowed executing ambiguous = true
is_allowed executing cancelled = true
is_allowed succeeded succeeded = true
is_allowed succeeded verified = true
is_allowed succeeded verification_failed = true
is_allowed succeeded rolling_back = true
is_allowed failed rolling_back = true
is_allowed failed escalated = true
is_allowed ambiguous reconciling = true
is_allowed ambiguous escalated = true
is_allowed reconciling succeeded = true
is_allowed reconciling failed = true
is_allowed reconciling escalated = true
is_allowed rolling_back rolled_back = true
is_allowed rolling_back escalated = true
is_allowed verification_failed rolling_back = true
is_allowed verification_failed escalated = true
is_allowed _ _ = false

unfoldable pub validate_transition : RemediationStatus → RemediationStatus → Result (Unit {0})
unfolding is_allowed
validate_transition previous current = do
  raise_if (is_terminal previous) integrity_failure
  raise_if (not (is_allowed previous current)) integrity_failure

-- The facts with a receipt, and those with a verification.
abbrev pub has_receipt : RemediationFactType → Bool
has_receipt execution_succeeded = true
has_receipt reconciliation_resolved = true
has_receipt rollback_succeeded = true
has_receipt _ = false

abbrev pub has_verification : RemediationFactType → Bool
has_verification verified = true
has_verification verification_failed = true
has_verification _ = false

abbrev pub is_approval_request : RemediationFactType → Bool
is_approval_request approval_requested = true
is_approval_request _ = false

abbrev pub is_proposal : RemediationFactType → Bool
is_proposal proposal_recorded = true
is_proposal _ = false

-- `document if isinstance(document, str)`, and else what stood there
abbrev pub text_or : Option Json → Option String → Option String
text_or (some (text t)) old = some t
text_or _ old = old

unfoldable pub with_receipt : RemediationFact → RemediationProjection → RemediationProjection
with_receipt fact projection =
    if has_receipt fact.fact_type
    then record projection {
      effect_receipt_digest =
          text_or (get "effect_receipt_digest" fact.payload) projection.effect_receipt_digest;
    }
    else projection

unfoldable pub with_verification : RemediationFact → RemediationProjection → RemediationProjection
with_verification fact projection =
    if has_verification fact.fact_type
    then record projection {
      verification_digest =
          text_or (get "verification_digest" fact.payload) projection.verification_digest;
    }
    else projection

module _ (rt : Runtime) where
  -- `str(fact.payload[key])`, with the error of a missing key
  unfoldable pub payload_text : RemediationFact → String → Result String
  payload_text fact key = do ok (json_str rt (← or_raise (get key fact.payload) key_error))

  unfoldable pub with_approval :
      RemediationFact → RemediationProjection → Result RemediationProjection
  unfolding payload_text
  with_approval fact projection =
      if is_approval_request fact.fact_type
      then (do
        approval_id ← payload_text fact "approval_id"
        approval_digest ← payload_text fact "approval_digest"
        ok (record projection {
          approval_id = some approval_id;
          approval_digest = some approval_digest;
        }))
      else ok projection

  -- `str(fact.payload[key])` under `except KeyError`
  unfoldable pub proposal_text : RemediationFact → String → Result String
  proposal_text fact key = do ok (json_str rt (← or_raise (get key fact.payload) integrity_failure))

  -- The branch where there is no projection. The projection's types are checked behind the `str`
  -- of every field; their `ValidationError`, a `ValueError`, is not caught.
  unfoldable pub first_projection : RemediationFact → Result RemediationProjection
  unfolding proposal_text status_by_fact
  first_projection fact = do
    raise_if (not (is_proposal fact.fact_type)) integrity_failure
    run_id ← proposal_text fact "run_id"
    plan_digest ← proposal_text fact "plan_digest"
    fence_token ← proposal_text fact "fence_token"
    raise_if (not (is_identifier run_id)) value_error
    raise_if (not (is_sha256 plan_digest)) value_error
    raise_if (not (is_identifier fence_token)) value_error
    ok (record {
      tenant_id = fact.tenant_id;
      plan_id = fact.plan_id;
      run_id = run_id;
      status = status_by_fact fact.fact_type;
      version = 1;
      plan_digest = plan_digest;
      approval_id = none;
      approval_digest = none;
      effect_receipt_digest = none;
      verification_digest = none;
      fence_token = fence_token;
      last_fact_digest = fact.canonical_digest;
      updated_at = fact.recorded_at;
    })

  unfoldable pub next_projection :
      RemediationProjection → RemediationFact → Result RemediationProjection
  unfolding validate_transition with_approval with_receipt with_verification status_by_fact
  next_projection current fact = do
    raise_if (not (nat_beq fact.sequence (current.version + 1))) integrity_failure
    raise_if (not (fact.previous_digest == current.last_fact_digest)) integrity_failure
    validate_transition current.status (status_by_fact fact.fact_type)
    changed ← with_approval fact (record current {
      status = status_by_fact fact.fact_type;
      version = fact.sequence;
      last_fact_digest = fact.canonical_digest;
      updated_at = fact.recorded_at;
    })
    ok (with_verification fact (with_receipt fact changed))

  unfoldable pub reduce_remediation :
      Option RemediationProjection → RemediationFact → Result RemediationProjection
  unfolding first_projection next_projection
  reduce_remediation none fact = first_projection fact
  reduce_remediation (some current) fact = next_projection current fact

  -- The loop of `rebuild`.
  unfoldable pub replay :
      Option RemediationProjection → List RemediationFact → Result (Option RemediationProjection)
  replay current [] = ok current
  replay current (fact ∷ rest) = do next ← reduce_remediation current fact; replay (some next) rest
