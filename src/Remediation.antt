-- ===== src/Remediation.antt =====
-- remediation.py: the facts, the projections, the receipts and the policies of a remediation
-- plan. The fields of an action that the ledgers never read are left out of `ActionIntent`.
pub mod Reduce
pub mod Ledger
pub mod Effects
mod Tests
use aegis_framework_platform.Base.{ℕ, String, Bool, Option}
use aegis_framework_platform.Base.Dict.{Dict}
use aegis_framework_platform.Runtime.{Runtime, Json, Payload}

pub data RemediationStatus : Type 0 where
  proposed approval_pending approved denied expired revoked preflight executing : RemediationStatus
  succeeded failed ambiguous reconciling rolling_back rolled_back cancelled : RemediationStatus
  verified verification_failed escalated : RemediationStatus

pub data EffectOutcome : Type 0 where
  dry_run_succeeded succeeded failed ambiguous duplicate conflict compensated : EffectOutcome

pub data RemediationFactType : Type 0 where
  proposal_recorded policy_decided approval_requested approval_granted : RemediationFactType
  approval_denied approval_expired approval_revoked preflight_requested : RemediationFactType
  dry_run_succeeded execution_requested execution_started : RemediationFactType
  execution_succeeded execution_failed execution_ambiguous : RemediationFactType
  reconciliation_started reconciliation_resolved rollback_requested : RemediationFactType
  rollback_succeeded rollback_failed cancellation_requested cancelled : RemediationFactType
  verification_requested verified verification_failed escalated : RemediationFactType

pub record RemediationFact : Type 0 where
  pub tenant_id : String
  pub plan_id : String
  pub sequence : ℕ
  pub fact_id : String
  pub fact_type : RemediationFactType
  pub command_id : String
  pub actor_ref : String
  pub recorded_at : ℕ
  pub payload : Payload
  pub previous_digest : String
  pub canonical_digest : String

pub record RemediationProjection : Type 0 where
  pub tenant_id : String
  pub plan_id : String
  pub run_id : String
  pub status : RemediationStatus
  pub version : ℕ
  pub plan_digest : String
  pub approval_id : Option String
  pub approval_digest : Option String
  pub effect_receipt_digest : Option String
  pub verification_digest : Option String
  pub fence_token : String
  pub last_fact_digest : String
  pub updated_at : ℕ

-- The member's value, as it stands in the digests.
unfoldable pub fact_type_value : RemediationFactType → String
fact_type_value proposal_recorded = "remediation.proposal_recorded"
fact_type_value policy_decided = "remediation.policy_decided"
fact_type_value approval_requested = "remediation.approval_requested"
fact_type_value approval_granted = "remediation.approval_granted"
fact_type_value approval_denied = "remediation.approval_denied"
fact_type_value approval_expired = "remediation.approval_expired"
fact_type_value approval_revoked = "remediation.approval_revoked"
fact_type_value preflight_requested = "remediation.preflight_requested"
fact_type_value dry_run_succeeded = "remediation.dry_run_succeeded"
fact_type_value execution_requested = "remediation.execution_requested"
fact_type_value execution_started = "remediation.execution_started"
fact_type_value execution_succeeded = "remediation.execution_succeeded"
fact_type_value execution_failed = "remediation.execution_failed"
fact_type_value execution_ambiguous = "remediation.execution_ambiguous"
fact_type_value reconciliation_started = "remediation.reconciliation_started"
fact_type_value reconciliation_resolved = "remediation.reconciliation_resolved"
fact_type_value rollback_requested = "remediation.rollback_requested"
fact_type_value rollback_succeeded = "remediation.rollback_succeeded"
fact_type_value rollback_failed = "remediation.rollback_failed"
fact_type_value cancellation_requested = "remediation.cancellation_requested"
fact_type_value cancelled = "remediation.cancelled"
fact_type_value verification_requested = "remediation.verification_requested"
fact_type_value verified = "remediation.verified"
fact_type_value verification_failed = "remediation.verification_failed"
fact_type_value escalated = "remediation.escalated"

-- The digest of a mapping: the branch of `canonical_digest` that the ledger takes.
unfoldable pub canonical_digest : Runtime → Json → String
canonical_digest rt document = rt.sha256_hex (rt.canonical_json document)
