-- ===== src/Authorization.antt =====
-- authorization.py: `RoleCatalog` and `EnterprisePolicy`, with the records of access.py, domain.py and
-- ports.py that they read.
pub mod Granted
mod Tests
use aegis_framework_platform.Base.{
  ℕ, String, Bool, true, false, ◌&&◌, Option, none, some, List, [], ◌∷◌, ltb, leb, ◌==◌,
  if◌then◌else◌, string_eq, contains, not, or_default,
}
use aegis_framework_platform.Interoperability.Kinds.{RiskLevel, low, medium, high}
use aegis_framework_platform.Interoperability.Trust.{is_none, sorted_set}

-- ports.Action
pub data Action : Type 0 where
  investigation_run investigation_read tenant_read policy_read : Action
  policy_write quota_read quota_write audit_read : Action
  model_catalog_read model_usage_read model_health_read evidence_query_read : Action
  evidence_cursor_read orchestration_artifact_read remediation_propose remediation_read : Action
  approval_request approval_decide approval_revoke effect_execute : Action
  effect_read sandbox_execute sandbox_read sandbox_artifact_read : Action
  memory_write memory_read memory_retrieve memory_delete : Action
  operations_read support_read replay_read projection_rebuild : Action
  interoperability_read interoperability_invoke interoperability_trust_admin : Action

-- `action.value`
unfoldable pub action_value : Action → String
action_value investigation_run = "investigation:run"
action_value investigation_read = "investigation:read"
action_value tenant_read = "tenant:read"
action_value policy_read = "policy:read"
action_value policy_write = "policy:write"
action_value quota_read = "quota:read"
action_value quota_write = "quota:write"
action_value audit_read = "audit:read"
action_value model_catalog_read = "model:catalog:read"
action_value model_usage_read = "model:usage:read"
action_value model_health_read = "model:health:read"
action_value evidence_query_read = "evidence:query:read"
action_value evidence_cursor_read = "evidence:cursor:read"
action_value orchestration_artifact_read = "orchestration:artifact:read"
action_value remediation_propose = "remediation:propose"
action_value remediation_read = "remediation:read"
action_value approval_request = "approval:request"
action_value approval_decide = "approval:decide"
action_value approval_revoke = "approval:revoke"
action_value effect_execute = "effect:execute"
action_value effect_read = "effect:read"
action_value sandbox_execute = "sandbox:execute"
action_value sandbox_read = "sandbox:read"
action_value sandbox_artifact_read = "sandbox:artifact:read"
action_value memory_write = "memory:write"
action_value memory_read = "memory:read"
action_value memory_retrieve = "memory:retrieve"
action_value memory_delete = "memory:delete"
action_value operations_read = "operations:read"
action_value support_read = "support:read"
action_value replay_read = "replay:read"
action_value projection_rebuild = "projection:rebuild"
action_value interoperability_read = "interoperability:read"
action_value interoperability_invoke = "interoperability:invoke"
action_value interoperability_trust_admin = "interoperability:trust:admin"

-- `_RISK_ORDER`
unfoldable pub risk_order : RiskLevel → ℕ
risk_order low = 1
risk_order medium = 2
risk_order high = 3

-- domain.GrantBinding
pub record GrantBinding : Type 0 where
  pub role : String
  pub purpose : String
  pub permissions : List String
  pub risk_ceiling : RiskLevel
  pub expires_at : ℕ

-- domain.IdentityContext, of which the policy reads these fields
pub record GrantedIdentity : Type 0 where
  pub tenant_id : String
  pub grants : List GrantBinding
  pub expires_at : ℕ

-- access.PolicyRecord
pub record PolicyRecord : Type 0 where
  pub policy_id : String
  pub tenant_id : String
  pub revision : ℕ
  pub allowed_actions : List String
  pub allowed_purposes : List String
  pub max_risk : RiskLevel
  pub version : ℕ

-- ports.PolicyDecision
pub record PolicyDecision : Type 0 where
  pub allowed : Bool
  pub policy_id : String
  pub policy_revision : ℕ
  pub purpose : String
  pub risk : RiskLevel
  pub reason : String

-- `RoleCatalog.DEFINITIONS.get(role, ())`
unfoldable pub definition : String → List Action
definition role =
    if role == "incident-responder"
    then investigation_run ∷ investigation_read ∷ evidence_query_read ∷ evidence_cursor_read
      ∷ model_catalog_read ∷ model_health_read ∷ model_usage_read ∷ orchestration_artifact_read
      ∷ remediation_propose ∷ remediation_read ∷ approval_request ∷ effect_read ∷ sandbox_execute
      ∷ sandbox_read ∷ sandbox_artifact_read ∷ memory_write ∷ memory_read ∷ memory_retrieve
      ∷ operations_read ∷ support_read ∷ replay_read ∷ tenant_read ∷ policy_read ∷ quota_read ∷ []
    else if role == "incident-viewer"
    then investigation_read ∷ evidence_query_read ∷ evidence_cursor_read ∷ model_catalog_read
      ∷ model_health_read ∷ model_usage_read ∷ orchestration_artifact_read ∷ remediation_read
      ∷ effect_read ∷ sandbox_read ∷ sandbox_artifact_read ∷ memory_read ∷ memory_retrieve
      ∷ operations_read ∷ tenant_read ∷ policy_read ∷ quota_read ∷ []
    else if role == "tenant-admin"
    then tenant_read ∷ policy_read ∷ policy_write ∷ quota_read ∷ quota_write ∷ audit_read
      ∷ evidence_query_read ∷ evidence_cursor_read ∷ model_catalog_read ∷ model_health_read
      ∷ model_usage_read ∷ orchestration_artifact_read ∷ remediation_read ∷ approval_decide
      ∷ approval_revoke ∷ effect_read ∷ sandbox_read ∷ sandbox_artifact_read ∷ memory_write
      ∷ memory_read ∷ memory_retrieve ∷ memory_delete ∷ operations_read ∷ support_read ∷ replay_read
      ∷ projection_rebuild ∷ []
    else if role == "tenant-auditor"
    then tenant_read ∷ policy_read ∷ quota_read ∷ audit_read ∷ evidence_query_read
      ∷ evidence_cursor_read ∷ model_catalog_read ∷ model_health_read ∷ model_usage_read
      ∷ orchestration_artifact_read ∷ remediation_read ∷ effect_read ∷ sandbox_read
      ∷ sandbox_artifact_read ∷ memory_read ∷ operations_read ∷ support_read ∷ replay_read ∷ []
    else if role == "workload-investigator"
    then investigation_run ∷ investigation_read ∷ model_catalog_read ∷ orchestration_artifact_read
      ∷ model_health_read ∷ model_usage_read ∷ quota_read ∷ sandbox_execute ∷ sandbox_read
      ∷ sandbox_artifact_read ∷ memory_read ∷ memory_retrieve ∷ []
    else if role == "incident-commander"
    then remediation_read ∷ approval_decide ∷ approval_revoke ∷ effect_read ∷ []
    else if role == "change-approver"
    then remediation_read ∷ approval_decide ∷ approval_revoke ∷ effect_read ∷ []
    else if role == "effect-worker"
    then remediation_read ∷ effect_execute ∷ effect_read ∷ []
    else []

unfoldable pub action_values : List Action → List String
action_values [] = []
action_values (action ∷ rest) = action_value action ∷ action_values rest

-- The actions of a role are a set, and so are their values.
unfoldable pub permissions_for : String → List String
permissions_for role = sorted_set (action_values (definition role))

-- The test on a grant in `_denial_reason`.
unfoldable pub is_binding : Action → String → RiskLevel → ℕ → GrantBinding → Bool
is_binding action purpose risk now grant =
    ltb now grant.expires_at
    && grant.purpose == purpose
    && contains (action_value action) grant.permissions
    && leb (risk_order risk) (risk_order grant.risk_ceiling)

-- `next((grant for grant in grants if ...), None)`
unfoldable pub first_binding : (GrantBinding → Bool) → List GrantBinding → Option GrantBinding
first_binding test [] = none
first_binding test (grant ∷ rest) = if test grant then some grant else first_binding test rest

unfoldable pub binding_reason : Option GrantBinding → Option String
binding_reason none = some "no_current_purpose_grant"
binding_reason (some grant) = none

-- The tests of `_denial_reason` that read the policy.
unfoldable pub policy_reason :
    GrantedIdentity → Action → String → RiskLevel → ℕ → Option PolicyRecord → Option String
policy_reason identity action purpose risk now none = some "no_active_policy"
policy_reason identity action purpose risk now (some policy) =
    if not (contains (action_value action) policy.allowed_actions)
    then some "action_disallowed_by_policy"
    else if not (contains purpose policy.allowed_purposes)
    then some "purpose_disallowed_by_policy"
    else if ltb (risk_order policy.max_risk) (risk_order risk)
    then some "risk_exceeds_policy"
    else binding_reason (first_binding (is_binding action purpose risk now) identity.grants)

-- `EnterprisePolicy._denial_reason`
unfoldable pub denial_reason :
    GrantedIdentity → Action → String → String → RiskLevel → Option PolicyRecord → ℕ → Option String
denial_reason identity action resource_tenant_id purpose risk policy now =
    if not (identity.tenant_id == resource_tenant_id)
    then some "tenant_mismatch"
    else if leb identity.expires_at now
    then some "identity_expired"
    else policy_reason identity action purpose risk now policy

unfoldable pub policy_name : Option PolicyRecord → String
policy_name none = "deny-all:no-policy"
policy_name (some policy) = policy.policy_id

unfoldable pub policy_revision_of : Option PolicyRecord → ℕ
policy_revision_of none = 0
policy_revision_of (some policy) = policy.revision

-- `EnterprisePolicy.authorize`, with the policy repository that the object holds and the clock's
-- reading
unfoldable pub authorize :
    (String → Option PolicyRecord)
    → ℕ
    → GrantedIdentity
    → Action
    → String
    → String
    → RiskLevel
    → PolicyDecision
authorize current_policy now identity action resource_tenant_id purpose risk =
    let policy = current_policy resource_tenant_id in
    let reason = denial_reason identity action resource_tenant_id purpose risk policy now in
    record {
      allowed = is_none reason;
      policy_id = policy_name policy;
      policy_revision = policy_revision_of policy;
      purpose = purpose;
      risk = risk;
      reason = or_default reason "explicit_current_grant";
    }
