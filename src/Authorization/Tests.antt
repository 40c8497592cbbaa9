-- ===== src/Authorization/Tests.antt =====
-- Tests of `EnterprisePolicy` and `RoleCatalog`.
use aegis_framework_platform.Base.{
  String, ◌≡◌, refl, ◌↔◌, true, false, contains, Option, none, some, [], ◌∷◌,
}
use aegis_framework_platform.Interoperability.Kinds.{low, medium, high}
use aegis_framework_platform.Interoperability.Trust.{is_none, sorted_set, insert_text, text_insert}
use aegis_framework_platform.Authorization.{
  remediation_propose, approval_decide, GrantedIdentity, PolicyRecord, permissions_for, authorize,
  denial_reason, policy_reason, binding_reason, first_binding, is_binding, action_value, risk_order,
  policy_name, definition, action_values,
}
use aegis_framework_platform.Authorization.Granted.{
  IsGranted, authorize-IsGranted, separate, permissions_for-separate,
}

abbrev responder : GrantedIdentity
responder = record {
  tenant_id = "acme";
  grants =
      record {
        role = "incident-responder";
        purpose = "response";
        permissions = "remediation:propose" ∷ [];
        risk_ceiling = medium;
        expires_at = 50;
      }
      ∷ [];
  expires_at = 100;
}

abbrev acme_policy : PolicyRecord
acme_policy = record {
  policy_id = "standard";
  tenant_id = "acme";
  revision = 4;
  allowed_actions = "approval:decide" ∷ "remediation:propose" ∷ [];
  allowed_purposes = "response" ∷ [];
  max_risk = high;
  version = 4;
}

abbrev in_force : String → Option PolicyRecord
in_force tenant_id = some acme_policy

grant_runs_out :
    (authorize in_force 50 responder remediation_propose "acme" "response" low).reason
    ≡ "no_current_purpose_grant"
unfolding authorize is_none denial_reason policy_reason binding_reason first_binding is_binding
    action_value risk_order policy_name contains
grant_runs_out = refl

above_ceiling :
    (authorize in_force 10 responder remediation_propose "acme" "response" high).allowed ≡ false
unfolding authorize is_none denial_reason policy_reason binding_reason first_binding is_binding
    action_value risk_order policy_name contains
above_ceiling = refl

not_granted :
    (authorize in_force 10 responder approval_decide "acme" "response" low).reason
    ≡ "no_current_purpose_grant"
unfolding authorize is_none denial_reason policy_reason binding_reason first_binding is_binding
    action_value risk_order policy_name contains
not_granted = refl

no_policy :
    (authorize (λ tenant_id. none) 10 responder approval_decide "acme" "response" low).policy_id
    ≡ "deny-all:no-policy"
unfolding authorize is_none denial_reason policy_reason binding_reason first_binding is_binding
    action_value risk_order policy_name contains
no_policy = refl

commander :
    permissions_for "incident-commander"
    ≡ "approval:decide" ∷ "approval:revoke" ∷ "effect:read" ∷ "remediation:read" ∷ []
unfolding permissions_for definition action_values sorted_set insert_text text_insert action_value
commander = refl

authorize-IsGranted_example :
    ((authorize in_force 10 responder remediation_propose "acme" "response" medium).allowed ≡ true)
    ↔ IsGranted in_force 10 responder remediation_propose "acme" "response" medium
authorize-IsGranted_example =
    authorize-IsGranted in_force 10 responder remediation_propose "acme" "response" medium

permissions_for-separate_example : separate (permissions_for "tenant-admin") ≡ true
permissions_for-separate_example = permissions_for-separate "tenant-admin"
