-- ===== src/Authorization/Granted.antt =====
-- authorization.py: what `EnterprisePolicy` allows, and what the roles of `RoleCatalog` keep apart.
use mathlib.Core.Option.{some-injective}
use aegis_framework_platform.Base.{
  ℕ, ◌≤◌, ◌<◌, String, ◌≡◌, refl, sym, ◌∙◌, subst, ◌↔◌, ◌⊎◌, inl, inr, Bool, true, false, not, ◌&&◌,
  Bool-cases, Option-cases, Option, none, some, List, [], ◌∷◌, arith, ◌==◌, if◌then◌else◌,
  string_eq, contains, beq-eq_true,
}
use aegis_framework_platform.Interoperability.Kinds.{RiskLevel}
use aegis_framework_platform.Interoperability.Trust.{is_none, sorted_set, insert_text, text_insert}
use aegis_framework_platform.Authorization.{
  Action, action_value, risk_order, GrantBinding, GrantedIdentity, PolicyRecord, definition,
  action_values, permissions_for, is_binding, first_binding, binding_reason, policy_reason,
  denial_reason, authorize,
}

abbrev pub Any {ℓ} : {A : Type ℓ} → (A → Type 0) → List A → Type 0
Any P [] = ⊥
Any P (x ∷ xs) = P x ⊎ Any P xs

module _ (action : Action) (purpose : String) (risk : RiskLevel) (now : ℕ) where
  -- A grant that is current, of the purpose, with the permission, and not below the risk.
  pub record Covers (grant : GrantBinding) : Type 0 where
    pub current : now < grant.expires_at
    pub of_purpose : grant.purpose ≡ purpose
    pub permits : contains (action_value action) grant.permissions ≡ true
    pub bounds : risk_order risk ≤ risk_order grant.risk_ceiling

  -- A policy that allows the action, the purpose and the risk.
  pub record Allows (policy : PolicyRecord) : Type 0 where
    pub action_allowed : contains (action_value action) policy.allowed_actions ≡ true
    pub purpose_allowed : contains purpose policy.allowed_purposes ≡ true
    pub within : risk_order risk ≤ risk_order policy.max_risk

  is_binding-Covers :
      (grant : GrantBinding) → (is_binding action purpose risk now grant ≡ true) ↔ Covers grant
  unfolding is_binding
  is_binding-Covers grant = (
    λ h. record {
      current = ground arith;
      of_purpose = beq-eq_true grant.purpose purpose (ground arith);
      permits = ground arith;
      bounds = ground arith;
    },
    λ c. ground (
      arith,
      c.current,
      c.of_purpose,
      c.permits,
      c.bounds,
      string_eq.beq_iff grant.purpose purpose,
    ),
  )

  first_binding-Any :
      (grants : List GrantBinding)
      → (binding_reason (first_binding (is_binding action purpose risk now) grants) ≡ none)
        ↔ Any Covers grants
  unfolding binding_reason first_binding
  first_binding-Any [] = (λ h. cc h, λ a. elim a [ ])
  first_binding-Any (g ∷ gs) = elim (Bool-cases (is_binding action purpose risk now g)) [
    | inl fits ↦ (λ h. inl ((is_binding-Covers g).0 fits), λ a. rw fits)
    | inr other ↦ (
      λ h. inr ((first_binding-Any gs).0 (rw other at h)),
      λ a. rw other (
          (first_binding-Any gs).1
            (elim a [ inl c ↦ cc (other, (is_binding-Covers g).1 c) | inr later ↦ later ])),
    )
  ]

-- The request is for the tenant of an identity that has not expired, under a policy that allows
-- it, and within one of the identity's grants.
pub record IsGranted (current_policy : String → Option PolicyRecord) (now : ℕ)
    (identity : GrantedIdentity) (action : Action) (resource_tenant_id purpose : String)
    (risk : RiskLevel) : Type 0 where
  pub own_tenant : identity.tenant_id ≡ resource_tenant_id
  pub current : now < identity.expires_at
  pub policy : PolicyRecord
  pub in_force : current_policy resource_tenant_id ≡ some policy
  pub allows : Allows action purpose risk now policy
  pub granted : Any (Covers action purpose risk now) identity.grants

allowed-back :
    (identity : GrantedIdentity) (action : Action) (resource_tenant_id purpose : String)
    (risk : RiskLevel) (now : ℕ) (policy : PolicyRecord)
    → identity.tenant_id ≡ resource_tenant_id
    → now < identity.expires_at
    → Allows action purpose risk now policy
    → Any (Covers action purpose risk now) identity.grants
    → is_none (denial_reason identity action resource_tenant_id purpose risk (some policy) now)
      ≡ true
unfolding is_none denial_reason policy_reason
allowed-back identity action resource_tenant_id purpose risk now policy own current allows granted =
    let found = (first_binding-Any action purpose risk now identity.grants).1 granted in
    ground (
      arith,
      found,
      allows.action_allowed,
      allows.purpose_allowed,
      allows.within,
      string_eq.beq_iff identity.tenant_id resource_tenant_id,
    )

-- authorize allows an action exactly if the resource is of the tenant of the identity, the identity
-- has not expired, the tenant has a current policy that lists the action and the purpose and whose
-- highest risk is not below the risk, and the identity has a grant that has not expired, is for the
-- purpose, lists the action and has a ceiling not below the risk.
pub authorize-IsGranted :
    (current_policy : String → Option PolicyRecord) (now : ℕ) (identity : GrantedIdentity)
    (action : Action) (resource_tenant_id purpose : String) (risk : RiskLevel)
    → ((authorize current_policy now identity action resource_tenant_id purpose risk).allowed
        ≡ true)
      ↔ IsGranted current_policy now identity action resource_tenant_id purpose risk
unfolding authorize is_none denial_reason policy_reason
authorize-IsGranted current_policy now identity action resource_tenant_id purpose risk =
    elim (Option-cases (current_policy resource_tenant_id)) [
      | inl absent ↦
          (λ h. absurd (ground (arith, absent, rw absent at h)), λ g. cc (absent, g.in_force))
      | inr (policy, in_force) ↦ (
        λ h.
            let k = rw in_force at h in
            record {
              own_tenant = beq-eq_true identity.tenant_id resource_tenant_id (ground (arith, k));
              current = ground (arith, k);
              policy = policy;
              in_force = in_force;
              allows = record {
                action_allowed = ground (arith, k);
                purpose_allowed = ground (arith, k);
                within = ground (arith, k);
              };
              granted =
                  (first_binding-Any action purpose risk now identity.grants).0 (ground (arith, k));
            },
        λ g.
            let same = some-injective g.policy policy (sym g.in_force ∙ in_force) in
            let kept = subst (λ p. Allows action purpose risk now p) same g.allows in
            rw in_force (
              allowed-back identity action resource_tenant_id purpose risk now policy g.own_tenant
                g.current kept g.granted),
      )
    ]

-- The three duties of a change: proposing, deciding and executing it.
abbrev pub separate : List String → Bool
separate permissions =
    not (contains "remediation:propose" permissions && contains "approval:decide" permissions)
    && not (contains "remediation:propose" permissions && contains "effect:execute" permissions)
    && not (contains "approval:decide" permissions && contains "effect:execute" permissions)

-- The roles' permissions, as a predicate on the actions of a role.
record IsSeparate (actions : List Action) : Type 0 where
  is_separate : separate (sorted_set (action_values actions)) ≡ true

if-IsSeparate :
    (b : Bool) {xs ys : List Action}
    → IsSeparate xs
    → IsSeparate ys
    → IsSeparate (if b then xs else ys)
if-IsSeparate true h k = h
if-IsSeparate false h k = k

definition-IsSeparate : (role : String) → IsSeparate (definition role)
unfolding definition action_values sorted_set insert_text text_insert action_value contains
definition-IsSeparate role =
    if-IsSeparate (role == "incident-responder") (record { is_separate = refl })
      (if-IsSeparate (role == "incident-viewer") (record { is_separate = refl })
        (if-IsSeparate (role == "tenant-admin") (record { is_separate = refl })
          (if-IsSeparate (role == "tenant-auditor") (record { is_separate = refl })
            (if-IsSeparate (role == "workload-investigator") (record { is_separate = refl })
              (if-IsSeparate (role == "incident-commander") (record { is_separate = refl })
                (if-IsSeparate (role == "change-approver") (record { is_separate = refl })
                  (if-IsSeparate (role == "effect-worker") (record { is_separate = refl })
                    (record { is_separate = refl }))))))))

-- The permissions of a role hold at most one of proposing a remediation, deciding on an approval
-- and executing an effect.
pub permissions_for-separate : (role : String) → separate (permissions_for role) ≡ true
unfolding permissions_for
permissions_for-separate role = (definition-IsSeparate role).is_separate
