-- ===== src/Remediation/Effects.antt =====
-- `InMemoryEffectClaims`, `InMemoryEffectQuota` and `InMemoryActionPolicyStore` of remediation.py.
pub mod Receipts
pub mod Quota
pub mod Exclusion
mod Tests
use aegis_framework_platform.Base.{
  ℕ, ◌+◌, ◌-◌, String, Bool, true, false, not, ◌&&◌, ◌||◌, Option, none, some, List, [], ◌∷◌, leb,
  ltb, nat_beq, ◌==◌, if◌then◌else◌, string_eq, pair_eq, concurrency_conflict, idempotency_conflict,
  effect_conflict, value_error, Result, ok, err, or_default, Action,
}
use aegis_framework_platform.Base.Dict.{Dict, get, put}
use aegis_framework_platform.Runtime.{Runtime, stable_id, decimal}
use aegis_framework_platform.Remediation.{EffectOutcome}

-- What a claim is bound to: the action's digest, the target's fingerprint, the digests of plan,
-- approval and policy, and the fence token.
pub record ActionIntent : Type 0 where
  pub tenant_id : String
  pub operation_id : String
  pub action_digest : String
  pub plan_digest : String
  pub approval_digest : String
  pub policy_digest : String
  pub target_fingerprint : String
  pub fence_token : String
  pub attempt : ℕ

pub record ActionReceipt : Type 0 where
  pub tenant_id : String
  pub plan_id : String
  pub action_id : String
  pub operation_id : String
  pub idempotency_key : String
  pub fence_token : String
  pub attempt : ℕ
  pub outcome : EffectOutcome
  pub provider_receipt_ref : Option String
  pub target_fingerprint : String
  pub recorded_at : ℕ
  pub detail_code : String
  pub canonical_digest : String

pub record EffectClaim : Type 0 where
  pub action_digest : String
  pub plan_digest : String
  pub approval_digest : String
  pub policy_digest : String
  pub target_fingerprint : String
  pub fence_token : String
  pub attempt : ℕ
  pub claim_token : String
  pub claim_until : ℕ
  pub receipt : Option ActionReceipt

pub record EffectClaimRecord : Type 0 where
  pub claim_token : String
  pub fence_token : String
  pub attempt : ℕ
  pub replayed : Bool
  pub receipt : Option ActionReceipt

abbrev pub Claims : Type 0
Claims = Dict (String × String) EffectClaim

-- `receipt is None`
abbrev pub is_open : Option ActionReceipt → Bool
is_open none = true
is_open (some receipt) = false

abbrev pub claim_key : ActionIntent → String × String
claim_key intent = (intent.tenant_id, intent.operation_id)

abbrev pub receipt_key : ActionReceipt → String × String
receipt_key receipt = (receipt.tenant_id, receipt.operation_id)

-- `existing_binding == binding`
unfoldable pub is_bound : ActionIntent → EffectClaim → Bool
is_bound intent existing =
    existing.action_digest == intent.action_digest
    && existing.plan_digest == intent.plan_digest
    && existing.approval_digest == intent.approval_digest
    && existing.policy_digest == intent.policy_digest
    && existing.target_fingerprint == intent.target_fingerprint
    && existing.fence_token == intent.fence_token

-- What a claim that is there is answered with.
abbrev pub replayed_claim : EffectClaim → EffectClaimRecord
replayed_claim existing = record {
  claim_token = existing.claim_token;
  fence_token = existing.fence_token;
  attempt = existing.attempt;
  replayed = true;
  receipt = existing.receipt;
}

module _ (rt : Runtime) (intent : ActionIntent) (worker_ref : String) where
  unfoldable pub effect_token : String
  effect_token =
      stable_id rt "effect-claim"
        (intent.tenant_id
          ∷ intent.operation_id
          ∷ worker_ref
          ∷ decimal intent.attempt
          ∷ intent.fence_token
          ∷ [])
        40

  unfoldable pub new_claim : ℕ → EffectClaim
  new_claim claim_until = record {
    action_digest = intent.action_digest;
    plan_digest = intent.plan_digest;
    approval_digest = intent.approval_digest;
    policy_digest = intent.policy_digest;
    target_fingerprint = intent.target_fingerprint;
    fence_token = intent.fence_token;
    attempt = intent.attempt;
    claim_token = effect_token;
    claim_until = claim_until;
    receipt = none;
  }

  -- The claim that a later attempt takes over.
  unfoldable pub advanced : ℕ → EffectClaim → EffectClaim
  advanced claim_until existing = record existing {
    attempt = intent.attempt;
    claim_token = effect_token;
    claim_until = claim_until;
  }

  -- The branch for an operation that has a claim.
  unfoldable pub reclaim : ℕ → ℕ → EffectClaim → Action Claims EffectClaimRecord
  unfolding is_bound advanced
  reclaim now claim_until existing s =
      if not (is_bound intent existing)
      then (err effect_conflict, s)
      else if is_open existing.receipt
          && ltb now existing.claim_until
          && not (existing.claim_token == effect_token)
      then (err concurrency_conflict, s)
      else if is_open existing.receipt && leb existing.claim_until now
      then if leb intent.attempt existing.attempt then (err concurrency_conflict, s) else (
        ok (replayed_claim (advanced claim_until existing)),
        put (claim_key intent) (advanced claim_until existing) s,
      )
      else (ok (replayed_claim existing), s)

  unfoldable pub claim_or_reclaim : ℕ → ℕ → Option EffectClaim → Action Claims EffectClaimRecord
  unfolding reclaim new_claim
  claim_or_reclaim now claim_until (some existing) s = reclaim now claim_until existing s
  claim_or_reclaim now claim_until none s = (
    ok (record {
      claim_token = effect_token;
      fence_token = intent.fence_token;
      attempt = intent.attempt;
      replayed = false;
      receipt = none;
    }),
    put (claim_key intent) (new_claim claim_until) s,
  )

  unfoldable pub claim : ℕ → ℕ → Action Claims EffectClaimRecord
  unfolding claim_or_reclaim
  claim now claim_until s =
      if leb claim_until now
      then (err value_error, s)
      else claim_or_reclaim now claim_until (get (claim_key intent) s) s

-- The receipt's claim: the token, the fence and the attempt that it names.
unfoldable pub is_holder : ActionReceipt → String → EffectClaim → Bool
is_holder receipt claim_token existing =
    existing.claim_token == claim_token
    && existing.fence_token == receipt.fence_token
    && nat_beq existing.attempt receipt.attempt

unfoldable pub settle_receipt :
    ActionReceipt → EffectClaim → Option ActionReceipt → Action Claims (Unit {0})
settle_receipt receipt existing (some settled) s =
    if not (settled.canonical_digest == receipt.canonical_digest)
    then (err idempotency_conflict, s)
    else (ok tt, s)
settle_receipt receipt existing none s =
    (ok tt, put (receipt_key receipt) (record existing { receipt = some receipt }) s)

unfoldable pub complete_found :
    ActionReceipt → String → Option EffectClaim → Action Claims (Unit {0})
unfolding is_holder settle_receipt
complete_found receipt claim_token none s = (err concurrency_conflict, s)
complete_found receipt claim_token (some existing) s =
    if not (is_holder receipt claim_token existing)
    then (err concurrency_conflict, s)
    else settle_receipt receipt existing existing.receipt s

unfoldable pub complete : ActionReceipt → String → Action Claims (Unit {0})
unfolding complete_found
complete receipt claim_token s = complete_found receipt claim_token (get (receipt_key receipt) s) s

pub record EffectQuotaDecision : Type 0 where
  pub allowed : Bool
  pub reservation_id : String
  pub units : ℕ
  pub reason : String

pub record EffectQuota : Type 0 where
  pub remaining : Dict String ℕ
  pub reservations : Dict (String × String) EffectQuotaDecision

-- `self._remaining.get(tenant_id, 0)`
abbrev pub remaining_of : EffectQuota → String → ℕ
remaining_of s tenant_id = or_default (get tenant_id s.remaining) 0

unfoldable pub decide : String → ℕ → ℕ → EffectQuotaDecision
decide reservation_id units remaining = record {
  allowed = leb units remaining;
  reservation_id = reservation_id;
  units = units;
  reason = if leb units remaining then "reserved" else "effect_quota_exhausted";
}

unfoldable pub reserve_new : String → String → ℕ → Action EffectQuota EffectQuotaDecision
unfolding decide
reserve_new tenant_id reservation_id units s =
    let decision = decide reservation_id units (remaining_of s tenant_id) in
    (
      ok decision,
      record {
        remaining =
            if decision.allowed
            then put tenant_id (remaining_of s tenant_id - units) s.remaining
            else s.remaining;
        reservations = put (tenant_id, reservation_id) decision s.reservations;
      },
    )

unfoldable pub reserve_found :
    String → String → ℕ → Option EffectQuotaDecision → Action EffectQuota EffectQuotaDecision
unfolding reserve_new
reserve_found tenant_id reservation_id units (some existing) s = (ok existing, s)
reserve_found tenant_id reservation_id units none s = reserve_new tenant_id reservation_id units s

unfoldable pub reserve : String → String → ℕ → Action EffectQuota EffectQuotaDecision
unfolding reserve_found
reserve tenant_id reservation_id units s =
    if ltb units 1
    then (err value_error, s)
    else reserve_found tenant_id reservation_id units
        (get (tenant_id, reservation_id) s.reservations) s

-- The fields of a policy that the store reads.
pub record ActionPolicy : Type 0 where
  pub tenant_id : String
  pub policy_id : String
  pub revision : ℕ
  pub policy_digest : String

abbrev pub Policies : Type 0
Policies = Dict String ActionPolicy

unfoldable pub is_stale : ActionPolicy → Option ActionPolicy → Bool
is_stale policy none = false
is_stale policy (some current) = leb policy.revision current.revision

unfoldable pub replace : ActionPolicy → Action Policies (Unit {0})
unfolding is_stale
replace policy s =
    if is_stale policy (get policy.tenant_id s)
    then (err concurrency_conflict, s)
    else (ok tt, put policy.tenant_id policy s)
