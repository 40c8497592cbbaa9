-- ===== src/Remediation/Effects/Tests.antt =====
-- The theorems on claims and quotas at one operation.
use aegis_framework_platform.Runtime.Plain.{plain, clean}
use aegis_framework_platform.Base.{
  ℕ, ◌+◌, String, ◌≡◌, refl, ◌≢◌, false, [], ◌∷◌, some, none, arith, string_eq, pair_eq, ◌==◌, ok,
  err, or_default, concurrency_conflict,
}
use aegis_framework_platform.Base.Dict.{Dict, get, put}
use aegis_framework_platform.Runtime.{stable_id, decimal}
use aegis_framework_platform.Remediation.{succeeded}
use aegis_framework_platform.Remediation.Effects.{
  ActionIntent, ActionReceipt, EffectClaim, Claims, EffectQuota, claim, complete, effect_token,
  new_claim, replayed_claim, advanced, is_bound, remaining_of, reserve, decide,
}
use aegis_framework_platform.Remediation.Effects.Receipts.{start, claimed, receipt_final}
use aegis_framework_platform.Remediation.Effects.Exclusion.{
  claim_excludes, takeover_fences, completed_claim_replays,
}
use aegis_framework_platform.Remediation.Effects.Quota.{QuotaReach, used, quota_conserved}

abbrev intent : ℕ → ActionIntent
intent attempt = record {
  tenant_id = "a";
  operation_id = "op";
  action_digest = "d1";
  plan_digest = "d2";
  approval_digest = "d3";
  policy_digest = "d4";
  target_fingerprint = "d5";
  fence_token = "f";
  attempt = attempt;
}

abbrev receipt : ActionReceipt
receipt = record {
  tenant_id = "a";
  plan_id = "plan";
  action_id = "act";
  operation_id = "op";
  idempotency_key = "k";
  fence_token = "f";
  attempt = 1;
  outcome = succeeded;
  provider_receipt_ref = none;
  target_fingerprint = "d5";
  recorded_at = 6;
  detail_code = "done";
  canonical_digest = "r";
}

abbrev claims : Claims
claims = (claim plain (intent 1) "w1" 4 10 []).1

tokens_differ : (effect_token plain (intent 1) "w1" == effect_token plain (intent 1) "w2") ≡ false
unfolding effect_token stable_id decimal clean
tokens_differ = refl

tokens_apart : effect_token plain (intent 1) "w1" ≢ effect_token plain (intent 1) "w2"
tokens_apart e = cc (
  tokens_differ,
  (string_eq.beq_iff (effect_token plain (intent 1) "w1") (effect_token plain (intent 1) "w2")).1 e,
)

claim_excludes_example :
    claim plain (intent 1) "w2" 6 20 claims ≡ (err concurrency_conflict, claims)
claim_excludes_example =
    claim_excludes plain (intent 1) "w1" 4 10 [] (unfold get in refl) (omega arith) (intent 1) "w2"
      6 20 refl (unfold new_claim is_bound in refl) (omega arith) tokens_apart (omega arith)

takeover_fences_example :
    let second = claim plain (intent 2) "w2" 12 20 claims in
    (second.0
      ≡ ok
          (replayed_claim (advanced plain (intent 2) "w2" 20 (new_claim plain (intent 1) "w1" 10))))
    × (complete receipt (effect_token plain (intent 1) "w1") second.1
        ≡ (err concurrency_conflict, second.1))
takeover_fences_example =
    takeover_fences plain (intent 1) "w1" 4 10 [] (unfold get in refl) (omega arith) (intent 2) "w2"
      12 20 refl (unfold new_claim is_bound in refl) (omega arith) receipt (omega arith)
      (omega arith) refl refl

completed_claim_replays_example :
    let done = complete receipt (effect_token plain (intent 1) "w1") claims in
    let answer : EffectClaim = record (new_claim plain (intent 1) "w1" 10) {
      receipt = some receipt;
    } in
    (done.0 ≡ ok tt)
    × (claim plain (intent 3) "w3" 30 40 done.1 ≡ (ok (replayed_claim answer), done.1))
completed_claim_replays_example =
    completed_claim_replays plain (intent 1) "w1" 4 10 [] (unfold get in refl) (omega arith) receipt
      (intent 3) "w3" 30 40 refl refl refl refl (unfold new_claim is_bound in refl) (omega arith)

abbrev settled : EffectClaim
settled = record {
  action_digest = "d1";
  plan_digest = "d2";
  approval_digest = "d3";
  policy_digest = "d4";
  target_fingerprint = "d5";
  fence_token = "f";
  attempt = 1;
  claim_token = "t";
  claim_until = 10;
  receipt = some receipt;
}

abbrev settled_claims : Claims
settled_claims = (("a", "op"), settled) ∷ []

receipt_final_example :
    get ("a", "op") (claim plain (intent 2) "w2" 12 20 settled_claims).1 ≡ some settled
receipt_final_example =
    receipt_final ("a", "op") settled refl plain settled_claims
      (claim plain (intent 2) "w2" 12 20 settled_claims).1 (unfold get in refl)
      (claimed (intent 2) "w2" 12 20 start)

abbrev limits : Dict String ℕ
limits = ("a", 5) ∷ []

abbrev quota : EffectQuota
quota = record { remaining = limits; reservations = [] }

quota_conserved_example :
    let s = (reserve "a" "r2" 4 (reserve "a" "r1" 3 quota).1).1 in
    remaining_of s "a" + used "a" s.reservations ≡ or_default (get "a" limits) 0
quota_conserved_example =
    quota_conserved limits (reserve "a" "r2" 4 (reserve "a" "r1" 3 quota).1).1 "a"
      (QuotaReach.after "a" "r2" 4 (QuotaReach.after "a" "r1" 3 QuotaReach.start))

quota_test : (reserve "a" "r2" 4 (reserve "a" "r1" 3 quota).1).0 ≡ ok (decide "r2" 4 2)
unfolding reserve get put
quota_test = refl

abbrev reserved : EffectQuota
reserved = record { remaining = ("a", 2) ∷ []; reservations = (("a", "r1"), decide "r1" 3 5) ∷ [] }
