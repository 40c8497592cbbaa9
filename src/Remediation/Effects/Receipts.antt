-- ===== src/Remediation/Effects/Receipts.antt =====
-- The claims of `InMemoryEffectClaims` over any sequence of calls.
use aegis_framework_platform.Base.{
  ℕ, String, ◌≡◌, refl, sym, ap, ◌∙◌, subst, inl, inr, true, false, Bool-cases, some, none, Option,
  arith, string_eq, pair_eq, leb,
}
use mathlib.Core.Option.{some-injective}
use aegis_framework_platform.Base.Dict.{get, put, get-put, get-put_ne}
use aegis_framework_platform.Runtime.{Runtime}
use aegis_framework_platform.Remediation.Effects.{
  ActionIntent, ActionReceipt, EffectClaim, Claims, is_open, claim_key, receipt_key, advanced,
  reclaim, claim_or_reclaim, claim, is_holder, settle_receipt, complete_found, complete,
}

-- The calls on the claims, by any worker, of any operation.
pub data EffectReach (rt : Runtime) (s : Claims) : Claims → Type 0 where
  start : EffectReach rt s s
  claimed :
      {t : Claims} (intent : ActionIntent) (worker_ref : String) (now claim_until : ℕ)
      → EffectReach rt s t
      → EffectReach rt s (claim rt intent worker_ref now claim_until t).1
  completed :
      {t : Claims} (receipt : ActionReceipt) (claim_token : String)
      → EffectReach rt s t
      → EffectReach rt s (complete receipt claim_token t).1

module _ (k : String × String) (c : EffectClaim) (settled : is_open c.receipt ≡ false) where
  kept-put :
      (s : Claims) (j : String × String) (d e : EffectClaim)
      → get k s ≡ some c
      → get j s ≡ some e
      → is_open e.receipt ≡ true
      → get k (put j d s) ≡ some c
  kept-put s j d e g f o = elim (Bool-cases ((pair_eq ⦃e = string_eq⦄ ⦃f = string_eq⦄).beq j k)) [
    | inr other ↦ rw (get-put, other) g
    | inl same ↦
        let q : j ≡ k = (pair_eq.beq_iff j k).0 same in
        let r : e ≡ c = some-injective e c (sym f ∙ subst (λ i. get i s ≡ some c) (sym q) g) in
        absurd (cc (ap (λ (x : EffectClaim). is_open x.receipt) r, o, settled))
  ]

  claim-kept :
      (rt : Runtime) (intent : ActionIntent) (worker_ref : String) (now claim_until : ℕ)
      (s : Claims)
      → get k s ≡ some c
      → get k (claim rt intent worker_ref now claim_until s).1 ≡ some c
  unfolding claim
  claim-kept rt intent worker_ref now claim_until s g = elim (Bool-cases (leb claim_until now)) [
    | inl late ↦ rw late g
    | inr early ↦ rw early (by_claim (get (claim_key intent) s) refl)
  ]
    where
      by_claim :
          (o : Option EffectClaim)
          → get (claim_key intent) s ≡ o
          → get k (claim_or_reclaim rt intent worker_ref now claim_until o s).1 ≡ some c
      by_claim none f =
          unfold claim_or_reclaim in
          get-put_ne (claim_key intent) k _ s (λ q. cc (f, g, ap (λ i. get i s) q)) ∙ g
      by_claim (some e) f =
          unfold claim_or_reclaim reclaim in
          elim (Bool-cases (is_open e.receipt)) [
            | inr shut ↦ rw shut (ground (arith, g))
            | inl pending ↦
                let kept =
                  kept-put s (claim_key intent) (advanced rt intent worker_ref claim_until e) e g f
                    pending in
                ground (arith, kept)
          ]

  complete-kept :
      (receipt : ActionReceipt) (claim_token : String) (s : Claims)
      → get k s ≡ some c
      → get k (complete receipt claim_token s).1 ≡ some c
  unfolding complete
  complete-kept receipt claim_token s g = by_claim (get (receipt_key receipt) s) refl
    where
      by_claim :
          (o : Option EffectClaim)
          → get (receipt_key receipt) s ≡ o
          → get k (complete_found receipt claim_token o s).1 ≡ some c
      by_claim none f = unfold complete_found in g
      by_claim (some e) f =
          unfold complete_found in
          elim (Bool-cases (is_holder receipt claim_token e)) [
            | inr stale ↦ rw stale g
            | inl held ↦ rw held (by_receipt e f e.receipt refl)
          ]
        where
          by_receipt :
              (e : EffectClaim)
              → get (receipt_key receipt) s ≡ some e
              → (r : Option ActionReceipt) → e.receipt ≡ r
              → get k (settle_receipt receipt e r s).1 ≡ some c
          by_receipt e f (some r) q = unfold settle_receipt in ground (arith, g)
          by_receipt e f none q =
              unfold settle_receipt in kept-put s (receipt_key receipt) _ e g f (rw q refl)

  -- A claim that has its receipt is never changed again, whatever calls follow.
  pub receipt_final :
      (rt : Runtime) (s t : Claims) → get k s ≡ some c → EffectReach rt s t → get k t ≡ some c
  receipt_final rt s _ g start = g
  receipt_final rt s _ g (claimed {t = t} intent worker_ref now claim_until reach) =
      claim-kept rt intent worker_ref now claim_until t (receipt_final rt s t g reach)
  receipt_final rt s _ g (completed {t = t} receipt claim_token reach) =
      complete-kept receipt claim_token t (receipt_final rt s t g reach)
