-- ===== src/Remediation/Effects/Exclusion.antt =====
-- Two workers that claim the same effect, one after the other.
use aegis_framework_platform.Base.{
  ℕ, ◌<◌, ◌≤◌, String, ◌≡◌, refl, sym, ap, ◌∙◌, ◌≢◌, true, false, some, none, arith, string_eq,
  pair_eq, leb, ◌==◌, ok, err, beq_refl, beq-eq_false, concurrency_conflict,
}
use aegis_framework_platform.Base.Dict.{get, put, get-put_self}
use aegis_framework_platform.Runtime.{Runtime}
use aegis_framework_platform.Remediation.Effects.{
  ActionIntent, ActionReceipt, EffectClaim, Claims, is_open, claim_key, receipt_key, is_bound,
  replayed_claim, effect_token, new_claim, advanced, reclaim, claim_or_reclaim, claim, is_holder,
  settle_receipt, complete_found, complete,
}

-- The branches of `reclaim` that answer a claim of the same binding.
module _ (rt : Runtime) (intent : ActionIntent) (worker_ref : String) (now until : ℕ)
    (e : EffectClaim) (s : Claims) (bound : is_bound intent e ≡ true) where
  reclaim_held :
      is_open e.receipt ≡ true
      → now < e.claim_until
      → (e.claim_token == effect_token rt intent worker_ref) ≡ false
      → reclaim rt intent worker_ref now until e s ≡ (err concurrency_conflict, s)
  unfolding reclaim
  reclaim_held open_claim lasts apart = ground (arith, open_claim, apart, bound)

  reclaim_over :
      is_open e.receipt ≡ true
      → e.claim_until ≤ now
      → e.attempt < intent.attempt
      → reclaim rt intent worker_ref now until e s ≡ (
        ok (replayed_claim (advanced rt intent worker_ref until e)),
        put (claim_key intent) (advanced rt intent worker_ref until e) s,
      )
  unfolding reclaim
  reclaim_over open_claim over next = ground (arith, open_claim, bound)

  reclaim_settled :
      is_open e.receipt ≡ false
      → reclaim rt intent worker_ref now until e s ≡ (ok (replayed_claim e), s)
  unfolding reclaim
  reclaim_settled settled = ground (arith, settled, bound)

  claim_found :
      now < until
      → get (claim_key intent) s ≡ some e
      → claim rt intent worker_ref now until s ≡ reclaim rt intent worker_ref now until e s
  unfolding claim claim_or_reclaim
  claim_found proper f = let early : leb until now ≡ false = ground arith in rw early (rw f refl)

module _ (rt : Runtime) (intent : ActionIntent) (worker_ref : String) (now claim_until : ℕ)
    (s : Claims) (fresh : get (claim_key intent) s ≡ none) (valid : now < claim_until) where
  abbrev pub held : EffectClaim
  held = new_claim rt intent worker_ref claim_until

  claim_fresh : (claim rt intent worker_ref now claim_until s).1 ≡ put (claim_key intent) held s
  unfolding claim claim_or_reclaim
  claim_fresh = let early : leb claim_until now ≡ false = ground arith in rw early (rw fresh refl)

  found_held : get (claim_key intent) (claim rt intent worker_ref now claim_until s).1 ≡ some held
  found_held = ap (get (claim_key intent)) claim_fresh ∙ get-put_self (claim_key intent) held s

  module _ (other : ActionIntent) (other_worker : String) (later until : ℕ)
      (same : claim_key intent ≡ claim_key other) (bound : is_bound other held ≡ true)
      (proper : later < until) where
    abbrev first : Claims
    first = (claim rt intent worker_ref now claim_until s).1

    found : get (claim_key other) first ≡ some held
    found = ap (λ k. get k first) (sym same) ∙ found_held

    abbrev taken : EffectClaim
    taken = advanced rt other other_worker until held

    take_over :
        claim_until ≤ later
        → intent.attempt < other.attempt
        → claim rt other other_worker later until first
          ≡ (ok (replayed_claim taken), put (claim_key other) taken first)
    take_over over next =
        claim_found rt other other_worker later until held first bound proper found
        ∙ reclaim_over rt other other_worker later until held first bound (unfold new_claim in refl)
            (unfold new_claim in over) (unfold new_claim in next)

    refuse_late :
        (receipt : ActionReceipt) (token : String) (t : Claims)
        → intent.attempt < other.attempt
        → receipt.attempt ≡ intent.attempt
        → get (receipt_key receipt) t ≡ some taken
        → complete receipt token t ≡ (err concurrency_conflict, t)
    unfolding complete complete_found is_holder advanced
    refuse_late receipt token t next attempt f = rw f (ground arith)

    -- While a new claim of a worker lasts, a worker with another token and the same binding is
    -- refused and changes nothing.
    pub claim_excludes :
        effect_token rt intent worker_ref ≢ effect_token rt other other_worker
        → later < claim_until
        → let after = (claim rt intent worker_ref now claim_until s).1 in
          claim rt other other_worker later until after ≡ (err concurrency_conflict, after)
    claim_excludes apart lasts =
        claim_found rt other other_worker later until held first bound proper found
        ∙ reclaim_held rt other other_worker later until held first bound (unfold new_claim in refl)
            (unfold new_claim in lasts)
            (beq-eq_false ⦃e = string_eq⦄ held.claim_token (effect_token rt other other_worker)
              (unfold new_claim in apart))

    -- When a new claim has run out, a worker with a later attempt and the same binding takes the
    -- operation over, and what the first worker then completes, with a receipt of the operation and
    -- of its own attempt, is refused and changes nothing.
    pub takeover_fences :
        (receipt : ActionReceipt)
        → claim_until ≤ later
        → intent.attempt < other.attempt
        → receipt_key receipt ≡ claim_key intent
        → receipt.attempt ≡ intent.attempt
        → let second =
            claim rt other other_worker later until
              (claim rt intent worker_ref now claim_until s).1 in
          (second.0 ≡ ok (replayed_claim (advanced rt other other_worker until held)))
          × (complete receipt (effect_token rt intent worker_ref) second.1
              ≡ (err concurrency_conflict, second.1))
    takeover_fences receipt over next key attempt = rw (take_over over next) (
      refl,
      refuse_late receipt _ _ next attempt (
          ap (λ k. get k (put (claim_key other) taken first)) (key ∙ same)
          ∙ get-put_self (claim_key other) taken first),
    )

  settled :
      (receipt : ActionReceipt)
      → receipt_key receipt ≡ claim_key intent
      → receipt.fence_token ≡ intent.fence_token
      → receipt.attempt ≡ intent.attempt
      → let t = (claim rt intent worker_ref now claim_until s).1 in
        complete receipt (effect_token rt intent worker_ref) t
        ≡ (ok tt, put (receipt_key receipt) (record held { receipt = some receipt }) t)
  unfolding complete complete_found is_holder settle_receipt new_claim
  settled receipt key fence attempt =
      let t = (claim rt intent worker_ref now claim_until s).1 in
      let f : get (receipt_key receipt) t ≡ some held = ap (λ k. get k t) key ∙ found_held in
      rw f (
        ground (
          arith,
          beq_refl ⦃e = string_eq⦄ (effect_token rt intent worker_ref),
          string_eq.beq_iff intent.fence_token receipt.fence_token,
        ))

  -- Completing a new claim with a receipt of its operation, its fence and its attempt succeeds, and
  -- the next claim of the operation with the same binding, by whichever worker, is answered with
  -- that receipt and changes nothing.
  pub completed_claim_replays :
      (receipt : ActionReceipt) (other : ActionIntent) (other_worker : String) (later until : ℕ)
      → receipt_key receipt ≡ claim_key intent
      → receipt.fence_token ≡ intent.fence_token
      → receipt.attempt ≡ intent.attempt
      → claim_key other ≡ claim_key intent
      → is_bound other held ≡ true
      → later < until
      → let done =
          complete receipt
            (effect_token rt intent worker_ref)
            (claim rt intent worker_ref now claim_until s).1 in
        let answer : EffectClaim = record held { receipt = some receipt } in
        (done.0 ≡ ok tt)
        × (claim rt other other_worker later until done.1 ≡ (ok (replayed_claim answer), done.1))
  completed_claim_replays receipt other other_worker later until key fence attempt same bound
        proper =
      let answer : EffectClaim = record held { receipt = some receipt } in
      let t = (claim rt intent worker_ref now claim_until s).1 in
      let done : Claims = put (receipt_key receipt) answer t in
      let bound_answer : is_bound other answer ≡ true = unfold is_bound in bound in
      rw (settled receipt key fence attempt) (
        refl,
        claim_found rt other other_worker later until answer done bound_answer proper
              (ap (λ k. get k done) (same ∙ sym key) ∙ get-put_self (receipt_key receipt) answer t)
            ∙ reclaim_settled rt other other_worker later until answer done bound_answer refl,
      )
