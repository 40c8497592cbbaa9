-- ===== src/Durability/Outbox/Claims.antt =====
-- The claims that `claim_outbox` returns, and their completion.
use aegis_framework_platform.Base.{
  String, ℕ, ◌+◌, ◌<◌, ◌≡◌, refl, sym, ◌∙◌, subst, ◌⊎◌, true, false, Bool-cases, inl, inr, ◌||◌,
  List, [], ◌∷◌, some, none, arith, All, All-map, All-both, string_eq, pair_eq, contains, beq_refl,
  beq-eq_true, ltb, leb, Result, ok, err, message_claim_conflict,
}
use mathlib.Core.Option.{some-injective}
use aegis_framework_platform.Base.Dict.{get, put, get-put_self}
use aegis_framework_platform.Runtime.{Runtime}
use aegis_framework_platform.Durability.{
  Durability, DeliveryRecord, DeliveryClaim, delivered, dead_letter, max_delivery_attempts,
}
use aegis_framework_platform.Durability.Outbox.{
  Deliveries, is_due, candidates, delivery_key, lease, claim_token, store_leases, claim_outbox,
  claim_of, holds, claim_key, settle, update_claim, complete_outbox,
}
use aegis_framework_platform.Durability.Outbox.Wellformed.{
  IsTable, IsCandidate, candidates-IsCandidate,
}
use aegis_framework_platform.Durability.Outbox.Leases.{
  keys_of, get-store_leases, found_candidates, IsHeld, claims_of-All, contains_members,
}

-- The claims that a call returned.
abbrev pub returned : Result (List DeliveryClaim) → List DeliveryClaim
returned (ok claims) = claims
returned (err e) = []

module _ (rt : Runtime) (worker_ref : String) (claim_until : ℕ) where
  lease_held :
      (r : DeliveryRecord)
      → ltb max_delivery_attempts (r.attempts + 1) ≡ false
      → holds (claim_of rt worker_ref claim_until r) (lease rt worker_ref claim_until r) ≡ true
  unfolding holds lease claim_of
  lease_held r left =
      ground (arith, left, beq_refl ⦃e = string_eq⦄ (claim_token rt worker_ref claim_until r))

  lease_until :
      (r : DeliveryRecord)
      → ltb max_delivery_attempts (r.attempts + 1) ≡ false
      → (lease rt worker_ref claim_until r).claim_until ≡ some claim_until
  unfolding lease
  lease_until r left = ground (arith, left)

  module _ (tenant_id : String) (now limit : ℕ) (s : Durability) (h : IsTable s.deliveries) where
    abbrev rs : List DeliveryRecord
    rs = candidates tenant_id now limit s.deliveries

    rs_candidates : All (IsCandidate tenant_id now s.deliveries) rs
    rs_candidates = candidates-IsCandidate tenant_id now s.deliveries limit h

    leased :
        (r : DeliveryRecord)
        → get (delivery_key r) s.deliveries ≡ some r
        → contains (delivery_key r) (keys_of rs) ≡ true
        → get (delivery_key r) (store_leases rt worker_ref claim_until rs s.deliveries)
          ≡ some (lease rt worker_ref claim_until r)
    leased r found member =
        get-store_leases rt worker_ref claim_until s.deliveries rs s.deliveries (delivery_key r)
          (found_candidates tenant_id now s.deliveries rs rs_candidates)
        ∙ rw (member, found)

    -- Every claim that a call of claim_outbox returns, on a well-formed table of deliveries, holds
    -- its message, until the instant that was asked for.
    pub claim_outbox-IsHeld :
        let (r, s') = claim_outbox rt worker_ref claim_until tenant_id now limit s in
        All (λ c. IsHeld rt worker_ref claim_until c s') (returned r)
    unfolding claim_outbox
    claim_outbox-IsHeld = elim (Bool-cases (ltb limit 1 || ltb 100 limit || leb claim_until now)) [
      | inl out ↦ rw out tt
      | inr within ↦ rw within (
          claims_of-All rt worker_ref claim_until _ rs
            (All-map rs held_candidate (All-both _ _ rs rs_candidates (contains_members rs))))
    ]
      where
        held_candidate :
            (r : DeliveryRecord)
            → IsCandidate tenant_id now s.deliveries r
              × (contains (delivery_key r) (keys_of rs) ≡ true)
            → ltb max_delivery_attempts (r.attempts + 1) ≡ false
            → IsHeld rt worker_ref claim_until
                (claim_of rt worker_ref claim_until r)
                (record s { deliveries = store_leases rt worker_ref claim_until rs s.deliveries })
        held_candidate r c left = record {
          stored = lease rt worker_ref claim_until r;
          found = unfold claim_of in leased r c.0.found c.1;
          held = lease_held r left;
          until = lease_until r left;
        }

-- A claim is the next attempt on a message of the state that it was taken in.
pub record IsNext (c : DeliveryClaim) (s : Durability) : Type 0 where
  pub previous : DeliveryRecord
  pub was : get (claim_key c) s.deliveries ≡ some previous
  pub next : c.attempt ≡ previous.attempts + 1

pub claim_outbox-IsNext :
    (rt : Runtime) (worker_ref : String) (claim_until : ℕ) (tenant_id : String) (now limit : ℕ)
    (s : Durability)
    → IsTable s.deliveries
    → All
        (λ c. IsNext c s)
        (returned (claim_outbox rt worker_ref claim_until tenant_id now limit s).0)
unfolding claim_outbox claim_of
claim_outbox-IsNext rt worker_ref claim_until tenant_id now limit s h =
    elim (Bool-cases (ltb limit 1 || ltb 100 limit || leb claim_until now)) [
      | inl out ↦ rw out tt
      | inr within ↦ rw within (
          claims_of-All rt worker_ref claim_until _ (candidates tenant_id now limit s.deliveries) (
            All-map (candidates tenant_id now limit s.deliveries)
              (λ r c left. record { previous = r; was = c.found; next = refl })
              (candidates-IsCandidate tenant_id now s.deliveries limit h)))
    ]

-- A delivery that is over: delivered, or given up.
abbrev pub IsOver : DeliveryRecord → Type 0
IsOver r = (r.status ≡ delivered) ⊎ (r.status ≡ dead_letter)

-- The message of a claim that has been completed.
abbrev completed : DeliveryRecord → DeliveryRecord
completed r = record r {
  claim_token = none;
  claim_until = none;
  last_error_code = none;
  status = delivered;
}

-- What completing a claim does once and again.
pub record IsCompletable (c : DeliveryClaim) (s : Durability) : Type 0 where
  pub succeeds : (complete_outbox c s).0 ≡ ok tt
  pub message : DeliveryRecord
  pub stored : get (claim_key c) (complete_outbox c s).1.deliveries ≡ some message
  pub is_delivered : message.status ≡ delivered
  pub refused :
      complete_outbox c (complete_outbox c s).1
      ≡ (err message_claim_conflict, (complete_outbox c s).1)

complete-IsHeld :
    (rt : Runtime) (worker_ref : String) (claim_until : ℕ) (c : DeliveryClaim) (s : Durability)
    → (h : IsHeld rt worker_ref claim_until c s)
    → complete_outbox c s
      ≡ (ok tt, record s { deliveries = put (claim_key c) (completed h.stored) s.deliveries })
unfolding complete_outbox
complete-IsHeld rt worker_ref claim_until c s h = rw (h.found, update_claim) (rw (h.held, settle))

refused_completed :
    (c : DeliveryClaim) (r : DeliveryRecord) (s : Durability)
    → get (claim_key c) s.deliveries ≡ some (completed r)
    → complete_outbox c s ≡ (err message_claim_conflict, s)
unfolding complete_outbox
refused_completed c r s found = rw (found, update_claim) (unfold settle holds in refl)

IsHeld-IsCompletable :
    (rt : Runtime) (worker_ref : String) (claim_until : ℕ) (c : DeliveryClaim) (s : Durability)
    → IsHeld rt worker_ref claim_until c s
    → IsCompletable c s
IsHeld-IsCompletable rt worker_ref claim_until c s h =
    let done = complete-IsHeld rt worker_ref claim_until c s h in
    let kept = get-put_self (claim_key c) (completed h.stored) s.deliveries in
    record {
      succeeds = rw done;
      message = completed h.stored;
      stored = rw done kept;
      is_delivered = refl;
      refused = rw done (refused_completed c h.stored _ kept);
    }

-- On a well-formed table of deliveries, every claim that a call of claim_outbox returns can be
-- completed in the state that the call leaves, and only once: completing it succeeds and its
-- message is delivered, and completing it again is refused as a conflict and changes nothing.
pub complete-claim_outbox :
    (rt : Runtime) (worker_ref : String) (claim_until : ℕ) (tenant_id : String) (now limit : ℕ)
    (s : Durability)
    → IsTable s.deliveries
    → let (r, s') = claim_outbox rt worker_ref claim_until tenant_id now limit s in
      All (λ c. IsCompletable c s') (returned r)
complete-claim_outbox rt worker_ref claim_until tenant_id now limit s h =
    All-map _ (λ c held. IsHeld-IsCompletable rt worker_ref claim_until c _ held)
      (claim_outbox-IsHeld rt worker_ref claim_until tenant_id now limit s h)

pub held_not_due :
    (c : DeliveryClaim) (r : DeliveryRecord) (until now : ℕ) (tenant_id : String)
    (k : String × (String × String))
    → holds c r ≡ true
    → r.claim_until ≡ some until
    → now < until
    → is_due tenant_id now (k, r) ≡ false
unfolding holds is_due
held_not_due c r until now tenant_id k h u lt = ground arith

pub not_candidate :
    (tenant_id : String) (now : ℕ) (d : Deliveries) (k : String × (String × String))
    (r : DeliveryRecord) (rs : List DeliveryRecord)
    → get k d ≡ some r
    → is_due tenant_id now (k, r) ≡ false
    → All (IsCandidate tenant_id now d) rs
    → contains k (keys_of rs) ≡ false
unfolding contains keys_of
not_candidate tenant_id now d k r [] g n h = refl
not_candidate tenant_id now d k r (x ∷ xs) g n h =
    elim (Bool-cases (pair_eq.beq (delivery_key x) k)) [
      | inl same ↦
          let e = beq-eq_true ⦃e = pair_eq⦄ (delivery_key x) k same in
          let f : x ≡ r =
            some-injective x r (sym h.0.found ∙ subst (λ q. get q d ≡ some r) (sym e) g) in
          let p : is_due tenant_id now (delivery_key x, x) ≡ is_due tenant_id now (k, r) =
            λ i. is_due tenant_id now (e i, f i) in
          cc (n, h.0.due, p)
      | inr other ↦ rw other (not_candidate tenant_id now d k r xs g n h.1)
    ]
