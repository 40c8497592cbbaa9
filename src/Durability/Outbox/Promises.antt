-- ===== src/Durability/Outbox/Promises.antt =====
-- Several calls of `claim_outbox`, `complete_outbox` and `fail_outbox`, one after the other.
use aegis_framework_platform.Base.{
  String, ℕ, ◌+◌, ◌<◌, ◌≡◌, refl, sym, ap, ◌∙◌, subst, Bool, true, false, Bool-cases, inl, inr,
  ◌||◌, List, [], ◌∷◌, some, none, Option, arith, All, All-map, All-both, string_eq, pair_eq,
  contains, ltb, leb, if◌then◌else◌, Result, err, message_claim_conflict,
}
use mathlib.Core.Option.{some-injective}
use aegis_framework_platform.Base.Dict.{get, get-put_ne}
use aegis_framework_platform.Runtime.{Runtime}
use aegis_framework_platform.Durability.{
  Durability, DeliveryRecord, DeliveryClaim, DeliveryStatus, delivered, dead_letter, pending,
  max_delivery_attempts,
}
use aegis_framework_platform.Durability.Outbox.{
  is_due, candidates, claims_of, claim_outbox, claim_of, holds, claim_key, settle, update_claim,
  complete_outbox, fail_outbox,
}
use aegis_framework_platform.Durability.Outbox.Wellformed.{
  IsTable, candidates-IsCandidate, claim_outbox-IsTable, update_claim-IsTable,
}
use aegis_framework_platform.Durability.Outbox.Leases.{
  keys_of, claimed_keys, get-store_leases, found_candidates, IsHeld,
}
use aegis_framework_platform.Durability.Outbox.Claims.{
  returned, claim_outbox-IsHeld, claim_outbox-IsNext, IsNext, IsOver, held_not_due, not_candidate,
}

claimed_keys-claims_of :
    (rt : Runtime) (w : String) (u : ℕ) (k : String × (String × String)) (rs : List DeliveryRecord)
    → contains k (keys_of rs) ≡ false
    → contains k (claimed_keys (claims_of rt w u rs)) ≡ false
unfolding contains keys_of claimed_keys claims_of claim_of
claimed_keys-claims_of rt w u k [] h = refl
claimed_keys-claims_of rt w u k (r ∷ rs) h = ground (arith, claimed_keys-claims_of rt w u k rs)

-- A message that is not due is in no claim that a call returns.
claims_not_due :
    (rt : Runtime) (w : String) (u : ℕ) (tenant_id : String) (now limit : ℕ) (s : Durability)
    (k : String × (String × String)) (r : DeliveryRecord)
    → IsTable s.deliveries
    → get k s.deliveries ≡ some r
    → is_due tenant_id now (k, r) ≡ false
    → contains k (claimed_keys (returned (claim_outbox rt w u tenant_id now limit s).0)) ≡ false
unfolding claim_outbox
claims_not_due rt w u tenant_id now limit s k r h g n =
    elim (Bool-cases (ltb limit 1 || ltb 100 limit || leb u now)) [
      | inl out ↦ rw out (unfold contains claimed_keys in refl)
      | inr within ↦ rw within (
          claimed_keys-claims_of rt w u k (candidates tenant_id now limit s.deliveries) (
            not_candidate tenant_id now s.deliveries k r _ g n
              (candidates-IsCandidate tenant_id now s.deliveries limit h)))
    ]

-- The holder of another attempt does not hold the message.
other_attempt :
    (c c' : DeliveryClaim) (before after : DeliveryRecord)
    → holds c before ≡ true
    → c'.attempt ≡ before.attempts + 1
    → holds c' after ≡ true
    → holds c after ≡ false
unfolding holds
other_attempt c c' before after p n q = ground arith

complete_unheld :
    (c : DeliveryClaim) (r : DeliveryRecord) (s : Durability)
    → get (claim_key c) s.deliveries ≡ some r
    → holds c r ≡ false
    → complete_outbox c s ≡ (err message_claim_conflict, s)
unfolding complete_outbox
complete_unheld c r s g n = rw (g, update_claim) (rw (n, settle))

-- Two calls of `claim_outbox`, one after the other.
module _ (rt : Runtime) (worker₁ worker₂ : String) (until₁ until₂ : ℕ) (tenant₁ tenant₂ : String)
    (now₁ now₂ limit₁ limit₂ : ℕ) (s : Durability) (h : IsTable s.deliveries) where
  abbrev pub first_claim : Result (List DeliveryClaim) × Durability
  first_claim = claim_outbox rt worker₁ until₁ tenant₁ now₁ limit₁ s

  abbrev pub second_claim : Result (List DeliveryClaim) × Durability
  second_claim = claim_outbox rt worker₂ until₂ tenant₂ now₂ limit₂ first_claim.1

  table₁ : IsTable first_claim.1.deliveries
  table₁ = claim_outbox-IsTable rt worker₁ until₁ tenant₁ now₁ limit₁ s h

  not_claimed_again :
      now₂ < until₁
      → (c : DeliveryClaim) → IsHeld rt worker₁ until₁ c first_claim.1
      → contains (claim_key c) (claimed_keys (returned second_claim.0)) ≡ false
  not_claimed_again lt c held =
      claims_not_due rt worker₂ until₂ tenant₂ now₂ limit₂ first_claim.1 (claim_key c) held.stored
        table₁ held.found
        (held_not_due c held.stored until₁ now₂ tenant₂ (claim_key c) held.held held.until lt)

  -- On a well-formed table of deliveries, while the leases of a call of claim_outbox last, a second
  -- call, by whichever worker and for whichever tenant, returns no claim on a message that the
  -- first call claimed.
  pub claim_outbox_exclusive :
      now₂ < until₁
      → All
          (λ c. contains (claim_key c) (claimed_keys (returned second_claim.0)) ≡ false)
          (returned first_claim.0)
  claim_outbox_exclusive lt =
      All-map (returned first_claim.0) (not_claimed_again lt)
        (claim_outbox-IsHeld rt worker₁ until₁ tenant₁ now₁ limit₁ s h)

  superseded :
      (c : DeliveryClaim)
      → IsHeld rt worker₁ until₁ c first_claim.1
      → (c' : DeliveryClaim) → IsHeld rt worker₂ until₂ c' second_claim.1 × IsNext c' first_claim.1
      → claim_key c ≡ claim_key c'
      → complete_outbox c second_claim.1 ≡ (err message_claim_conflict, second_claim.1)
  superseded c a c' (b, n) e =
      complete_unheld c b.stored second_claim.1 (subst Stored (sym e) b.found) (
        other_attempt c c' a.stored b.stored a.held
          (n.next
            ∙ ap (λ (r : DeliveryRecord). r.attempts + 1)
                (some-injective n.previous a.stored (
                  sym n.was
                  ∙ subst (λ k. get k first_claim.1.deliveries ≡ some a.stored) e a.found)))
          b.held)
    where
      Stored : String × (String × String) → Type 0
      Stored k = get k second_claim.1.deliveries ≡ some b.stored

  -- On a well-formed table of deliveries, after two calls of claim_outbox, one after the other, a
  -- claim of the first call on a message that the second call claimed too can no longer be
  -- completed: completing it is refused and changes nothing.
  pub reclaim_fences :
      All
        (λ c.
          All
            (λ c'.
              claim_key c ≡ claim_key c'
              → complete_outbox c second_claim.1 ≡ (err message_claim_conflict, second_claim.1))
            (returned second_claim.0))
        (returned first_claim.0)
  reclaim_fences =
      All-map (returned first_claim.0)
        (λ c a. All-map (returned second_claim.0) (superseded c a) (
          All-both _ _ (returned second_claim.0)
            (claim_outbox-IsHeld rt worker₂ until₂ tenant₂ now₂ limit₂ first_claim.1 table₁)
            (claim_outbox-IsNext rt worker₂ until₂ tenant₂ now₂ limit₂ first_claim.1 table₁)))
        (claim_outbox-IsHeld rt worker₁ until₁ tenant₁ now₁ limit₁ s h)

-- The calls on the outbox, by any worker, of any claim, in any order.
pub data OutboxStep (rt : Runtime) (s : Durability) : Durability → Type 0 where
  claim :
      (worker_ref : String) (claim_until : ℕ) (tenant_id : String) (now limit : ℕ)
      → OutboxStep rt s (claim_outbox rt worker_ref claim_until tenant_id now limit s).1
  complete : (c : DeliveryClaim) → OutboxStep rt s (complete_outbox c s).1
  fail :
      (c : DeliveryClaim) (code : String) (retry_at : ℕ) (permanent : Bool)
      → OutboxStep rt s (fail_outbox c code retry_at permanent s).1

pub data OutboxReach (rt : Runtime) (s : Durability) : Durability → Type 0 where
  here : OutboxReach rt s s
  next : {t u : Durability} → OutboxReach rt s t → OutboxStep rt t u → OutboxReach rt s u

pub OutboxStep-IsTable :
    (rt : Runtime) (s : Durability) {t : Durability}
    → IsTable s.deliveries
    → OutboxStep rt s t
    → IsTable t.deliveries
unfolding complete_outbox fail_outbox
OutboxStep-IsTable rt s h (claim w u t now limit) = claim_outbox-IsTable rt w u t now limit s h
OutboxStep-IsTable rt s h (complete c) = update_claim-IsTable c delivered none none s h
OutboxStep-IsTable rt s h (fail c code retry_at permanent) =
    update_claim-IsTable c
      (if permanent || leb max_delivery_attempts c.attempt then dead_letter else pending)
      (some code) (some retry_at) s h

over_not_due :
    (k : String × (String × String)) (r : DeliveryRecord) (tenant_id : String) (now : ℕ)
    → IsOver r
    → is_due tenant_id now (k, r) ≡ false
unfolding is_due
over_not_due k r tenant_id now (inl e) = ground arith
over_not_due k r tenant_id now (inr e) = ground arith

over_not_held : (c : DeliveryClaim) (r : DeliveryRecord) → IsOver r → holds c r ≡ false
unfolding holds
over_not_held c r (inl e) = ground arith
over_not_held c r (inr e) = ground arith

module _ (k : String × (String × String)) (r : DeliveryRecord) (over : IsOver r) where
  claim_keeps_over :
      (rt : Runtime) (w : String) (u : ℕ) (tenant_id : String) (now limit : ℕ) (s : Durability)
      → IsTable s.deliveries
      → get k s.deliveries ≡ some r
      → get k (claim_outbox rt w u tenant_id now limit s).1.deliveries ≡ some r
  unfolding claim_outbox
  claim_keeps_over rt w u tenant_id now limit s h g =
      elim (Bool-cases (ltb limit 1 || ltb 100 limit || leb u now)) [
        | inl out ↦ rw out g
        | inr within ↦
            let all = candidates-IsCandidate tenant_id now s.deliveries limit h in
            rw within (
              get-store_leases rt w u s.deliveries (candidates tenant_id now limit s.deliveries)
                s.deliveries k (found_candidates tenant_id now s.deliveries _ all)
              ∙ rw
                  (not_candidate tenant_id now s.deliveries k r _ g
                    (over_not_due k r tenant_id now over) all)
                  g)
      ]

  settle_keeps_over :
      (c : DeliveryClaim) (status : DeliveryStatus) (code : Option String) (retry : Option ℕ)
      (s : Durability) (o : Option DeliveryRecord)
      → get (claim_key c) s.deliveries ≡ o
      → get k s.deliveries ≡ some r
      → get k (settle c status code retry o s).1.deliveries ≡ some r
  unfolding settle
  settle_keeps_over c status code retry s none f g = g
  settle_keeps_over c status code retry s (some q) f g = elim (Bool-cases (holds c q)) [
    | inr lost ↦ rw lost g
    | inl held ↦ rw held (
        rw
          (get-put_ne (claim_key c) k _ s.deliveries (λ e.
            let same : q ≡ r =
              some-injective q r (sym f ∙ subst (λ j. get j s.deliveries ≡ some r) (sym e) g) in
            let lost : holds c q ≡ holds c r = ap (holds c) same in
            cc (held, lost, over_not_held c r over)))
          g)
  ]

  -- On a well-formed table of deliveries, a message that is delivered or a dead letter is never
  -- changed again, whatever calls on the outbox follow, and the table stays well-formed.
  pub OutboxReach-keeps_over :
      (rt : Runtime) (s t : Durability)
      → IsTable s.deliveries
      → get k s.deliveries ≡ some r
      → OutboxReach rt s t
      → IsTable t.deliveries × (get k t.deliveries ≡ some r)
  OutboxReach-keeps_over rt s t h g here = (h, g)
  OutboxReach-keeps_over rt s t h g (next {t = u} reach step) =
      let (table, found) = OutboxReach-keeps_over rt s u h g reach in
      (OutboxStep-IsTable rt u table step, step_keeps rt u table found step)
    where
      step_keeps :
          (rt : Runtime) (u : Durability) {v : Durability}
          → IsTable u.deliveries
          → get k u.deliveries ≡ some r
          → OutboxStep rt u v
          → get k v.deliveries ≡ some r
      step_keeps rt u table found (claim w until tenant_id now limit) =
          claim_keeps_over rt w until tenant_id now limit u table found
      step_keeps rt u table found (complete c) =
          unfold complete_outbox update_claim in
          settle_keeps_over c delivered none none u (get (claim_key c) u.deliveries) refl found
      step_keeps rt u table found (fail c code retry_at permanent) =
          unfold fail_outbox update_claim in
          settle_keeps_over c
            (if permanent || leb max_delivery_attempts c.attempt then dead_letter else pending)
            (some code) (some retry_at) u (get (claim_key c) u.deliveries) refl found
