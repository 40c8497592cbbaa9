-- ===== src/Remediation/Effects/Quota.antt =====
-- `InMemoryEffectQuota` and `InMemoryActionPolicyStore` over any sequence of calls.
use aegis_framework_platform.Base.{
  ℕ, ◌+◌, ◌<◌, String, ◌≡◌, refl, sym, ap, ◌∙◌, subst, ◌⊎◌, inl, inr, false, ◌&&◌, Bool-cases, [],
  ◌∷◌, some, none, Option, arith, string_eq, pair_eq, leb, ltb, ◌==◌, if◌then◌else◌, ok, or_default,
  beq_refl,
}
use aegis_framework_platform.Base.Dict.{Dict, get, put, get-put, get-put_self, get-put_ne}
use aegis_framework_platform.Remediation.Effects.{
  EffectQuotaDecision, EffectQuota, remaining_of, decide, reserve_new, reserve_found, reserve,
  ActionPolicy, Policies, is_stale, replace,
}

-- The units that the decisions grant the tenant.
abbrev granted : String → (String × String) × EffectQuotaDecision → ℕ
granted tenant_id (key, decision) =
    if key.0 == tenant_id && decision.allowed then decision.units else 0

unfoldable pub used : String → Dict (String × String) EffectQuotaDecision → ℕ
used tenant_id [] = 0
used tenant_id (entry ∷ rest) = granted tenant_id entry + used tenant_id rest

used-put :
    (tenant_id : String) (k : String × String) (d : EffectQuotaDecision)
    (reservations : Dict (String × String) EffectQuotaDecision)
    → get k reservations ≡ none
    → used tenant_id (put k d reservations) ≡ granted tenant_id (k, d) + used tenant_id reservations
unfolding used get put
used-put tenant_id k d [] h = refl
used-put tenant_id k d ((j, e) ∷ rest) h =
    elim (Bool-cases ((pair_eq ⦃e = string_eq⦄ ⦃f = string_eq⦄).beq j k)) [
      | inl same ↦ absurd (ground (arith, same))
      | inr other ↦ rw other (omega (arith, used-put tenant_id k d rest (ground arith)))
    ]

-- The quotas that reservations lead to, from a given one.
pub data QuotaReach (s : EffectQuota) : EffectQuota → Type 0 where
  start : QuotaReach s s
  after :
      {t : EffectQuota} (tenant_id reservation_id : String) (units : ℕ)
      → QuotaReach s t
      → QuotaReach s (reserve tenant_id reservation_id units t).1

-- What the tenant has left and what was granted to it are the limit.
abbrev pub IsBalanced : Dict String ℕ → EffectQuota → Type 0
IsBalanced limits s =
    (tenant_id : String)
    → remaining_of s tenant_id + used tenant_id s.reservations ≡ or_default (get tenant_id limits) 0

reserve_new-IsBalanced :
    (limits : Dict String ℕ) (s : EffectQuota) (tenant_id reservation_id : String) (units : ℕ)
    → get (tenant_id, reservation_id) s.reservations ≡ none
    → IsBalanced limits s
    → IsBalanced limits (reserve_new tenant_id reservation_id units s).1
unfolding reserve_new decide
reserve_new-IsBalanced limits s tenant_id reservation_id units new h other =
    rw (used-put other (tenant_id, reservation_id) _ s.reservations new)
      (elim (Bool-cases (leb units (remaining_of s tenant_id))) [
        | inr short ↦ rw short (ground (arith, h other))
        | inl fits ↦ rw fits (elim (Bool-cases (tenant_id == other)) [
          | inr apart ↦ rw (apart, get-put, apart) (omega (arith, h other))
          | inl same ↦
              let e : tenant_id ≡ other = (string_eq.beq_iff tenant_id other).0 same in
              rw (← e, beq_refl ⦃e = string_eq⦄ tenant_id, get-put_self)
                (ground (arith, h tenant_id))
        ])
      ])

reserve-IsBalanced :
    (limits : Dict String ℕ) (s : EffectQuota) (tenant_id reservation_id : String) (units : ℕ)
    → IsBalanced limits s
    → IsBalanced limits (reserve tenant_id reservation_id units s).1
unfolding reserve
reserve-IsBalanced limits s tenant_id reservation_id units h = elim (Bool-cases (ltb units 1)) [
  | inl none_asked ↦ rw none_asked h
  | inr asked ↦ rw asked (by_decision (get (tenant_id, reservation_id) s.reservations) refl)
]
  where
    by_decision :
        (o : Option EffectQuotaDecision)
        → get (tenant_id, reservation_id) s.reservations ≡ o
        → IsBalanced limits (reserve_found tenant_id reservation_id units o s).1
    by_decision none new =
        unfold reserve_found in reserve_new-IsBalanced limits s tenant_id reservation_id units new h
    by_decision (some d) e = unfold reserve_found in h

-- Whatever reservations were asked for, in whatever order: for every tenant, what is left and what
-- was granted add up to its limit.
pub quota_conserved :
    (limits : Dict String ℕ) (s : EffectQuota) (tenant_id : String)
    → QuotaReach (record { remaining = limits; reservations = [] }) s
    → remaining_of s tenant_id + used tenant_id s.reservations ≡ or_default (get tenant_id limits) 0
quota_conserved limits s tenant_id reach = balanced s reach tenant_id
  where
    balanced :
        (t : EffectQuota)
        → QuotaReach (record { remaining = limits; reservations = [] }) t
        → IsBalanced limits t
    balanced _ start = unfold used in λ t. omega arith
    balanced _ (after {t = t} tenant_id reservation_id units r) =
        reserve-IsBalanced limits t tenant_id reservation_id units (balanced t r)

reserve-kept :
    (key : String × String) (d : EffectQuotaDecision) (u : EffectQuota) (a b : String) (n : ℕ)
    → get key u.reservations ≡ some d
    → get key (reserve a b n u).1.reservations ≡ some d
unfolding reserve
reserve-kept key d u a b n h = elim (Bool-cases (ltb n 1)) [
  | inl none_asked ↦ rw none_asked h
  | inr asked ↦ rw asked (by_decision (get (a, b) u.reservations) refl)
]
  where
    by_decision :
        (o : Option EffectQuotaDecision)
        → get (a, b) u.reservations ≡ o
        → get key (reserve_found a b n o u).1.reservations ≡ some d
    by_decision (some x) e = unfold reserve_found in h
    by_decision none e =
        unfold reserve_found reserve_new in
        let k : String × String = (a, b) in
        get-put_ne k key _ u.reservations (λ q. cc (e, h, ap (λ i. get i u.reservations) q)) ∙ h

reach-kept :
    (key : String × String) (d : EffectQuotaDecision) (s t : EffectQuota)
    → get key s.reservations ≡ some d
    → QuotaReach s t
    → get key t.reservations ≡ some d
reach-kept key d s _ h start = h
reach-kept key d s _ h (after {t = t} a b n r) =
    reserve-kept key d t a b n (reach-kept key d s t h r)

-- A decision that stands is the answer to every later request of its reservation for at least one
-- unit, whatever other reservations came between, and the request changes nothing.
pub decision_stands :
    (s t : EffectQuota) (tenant_id reservation_id : String) (units : ℕ) (d : EffectQuotaDecision)
    → get (tenant_id, reservation_id) s.reservations ≡ some d
    → QuotaReach s t
    → 0 < units
    → reserve tenant_id reservation_id units t ≡ (ok d, t)
unfolding reserve reserve_found
decision_stands s t tenant_id reservation_id units d h reach p =
    let e : ltb units 1 ≡ false = ground arith in
    rw e (rw (reach-kept (tenant_id, reservation_id) d s t h reach) refl)

-- The stores that replacements lead to, from a given one.
pub data PolicyReach (s : Policies) : Policies → Type 0 where
  start : PolicyReach s s
  after :
      {t : Policies} (policy : ActionPolicy) → PolicyReach s t → PolicyReach s (replace policy t).1

abbrev pub IsLater : String → ActionPolicy → Policies → Type 0
IsLater tenant_id p t =
    (q : ActionPolicy) × (get tenant_id t ≡ some q) × ((q ≡ p) ⊎ (p.revision < q.revision))

later_revision :
    (p q policy : ActionPolicy)
    → ((q ≡ p) ⊎ (p.revision < q.revision))
    → is_stale policy (some q) ≡ false
    → p.revision < policy.revision
unfolding is_stale
later_revision p q policy (inl e) f =
    subst (λ (r : ActionPolicy). r.revision < policy.revision) e (ground arith)
later_revision p q policy (inr l) f = ground arith

replace-IsLater :
    (tenant_id : String) (p policy : ActionPolicy) (t : Policies)
    → IsLater tenant_id p t
    → IsLater tenant_id p (replace policy t).1
unfolding replace
replace-IsLater tenant_id p policy t (q, found, later) =
    elim (Bool-cases (is_stale policy (get policy.tenant_id t))) [
      | inl stale ↦ rw stale (q, found, later)
      | inr fresh ↦ rw fresh (elim (Bool-cases (policy.tenant_id == tenant_id)) [
        | inr apart ↦ (q, rw (get-put, apart) found, later)
        | inl same ↦
            let e : policy.tenant_id ≡ tenant_id =
              (string_eq.beq_iff policy.tenant_id tenant_id).0 same in
            let f : get policy.tenant_id t ≡ some q = ap (λ i. get i t) e ∙ found in
            (
              policy,
              rw (get-put, same) refl,
              inr (later_revision p q policy later (ap (is_stale policy) (sym f) ∙ fresh)),
            )
      ])
    ]

-- Whatever replacements follow, a policy of a tenant is the same ever after, or one with a later
-- revision has taken its place.
pub policy_advances :
    (s t : Policies) (tenant_id : String) (p : ActionPolicy)
    → get tenant_id s ≡ some p
    → PolicyReach s t
    → IsLater tenant_id p t
policy_advances s _ tenant_id p h start = (p, h, inl refl)
policy_advances s _ tenant_id p h (after {t = t} policy reach) =
    replace-IsLater tenant_id p policy t (policy_advances s t tenant_id p h reach)
