-- ===== src/Interoperability/Bounds.antt =====
-- The limits of `InvocationQuota` over any sequence of reservations.
use aegis_framework_platform.Base.{
  ℕ, ◌+◌, ◌≤◌, String, ◌≡◌, refl, sym, ap, ◌∙◌, inl, inr, ◌||◌, Bool-cases, [], ◌∷◌, Option, none,
  some, arith, ltb, ◌==◌, if◌then◌else◌, string_eq, nat_eq, pair_eq, beq_refl, ok,
}
use aegis_framework_platform.Base.Dict.{Dict, get, put, get-put, get-put_self}
use aegis_framework_platform.Interoperability.{
  InvocationQuota, new_quota, usage_of, reserve_units, reserve_known, reserve_invocation,
}

-- How many reservations the tenant has, and what they cost together.
unfoldable pub requests_of : String → Dict String (String × ℕ) → ℕ
requests_of tenant_ref [] = 0
requests_of tenant_ref ((id, entry) ∷ rest) =
    if entry.0 == tenant_ref then requests_of tenant_ref rest + 1 else requests_of tenant_ref rest

unfoldable pub cost_of : String → Dict String (String × ℕ) → ℕ
cost_of tenant_ref [] = 0
cost_of tenant_ref ((id, entry) ∷ rest) =
    if entry.0 == tenant_ref then cost_of tenant_ref rest + entry.1 else cost_of tenant_ref rest

requests_of-put :
    (tenant_ref id owner : String) (cost : ℕ) (d : Dict String (String × ℕ))
    → get id d ≡ none
    → requests_of tenant_ref (put id (owner, cost) d)
      ≡ (if owner == tenant_ref then requests_of tenant_ref d + 1 else requests_of tenant_ref d)
unfolding requests_of get put
requests_of-put tenant_ref id owner cost [] h = refl
requests_of-put tenant_ref id owner cost ((j, e) ∷ rest) h =
    elim (Bool-cases (string_eq.beq j id)) [
      | inl same ↦ absurd (ground (arith, same))
      | inr other ↦
          rw other (ground (arith, requests_of-put tenant_ref id owner cost rest (ground arith)))
    ]

cost_of-put :
    (tenant_ref id owner : String) (cost : ℕ) (d : Dict String (String × ℕ))
    → get id d ≡ none
    → cost_of tenant_ref (put id (owner, cost) d)
      ≡ (if owner == tenant_ref then cost_of tenant_ref d + cost else cost_of tenant_ref d)
unfolding cost_of get put
cost_of-put tenant_ref id owner cost [] h = refl
cost_of-put tenant_ref id owner cost ((j, e) ∷ rest) h = elim (Bool-cases (string_eq.beq j id)) [
  | inl same ↦ absurd (ground (arith, same))
  | inr other ↦ rw other (ground (arith, cost_of-put tenant_ref id owner cost rest (ground arith)))
]

-- The quotas that reservations lead to.
pub data QuotaReach (request_limit cost_limit : ℕ) : InvocationQuota → Type 0 where
  start : QuotaReach request_limit cost_limit (new_quota request_limit cost_limit)
  after :
      {s : InvocationQuota} (tenant_ref reservation_id : String) (cost_units : ℕ)
      → QuotaReach request_limit cost_limit s
      → QuotaReach request_limit cost_limit
          (reserve_invocation tenant_ref reservation_id cost_units s).1

-- A tenant's usage is what it has reserved, and stays within the limits.
pub record IsWithin (request_limit cost_limit : ℕ) (s : InvocationQuota) (tenant_ref : String)
    : Type 0 where
  pub requests : (usage_of s tenant_ref).0 ≡ requests_of tenant_ref s.reservations
  pub cost : (usage_of s tenant_ref).1 ≡ cost_of tenant_ref s.reservations
  pub requests_bound : (usage_of s tenant_ref).0 ≤ request_limit
  pub cost_bound : (usage_of s tenant_ref).1 ≤ cost_limit

-- The quota keeps its limits.
record IsQuota (request_limit cost_limit : ℕ) (s : InvocationQuota) : Type 0 where
  requests_kept : s.request_limit ≡ request_limit
  cost_kept : s.cost_limit ≡ cost_limit
  within : (tenant_ref : String) → IsWithin request_limit cost_limit s tenant_ref

module _ (r c : ℕ) where
  stored-IsWithin :
      (tenant_ref id : String) (cost_units : ℕ) (s : InvocationQuota) (other : String)
      → get id s.reservations ≡ none
      → IsWithin r c s other
      → (tenant_ref ≡ other → IsWithin r c s tenant_ref)
      → (usage_of s tenant_ref).0 + 1 ≤ r
      → (usage_of s tenant_ref).1 + cost_units ≤ c
      → IsWithin r c
          (record s {
            usage =
                put tenant_ref
                  ((usage_of s tenant_ref).0 + 1, (usage_of s tenant_ref).1 + cost_units)
                  s.usage;
            reservations = put id (tenant_ref, cost_units) s.reservations;
          })
          other
  stored-IsWithin tenant_ref id cost_units s other new w own room₁ room₂ =
      elim (Bool-cases (tenant_ref == other)) [
        | inr apart ↦ record {
          requests =
              rw (get-put, apart)
                (w.requests
                  ∙ sym (
                      requests_of-put other id tenant_ref cost_units s.reservations new
                      ∙ rw apart refl));
          cost =
              rw (get-put, apart)
                (w.cost
                  ∙ sym (
                      cost_of-put other id tenant_ref cost_units s.reservations new
                      ∙ rw apart refl));
          requests_bound = rw (get-put, apart) w.requests_bound;
          cost_bound = rw (get-put, apart) w.cost_bound;
        }
        | inl same ↦
            let e : tenant_ref ≡ other = (string_eq.beq_iff tenant_ref other).0 same in
            let o = own e in
            record {
              requests =
                  rw (get-put, same)
                    (ap (λ n. n + 1) (o.requests ∙ ap (λ t. requests_of t s.reservations) e)
                      ∙ sym (
                          requests_of-put other id tenant_ref cost_units s.reservations new
                          ∙ rw same refl));
              cost =
                  rw (get-put, same)
                    (ap (λ n. n + cost_units) (o.cost ∙ ap (λ t. cost_of t s.reservations) e)
                      ∙ sym (
                          cost_of-put other id tenant_ref cost_units s.reservations new
                          ∙ rw same refl));
              requests_bound = rw (get-put, same) room₁;
              cost_bound = rw (get-put, same) room₂;
            }
      ]

  reserve_units-IsQuota :
      (tenant_ref id : String) (cost_units : ℕ) (s : InvocationQuota)
      → get id s.reservations ≡ none
      → IsQuota r c s
      → IsQuota r c (reserve_units tenant_ref id cost_units s).1
  unfolding reserve_units
  reserve_units-IsQuota tenant_ref id cost_units s new h =
      elim (Bool-cases (
        ltb s.request_limit ((usage_of s tenant_ref).0 + 1)
        || ltb s.cost_limit ((usage_of s tenant_ref).1 + cost_units))) [
          | inl full ↦ rw full h
          | inr room ↦ rw room (record {
            requests_kept = h.requests_kept;
            cost_kept = h.cost_kept;
            within = λ other.
                stored-IsWithin tenant_ref id cost_units s other new (h.within other)
                  (λ e. h.within tenant_ref) (ground (arith, room, h.requests_kept))
                  (ground (arith, room, h.cost_kept));
          })
        ]

  reserve-IsQuota :
      (tenant_ref id : String) (cost_units : ℕ) (s : InvocationQuota)
      → IsQuota r c s
      → IsQuota r c (reserve_invocation tenant_ref id cost_units s).1
  unfolding reserve_invocation
  reserve-IsQuota tenant_ref id cost_units s h = by_reservation (get id s.reservations) refl
    where
      by_reservation :
          (o : Option (String × ℕ))
          → get id s.reservations ≡ o
          → IsQuota r c (reserve_known tenant_ref id cost_units o s).1
      by_reservation none new =
          unfold reserve_known in reserve_units-IsQuota tenant_ref id cost_units s new h
      by_reservation (some existing) e =
          unfold reserve_known in
          elim (Bool-cases (existing == (tenant_ref, cost_units))) [
            | inl same ↦ rw same h
            | inr other ↦ rw other h
          ]

  reach-IsQuota : (s : InvocationQuota) → QuotaReach r c s → IsQuota r c s
  unfolding get requests_of cost_of
  reach-IsQuota _ start = record {
    requests_kept = refl;
    cost_kept = refl;
    within = λ t. record {
      requests = refl;
      cost = refl;
      requests_bound = omega arith;
      cost_bound = omega arith;
    };
  }
  reach-IsQuota _ (after {s = s} tenant_ref id cost_units reach) =
      reserve-IsQuota tenant_ref id cost_units s (reach-IsQuota s reach)

  -- Whatever reservations of calls were asked for from a new quota, in whatever order: the usage of
  -- every tenant is the number and the cost of its reservations, and neither is above its limit.
  pub usage-IsWithin :
      (s : InvocationQuota) (tenant_ref : String) → QuotaReach r c s → IsWithin r c s tenant_ref
  usage-IsWithin s tenant_ref reach = (reach-IsQuota s reach).within tenant_ref

reserve-recorded :
    (s : InvocationQuota) (tenant_ref id : String) (cost_units : ℕ)
    → (reserve_invocation tenant_ref id cost_units s).0 ≡ ok tt
    → get id (reserve_invocation tenant_ref id cost_units s).1.reservations
      ≡ some (tenant_ref, cost_units)
unfolding reserve_invocation
reserve-recorded s tenant_ref id cost_units = by_reservation (get id s.reservations) refl
  where
    by_reservation :
        (o : Option (String × ℕ))
        → get id s.reservations ≡ o
        → (reserve_known tenant_ref id cost_units o s).0 ≡ ok tt
        → get id (reserve_known tenant_ref id cost_units o s).1.reservations
          ≡ some (tenant_ref, cost_units)
    by_reservation none new =
        unfold reserve_known reserve_units in
        elim (Bool-cases (
          ltb s.request_limit ((usage_of s tenant_ref).0 + 1)
          || ltb s.cost_limit ((usage_of s tenant_ref).1 + cost_units))) [
            | inl full ↦ rw full (λ h. cc)
            | inr room ↦ rw room (λ h. get-put_self id (tenant_ref, cost_units) s.reservations)
          ]
    by_reservation (some existing) e =
        unfold reserve_known in
        elim (Bool-cases (existing == (tenant_ref, cost_units))) [
          | inr other ↦ rw other (λ h. cc)
          | inl same ↦ rw same (λ h.
              e
              ∙ ap some (
                  ((pair_eq ⦃e = string_eq⦄ ⦃f = nat_eq⦄).beq_iff existing
                      (tenant_ref, cost_units)).0
                    same))
        ]

-- A reservation of calls that was accepted is accepted again, and the second time changes nothing.
pub reserve_invocation_again :
    (s : InvocationQuota) (tenant_ref reservation_id : String) (cost_units : ℕ)
    → (reserve_invocation tenant_ref reservation_id cost_units s).0 ≡ ok tt
    → let t = (reserve_invocation tenant_ref reservation_id cost_units s).1 in
      reserve_invocation tenant_ref reservation_id cost_units t ≡ (ok tt, t)
reserve_invocation_again s tenant_ref reservation_id cost_units h =
    let found = reserve-recorded s tenant_ref reservation_id cost_units h in
    known (reserve_invocation tenant_ref reservation_id cost_units s).1 found
  where
    known :
        (t : InvocationQuota)
        → get reservation_id t.reservations ≡ some (tenant_ref, cost_units)
        → reserve_invocation tenant_ref reservation_id cost_units t ≡ (ok tt, t)
    known t found =
        unfold reserve_invocation reserve_known in
        rw found
          (rw (beq_refl ⦃e = pair_eq ⦃e = string_eq⦄ ⦃f = nat_eq⦄⦄ (tenant_ref, cost_units)) refl)
