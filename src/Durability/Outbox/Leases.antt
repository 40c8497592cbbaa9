-- ===== src/Durability/Outbox/Leases.antt =====
-- What a claim writes, and what its holder and the others can do with it.
use aegis_framework_platform.Base.{
  String, ℕ, ◌+◌, ◌≡◌, refl, ◌∙◌, subst, Bool, true, false, Bool-cases, inl, inr, List, [], ◌∷◌,
  some, none, Option, arith, All, All-map, string_eq, pair_eq, contains, beq_refl, beq-eq_true, ltb,
  if◌then◌else◌,
}
use aegis_framework_platform.Base.Dict.{get, put, get-put}
use aegis_framework_platform.Runtime.{Runtime}
use aegis_framework_platform.Durability.{
  Durability, DeliveryRecord, DeliveryClaim, max_delivery_attempts,
}
use aegis_framework_platform.Durability.Outbox.{
  Deliveries, delivery_key, lease, store_leases, claims_of, claim_of, holds, claim_key,
}
use aegis_framework_platform.Durability.Outbox.Wellformed.{IsCandidate}

unfoldable pub keys_of : List DeliveryRecord → List (String × (String × String))
keys_of [] = []
keys_of (r ∷ rs) = delivery_key r ∷ keys_of rs

-- The keys of the messages that a list of claims holds.
unfoldable pub claimed_keys : List DeliveryClaim → List (String × (String × String))
claimed_keys [] = []
claimed_keys (c ∷ cs) = claim_key c ∷ claimed_keys cs

pub contains_members :
    (rs : List DeliveryRecord)
    → All (λ (r : DeliveryRecord). contains (delivery_key r) (keys_of rs) ≡ true) rs
unfolding contains keys_of
contains_members [] = tt
contains_members (r ∷ rs) = (
  ground (arith, beq_refl ⦃e = pair_eq⦄ (delivery_key r)),
  All-map rs (λ x m. ground (arith, m)) (contains_members rs),
)

-- Of what a candidate is: its message is found, so the loop's effect can be read off.
pub found_candidates :
    (tenant_id : String) (now : ℕ) (d : Deliveries) (rs : List DeliveryRecord)
    → All (IsCandidate tenant_id now d) rs
    → All (λ (r : DeliveryRecord). get (delivery_key r) d ≡ some r) rs
found_candidates tenant_id now d rs = All-map rs (λ r c. c.found)

abbrev map_option :
    (DeliveryRecord → DeliveryRecord) → Option DeliveryRecord → Option DeliveryRecord
map_option f none = none
map_option f (some r) = some (f r)

module _ (rt : Runtime) (worker_ref : String) (claim_until : ℕ) where
  -- The loop writes the lease of every candidate, and nothing else.
  pub get-store_leases :
      (d₀ : Deliveries) (rs : List DeliveryRecord) (d : Deliveries) (k : String × (String × String))
      → All (λ (r : DeliveryRecord). get (delivery_key r) d₀ ≡ some r) rs
      → get k (store_leases rt worker_ref claim_until rs d) ≡ (
          if contains k (keys_of rs)
          then map_option (lease rt worker_ref claim_until) (get k d₀)
          else get k d)
  unfolding store_leases contains keys_of
  get-store_leases d₀ [] d k h = refl
  get-store_leases d₀ (r ∷ rs) d k h =
      let d₁ = put (delivery_key r) (lease rt worker_ref claim_until r) d in
      let written = get-put (delivery_key r) k (lease rt worker_ref claim_until r) d in
      let later = get-store_leases d₀ rs d₁ k h.1 in
      elim (Bool-cases (pair_eq.beq (delivery_key r) k)) [
        | inl same ↦ rw same (
            later
            ∙ first_or_later (contains k (keys_of rs))
                (subst (λ q. get q d₀ ≡ some r) (beq-eq_true ⦃e = pair_eq⦄ (delivery_key r) k same)
                  h.0)
                (rw same at written))
        | inr other ↦ rw other (rw (rw other at written) at later)
      ]
    where
      first_or_later :
          {o : Option DeliveryRecord} {n : Option DeliveryRecord} (c : Bool)
          → o ≡ some r
          → n ≡ some (lease rt worker_ref claim_until r)
          → (if c then map_option (lease rt worker_ref claim_until) o else n)
            ≡ map_option (lease rt worker_ref claim_until) o
      first_or_later c e f = rw (e, f) (ground arith)

  -- A claim is held in a state: its message is leased under its token until the given instant.
  pub record IsHeld (c : DeliveryClaim) (s : Durability) : Type 0 where
    pub stored : DeliveryRecord
    pub found : get (claim_key c) s.deliveries ≡ some stored
    pub held : holds c stored ≡ true
    pub until : stored.claim_until ≡ some claim_until

  pub claims_of-All :
      (Q : DeliveryClaim → Type 0) (rs : List DeliveryRecord)
      → All
          (λ (r : DeliveryRecord).
            ltb max_delivery_attempts (r.attempts + 1) ≡ false
            → Q (claim_of rt worker_ref claim_until r))
          rs
      → All Q (claims_of rt worker_ref claim_until rs)
  unfolding claims_of
  claims_of-All Q [] h = tt
  claims_of-All Q (r ∷ rs) h = elim (Bool-cases (ltb max_delivery_attempts (r.attempts + 1))) [
    | inl spent ↦ rw spent (claims_of-All Q rs h.1)
    | inr left ↦ rw left (h.0 left, claims_of-All Q rs h.1)
  ]
