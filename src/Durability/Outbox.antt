-- ===== src/Durability/Outbox.antt =====
-- `claim_outbox`, `complete_outbox`, `fail_outbox` and `_update_claim` of durability.py: leases on
-- the messages that wait for delivery.
pub mod Wellformed
pub mod Leases
pub mod Claims
pub mod Promises
pub mod Progress
mod Tests
use Prim.Native.Nat.{Ordering}
use Prim.Native.String.{compare}
use aegis_framework_platform.Base.{
  or_default, String, ℕ, suc, ◌+◌, Bool, true, false, not, ◌&&◌, ◌||◌, Option, none, some, List, [],
  ◌∷◌, ltb, leb, nat_beq, ◌==◌, if◌then◌else◌, string_eq, pair_eq, take, select,
  message_claim_conflict, value_error, Result, ok, err, Action,
}
use aegis_framework_platform.Base.Dict.{Dict, get, put}
use aegis_framework_platform.Runtime.{Runtime, stable_id, decimal}
use aegis_framework_platform.Durability.{
  Durability, DeliveryRecord, DeliveryClaim, DeliveryStatus, pending, claimed, delivered,
  dead_letter, max_delivery_attempts,
}

abbrev pub Deliveries : Type 0
Deliveries = Dict (String × (String × String)) DeliveryRecord

abbrev pub is_pending : DeliveryStatus → Bool
is_pending pending = true
is_pending _ = false

abbrev pub is_claimed : DeliveryStatus → Bool
is_claimed claimed = true
is_claimed _ = false

abbrev pub is_over : Option ℕ → ℕ → Bool
is_over none now = false
is_over (some until) now = leb until now

-- What `claim_outbox` may claim: a due message of the tenant that nobody holds.
unfoldable pub is_due : String → ℕ → (String × (String × String)) × DeliveryRecord → Bool
is_due tenant_id now (key, delivery) =
    key.1.0 == "outbox"
    && delivery.tenant_id == tenant_id
    && leb delivery.available_at now
    && (is_pending delivery.status
        || is_claimed delivery.status && is_over delivery.claim_until now)

-- Python's order on the tuple (available_at, tenant_id, message_id)
text_before : Ordering → Bool → Bool
text_before Ordering.lt rest = true
text_before Ordering.eq rest = rest
text_before Ordering.gt rest = false

is_before : DeliveryRecord → DeliveryRecord → Bool
unfolding text_before
is_before a b =
    ltb a.available_at b.available_at
    || nat_beq a.available_at b.available_at
      && text_before (compare a.tenant_id b.tenant_id)
          (text_before (compare a.message_id b.message_id) true)

-- `sorted`, which keeps the order of equal items
unfoldable pub insert_sorted : DeliveryRecord → List DeliveryRecord → List DeliveryRecord
unfolding is_before
insert_sorted x [] = x ∷ []
insert_sorted x (y ∷ ys) = if is_before x y then x ∷ y ∷ ys else y ∷ insert_sorted x ys

unfoldable pub sort_records : List DeliveryRecord → List DeliveryRecord
unfolding insert_sorted
sort_records [] = []
sort_records (x ∷ xs) = insert_sorted x (sort_records xs)

unfoldable pub values_of :
    List ((String × (String × String)) × DeliveryRecord) → List DeliveryRecord
values_of [] = []
values_of (entry ∷ rest) = entry.1 ∷ values_of rest

unfoldable pub candidates : String → ℕ → ℕ → Deliveries → List DeliveryRecord
candidates tenant_id now limit deliveries =
    take limit (sort_records (values_of (select (is_due tenant_id now) deliveries)))

abbrev pub delivery_key : DeliveryRecord → String × (String × String)
delivery_key delivery = (delivery.tenant_id, ("outbox", delivery.message_id))

module _ (rt : Runtime) (worker_ref : String) (claim_until : ℕ) where
  unfoldable pub claim_token : DeliveryRecord → String
  claim_token delivery =
      stable_id rt "claim"
        (worker_ref
          ∷ delivery.tenant_id
          ∷ delivery.message_id
          ∷ decimal (delivery.attempts + 1)
          ∷ [])
        32

  -- What the loop writes for a candidate: a new lease, or the dead letter of one whose attempts
  -- are used up.
  unfoldable pub lease : DeliveryRecord → DeliveryRecord
  lease delivery =
      if ltb max_delivery_attempts (delivery.attempts + 1)
      then record delivery { status = dead_letter }
      else record delivery {
        attempts = delivery.attempts + 1;
        claim_token = some (claim_token delivery);
        claim_until = some claim_until;
        status = claimed;
      }

  unfoldable pub claim_of : DeliveryRecord → DeliveryClaim
  claim_of delivery = record {
    tenant_id = delivery.tenant_id;
    message_id = delivery.message_id;
    claim_token = claim_token delivery;
    destination = delivery.destination;
    message_type = delivery.message_type;
    attempt = delivery.attempts + 1;
    payload = delivery.payload;
  }

  -- The loop over the candidates: what it stores, and the claims that it hands out.
  unfoldable pub store_leases : List DeliveryRecord → Deliveries → Deliveries
  unfolding lease
  store_leases [] deliveries = deliveries
  store_leases (delivery ∷ rest) deliveries =
      store_leases rest (put (delivery_key delivery) (lease delivery) deliveries)

  unfoldable pub claims_of : List DeliveryRecord → List DeliveryClaim
  unfolding claim_of
  claims_of [] = []
  claims_of (delivery ∷ rest) =
      if ltb max_delivery_attempts (delivery.attempts + 1)
      then claims_of rest
      else claim_of delivery ∷ claims_of rest

  unfoldable pub claim_outbox : String → ℕ → ℕ → Action Durability (List DeliveryClaim)
  unfolding candidates store_leases claims_of
  claim_outbox tenant_id now limit s =
      if ltb limit 1 || ltb 100 limit || leb claim_until now
      then (err value_error, s)
      else let records = candidates tenant_id now limit s.deliveries in
        (ok (claims_of records), record s { deliveries = store_leases records s.deliveries })

-- `record.claim_token != claim.claim_token`
abbrev pub same_token : Option String → String → Bool
same_token none token = false
same_token (some held) token = held == token

-- The test of `_update_claim`, read the other way round: the claim holds the message.
unfoldable pub holds : DeliveryClaim → DeliveryRecord → Bool
holds claim delivery =
    is_claimed delivery.status
    && same_token delivery.claim_token claim.claim_token
    && nat_beq delivery.attempts claim.attempt

abbrev pub claim_key : DeliveryClaim → String × (String × String)
claim_key claim = (claim.tenant_id, ("outbox", claim.message_id))

unfoldable pub settle :
    DeliveryClaim
    → DeliveryStatus
    → Option String
    → Option ℕ
    → Option DeliveryRecord
    → Action Durability (Unit {0})
unfolding holds
settle claim status error_code retry_at none s = (err message_claim_conflict, s)
settle claim status error_code retry_at (some delivery) s =
    if not (holds claim delivery) then (err message_claim_conflict, s) else (
      ok tt,
      record s {
        deliveries =
            put (claim_key claim)
              (record delivery {
                available_at = or_default retry_at delivery.available_at;
                claim_token = none;
                claim_until = none;
                last_error_code = error_code;
                status = status;
              })
              s.deliveries;
      },
    )

unfoldable pub update_claim :
    DeliveryClaim → DeliveryStatus → Option String → Option ℕ → Action Durability (Unit {0})
unfolding settle
update_claim claim status error_code retry_at s =
    settle claim status error_code retry_at (get (claim_key claim) s.deliveries) s

unfoldable pub complete_outbox : DeliveryClaim → Action Durability (Unit {0})
unfolding update_claim
complete_outbox claim s = update_claim claim delivered none none s

unfoldable pub fail_outbox : DeliveryClaim → String → ℕ → Bool → Action Durability (Unit {0})
unfolding update_claim
fail_outbox claim error_code retry_at permanent s =
    update_claim claim
      (if permanent || leb max_delivery_attempts claim.attempt then dead_letter else pending)
      (some error_code) (some retry_at) s
