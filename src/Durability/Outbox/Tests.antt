-- ===== src/Durability/Outbox/Tests.antt =====
-- The outbox's theorems at a store with two messages.
use aegis_framework_platform.Runtime.Plain.{plain}
use aegis_framework_platform.Base.{
  ℕ, String, ◌≡◌, refl, inl, true, false, List, [], ◌∷◌, some, none, arith, string_eq, pair_eq,
  contains, All, Result, err, message_claim_conflict,
}
use aegis_framework_platform.Base.Dict.{get}
use aegis_framework_platform.Durability.{
  Durability, init, DeliveryRecord, DeliveryClaim, DeliveryStatus, pending, delivered, dead_letter,
}
use aegis_framework_platform.Durability.Outbox.{
  claim_outbox, claim_key, complete_outbox, is_due, sort_records, values_of,
}
use aegis_framework_platform.Durability.Outbox.Wellformed.{IsTable}
use aegis_framework_platform.Durability.Outbox.Leases.{claimed_keys, IsHeld}
use aegis_framework_platform.Durability.Outbox.Claims.{
  returned, claim_outbox-IsHeld, IsCompletable, complete-claim_outbox,
}
use aegis_framework_platform.Durability.Outbox.Progress.{Claiming, IsRelay, abandon, abandon-ends}
use aegis_framework_platform.Durability.Outbox.Promises.{
  claim_outbox_exclusive, reclaim_fences, here, next, claim, OutboxReach-keeps_over,
}

abbrev message : String → DeliveryStatus → DeliveryRecord
message message_id status = record {
  tenant_id = "a";
  message_id = message_id;
  direction = "outbox";
  destination = "temporal";
  message_type = "investigation.start";
  status = status;
  attempts = 0;
  available_at = 3;
  claim_token = none;
  claim_until = none;
  last_error_code = none;
  payload = [];
}

abbrev stocked : Durability
stocked = record init {
  deliveries =
      (("a", ("outbox", "m1")), message "m1" pending)
      ∷ (("a", ("outbox", "m2")), message "m2" delivered)
      ∷ [];
}

stocked-IsTable : IsTable stocked.deliveries
unfolding get
stocked-IsTable = record {
  unique = (refl, (refl, tt));
  entries = (
    record { key = refl; bounded = omega arith },
    (record { key = refl; bounded = omega arith }, tt),
  );
}

-- A worker claims the pending message.
claim_test :
    claimed_keys (returned (claim_outbox plain "w1" 10 "a" 4 5 stocked).0)
    ≡ ("a", ("outbox", "m1")) ∷ []
unfolding claim_outbox claimed_keys sort_records values_of is_due
claim_test = refl

abbrev first : Result (List DeliveryClaim) × Durability
first = claim_outbox plain "w1" 10 "a" 4 5 stocked

abbrev second : ℕ → Result (List DeliveryClaim) × Durability
second now = claim_outbox plain "w2" 20 "a" now 5 first.1

claim_outbox_exclusive_example :
    All
      (λ c. contains (claim_key c) (claimed_keys (returned (second 9).0)) ≡ false)
      (returned first.0)
claim_outbox_exclusive_example =
    claim_outbox_exclusive plain "w1" "w2" 10 20 "a" "a" 4 9 5 5 stocked stocked-IsTable
      (omega arith)

reclaim_fences_example :
    All
      (λ c.
        All
          (λ c'.
            claim_key c ≡ claim_key c'
            → complete_outbox c (second 12).1 ≡ (err message_claim_conflict, (second 12).1))
          (returned (second 12).0))
      (returned first.0)
reclaim_fences_example =
    reclaim_fences plain "w1" "w2" 10 20 "a" "a" 4 12 5 5 stocked stocked-IsTable

claim_outbox-IsHeld_example : All (λ c. IsHeld plain "w1" 10 c first.1) (returned first.0)
claim_outbox-IsHeld_example = claim_outbox-IsHeld plain "w1" 10 "a" 4 5 stocked stocked-IsTable

OutboxReach-keeps_over_example :
    IsTable first.1.deliveries
    × (get ("a", ("outbox", "m2")) first.1.deliveries ≡ some (message "m2" delivered))
OutboxReach-keeps_over_example =
    OutboxReach-keeps_over ("a", ("outbox", "m2")) (message "m2" delivered) (inl refl) plain stocked
      first.1 stocked-IsTable (unfold get in refl) (next here (claim "w1" 10 "a" 4 5))

complete-claim_outbox_example : All (λ c. IsCompletable c first.1) (returned first.0)
complete-claim_outbox_example = complete-claim_outbox plain "w1" 10 "a" 4 5 stocked stocked-IsTable

-- Six workers that crash, with leases of different lengths and pauses between them.
abbrev crashing : List Claiming
crashing =
    record { worker_ref = "w1"; now = 4; claim_until = 10 }
    ∷ record { worker_ref = "w2"; now = 12; claim_until = 13 }
    ∷ record { worker_ref = "w3"; now = 13; claim_until = 43 }
    ∷ record { worker_ref = "w1"; now = 50; claim_until = 60 }
    ∷ record { worker_ref = "w1"; now = 60; claim_until = 61 }
    ∷ record { worker_ref = "w2"; now = 99; claim_until = 100 }
    ∷ []

crashing-IsRelay : IsRelay 4 crashing
crashing-IsRelay = ground arith

message-is_due : is_due "a" 4 (("a", ("outbox", "m1")), message "m1" pending) ≡ true
unfolding is_due
message-is_due = refl

abandon-ends_example :
    (last : DeliveryRecord) × (get
        ("a", ("outbox", "m1"))
        (abandon plain "a" 5 crashing stocked).deliveries
      ≡ some last)
    × (last.status ≡ dead_letter)
unfolding get
abandon-ends_example =
    abandon-ends plain "a" 5 crashing 4 stocked ("a", ("outbox", "m1")) (message "m1" pending)
      stocked-IsTable crashing-IsRelay refl message-is_due (omega arith) (omega arith) (omega arith)
      (omega arith)
