-- ===== src/Interoperability/Trust.antt =====
-- interoperability.py: `TrustEntry` and `TrustRegistry`, who of the other agents is trusted with what.
pub mod History
pub mod Reviewed
mod Tests
use Prim.Native.Nat.{Ordering}
use Prim.Native.String.{compare, ◌++◌ as ◌+str+◌}
use aegis_framework_platform.Base.{
  ℕ, zero, suc, ◌+◌, String, ◌≡◌, refl, Bool, true, false, not, ◌&&◌, ◌||◌, Option, none, some,
  List, [], ◌∷◌, ◌++◌, leb, nat_beq, ◌==◌, if◌then◌else◌, Eq, enum_eq, contains, string_eq, last_of,
  length, ltb, Error, policy_denied, concurrency_conflict, integrity_failure, payload_rejected,
  value_error, Result, ok, err, ◌>>=◌, ◌>>◌, raise_if, or_raise, or_default, Action,
}
use aegis_framework_platform.Base.Dict.{Dict, get, put}
use aegis_framework_platform.Runtime.{Json, int, text, object, end, field, Runtime, all_identifiers}
use aegis_framework_platform.Interoperability.Documents.{Unicode, digest_value}
use aegis_framework_platform.Interoperability.Kinds.{
  ProtocolKind, mcp, a2a, TransportKind, stdio, streamable_http, json_rpc_http, grpc, TrustTier,
  TrustStatus, pending_review, active, quarantined, revoked, expired, emergency_disabled,
  DataClassification, RiskLevel, protocol_eq, status_eq, class_eq, risk_eq,
}

-- Origins and reviewers are listed in order and once, as the validators leave them.
pub record TrustEntry : Type 0 where
  pub peer_id : String
  pub protocol : ProtocolKind
  pub owner_ref : String
  pub environment : String
  pub trust_tier : TrustTier
  pub status : TrustStatus
  pub revision : ℕ
  pub expires_at : ℕ
  pub review_after : ℕ
  pub card_digest : Option String
  pub schema_digest : String
  pub certificate_digest : Option String
  pub key_digest : Option String
  pub allowed_classifications : List DataClassification
  pub allowed_risks : List RiskLevel
  pub allowed_capabilities : List String
  pub allowed_transports : List TransportKind
  pub egress_origins : List String
  pub maximum_request_bytes : ℕ
  pub maximum_response_bytes : ℕ
  pub maximum_requests_per_minute : ℕ
  pub maximum_cost_units_per_hour : ℕ
  pub change_digest : String
  pub reviewed_by : List String
  pub reviewed_at : Option ℕ

unfoldable pub is_none {ℓ} : {A : Type ℓ} → Option A → Bool
is_none none = true
is_none (some a) = false

unfoldable pub is_empty {ℓ} : {A : Type ℓ} → List A → Bool
is_empty [] = true
is_empty (x ∷ xs) = false

-- `any(transport is not TransportKind.STDIO for transport in self.allowed_transports)`
unfoldable pub is_network : List TransportKind → Bool
is_network [] = false
is_network (stdio ∷ rest) = is_network rest
is_network (streamable_http ∷ rest) = true
is_network (json_rpc_http ∷ rest) = true
is_network (grpc ∷ rest) = true

-- `TrustEntry.validate_trust_shape`
unfoldable pub validate_trust_shape : TrustEntry → Result (Unit {0})
validate_trust_shape e = do
  raise_if (leb e.expires_at e.review_after) value_error
  raise_if (is_network e.allowed_transports && is_empty e.egress_origins) value_error
  raise_if
      (e.environment == "production"
        && is_network e.allowed_transports
        && (is_none e.certificate_digest || is_none e.key_digest))
      value_error
  raise_if (e.protocol == a2a && is_none e.card_digest) value_error
  raise_if (e.status == active && (is_empty e.reviewed_by || is_none e.reviewed_at)) value_error

-- The bounds of the field `reviewed_by`.
unfoldable pub check_reviewers : List String → Result (Unit {0})
check_reviewers reviewers = do
  raise_if (ltb 8 (length reviewers)) value_error
  raise_if (not (all_identifiers reviewers)) value_error

-- The validation of an entry: its fields, and then its shape. Of the fields it reads the one whose
-- bounds a copy can leave; the others are taken to be within theirs.
unfoldable pub validate_entry : TrustEntry → Result (Unit {0})
validate_entry e = do check_reviewers e.reviewed_by; validate_trust_shape e

-- `TrustRegistry`; the lock makes each method one step.
pub record TrustRegistry : Type 0 where
  pub entries : Dict String (List TrustEntry)

abbrev pub no_peers : TrustRegistry
no_peers = record { entries = [] }

abbrev pub history : TrustRegistry → String → List TrustEntry
history s peer_id = or_default (get peer_id s.entries) []

-- `entries[-1] if entries else None`
unfoldable pub newest : List TrustEntry → Option TrustEntry
newest [] = none
newest (entry ∷ rest) = some (last_of entry rest)

abbrev pub current : TrustRegistry → String → Option TrustEntry
current s peer_id = newest (history s peer_id)

-- `self._entries[peer_id].append(entry)`
unfoldable pub add_entry : TrustRegistry → String → TrustEntry → TrustRegistry
add_entry s peer_id entry = record {
  entries = put peer_id (history s peer_id ++ entry ∷ []) s.entries;
}

unfoldable pub expected_revision : Option TrustEntry → ℕ
expected_revision none = 1
expected_revision (some entry) = entry.revision + 1

unfoldable pub other_protocol : Option TrustEntry → ProtocolKind → Bool
other_protocol none protocol = false
other_protocol (some entry) protocol = not (entry.protocol == protocol)

-- The guards of `register`, in their order.
unfoldable pub check_register : Option TrustEntry → TrustEntry → Result (Unit {0})
check_register known entry = do
  raise_if (not (nat_beq entry.revision (expected_revision known))) concurrency_conflict
  raise_if (other_protocol known entry.protocol) integrity_failure
  raise_if (not (entry.status == pending_review)) policy_denied

-- What a method does where its guards let it store an entry, or raise.
unfoldable pub store_entry : String → Result TrustEntry → Action TrustRegistry TrustEntry
store_entry peer_id (err e) s = (err e, s)
store_entry peer_id (ok entry) s = (ok entry, add_entry s peer_id entry)

unfoldable pub register : TrustEntry → Action TrustRegistry TrustEntry
register entry s =
    store_entry entry.peer_id (do check_register (current s entry.peer_id) entry; ok entry) s

-- `sorted({...})` of texts
unfoldable pub text_insert : Ordering → String → String → List String → List String → List String
text_insert Ordering.lt x y ys more = x ∷ y ∷ ys
text_insert Ordering.eq x y ys more = y ∷ ys
text_insert Ordering.gt x y ys more = y ∷ more

unfoldable pub insert_text : String → List String → List String
unfolding text_insert
insert_text x [] = x ∷ []
insert_text x (y ∷ ys) = text_insert (compare x y) x y ys (insert_text x ys)

unfoldable pub sorted_set : List String → List String
unfolding insert_text
sorted_set [] = []
sorted_set (x ∷ xs) = insert_text x (sorted_set xs)

unfoldable pub status_text : TrustStatus → String
status_text pending_review = "pending-review"
status_text active = "active"
status_text quarantined = "quarantined"
status_text revoked = "revoked"
status_text expired = "expired"
status_text emergency_disabled = "emergency-disabled"

unfoldable pub is_terminal : TrustStatus → Bool
is_terminal revoked = true
is_terminal emergency_disabled = true
is_terminal _ = false

-- The guards of `_transition` on the current entry.
unfoldable pub check_transition : TrustStatus → ℕ → Option TrustEntry → Result TrustEntry
check_transition target revision known = do
  entry ← or_raise known policy_denied
  raise_if (not (nat_beq entry.revision revision)) concurrency_conflict
  raise_if (target == active && not (entry.status == pending_review)) policy_denied
  raise_if (not (target == active) && is_terminal entry.status) policy_denied
  ok entry

module _ (rt : Runtime) where
  -- The document of a transition, and its digest where `digest_value` raises nothing.
  unfoldable pub change_document : TrustEntry → TrustStatus → String → Json
  change_document entry target reviewer_ref = object (
      field "previous" (text entry.change_digest) (
        field "revision" (int (entry.revision + 1)) (
          field "reviewer_ref" (text reviewer_ref)
            (field "status" (text (status_text target)) end))))

  unfoldable pub change_digest_of : TrustEntry → TrustStatus → String → String
  unfolding change_document
  change_digest_of entry target reviewer_ref =
      rt.sha256_hex (rt.canonical_json (change_document entry target reviewer_ref))

  -- `current.model_copy(update={...})`, which no validator sees
  unfoldable pub transitioned : TrustStatus → String → ℕ → TrustEntry → TrustEntry
  transitioned target reviewer_ref now entry = record entry {
    revision = entry.revision + 1;
    status = target;
    reviewed_by = sorted_set (reviewer_ref ∷ entry.reviewed_by);
    reviewed_at = some now;
    change_digest = change_digest_of entry target reviewer_ref;
  }

module _ (rt : Runtime) (u : Unicode) where
  -- What `digest_value` raises while the copy is made.
  unfoldable pub copied : TrustStatus → String → ℕ → TrustEntry → Result TrustEntry
  copied target reviewer_ref now entry = do
    digest ← digest_value u rt (change_document rt entry target reviewer_ref)
    ok (transitioned rt target reviewer_ref now entry)

  -- `_transition`, with the word of the typed confirmation
  unfoldable pub transition :
      TrustStatus → String → String → ℕ → String → ℕ → String → Action TrustRegistry TrustEntry
  transition target word peer_id revision reviewer_ref now typed_confirmation s =
      store_entry peer_id
        (do
          raise_if (not (typed_confirmation == (word +str+ peer_id))) payload_rejected
          entry ← check_transition target revision (current s peer_id)
          copied target reviewer_ref now entry)
        s

  unfoldable pub review : String → ℕ → String → ℕ → String → Action TrustRegistry TrustEntry
  review = transition active "TRUST "

  unfoldable pub quarantine : String → ℕ → String → ℕ → String → Action TrustRegistry TrustEntry
  quarantine = transition quarantined "QUARANTINE "

  unfoldable pub revoke : String → ℕ → String → ℕ → String → Action TrustRegistry TrustEntry
  revoke = transition revoked "REVOKE "

  unfoldable pub emergency_disable :
      String → ℕ → String → ℕ → String → Action TrustRegistry TrustEntry
  emergency_disable = transition emergency_disabled "DISABLE "

-- The guards of `require_active` on the current entry.
unfoldable pub check_active :
    String → RiskLevel → DataClassification → ℕ → TrustEntry → Result TrustEntry
check_active capability_id risk classification now e = do
  raise_if (not (e.status == active)) policy_denied
  raise_if (leb e.expires_at now || leb e.review_after now) policy_denied
  raise_if (not (contains capability_id e.allowed_capabilities)) policy_denied
  raise_if (not (contains risk e.allowed_risks)) policy_denied
  raise_if (not (contains classification e.allowed_classifications)) policy_denied
  ok e

unfoldable pub require_active :
    TrustRegistry
    → String
    → ProtocolKind
    → String
    → RiskLevel
    → DataClassification
    → ℕ
    → Result TrustEntry
require_active s peer_id protocol capability_id risk classification now = do
  entry ← or_raise (current s peer_id) policy_denied
  raise_if (not (entry.protocol == protocol)) policy_denied
  check_active capability_id risk classification now entry
