-- ===== src/Interoperability/Trust/Tests.antt =====
-- Tests of `TrustRegistry`, with one peer.
use aegis_framework_platform.Base.{
  ◌≡◌, refl, false, [], ◌∷◌, none, some, ok, err, value_error, length, contains, or_raise,
}
use aegis_framework_platform.Base.Dict.{get, put}
use aegis_framework_platform.Runtime.{is_identifier, all_identifiers, text_length}
use aegis_framework_platform.Runtime.Plain.{plain, clean}
use aegis_framework_platform.Interoperability.Documents.{
  Unicode, digest_value, normalize_json, bound_json, member_count, validate_untrusted_text,
}
use aegis_framework_platform.Interoperability.Kinds.{
  mcp, stdio, TrustTier, pending_review, active, revoked, DataClassification, low,
}
use aegis_framework_platform.Interoperability.Trust.{
  TrustEntry, TrustRegistry, no_peers, history, current, newest, add_entry, is_network, is_empty,
  is_none, validate_trust_shape, check_reviewers, validate_entry, expected_revision, other_protocol,
  check_register, store_entry, register, sorted_set, insert_text, text_insert, is_terminal,
  check_transition, change_digest_of, change_document, status_text, transitioned, copied,
  transition, review, revoke, check_active, require_active,
}
use aegis_framework_platform.Interoperability.Trust.Reviewed.{
  TrustReach, start, after, registers, reviews, IsReviewed, require_active-IsReviewed,
  revision-eq-length,
}

abbrev peer : TrustEntry
peer = record {
  peer_id = "p";
  protocol = mcp;
  owner_ref = "ann";
  environment = "test";
  trust_tier = TrustTier.partner;
  status = pending_review;
  revision = 1;
  expires_at = 90;
  review_after = 50;
  card_digest = none;
  schema_digest = "s";
  certificate_digest = none;
  key_digest = none;
  allowed_classifications = DataClassification.public ∷ [];
  allowed_risks = low ∷ [];
  allowed_capabilities = "search" ∷ [];
  allowed_transports = stdio ∷ [];
  egress_origins = [];
  maximum_request_bytes = 1024;
  maximum_response_bytes = 1024;
  maximum_requests_per_minute = 1;
  maximum_cost_units_per_hour = 1;
  change_digest = "c";
  reviewed_by = [];
  reviewed_at = none;
}

-- On plain letters nothing is to be normalised, and nothing is a control character.
abbrev ascii : Unicode
ascii = record { normalize_nfc = clean; is_control = λ c. false; lower = clean }

abbrev one_peer : TrustRegistry
one_peer = record { entries = ("p", peer ∷ []) ∷ [] }

abbrev trusted : TrustEntry
trusted = record peer {
  status = active;
  revision = 2;
  change_digest = "{}";
  reviewed_by = "bob" ∷ [];
  reviewed_at = some 7;
}

abbrev distrusted : TrustEntry
distrusted = record trusted { status = revoked; revision = 3; reviewed_at = some 8 }

abbrev reviewed_peer : TrustRegistry
reviewed_peer = (review plain ascii "p" 1 "bob" 7 "TRUST p" (register peer no_peers).1).1

peer-valid : validate_trust_shape peer ≡ ok tt
unfolding validate_trust_shape is_network is_empty is_none
peer-valid = refl

reviewed_peer-reached : TrustReach plain ascii reviewed_peer
reviewed_peer-reached =
    after (after start (registers peer peer-valid)) (reviews "p" 1 "bob" 7 "TRUST p")

reviewed_peer_lem :
    require_active reviewed_peer "p" mcp "search" low DataClassification.public 20 ≡ ok trusted
unfolding require_active check_active review register transition copied transitioned store_entry
    add_entry digest_value normalize_json bound_json validate_untrusted_text member_count
    text_length change_document status_text check_transition check_register get put or_raise newest
    expected_revision other_protocol contains clean change_digest_of sorted_set insert_text
    text_insert
reviewed_peer_lem = refl

require_active-IsReviewed_example : IsReviewed plain ascii reviewed_peer "p" trusted
require_active-IsReviewed_example =
    require_active-IsReviewed plain ascii reviewed_peer "p" mcp "search" low
      DataClassification.public 20 reviewed_peer-reached reviewed_peer_lem

reviewed_peer-current : current reviewed_peer "p" ≡ some trusted
unfolding review register transition copied transitioned store_entry add_entry digest_value
    normalize_json bound_json validate_untrusted_text member_count text_length change_document
    status_text check_transition check_register get put or_raise newest expected_revision
    other_protocol clean change_digest_of sorted_set insert_text text_insert
reviewed_peer-current = refl

revision-eq-length_example :
    (2 ≡ length (history reviewed_peer "p"))
    × (validate_entry trusted ≡ check_reviewers ("bob" ∷ []))
revision-eq-length_example =
    revision-eq-length plain ascii reviewed_peer "p" trusted reviewed_peer-reached
      reviewed_peer-current

abbrev revoked_peer : TrustRegistry
revoked_peer = (revoke plain ascii "p" 2 "bob" 8 "REVOKE p" reviewed_peer).1

revoked_peer-current : current revoked_peer "p" ≡ some distrusted
unfolding revoke review register transition copied transitioned store_entry add_entry digest_value
    normalize_json bound_json validate_untrusted_text member_count text_length change_document
    status_text check_transition check_register get put or_raise newest expected_revision
    other_protocol clean change_digest_of sorted_set insert_text text_insert is_terminal
revoked_peer-current = refl

-- An entry with eight reviewers.
abbrev well_reviewed : TrustEntry
well_reviewed = record peer { reviewed_by = "a" ∷ "b" ∷ "c" ∷ "d" ∷ "e" ∷ "f" ∷ "g" ∷ "h" ∷ [] }

well_reviewed-valid : validate_entry well_reviewed ≡ ok tt
unfolding validate_entry check_reviewers all_identifiers validate_trust_shape is_network is_empty
    is_none is_identifier
well_reviewed-valid = refl

-- The copy of it that a review by a ninth reviewer leaves is an entry that the validation rejects.
ninth_reviewer : validate_entry (transitioned plain active "i" 7 well_reviewed) ≡ err value_error
unfolding validate_entry check_reviewers transitioned sorted_set insert_text text_insert
ninth_reviewer = refl
