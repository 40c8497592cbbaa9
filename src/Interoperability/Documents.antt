-- ===== src/Interoperability/Documents.antt =====
-- interoperability.py: what texts and documents of other agents may be, and their digests.
use Prim.Native.Char.{code}
use aegis_framework_platform.Base.{
  ℕ, suc, ◌+◌, String, Bool, true, false, not, ◌&&◌, ◌||◌, List, [], ◌∷◌, ltb, leb, nat_beq, ◌==◌,
  contains, string_eq, payload_rejected, value_error, integrity_failure, Result, ok, ◌>>◌, raise_if,
}
use aegis_framework_platform.Runtime.{
  Json, number, text, array, object, Items, nil, cons, Fields, end, field, Payload, Runtime,
  text_length,
}

-- `unicodedata.normalize("NFC", ...)`, whether a character is of the category Cc, and `str.lower`
pub record Unicode : Type 0 where
  pub normalize_nfc : String → String
  pub is_control : ℕ → Bool
  pub lower : String → String

-- `any(p(character) for character in value)`
any_code : (ℕ → Bool) → String → Bool
any_code p String.[] = false
any_code p (String.◌∷◌ c s) = p (code c) || any_code p s

-- `_FORBIDDEN_BIDI`
is_bidi : ℕ → Bool
is_bidi c =
    nat_beq c 0x61c
    || nat_beq c 0x200e
    || nat_beq c 0x200f
    || leb 0x202a c && leb c 0x202e
    || leb 0x2066 c && leb c 0x2069

-- A line feed, a carriage return or a tab
is_break : ℕ → Bool
is_break c = nat_beq c 10 || nat_beq c 13 || nat_beq c 9

-- `value.startswith(token)`
starts_with : String → String → Bool
starts_with String.[] value = true
starts_with (String.◌∷◌ c token) String.[] = false
starts_with (String.◌∷◌ c token) (String.◌∷◌ d value) =
    nat_beq (code c) (code d) && starts_with token value

-- `token in value`
includes : String → String → Bool
unfolding starts_with
includes token String.[] = starts_with token ""
includes token (String.◌∷◌ c value) = starts_with token (String.◌∷◌ c value) || includes token value

-- `any(token in value for token in tokens)`
any_token : List String → String → Bool
unfolding includes
any_token [] value = false
any_token (token ∷ rest) value = includes token value || any_token rest value

abbrev forbidden_ledger_keys : List String
forbidden_ledger_keys =
    "actor_id" ∷ "completion" ∷ "content" ∷ "credential" ∷ "evidence_locator" ∷ "message" ∷ "prompt"
    ∷ "raw" ∷ "request_id" ∷ "secret" ∷ "subject_id" ∷ "tenant_id" ∷ "text" ∷ "token" ∷ "url" ∷ []

abbrev safe_ledger_token_keys : List String
safe_ledger_token_keys = "fence_token" ∷ "idempotency_key_digest" ∷ "token_id_digest" ∷ []

abbrev forbidden_tokens : List String
forbidden_tokens = "credential" ∷ "evidence_locator" ∷ "prompt" ∷ "secret" ∷ "token" ∷ []

unfoldable pub item_count : Items → ℕ
item_count nil = 0
item_count (cons j rest) = suc (item_count rest)

unfoldable pub member_count : Fields → ℕ
member_count end = 0
member_count (field k j rest) = suc (member_count rest)

-- `math.isfinite(value)`
unfoldable pub is_finite : String → Bool
is_finite literal = not (literal == "NaN" || literal == "Infinity" || literal == "-Infinity")

-- `_normalize_json` on a document whose instants are texts already: its depth can be refused,
-- and a number.
unfoldable mutual
  pub normalize_json : Json → ℕ → Result (Unit {0})
  normalize_json (array items) depth = do
    raise_if (ltb 12 depth) payload_rejected
    normalize_items items depth
  normalize_json (object fields) depth = do
    raise_if (ltb 12 depth) payload_rejected
    normalize_fields fields depth
  normalize_json (number literal) depth = do
    raise_if (ltb 12 depth) payload_rejected
    raise_if (not (is_finite literal)) payload_rejected
  normalize_json _ depth = raise_if (ltb 12 depth) payload_rejected

  pub normalize_items : Items → ℕ → Result (Unit {0})
  normalize_items nil depth = ok tt
  normalize_items (cons j rest) depth = do normalize_json j (depth + 1); normalize_items rest depth

  pub normalize_fields : Fields → ℕ → Result (Unit {0})
  normalize_fields end depth = ok tt
  normalize_fields (field k j rest) depth = do
    normalize_json j (depth + 1)
    normalize_fields rest depth

module _ (u : Unicode) where
  unfoldable pub validate_untrusted_text : String → Result (Unit {0})
  unfolding any_code is_bidi is_break
  validate_untrusted_text value = do
    raise_if (not (u.normalize_nfc value == value)) value_error
    raise_if (any_code is_bidi value) value_error
    raise_if (any_code (λ c. u.is_control c && not (is_break c)) value) value_error
    raise_if (ltb 16384 (text_length value)) value_error

unfoldable mutual
  -- `_bound_json`
  pub bound_json : Unicode → Json → ℕ → Result (Unit {0})
  bound_json u (text value) depth = do
    raise_if (ltb 12 depth) payload_rejected
    validate_untrusted_text u value
  bound_json u (array items) depth = do
    raise_if (ltb 12 depth) payload_rejected
    raise_if (ltb 256 (item_count items)) payload_rejected
    bound_items u items depth
  bound_json u (object fields) depth = do
    raise_if (ltb 12 depth) payload_rejected
    raise_if (ltb 128 (member_count fields)) payload_rejected
    bound_fields u fields depth
  bound_json u _ depth = raise_if (ltb 12 depth) payload_rejected

  pub bound_items : Unicode → Items → ℕ → Result (Unit {0})
  bound_items u nil depth = ok tt
  bound_items u (cons j rest) depth = do bound_json u j (depth + 1); bound_items u rest depth

  pub bound_fields : Unicode → Fields → ℕ → Result (Unit {0})
  bound_fields u end depth = ok tt
  bound_fields u (field k j rest) depth = do
    raise_if (ltb 128 (text_length k)) payload_rejected
    validate_untrusted_text u k
    bound_json u j (depth + 1)
    bound_fields u rest depth

module _ (u : Unicode) where
  unfoldable pub reject_raw_ledger_payload : Payload → Result (Unit {0})
  unfolding any_token
  reject_raw_ledger_payload [] = ok tt
  reject_raw_ledger_payload ((key, value) ∷ rest) = do
    let normalized = u.lower key
    raise_if
        (contains normalized forbidden_ledger_keys
          || any_token forbidden_tokens normalized
            && not (contains normalized safe_ledger_token_keys))
        integrity_failure
    bound_json u value 0
    reject_raw_ledger_payload rest

  -- `digest_value`
  unfoldable pub digest_value : Runtime → Json → Result String
  digest_value rt j = do
    normalize_json j 0
    bound_json u j 0
    ok (rt.sha256_hex (rt.canonical_json j))
