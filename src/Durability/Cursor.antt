-- ===== src/Durability/Cursor.antt =====
-- `CursorCodec` of durability.py: cursor tokens that are bound to a tenant and a run.
pub mod Laws
pub mod Plain
mod Tests
use Prim.Native.String.{◌++◌ as ◌+str+◌}
use Prim.Native.Char.{Char, code}
use aegis_framework_platform.Base.{
  ℕ, zero, suc, ◌+◌, ◌-◌, ◌%◌, String, Bool, true, false, not, ◌||◌, Option, none, some, List, ◌++◌,
  ltb, nat_beq, ◌==◌, if◌then◌else◌, string_eq, nat_eq, list_eq, length, take, drop, value_error,
  Result, ok, err, or_raise, ◌>>=◌, ◌>>◌, raise_if,
}
use aegis_framework_platform.Runtime.{
  Json, int, text, object, Fields, end, field, Runtime, text_length,
}

-- Octets, of `bytes` and of what `hmac`, `base64` and `json` take and give.
pub record ByteLibrary : Type 0 where
  pub hmac_sha256 : List ℕ → List ℕ → List ℕ
  pub urlsafe_b64encode : List ℕ → String
  pub urlsafe_b64decode : String → Option (List ℕ)
  pub utf8 : String → List ℕ
  pub json_loads : List ℕ → Option Json

-- `"=" * n`
pub padding : ℕ → String
padding zero = ""
padding (suc n) = String.◌∷◌ "=" (padding n)

-- What is left of a pad character and of the stripped text behind it.
keep_inner : Char → String → String
keep_inner pad String.[] = ""
keep_inner pad (String.◌∷◌ c s) = String.◌∷◌ pad (String.◌∷◌ c s)

-- `text.rstrip("=")`
pub rstrip : String → String
unfolding keep_inner
rstrip String.[] = ""
rstrip (String.◌∷◌ c s) =
    if nat_beq (code c) b'=' then keep_inner c (rstrip s) else String.◌∷◌ c (rstrip s)

-- `"=" * (-len(token) % 4)`
pub pad_of : String → String
unfolding padding
pad_of token = padding ((4 - text_length token % 4) % 4)

-- `value.get(key)`, of a JSON object
pub get_field : String → Fields → Option Json
get_field key end = none
get_field key (field k v rest) = if k == key then some v else get_field key rest

abbrev pub cursor_document : String → String → ℕ → Json
cursor_document tenant_id run_id cursor = object (
    field "cursor" (int cursor)
      (field "run_id" (text run_id) (field "tenant_id" (text tenant_id) end)))

-- `value.get(key) != wanted`
pub differs : Option Json → String → Bool
differs (some (text value)) wanted = not (value == wanted)
differs _ wanted = true

-- An integer that is no `bool` and not negative
pub natural_of : Option Json → Result ℕ
natural_of (some (int n)) = ok n
natural_of _ = err value_error

-- The tests of `decode` on the document that the token holds.
pub cursor_of : String → String → Json → Result ℕ
unfolding get_field differs natural_of
cursor_of tenant_id run_id (object fields) = do
  raise_if (differs (get_field "tenant_id" fields) tenant_id) value_error
  raise_if (differs (get_field "run_id" fields) run_id) value_error
  natural_of (get_field "cursor" fields)
cursor_of tenant_id run_id _ = err value_error

-- `CursorCodec.__init__`
unfoldable pub make_codec : List ℕ → Result (List ℕ)
make_codec key = do raise_if (ltb (length key) 32) value_error; ok key

module _ (lib : ByteLibrary) (key : List ℕ) where
  -- `body + signature`
  unfoldable pub signed : List ℕ → List ℕ
  signed body = body ++ lib.hmac_sha256 key body

  unfoldable pub decode_bytes : String → String → List ℕ → Result ℕ
  unfolding cursor_of
  decode_bytes tenant_id run_id decoded =
      let body = take (length decoded - 32) decoded in
      let supplied = drop (length decoded - 32) decoded in
      do
        value ← or_raise (lib.json_loads body) value_error
        raise_if (not (nat_beq (length supplied) 32)) value_error
        raise_if (not (supplied == lib.hmac_sha256 key body)) value_error
        cursor_of tenant_id run_id value

  unfoldable pub decode : String → String → String → Result ℕ
  unfolding pad_of decode_bytes
  decode token tenant_id run_id = do
    raise_if (nat_beq (text_length token) 0 || ltb 1024 (text_length token)) value_error
    decoded ← or_raise (lib.urlsafe_b64decode (token +str+ pad_of token)) value_error
    decode_bytes tenant_id run_id decoded

module _ (rt : Runtime) (lib : ByteLibrary) where
  -- `_canonical_json({...}).encode()`
  unfoldable pub cursor_body : String → String → ℕ → List ℕ
  cursor_body tenant_id run_id cursor =
      lib.utf8 (rt.canonical_json (cursor_document tenant_id run_id cursor))

  unfoldable pub encode : List ℕ → String → String → ℕ → String
  unfolding cursor_body signed rstrip
  encode key tenant_id run_id cursor =
      rstrip (lib.urlsafe_b64encode (signed lib key (cursor_body tenant_id run_id cursor)))
