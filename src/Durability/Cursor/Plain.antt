-- ===== src/Durability/Cursor/Plain.antt =====
-- A library of octets for tests, which knows one token.
use aegis_framework_platform.Base.{
  ℕ, String, none, some, List, [], ◌∷◌, ◌++◌, ◌==◌, if◌then◌else◌, string_eq,
}
use aegis_framework_platform.Durability.Cursor.{ByteLibrary, cursor_document}

abbrev eight : List ℕ → List ℕ
eight rest = 7 ∷ 7 ∷ 7 ∷ 7 ∷ 7 ∷ 7 ∷ 7 ∷ 7 ∷ rest

abbrev pub digest : List ℕ
digest = eight (eight (eight (eight [])))

abbrev pub braces : List ℕ
braces = 123 ∷ 125 ∷ []

abbrev pub stem : String
stem = "e30HBwcHBwcHBwcHBwcHBwcHBwcHBwcHBwcHBwcHBwcHBw"

abbrev pub plain_bytes : ByteLibrary
plain_bytes = record {
  hmac_sha256 = λ key body. digest;
  urlsafe_b64encode = λ octets. "e30HBwcHBwcHBwcHBwcHBwcHBwcHBwcHBwcHBwcHBwcHBw==";
  urlsafe_b64decode = λ token.
      if token == "e30HBwcHBwcHBwcHBwcHBwcHBwcHBwcHBwcHBwcHBwcHBw=="
      then some (braces ++ digest)
      else none;
  utf8 = λ s. braces;
  json_loads = λ octets. some (cursor_document "tenant" "run" 7);
}
