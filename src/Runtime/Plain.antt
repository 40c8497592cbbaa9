-- ===== src/Runtime/Plain.antt =====
-- A runtime for the tests of every component.
use Prim.Native.Char.{code}
use aegis_framework_platform.Base.{String, nat_beq, if◌then◌else◌}
use aegis_framework_platform.Runtime.{Runtime}

-- The text without the separators that `stable_id` puts into it.
unfoldable pub clean : String → String
clean String.[] = String.[]
clean (String.◌∷◌ c s) = if nat_beq (code c) 0 then clean s else String.◌∷◌ c (clean s)

-- Digests are the texts themselves, without separators, and documents are all alike.
abbrev pub plain : Runtime
plain = record {
  sha256_hex = clean;
  canonical_json = λ j. "{}";
  python_str = λ j. "?";
  isoformat = λ n. "1970";
}
