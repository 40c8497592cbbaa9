-- ===== src/Runtime.antt =====
-- What the platform takes from Python's standard library and from domain.py and telemetry.py:
-- JSON documents, digests, identifiers derived from digests, and trace references.
pub mod Plain
use Prim.Native.Char.{code, nul}
use Prim.Native.String.{slice, ◌++◌ as ◌+str+◌}
use aegis_framework_platform.Base.{
  ℕ, zero, suc, ◌+◌, ◌-◌, ◌*◌, ◌/◌, ◌%◌, String, Bool, true, ◌&&◌, ◌||◌, List, [], ◌∷◌, ltb, leb,
  nat_beq, if◌then◌else◌,
}
use aegis_framework_platform.Base.Dict.{Dict}

-- A JSON document. `number` is any number that is no natural, by its literal, which is that of
-- Python's json for a float that is not finite.
mutual
  pub data Json : Type 0 where
    null : Json
    bool : Bool → Json
    int : ℕ → Json
    number : String → Json
    text : String → Json
    array : Items → Json
    object : Fields → Json

  pub data Items : Type 0 where
    nil : Items
    cons : Json → Items → Items

  pub data Fields : Type 0 where
    end : Fields
    field : String → Json → Fields → Fields

-- `dict[str, JsonValue]`. Python's dict equality and the canonical JSON forget the order of the
-- keys, so the `sorted` of the validators is not modelled.
abbrev pub Payload : Type 0
Payload = Dict String Json

abbrev pub fields_of : Payload → Fields
fields_of [] = end
fields_of ((k, v) ∷ p) = field k v (fields_of p)

-- hashlib, json, `str` of a document that is no text, and `datetime.isoformat`.
pub record Runtime : Type 0 where
  pub sha256_hex : String → String
  pub canonical_json : Json → String
  pub python_str : Json → String
  pub isoformat : ℕ → String

-- `str(value)`
unfoldable pub json_str : Runtime → Json → String
json_str rt (text s) = s
json_str rt j = rt.python_str j

-- A regular expression's `[...]+`, on code points
all_codes : (ℕ → Bool) → String → Bool
all_codes p String.[] = true
all_codes p (String.◌∷◌ c s) = p (code c) && all_codes p s

-- `len(s)`
unfoldable pub text_length : String → ℕ
text_length String.[] = 0
text_length (String.◌∷◌ c s) = suc (text_length s)

is_between : ℕ → ℕ → ℕ → Bool
is_between low high c = leb low c && leb c high

identifier_code : ℕ → Bool
unfolding is_between
identifier_code c =
    is_between b'a' b'z' c
    || is_between b'A' b'Z' c
    || is_between b'0' b'9' c
    || nat_beq c b'.'
    || nat_beq c b'_'
    || nat_beq c b':'
    || nat_beq c b'-'

-- domain.Identifier
unfoldable pub is_identifier : String → Bool
unfolding all_codes text_length identifier_code is_between
is_identifier s = is_between 1 128 (text_length s) && all_codes identifier_code s

unfoldable pub all_identifiers : List String → Bool
all_identifiers [] = true
all_identifiers (value ∷ rest) = is_identifier value && all_identifiers rest

digest_code : ℕ → Bool
unfolding is_between
digest_code c = is_between b'a' b'f' c || is_between b'0' b'9' c

-- domain.Sha256Digest
unfoldable pub is_sha256 : String → Bool
unfolding all_codes text_length digest_code
is_sha256 s = nat_beq (text_length s) 64 && all_codes digest_code s

-- `"\x00".join(parts)`
join_nul : List String → String
join_nul [] = ""
join_nul (p ∷ []) = p
join_nul (p ∷ q ∷ rest) = p +str+ String.◌∷◌ nul (join_nul (q ∷ rest))

-- domain.stable_id
unfoldable pub stable_id : Runtime → String → List String → ℕ → String
unfolding join_nul
stable_id rt prefix parts length =
    prefix +str+ ":" +str+ slice (rt.sha256_hex (join_nul parts)) 0 length

digit_text : ℕ → String
digit_text zero = "0"
digit_text (suc zero) = "1"
digit_text (suc (suc zero)) = "2"
digit_text (suc (suc (suc zero))) = "3"
digit_text (suc (suc (suc (suc zero)))) = "4"
digit_text (suc (suc (suc (suc (suc zero))))) = "5"
digit_text (suc (suc (suc (suc (suc (suc zero)))))) = "6"
digit_text (suc (suc (suc (suc (suc (suc (suc zero))))))) = "7"
digit_text (suc (suc (suc (suc (suc (suc (suc (suc zero)))))))) = "8"
digit_text _ = "9"

-- `str` of a natural number, by as many rounds as the number says at most
digits_of : ℕ → ℕ → String → String
digits_of zero n rest = rest
digits_of (suc fuel) n rest =
    let more = digits_of fuel (n / 10) (digit_text (n % 10) +str+ rest) in
    if ltb n 10 then digit_text n +str+ rest else more

unfoldable pub decimal : ℕ → String
unfolding digits_of digit_text
decimal n = digits_of (suc n) n ""

-- The value of one lower-case hexadecimal digit.
hex_digit : ℕ → ℕ
hex_digit c = if leb c b'9' then c - b'0' else c - b'a' + 10

-- `int.from_bytes(digest, "big")`, from the digest's hexadecimal text
hex_value : ℕ → String → ℕ
unfolding hex_digit
hex_value n String.[] = n
hex_value n (String.◌∷◌ c s) = hex_value (n * 16 + hex_digit (code c)) s

-- telemetry.deterministic_sample, at a rate that the caller keeps within its bounds
deterministic_sample : Runtime → String → ℕ → Bool
unfolding hex_value
deterministic_sample rt correlation_ref rate_basis_points =
    let slot = hex_value 0 (slice (rt.sha256_hex correlation_ref) 0 16) % 10000 in
    ltb slot rate_basis_points

-- telemetry.TraceReference
record TraceReference : Type 0 where
  trace_id : String
  span_id : String
  sampled : Bool

-- telemetry.durable_trace_reference, with `sampled` left to the deterministic sampler
durable_trace_reference : Runtime → String → TraceReference
unfolding deterministic_sample
durable_trace_reference rt correlation_ref = record {
  trace_id = slice (rt.sha256_hex ("trace:" +str+ correlation_ref)) 0 32;
  span_id = slice (rt.sha256_hex ("span:" +str+ correlation_ref)) 0 16;
  sampled = deterministic_sample rt correlation_ref 1000;
}

-- TraceReference.traceparent
traceparent : TraceReference → String
traceparent t =
    "00-"
    +str+ t.trace_id
    +str+ "-"
    +str+ t.span_id
    +str+ "-"
    +str+ (if t.sampled then "01" else "00")

unfoldable pub durable_traceparent : Runtime → String → String
unfolding durable_trace_reference traceparent
durable_traceparent rt correlation_ref = traceparent (durable_trace_reference rt correlation_ref)
