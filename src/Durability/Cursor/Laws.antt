-- ===== src/Durability/Cursor/Laws.antt =====
-- `CursorCodec` of durability.py: what a token says, and to whom.
use Prim.Native.String.{◌++◌ as ◌+str+◌}
use Prim.Native.String.append
use aegis_framework_platform.Base.{
  ℕ, zero, suc, ◌+◌, ◌-◌, ◌*◌, ◌/◌, ◌≤◌, ◌<◌, String, ◌≡◌, refl, sym, ap, ◌∙◌, false, not, ◌&&◌,
  ◌||◌, Option, none, some, List, ◌++◌, arith, ltb, nat_beq, ◌==◌, if◌then◌else◌, string_eq, nat_eq,
  list_eq, length, take, drop, take-append_drop, take-append, drop-append, length-append,
  value_error, ok, err, or_raise, or_raise-eq-ok, raise_if-eq-ok, beq-eq_true, >>=-eq-ok, beq_refl,
}
use aegis_framework_platform.Runtime.{Json, int, text, object, Fields, Runtime, text_length}
use aegis_framework_platform.Durability.Cursor.{
  ByteLibrary, padding, keep_inner, rstrip, pad_of, get_field, cursor_document, differs, natural_of,
  cursor_of, cursor_body, signed, encode, decode_bytes, decode,
}

-- What base64 makes of some octets: four characters for each three of them, with fewer than four pad characters, all at the end; and back again.
pub record IsBase64 (lib : ByteLibrary) (octets : List ℕ) : Type 0 where
  pub stem : String
  pub pads : ℕ
  pub encoded : lib.urlsafe_b64encode octets ≡ stem +str+ padding pads
  pub stripped : rstrip stem ≡ stem
  pub few : pads < 4
  pub sized : text_length stem + pads ≡ 4 * ((length octets + 2) / 3)
  pub decoded : lib.urlsafe_b64decode (lib.urlsafe_b64encode octets) ≡ some octets

rstrip-padding : (n : ℕ) → rstrip (padding n) ≡ ""
unfolding rstrip padding keep_inner
rstrip-padding zero = refl
rstrip-padding (suc n) = rw (rstrip-padding n)

-- Pad characters at the end do not matter.
rstrip-append : (s : String) (n : ℕ) → rstrip (s +str+ padding n) ≡ rstrip s
unfolding rstrip
rstrip-append String.[] n = rw append.nil (rstrip-padding n)
rstrip-append (String.◌∷◌ c s) n = rw append.cons (rw (rstrip-append s n))

pad_of-eq :
    (s : String) (pads quads : ℕ)
    → pads < 4
    → text_length s + pads ≡ 4 * quads
    → pad_of s ≡ padding pads
unfolding pad_of
pad_of-eq s pads quads few sized = ap padding (omega arith)

natural_of-eq : (o : Option Json) {n : ℕ} → natural_of o ≡ ok n → o ≡ some (int n)
unfolding natural_of
natural_of-eq none h = cc
natural_of-eq (some Json.null) h = cc
natural_of-eq (some (Json.bool b)) h = cc
natural_of-eq (some (int m)) h = cc
natural_of-eq (some (Json.number s)) h = cc
natural_of-eq (some (text s)) h = cc
natural_of-eq (some (Json.array xs)) h = cc
natural_of-eq (some (object fs)) h = cc

differs-eq : (o : Option Json) (wanted : String) → differs o wanted ≡ false → o ≡ some (text wanted)
unfolding differs
differs-eq none wanted h = cc
differs-eq (some (text s)) wanted h = ground (arith, string_eq.beq_iff s wanted)
differs-eq (some Json.null) wanted h = cc
differs-eq (some (Json.bool b)) wanted h = cc
differs-eq (some (int m)) wanted h = cc
differs-eq (some (Json.number s)) wanted h = cc
differs-eq (some (Json.array xs)) wanted h = cc
differs-eq (some (object fs)) wanted h = cc

-- A document whose cursor is read for a tenant and a run.
pub record Names (document : Json) (tenant_id run_id : String) (cursor : ℕ) : Type 0 where
  pub fields : Fields
  pub is_object : document ≡ object fields
  pub tenant : get_field "tenant_id" fields ≡ some (text tenant_id)
  pub run : get_field "run_id" fields ≡ some (text run_id)
  pub position : get_field "cursor" fields ≡ some (int cursor)

cursor_of-Names :
    (tenant_id run_id : String) (j : Json) {cursor : ℕ}
    → cursor_of tenant_id run_id j ≡ ok cursor
    → Names j tenant_id run_id cursor
unfolding cursor_of
cursor_of-Names t r (object fields) h = record {
  fields = fields;
  is_object = refl;
  tenant = differs-eq _ t (ground arith);
  run = differs-eq _ r (ground arith);
  position = natural_of-eq _ (ground arith);
}
cursor_of-Names t r Json.null h = cc
cursor_of-Names t r (Json.bool b) h = cc
cursor_of-Names t r (int n) h = cc
cursor_of-Names t r (Json.number s) h = cc
cursor_of-Names t r (text s) h = cc
cursor_of-Names t r (Json.array xs) h = cc

cursor_of-document :
    (t r tenant_id run_id : String) (cursor : ℕ)
    → cursor_of tenant_id run_id (cursor_document t r cursor)
      ≡ (if t == tenant_id && r == run_id then ok cursor else err value_error)
unfolding cursor_of get_field differs natural_of
cursor_of-document t r tenant_id run_id cursor = ground arith

-- What a token must hold to be read: octets signed by the key, which are a document that names the tenant, the run and the cursor.
pub record IsIssued (lib : ByteLibrary) (key : List ℕ) (token tenant_id run_id : String)
    (cursor : ℕ) : Type 0 where
  pub body : List ℕ
  pub document : Json
  pub read : lib.urlsafe_b64decode (token +str+ pad_of token) ≡ some (signed lib key body)
  pub parsed : lib.json_loads body ≡ some document
  pub names : Names document tenant_id run_id cursor

module _ (lib : ByteLibrary) (key : List ℕ) where
  decode_bytes-IsIssued :
      (token tenant_id run_id : String) (decoded : List ℕ) {cursor : ℕ}
      → lib.urlsafe_b64decode (token +str+ pad_of token) ≡ some decoded
      → decode_bytes lib key tenant_id run_id decoded ≡ ok cursor
      → IsIssued lib key token tenant_id run_id cursor
  unfolding decode_bytes signed
  decode_bytes-IsIssued token t r decoded read h =
      let body = take (length decoded - 32) decoded in
      let supplied = drop (length decoded - 32) decoded in
      let (document, parsed, checked) =
        >>=-eq-ok (or_raise (lib.json_loads body) value_error) _ h in
      let (_, compared) =
        raise_if-eq-ok (not (nat_beq (length supplied) 32)) value_error _ checked in
      let (same, named) =
        raise_if-eq-ok (not (supplied == lib.hmac_sha256 key body)) value_error
          (cursor_of t r document) compared in
      let signature : supplied ≡ lib.hmac_sha256 key body =
        beq-eq_true supplied (lib.hmac_sha256 key body) (ground (arith, same)) in
      record {
        body = body;
        document = document;
        read =
            read
            ∙ ap some (rw (← signature) (sym (take-append_drop (length decoded - 32) decoded)));
        parsed = or_raise-eq-ok _ value_error parsed;
        names = cursor_of-Names t r document named;
      }

  -- Where a token is read as a cursor for a tenant and a run, it holds octets that the key has
  -- signed, and these are a document that names the tenant, the run and the cursor.
  pub decode-IsIssued :
      (token tenant_id run_id : String) {cursor : ℕ}
      → decode lib key token tenant_id run_id ≡ ok cursor
      → IsIssued lib key token tenant_id run_id cursor
  unfolding decode
  decode-IsIssued token t r h =
      let (_, some_token) =
        raise_if-eq-ok (nat_beq (text_length token) 0 || ltb 1024 (text_length token)) value_error _
          h in
      let (decoded, read, rest) =
        >>=-eq-ok (or_raise (lib.urlsafe_b64decode (token +str+ pad_of token)) value_error) _
          some_token in
      decode_bytes-IsIssued token t r decoded (or_raise-eq-ok _ value_error read) rest

  decode_bytes-signed :
      (t r tenant_id run_id : String) (cursor : ℕ) (body : List ℕ)
      → length (lib.hmac_sha256 key body) ≡ 32
      → lib.json_loads body ≡ some (cursor_document t r cursor)
      → decode_bytes lib key tenant_id run_id (signed lib key body)
        ≡ (if t == tenant_id && r == run_id then ok cursor else err value_error)
  unfolding decode_bytes signed or_raise
  decode_bytes-signed t r tenant_id run_id cursor body sized parsed =
      let whole : length (body ++ lib.hmac_sha256 key body) - 32 ≡ length body =
        omega (arith, length-append body (lib.hmac_sha256 key body)) in
      rw (whole, take-append, drop-append, parsed, sized, beq_refl (lib.hmac_sha256 key body))
        (cursor_of-document t r tenant_id run_id cursor)

module _ (rt : Runtime) (lib : ByteLibrary) (key : List ℕ) where
  -- Where base64 gives its octets back in its documented form, the digest has 32 octets, JSON reads
  -- the document back, and the document has at most 734 octets: the token of a cursor, read for a
  -- tenant and a run, is that cursor if they are those of the token, and ValueError otherwise.
  pub decode-encode :
      (t r tenant_id run_id : String) (cursor : ℕ)
      → IsBase64 lib (signed lib key (cursor_body rt lib t r cursor))
      → length (lib.hmac_sha256 key (cursor_body rt lib t r cursor)) ≡ 32
      → lib.json_loads (cursor_body rt lib t r cursor) ≡ some (cursor_document t r cursor)
      → length (cursor_body rt lib t r cursor) ≤ 734
      → decode lib key (encode rt lib key t r cursor) tenant_id run_id
        ≡ (if t == tenant_id && r == run_id then ok cursor else err value_error)
  unfolding encode decode or_raise
  decode-encode t r tenant_id run_id cursor b sized parsed short =
      let body = cursor_body rt lib t r cursor in
      let token : rstrip (lib.urlsafe_b64encode (signed lib key body)) ≡ b.stem =
        rw b.encoded (rstrip-append b.stem b.pads ∙ b.stripped) in
      let octets : length (signed lib key body) ≡ length body + 32 =
        rw (signed, length-append, sized) in
      let small : (nat_beq (text_length b.stem) 0 || ltb 1024 (text_length b.stem)) ≡ false =
        ground (arith, b.sized, b.few, octets) in
      let padded : lib.urlsafe_b64decode (b.stem +str+ pad_of b.stem) ≡ some (signed lib key body) =
        rw (pad_of-eq b.stem b.pads _ b.few b.sized) (rw (← b.encoded) b.decoded) in
      rw (token, small, padded, or_raise)
        (decode_bytes-signed lib key t r tenant_id run_id cursor body sized parsed)
