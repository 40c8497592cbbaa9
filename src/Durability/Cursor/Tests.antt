-- ===== src/Durability/Cursor/Tests.antt =====
-- Tests of `CursorCodec`, with a library of octets that knows one token.
use aegis_framework_platform.Base.{
  ◌≡◌, refl, arith, string_eq, value_error, ok, err, or_raise, list_beq,
}
use aegis_framework_platform.Runtime.{text_length}
use aegis_framework_platform.Runtime.Plain.{plain}
use aegis_framework_platform.Durability.Cursor.{
  padding, rstrip, signed, cursor_body, encode, decode, make_codec,
}
use aegis_framework_platform.Durability.Cursor.Plain.{braces, digest, stem, plain_bytes}
use aegis_framework_platform.Durability.Cursor.Laws.{
  IsBase64, IsIssued, decode-encode, decode-IsIssued,
}

plain_bytes-IsBase64 :
    IsBase64 plain_bytes
      (signed plain_bytes digest (cursor_body plain plain_bytes "tenant" "run" 7))
unfolding signed cursor_body rstrip padding text_length
plain_bytes-IsBase64 = record {
  stem = stem;
  pads = 2;
  encoded = refl;
  stripped = refl;
  few = omega arith;
  sized = refl;
  decoded = refl;
}

short_key : make_codec braces ≡ err value_error
unfolding make_codec
short_key = refl

decode-encode_example :
    decode plain_bytes digest (encode plain plain_bytes digest "tenant" "run" 7) "tenant" "run"
    ≡ ok 7
decode-encode_example =
    decode-encode plain plain_bytes digest "tenant" "run" "tenant" "run" 7 plain_bytes-IsBase64 refl
      refl (unfold cursor_body in omega arith)

wrong_run :
    decode plain_bytes digest (encode plain plain_bytes digest "tenant" "run" 7) "tenant" "other"
    ≡ err value_error
unfolding encode decode text_length or_raise list_beq
wrong_run = refl

decode-IsIssued_example : IsIssued plain_bytes digest stem "tenant" "run" 7
unfolding encode decode text_length or_raise list_beq
decode-IsIssued_example = decode-IsIssued plain_bytes digest stem "tenant" "run" refl
