-- ===== src/Binding/Body.antt =====
-- internal/binding/body.go.
use oashttp.Prelude.{
  Bool, Option, err, false, if◌then◌else◌, is_nil, length, ltb, none, not, ok, some, take, ℕ, ◌&&◌,
  ◌++◌, ◌+◌,
}
use oashttp.Prelude.Text.{Text, lit, text_eq, trim_space}
use Prim.Native.Nat.{◌^◌}
use oashttp.Reflect.GoType.{ReflectType}
use oashttp.Reflect.Integer.{Integer, itoa, negative, positive}
use oashttp.Reflect.Value.{Value}
use oashttp.Http.Header.{header_get}
use oashttp.Http.Request.{Request, RequestStream}
use oashttp.Binding.Scalar.{Conversions}
use oashttp.Operation.Model.{RequestError}

-- An error of the whole request, or the message of a field's error.
pub data BodyError : Type 0 where
  refused : RequestError → BodyError
  invalid : Text → BodyError

abbrev pub too_large : ℕ → RequestError
too_large limit = record {
  status = 413;
  code = lit "PAYLOAD_TOO_LARGE";
  detail = lit "JSON body exceeds " ++ (itoa limit ++ lit " bytes");
}

abbrev pub unsupported_media : RequestError
unsupported_media = record {
  status = 415;
  code = lit "UNSUPPORTED_MEDIA_TYPE";
  detail = lit "Content-Type must be application/json";
}

-- `r.ContentLength > limit && r.ContentLength >= 0`.
unfoldable pub exceeds : Integer → ℕ → Bool
exceeds (negative n) limit = false
exceeds (positive n) limit = ltb limit n

-- What io.LimitReader(r.Body, limit+1) lets through: the sum is an int64, and is negative if it
-- overflows, and then nothing is read.
unfoldable pub read_limit : ℕ → ℕ
read_limit limit = if ltb (limit + 1) (2 ^ 63) then limit + 1 else 0

-- io.ReadAll: none where reading fails before the limit is reached.
unfoldable pub read_body : RequestStream → ℕ → Option Text
read_body stream n =
    if stream.broken && ltb (length stream.bytes) n then none else some (take n stream.bytes)

abbrev pub is_json : Option Text → Bool
is_json none = false
is_json (some media) = text_eq media (lit "application/json")

module _ {F O : Type 0} (lib : Conversions F O) where
  -- What decodeBody leaves in the target, and its error.
  abbrev pub Decoded : Type 0
  Decoded = Value F O × Option BodyError

  -- Behind the second `Decode`.
  unfoldable pub check_rest : Text → Option BodyError
  check_rest rest = elim (lib.next_json rest) [
    | none ↦ none
    | some (ok tt) ↦ some (invalid (lit "JSON body must contain exactly one value"))
    | some (err message) ↦ some (invalid (lit "invalid trailing JSON: " ++ message))
  ]

  unfoldable pub decode_value : Bool → ReflectType → Value F O → Text → Decoded
  unfolding check_rest
  decode_value disallow t old data_read =
      let (v, outcome) = lib.decode_json disallow t old data_read in
      elim outcome [
        | err message ↦ (v, some (invalid (lit "invalid JSON: " ++ message)))
        | ok rest ↦ (v, check_rest rest)
      ]

  unfoldable pub no_body : Bool → Option BodyError
  no_body required = if required then some (invalid (lit "request body is required")) else none

  -- From the data that was read.
  unfoldable pub decode_data : Request → ReflectType → Value F O → ℕ → Bool → Bool → Text → Decoded
  unfolding no_body decode_value
  decode_data r t old limit disallow required read =
      if ltb limit (length read)
      then (old, some (refused (too_large limit)))
      else if is_nil (trim_space read)
      then (old, no_body required)
      else if not (is_json (lib.media_type (header_get r.header (lit "Content-Type"))))
      then (old, some (refused unsupported_media))
      else decode_value disallow t old read

  -- `decodeBody`. The message of a failed read is that of the body, which is not modelled.
  unfoldable pub decode_body : Request → ReflectType → Value F O → ℕ → Bool → Bool → Decoded
  unfolding exceeds read_limit read_body decode_data no_body
  decode_body r t old limit disallow required = elim r.body [
    | none ↦ (old, no_body required)
    | some stream ↦
        if exceeds r.content_length limit
        then (old, some (refused (too_large limit)))
        else elim (read_body stream (read_limit limit)) [
          | none ↦ (old, some (invalid (lit "read JSON body: ")))
          | some read ↦ decode_data r t old limit disallow required read
        ]
  ]
