-- ===== src/Envelope.antt =====
-- Message envelopes, libs/cap-core/src/utils/cap-message-envelope.util.ts and
-- libs/cap-core/src/models/cap-message-envelope.ts. A thrown error is the error's class with its reason.
pub mod Json
pub mod RoundTrip
pub mod Validity
use Json.{is_json_value}
use cap_nodejs.Prelude.{
  ℕ, String, Bool, true, false, not, ◌&&◌, ◌||◌, Option, none, some, List, [], ◌∷◌, if◌then◌else◌,
  is_some, or_default, str_eq,
}
use cap_nodejs.JsValue.{
  Value, Items, Fields, end, field, HeaderValue, Headers, text, numeric, flag, instant, is_finite,
}
use cap_nodejs.JsMap.{JsMap, set}

pub data EnvelopeError : Type 0 where
  unsupported_version : Value → EnvelopeError
  malformed : String → EnvelopeError
  legacy_rejected : EnvelopeError

pub data Decoding (A : Type 0) : Type 0 where
  ok : A → Decoding A
  err : EnvelopeError → Decoding A

-- `LegacyCapEnvelopeMode`
pub data LegacyMode : Type 0 where
  accept warn reject : LegacyMode

-- `DecodedCapMessage`
pub record DecodedMessage : Type 0 where
  pub payload : Value
  pub headers : Option Headers
  pub envelope_version : Option ℕ
  pub legacy_envelope : Bool

-- The own property of a name
abbrev pub own : String → Fields → Option Value
own k end = none
own k (field j v fs) = if str_eq j k then some v else own k fs

-- `isRecord`, with the own properties of the record; a date has none.
abbrev pub record_of : Value → Option Fields
record_of (Value.object plain fs) = some fs
record_of (Value.date t) = some end
record_of _ = none

-- `isCapHeaderValue`
unfoldable pub is_cap_header_value : Value → Bool
unfolding is_finite
is_cap_header_value (Value.string s) = true
is_cap_header_value (Value.boolean b) = true
is_cap_header_value (Value.number n) = is_finite n
is_cap_header_value (Value.date t) = is_some t
is_cap_header_value _ = false

unfoldable pub every_header_value : Fields → Bool
unfolding is_cap_header_value
every_header_value end = true
every_header_value (field k v fs) = is_cap_header_value v && every_header_value fs

-- `isCapHeaders`
unfoldable pub is_cap_headers : Value → Bool
unfolding every_header_value
is_cap_headers v = elim (record_of v) [ none ↦ false | some fs ↦ every_header_value fs ]

-- A value that `isCapHeaderValue` accepts, as a header's value
abbrev pub as_header : Value → HeaderValue
as_header (Value.string s) = text s
as_header (Value.boolean b) = flag b
as_header (Value.number n) = numeric n
as_header (Value.date t) = instant t
as_header _ = text ""

abbrev pub as_headers : Fields → Headers
as_headers end = []
as_headers (field k v fs) = (k, as_header v) ∷ as_headers fs

-- The `headers` of an envelope that was found valid; absent or `undefined` is none.
abbrev pub headers_of : Fields → Option Headers
headers_of fs = elim (own "headers" fs) [
  | none ↦ none
  | some Value.undefined ↦ none
  | some v ↦ elim (record_of v) [ none ↦ none | some hs ↦ some (as_headers hs) ]
]

-- `{ ...lower, ...higher }`
abbrev pub spread : Headers → Headers → Headers
spread lower [] = lower
spread lower ((k, v) ∷ higher) = spread (set k v lower) higher

abbrev pub none_if_empty : Headers → Option Headers
none_if_empty [] = none
none_if_empty (h ∷ hs) = some (h ∷ hs)

-- `mergeHeaders`
unfoldable pub merge_headers : Option Headers → Option Headers → Option Headers
merge_headers lower higher = none_if_empty (spread (or_default lower []) (or_default higher []))

-- `cloneHeaders`
unfoldable pub clone_headers : Option Headers → Option Headers
clone_headers none = none
clone_headers (some hs) = none_if_empty hs

abbrev pub envelope_kind : String
envelope_kind = "cap.message"

abbrev pub is_text : Option Value → String → Bool
is_text (some (Value.string s)) t = str_eq s t
is_text _ t = false

-- `v === CAP_MESSAGE_ENVELOPE_VERSION`
abbrev pub is_version : Value → Bool
is_version (Value.number n) = str_eq n "1"
is_version _ = false

-- `!hasOwn(value, 'headers') || value.headers === undefined || isCapHeaders(value.headers)`
unfoldable pub has_valid_headers : Fields → Bool
unfolding is_cap_headers
has_valid_headers fs = elim (own "headers" fs) [
  | none ↦ true
  | some Value.undefined ↦ true
  | some v ↦ is_cap_headers v
]

-- `hasOwn(value, 'payload') && isJsonValue(value.payload)`
unfoldable pub has_json_payload : Fields → Bool
unfolding is_json_value
has_json_payload fs = elim (own "payload" fs) [ none ↦ false | some v ↦ is_json_value v ]

-- The properties of `value` and of its `$cap`, if both are records
abbrev pub marker_of : Value → Option (Fields × Fields)
marker_of v = elim (record_of v) [
  | none ↦ none
  | some fs ↦ elim (own "$cap" fs) [
    | none ↦ none
    | some m ↦ elim (record_of m) [ none ↦ none | some ms ↦ some (fs, ms) ]
  ]
]

-- `isCapMessageEnvelopeV1`
unfoldable pub is_cap_message_envelope_v1 : Value → Bool
unfolding has_json_payload has_valid_headers
is_cap_message_envelope_v1 v = elim (marker_of v) [
  | none ↦ false
  | some (fs, ms) ↦
      is_text (own "kind" ms) envelope_kind
      && (elim (own "version" ms) [ none ↦ false | some n ↦ is_version n ]
          && (has_json_payload fs && has_valid_headers fs))
]

-- `isExplicitCapEnvelopeKind`
unfoldable pub is_explicit_cap_envelope_kind : Value → Bool
is_explicit_cap_envelope_kind v = elim (marker_of v) [
  | none ↦ false
  | some (fs, ms) ↦ is_text (own "kind" ms) envelope_kind
]

-- `validateExplicitEnvelope` on the properties of an explicit envelope and of its marker: none, or what it
-- throws
unfoldable pub validate_explicit_envelope : Fields → Fields → Option EnvelopeError
unfolding is_json_value has_valid_headers
validate_explicit_envelope fs ms = elim (own "version" ms) [
  | none ↦ some (malformed "missing $cap.version")
  | some n ↦ if not (is_version n) then some (unsupported_version n) else elim (own "payload" fs) [
    | none ↦ some (malformed "missing own payload")
    | some p ↦
        if not (is_json_value p)
        then some (malformed "payload is not JSON-serializable")
        else if not (has_valid_headers fs)
        then some (malformed "headers are invalid")
        else none
  ]
]

abbrev pub only_envelope_keys : Fields → Bool
only_envelope_keys end = true
only_envelope_keys (field k v fs) =
    (str_eq k "payload" || str_eq k "headers") && only_envelope_keys fs

-- `isStrictLegacyEnvelope`, for a value with these properties; that there is a key at all follows from its
-- own `payload`.
unfoldable pub is_strict_legacy_envelope : Fields → Bool
unfolding has_json_payload has_valid_headers
is_strict_legacy_envelope fs =
    not (is_some (own "$cap" fs))
    && (has_json_payload fs && (only_envelope_keys fs && has_valid_headers fs))

abbrev pub payload_of : Fields → Value
payload_of fs = or_default (own "payload" fs) Value.undefined

abbrev pub is_reject : LegacyMode → Bool
is_reject reject = true
is_reject _ = false

-- The rest of `decodeCapMessage` for a value that is no explicit envelope
unfoldable pub decode_unmarked : Value → Option Headers → LegacyMode → Decoding DecodedMessage
unfolding is_strict_legacy_envelope merge_headers clone_headers
decode_unmarked v explicit mode =
    let plain : DecodedMessage = record {
      payload = v;
      headers = clone_headers explicit;
      envelope_version = none;
      legacy_envelope = false;
    } in
    elim (record_of v) [
      | none ↦ ok plain
      | some fs ↦
          if not (is_strict_legacy_envelope fs)
          then ok plain
          else if is_reject mode
          then err legacy_rejected
          else ok (record {
            payload = payload_of fs;
            headers = merge_headers (headers_of fs) explicit;
            envelope_version = none;
            legacy_envelope = true;
          })
    ]

-- `decodeCapMessage`, with `explicitHeaders` and `legacyEnvelopeMode` (whose default is `warn`)
unfoldable pub decode_cap_message : Value → Option Headers → LegacyMode → Decoding DecodedMessage
unfolding is_explicit_cap_envelope_kind validate_explicit_envelope merge_headers decode_unmarked
decode_cap_message v explicit mode =
    if not (is_explicit_cap_envelope_kind v)
    then decode_unmarked v explicit mode
    else elim (marker_of v) [
      | none ↦ decode_unmarked v explicit mode
      | some (fs, ms) ↦ elim (validate_explicit_envelope fs ms) [
        | some e ↦ err e
        | none ↦ ok (record {
          payload = payload_of fs;
          headers = merge_headers (headers_of fs) explicit;
          envelope_version = some 1;
          legacy_envelope = false;
        })
      ]
    ]

abbrev pub from_header : HeaderValue → Value
from_header (text s) = Value.string s
from_header (numeric n) = Value.number n
from_header (flag b) = Value.boolean b
from_header (instant t) = Value.date t

abbrev pub from_headers : Headers → Fields
from_headers [] = end
from_headers ((k, v) ∷ hs) = field k (from_header v) (from_headers hs)

-- `createCapMessageEnvelope`
unfoldable pub create_cap_message_envelope : Value → Option Headers → Value
create_cap_message_envelope payload headers =
    let marker =
      Value.object true
        (field "kind" (Value.string envelope_kind) (field "version" (Value.number "1") end)) in
    Value.object true (
      field "$cap" marker (
        field "payload" payload (elim headers [
          | none ↦ end
          | some hs ↦ field "headers" (Value.object true (from_headers hs)) end
        ])))
