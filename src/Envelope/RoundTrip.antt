-- ===== src/Envelope/RoundTrip.antt =====
-- A message that was wrapped by `createCapMessageEnvelope` comes back whole.
use cap_nodejs.Prelude.{true, false, Option, none, some, [], ◌∷◌, ◌≡◌, refl, arith, or_default}
use cap_nodejs.JsValue.{Value, HeaderValue, Headers, text, numeric, flag, instant}
use cap_nodejs.Envelope.Json.{is_json_value}
use cap_nodejs.Envelope.{
  ok, LegacyMode, as_headers, as_header, from_headers, from_header, every_header_value,
  is_cap_header_value, is_cap_headers, merge_headers, create_cap_message_envelope,
  decode_cap_message, is_cap_message_envelope_v1,
}

-- Header values that JSON and the envelope can hold: finite numbers and valid dates.
abbrev pub IsSendable : Headers → Type 0
IsSendable [] = Unit
IsSendable ((k, v) ∷ hs) = (is_cap_header_value (from_header v) ≡ true) × IsSendable hs

as_header-from_header : (v : HeaderValue) → as_header (from_header v) ≡ v
as_header-from_header (text s) = refl
as_header-from_header (numeric n) = refl
as_header-from_header (flag b) = refl
as_header-from_header (instant t) = refl

as_headers-from_headers : (hs : Headers) → as_headers (from_headers hs) ≡ hs
as_headers-from_headers [] = refl
as_headers-from_headers ((k, v) ∷ hs) =
    ground (arith, as_header-from_header v, as_headers-from_headers hs)

every_header_value-from_headers :
    (hs : Headers) → IsSendable hs → every_header_value (from_headers hs) ≡ true
unfolding every_header_value
every_header_value-from_headers [] h = refl
every_header_value-from_headers ((k, v) ∷ hs) h =
    ground (arith, every_header_value-from_headers hs h.1)

-- The envelope of a JSON payload, with headers that can be sent or with none, is recognised, and is decoded in
-- every mode to that payload, version 1, and the headers merged with the explicit ones of the transport.
pub decode-create :
    (payload : Value) (headers : Option Headers) (explicit : Option Headers) (mode : LegacyMode)
    → is_json_value payload ≡ true
    → IsSendable (or_default headers [])
    → (is_cap_message_envelope_v1 (create_cap_message_envelope payload headers) ≡ true)
      × (decode_cap_message (create_cap_message_envelope payload headers) explicit mode
          ≡ ok (record {
            payload = payload;
            headers = merge_headers headers explicit;
            envelope_version = some 1;
            legacy_envelope = false;
          }))
unfolding create_cap_message_envelope decode_cap_message is_cap_message_envelope_v1 is_cap_headers
decode-create payload none explicit mode json sendable = (ground arith, ground arith)
decode-create payload (some hs) explicit mode json sendable = (
  ground (arith, every_header_value-from_headers hs sendable, as_headers-from_headers hs),
  ground (arith, every_header_value-from_headers hs sendable, as_headers-from_headers hs),
)
