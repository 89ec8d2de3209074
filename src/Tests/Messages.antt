-- ===== src/Tests/Messages.antt =====
-- A few message envelopes.
use cap_nodejs.Prelude.{true, false, none, some, [], ◌∷◌, ◌≡◌, refl}
use cap_nodejs.JsValue.{Value, field, end, Headers, text, is_finite}
use cap_nodejs.Envelope.{
  warn, ok, DecodedMessage, decode_cap_message, decode_unmarked, is_cap_message_envelope_v1,
  is_explicit_cap_envelope_kind, is_strict_legacy_envelope, create_cap_message_envelope,
  merge_headers, clone_headers, has_json_payload, is_cap_header_value,
}
use cap_nodejs.Envelope.Json.{is_json_value}
use cap_nodejs.Envelope.RoundTrip.{decode-create}
use cap_nodejs.Envelope.Validity.{decode_reject}

abbrev pub order : Value
order = Value.object true (field "total" (Value.number "12") end)

abbrev traced : Headers
traced = ("trace", text "t1") ∷ []

abbrev retraced : Headers
retraced = ("trace", text "t2") ∷ ("tenant", text "x") ∷ []

pub order-is_json : is_json_value order ≡ true
unfolding is_json_value is_finite
order-is_json = refl

decode-create_example :
    (is_cap_message_envelope_v1 (create_cap_message_envelope order (some traced)) ≡ true)
    × (decode_cap_message (create_cap_message_envelope order (some traced)) (some retraced) warn
        ≡ ok (record {
          payload = order;
          headers = merge_headers (some traced) (some retraced);
          envelope_version = some 1;
          legacy_envelope = false;
        }))
decode-create_example =
    decode-create order (some traced) (some retraced) warn order-is_json
      (unfold is_cap_header_value in (refl, tt))

abbrev pub unversioned : Value
unversioned = Value.object true (
    field "$cap" (Value.object true (field "kind" (Value.string "cap.message") end))
      (field "payload" order end))

abbrev plain_order : DecodedMessage
plain_order = record {
  payload = order;
  headers = none;
  envelope_version = none;
  legacy_envelope = false;
}

decode_reject_example : plain_order.legacy_envelope ≡ false
decode_reject_example = decode_reject order none plain_order (
    unfold decode_cap_message decode_unmarked is_explicit_cap_envelope_kind
      is_strict_legacy_envelope has_json_payload clone_headers in
    refl)
