-- ===== src/Tests/Queues.antt =====
-- The AWS transport on small messages.
use cap_nodejs.Prelude.{
  arith, ℕ, String, true, false, Option, none, some, List, [], ◌∷◌, ◌≡◌, refl, str_eq,
  if◌then◌else◌,
}
use cap_nodejs.JsValue.{Value, Fields, field, end, Headers, text, flag, instant, error}
use cap_nodejs.Effect.{Result, ok, thrown}
use cap_nodejs.Aws.{
  scalar, decoded, decode_unwrapped, unwrap_sns_notification, notification_of,
  encode_message_attributes, encode_headers, string_value_of, data_type_of, decode_message,
  decode_attribute_value,
}
use cap_nodejs.Aws.RoundTrip.{decode_message-encode}
use cap_nodejs.Aws.Polling.{SqsMessage, Rejection, failed, HandlerCall, fate, poll_messages, Batch}
use cap_nodejs.Aws.Polling.Prefix.{poll}

abbrev to_iso_string : Option ℕ → String
to_iso_string none = ""
to_iso_string (some t) = "1970-01-01T00:00:00.000Z"

abbrev order_headers : Headers
order_headers =
    ("tenant", text "acme")
    ∷ ("cap-message-id", text "m1")
    ∷ ("urgent", flag true)
    ∷ ("at", instant (some 0))
    ∷ []

-- The texts of a notification, and of one of its attributes
abbrev member : String → String → Fields → Fields
member type value rest = field "Type" (Value.string type) (field "Value" (Value.string value) rest)

abbrev attribute_of : String → String → Value
attribute_of type value = Value.object true (member type value end)

abbrev notification : Fields
notification = field "Type" (Value.string "Notification") (
    field "Message" (Value.string "7") (
      field "MessageAttributes"
        (Value.object true (
          field "content-type" (attribute_of "String" "application/json") (
            field "tenant" (attribute_of "String" "acme") (
              field "cap-message-id" (attribute_of "String" "m1") (
                field "urgent" (attribute_of "String" "true")
                  (field "at" (attribute_of "String" "1970-01-01T00:00:00.000Z") end))))))
        end))

-- `JSON.parse` on the texts that occur here
abbrev parse : String → Result Value
parse t =
    if str_eq t "{notification}"
    then ok (Value.object true notification)
    else if str_eq t "7"
    then ok (Value.number "7")
    else if str_eq t "true"
    then ok (Value.boolean true)
    else if str_eq t "false"
    then ok (Value.boolean false)
    else thrown (error "Unexpected token")

abbrev number_of : String → Option String
number_of n = some n

unreadable :
    (v : Value) → Path (Result Value) (thrown (error "Unexpected token")) (ok v) → scalar v ≡ none
unreadable v e = absurd (ground (arith, e))

decode_message-encode_example :
    decode_message parse number_of "{notification}" none
    ≡ decoded (record {
      payload = Value.number "7";
      headers = some (
          ("tenant", text "acme")
          ∷ ("urgent", flag true)
          ∷ ("at", text "1970-01-01T00:00:00.000Z")
          ∷ []);
      message_id = some "m1";
    })
unfolding encode_message_attributes encode_headers string_value_of data_type_of
    decode_attribute_value
decode_message-encode_example =
    decode_message-encode to_iso_string parse number_of "{notification}" "7" "m1" (Value.number "7")
      order_headers (notification, refl, refl, refl, refl) refl refl
      (refl, (refl, (refl, (refl, tt)))) (refl, refl)
      (unreadable, (unreadable, (tt, (unreadable, tt))))

-- A header whose text is JSON of a truth value is not decoded as it was.
text_header_changes :
    decode_attribute_value parse number_of
      (data_type_of (text "true"))
      (string_value_of to_iso_string (text "true"))
    ≡ flag true
unfolding decode_attribute_value data_type_of string_value_of
text_header_changes = refl

abbrev received : String → Option String → SqsMessage
received body receipt = record {
  id = some "1";
  receipt_handle = receipt;
  body = some body;
  attributes = none;
}

abbrev messages : List SqsMessage
messages =
    received "7" (some "r1")
    ∷ received "oops" (some "r2")
    ∷ received "true" (some "r3")
    ∷ received "7" (some "r4")
    ∷ []

-- A handler that rejects a truth value
abbrev handler : HandlerCall → Option Rejection
handler call = elim call.payload as (λ v. Option Rejection) [
  | Value.boolean b ↦ some (failed (error "unwanted"))
  | _ ↦ none
]

abbrev batch : List SqsMessage → Batch
batch = poll parse number_of handler "orders" "g" (λ n. false) (λ receipt. none)

deleted_before_rejection : (batch messages).deletes ≡ "r1" ∷ "r2" ∷ []
unfolding poll_messages fate decode_message decode_unwrapped unwrap_sns_notification notification_of
deleted_before_rejection = refl
