-- ===== src/Aws.antt =====
-- Messages of the AWS transport, libs/cap-transport-aws-sns-sqs/src: what aws-sns-publisher.ts writes to the attributes
-- of a message, and what aws-sqs-subscriber.ts reads from it. `JSON.parse`, `Number` and `toISOString` are parameters.
pub mod Attributes
pub mod Arrival
pub mod RoundTrip
pub mod Polling
use cap_nodejs.Prelude.{
  ℕ, String, Bool, true, false, Option, none, some, List, [], ◌∷◌, if◌then◌else◌, str_eq,
  or_default, opt_eq,
}
use cap_nodejs.JsValue.{
  Value, Fields, field, end, HeaderValue, Headers, text, numeric, flag, instant, Thrown,
}
use cap_nodejs.JsMap.{JsMap, get, set}
use cap_nodejs.Effect.{Result, ok, thrown}
use cap_nodejs.Envelope.{own}

abbrev pub content_type : String
content_type = "content-type"

abbrev pub message_id_name : String
message_id_name = "cap-message-id"

-- `SqsAttribute`
pub record Attribute : Type 0 where
  pub data_type : Option String
  pub string_value : Option String

abbrev pub Attributes : Type 0
Attributes = JsMap Attribute

abbrev pub typed : String → String → Attribute
typed type value = record { data_type = some type; string_value = some value }

-- The type that a header's attribute has
unfoldable pub data_type_of : HeaderValue → String
data_type_of (numeric n) = "Number"
data_type_of (text s) = "String"
data_type_of (flag b) = "String"
data_type_of (instant t) = "String"

module _ (to_iso_string : Option ℕ → String) where
  -- `value instanceof Date ? value.toISOString() : String(value)`, of a valid date
  unfoldable pub string_value_of : HeaderValue → String
  string_value_of (text s) = s
  string_value_of (numeric n) = n
  string_value_of (flag b) = if b then "true" else "false"
  string_value_of (instant t) = to_iso_string t

  -- The loop of `encodeMessageAttributes`
  unfoldable pub encode_headers : Headers → Attributes → Attributes
  unfolding string_value_of data_type_of
  encode_headers [] attributes = attributes
  encode_headers ((name, value) ∷ hs) attributes = encode_headers hs (
      if str_eq name content_type
      then attributes
      else set name (typed (data_type_of value) (string_value_of value)) attributes)

  -- `encodeMessageAttributes`
  unfoldable pub encode_message_attributes : Option Headers → Option String → Attributes
  unfolding encode_headers
  encode_message_attributes headers message_id =
      let attributes =
        encode_headers (or_default headers [])
          ((content_type, typed "String" "application/json") ∷ []) in
      elim message_id [
        | none ↦ attributes
        | some id ↦
            if str_eq id "" then attributes else set message_id_name (typed "String" id) attributes
      ]

-- What `JSON.parse` returned, if it is a text, a number or a truth value
abbrev pub scalar : Value → Option HeaderValue
scalar (Value.string s) = some (text s)
scalar (Value.number n) = some (numeric n)
scalar (Value.boolean b) = some (flag b)
scalar _ = none

-- A decoded message, or why it is malformed
pub record Decoded : Type 0 where
  pub payload : Value
  pub headers : Option Headers
  pub message_id : Option String

pub data Malformed : Type 0 where
  wrong_content_type : Malformed
  invalid_json : Malformed

pub data Decoding : Type 0 where
  decoded : Decoded → Decoding
  malformed : Malformed → Decoding

-- `Object.keys(headers).length ? headers : undefined`
abbrev pub any_headers : Headers → Option Headers
any_headers [] = none
any_headers (h ∷ hs) = some (h ∷ hs)

abbrev pub text_of : Option Value → Option String
text_of (some (Value.string s)) = some s
text_of _ = none

abbrev pub fields_of : Option Value → Fields
fields_of (some (Value.object p fs)) = fs
fields_of _ = end

-- The attributes of a notification: `Type` and `Value` become `DataType` and `StringValue`.
abbrev pub convert : Fields → Attributes → Attributes
convert end attributes = attributes
convert (field name attr rest) attributes = convert rest (
    set name
      (record {
        data_type = text_of (own "Type" (fields_of (some attr)));
        string_value = text_of (own "Value" (fields_of (some attr)));
      })
      attributes)

-- `Object.keys(converted).length ? converted : rawAttributes`
abbrev pub or_raw : Attributes → Option Attributes → Option Attributes
or_raw [] raw = raw
or_raw (a ∷ converted) raw = some (a ∷ converted)

module _ (parse : String → Result Value) (number_of : String → Option String) where
  -- `decodeAttributeValue`; `number_of` is `Number(value)`, none for NaN.
  unfoldable pub decode_attribute_value : String → String → HeaderValue
  decode_attribute_value data_type value =
      if str_eq data_type "Number"
      then (elim (number_of value) [ none ↦ text value | some n ↦ numeric n ])
      else if str_eq data_type "String"
      then (elim (parse value) [
        | ok v ↦ or_default (scalar v) (text value)
        | thrown e ↦ text value
      ])
      else text value

  -- The loop of `decodeMessage`, with the headers and the message id so far
  unfoldable pub decode_attributes : Attributes → Headers → Option String → Headers × Option String
  decode_attributes [] hs id = (hs, id)
  decode_attributes ((name, a) ∷ rest) hs id =
      decode_attributes rest
        (if str_eq name content_type
          then hs
          else if str_eq name message_id_name
          then hs
          else elim a.string_value [
            | none ↦ hs
            | some s ↦ set name (decode_attribute_value (or_default a.data_type "String") s) hs
          ])
        (if str_eq name content_type
          then id
          else if str_eq name message_id_name
          then a.string_value
          else id)

  -- The notification's message and attributes, if what was parsed is a notification; one of its attributes has two
  -- texts.
  unfoldable pub notification_of : Value → Option Attributes → Option (String × Option Attributes)
  notification_of v raw =
      if opt_eq (text_of (own "Type" (fields_of (some v)))) "Notification"
      then (elim (text_of (own "Message" (fields_of (some v)))) [
        | none ↦ none
        | some message ↦ some (
          message,
          or_raw (convert (fields_of (own "MessageAttributes" (fields_of (some v)))) []) raw,
        )
      ])
      else none

  -- `unwrapSnsNotification`
  unfoldable pub unwrap_sns_notification : String → Option Attributes → String × Option Attributes
  unwrap_sns_notification body raw = elim (parse body) [
    | thrown e ↦ (body, raw)
    | ok v ↦ or_default (notification_of v raw) (body, raw)
  ]

  abbrev pub content_type_of : Option Attributes → String
  content_type_of attributes = elim (get content_type (or_default attributes [])) [
    | none ↦ "application/json"
    | some a ↦ or_default a.string_value "application/json"
  ]

  -- `decodeMessage`, after the notification is unwrapped
  unfoldable pub decode_unwrapped : String → Option Attributes → Decoding
  unfolding decode_attributes
  decode_unwrapped inner attributes =
      if str_eq (content_type_of attributes) "application/json"
      then (elim (parse inner) [
        | thrown e ↦ malformed invalid_json
        | ok payload ↦
            let (hs, id) = decode_attributes (or_default attributes []) [] none in
            decoded (record { payload = payload; headers = any_headers hs; message_id = id })
      ])
      else malformed wrong_content_type

  -- `decodeMessage`
  unfoldable pub decode_message : String → Option Attributes → Decoding
  decode_message body raw =
      let (inner, attributes) = unwrap_sns_notification body raw in
      decode_unwrapped inner attributes
