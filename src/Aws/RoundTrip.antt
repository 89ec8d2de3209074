-- ===== src/Aws/RoundTrip.antt =====
-- The round trip of a message's payload, headers and id through a notification.
use cap_nodejs.Prelude.{ℕ, String, true, false, Option, none, some, [], ◌∷◌, ◌≡◌, refl, ap, str_eq}
use cap_nodejs.JsValue.{Value, Fields, Headers}
use cap_nodejs.JsMap.Entries.{Keys}
use cap_nodejs.Effect.{Result, ok}
use cap_nodejs.Envelope.{own}
use cap_nodejs.Aws.{
  Attribute, Attributes, encode_message_attributes, convert, notification_of, decode_unwrapped,
  unwrap_sns_notification, any_headers, decode_message, decoded,
}
use cap_nodejs.Aws.Attributes.{
  with_id, all_attributes, content_entry, attribute_fields, encoded_lem, converted,
}
use cap_nodejs.Aws.Arrival.{arrived_headers, ParsesFlags, AllSendable, decoded_attributes}

module _ (to_iso_string : Option ℕ → String) (parse : String → Result Value)
    (number_of : String → Option String) where
  -- The JSON text of a notification of the topic's service, with a message and its attributes
  abbrev pub Notifies : String → String → Attributes → Type 0
  Notifies notification message attributes =
      (fs : Fields) × (parse notification ≡ ok (Value.object true fs))
      × (own "Type" fs ≡ some (Value.string "Notification"))
      × (own "Message" fs ≡ some (Value.string message))
      × (own "MessageAttributes" fs ≡ some (Value.object true (attribute_fields attributes)))

  notified :
      (fs : Fields) (encoded : String) (a : String × Attribute) (m : Attributes)
      → own "Type" fs ≡ some (Value.string "Notification")
      → own "Message" fs ≡ some (Value.string encoded)
      → own "MessageAttributes" fs ≡ some (Value.object true (attribute_fields (a ∷ m)))
      → convert (attribute_fields (a ∷ m)) [] ≡ (a ∷ m)
      → notification_of parse number_of (Value.object true fs) none ≡ some (encoded, some (a ∷ m))
  unfolding notification_of
  notified fs encoded a m type message attrs same = rw (type, message, attrs, same) refl

  unwrapped :
      (notification encoded : String) (a : String × Attribute) (m : Attributes)
      → Notifies notification encoded (a ∷ m)
      → convert (attribute_fields (a ∷ m)) [] ≡ (a ∷ m)
      → unwrap_sns_notification parse number_of notification none ≡ (encoded, some (a ∷ m))
  unfolding unwrap_sns_notification
  unwrapped notification encoded a m (fs, reads, type, message, attrs) same =
      rw (reads, unwrap_sns_notification)
        (rw (notified fs encoded a m type message attrs same) refl)

  decode_unwrapped_lem :
      (encoded id : String) (payload : Value) (hs : Headers)
      → parse encoded ≡ ok payload
      → Keys hs
      → ParsesFlags parse
      → AllSendable to_iso_string parse number_of hs
      → decode_unwrapped parse number_of encoded (some (all_attributes to_iso_string hs id))
        ≡ decoded (record {
          payload = payload;
          headers = any_headers (arrived_headers to_iso_string hs);
          message_id = some id;
        })
  unfolding decode_unwrapped
  decode_unwrapped_lem encoded id payload hs parses keys flags sendable =
      rw (parses, decode_unwrapped)
        (ap
          (λ r. decoded (record { payload = payload; headers = any_headers r.0; message_id = r.1 }))
          (decoded_attributes to_iso_string parse number_of hs id keys flags sendable))

  -- A message that is published with headers of distinct names and an id that is not empty, and is delivered in a
  -- notification, is decoded to its payload, its id, and its headers, in their order, less those that are named
  -- `cap-message-id` or `content-type`, which the transport keeps for itself. A text, a number and a truth value
  -- arrive as they were, and an instant as its ISO text. The conditions: the message's JSON is parsed to the
  -- payload; the text of no text header and no instant is JSON of a text, a number or a truth value; `Number` reads
  -- a number's text back; and `JSON.parse` reads `true` and `false` as the truth values.
  pub decode_message-encode :
      (notification encoded id : String) (payload : Value) (hs : Headers)
      → Notifies notification encoded (encode_message_attributes to_iso_string (some hs) (some id))
      → parse encoded ≡ ok payload
      → str_eq id "" ≡ false
      → Keys hs
      → ParsesFlags parse
      → AllSendable to_iso_string parse number_of hs
      → decode_message parse number_of notification none
        ≡ decoded (record {
          payload = payload;
          headers = any_headers (arrived_headers to_iso_string hs);
          message_id = some id;
        })
  unfolding decode_message
  decode_message-encode notification encoded id payload hs notifies parses given keys flags
        sendable =
      let whole = encoded_lem to_iso_string hs id keys given in
      rw
        (unwrapped notification encoded content_entry (with_id to_iso_string id hs)
          (rw whole at notifies) (converted to_iso_string hs id keys))
        (decode_unwrapped_lem encoded id payload hs parses keys flags sendable)
