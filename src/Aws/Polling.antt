-- ===== src/Aws/Polling.antt =====
-- A batch of the polling loop of `startPolling`, libs/cap-transport-aws-sns-sqs/src/aws-sqs-subscriber.ts: its messages,
-- one after the other. The handler, the queue and the moment at which the subscriber is stopped are parameters.
pub mod Prefix
use cap_nodejs.Prelude.{
  ℕ, String, Bool, true, false, Option, none, some, List, [], ◌∷◌, if◌then◌else◌, str_eq,
  or_default, join, length,
}
use cap_nodejs.JsValue.{Value, Headers, Thrown}
use cap_nodejs.Effect.{Result}
use cap_nodejs.Engine.Incoming.{Metadata}
use cap_nodejs.Aws.{Attributes, Decoding, decoded, malformed, decode_message}

-- A received message
pub record SqsMessage : Type 0 where
  pub id : Option String
  pub receipt_handle : Option String
  pub body : Option String
  pub attributes : Option Attributes

-- What a handler rejects with: `AwsSqsMalformedMessageError`, or any other value
pub data Rejection : Type 0 where
  malformed_error : Rejection
  failed : Thrown → Rejection

-- The arguments of a handler
pub record HandlerCall : Type 0 where
  pub payload : Value
  pub headers : Option Headers
  pub metadata : Metadata

-- `resolveSubscribeMetadata`
unfoldable pub resolve_subscribe_metadata : String → String → String → Metadata
resolve_subscribe_metadata topic group id = record {
  message_id = some id;
  dedupe_key = some (join topic (join "/" (join group (join "|" id))));
}

-- What becomes of a message: it has no receipt handle; it is deleted, after a handler call if it could be decoded; or
-- its handler rejects.
pub data Fate : Type 0 where
  skipped : Fate
  deleted : Option HandlerCall → String → Fate
  rejected : HandlerCall → Fate

-- How a batch ends: after its last message, by a stop, or by an error
pub data Ending : Type 0 where
  completed stopped threw : Ending

-- The effects of a batch: the handler calls, the requests to delete a receipt handle, and its end
pub record Batch : Type 0 where
  pub calls : List HandlerCall
  pub deletes : List String
  pub ending : Ending

-- `if (!message.ReceiptHandle)`
abbrev pub given : Option String → Option String
given none = none
given (some s) = if str_eq s "" then none else some s

abbrev pub called : Option HandlerCall → List HandlerCall → List HandlerCall
called none calls = calls
called (some call) calls = call ∷ calls

module _ (parse : String → Result Value) (number_of : String → Option String)
    (handler : HandlerCall → Option Rejection) (topic group : String) where
  abbrev pub call_for : SqsMessage → Value → Option Headers → Option String → HandlerCall
  call_for m payload headers id = record {
    payload = payload;
    headers = headers;
    metadata = resolve_subscribe_metadata topic group (or_default id (or_default m.id "unknown"));
  }

  -- The `try` around the handler, and its `catch`
  unfoldable pub fate : SqsMessage → Fate
  unfolding resolve_subscribe_metadata
  fate m = elim (given m.receipt_handle) [
    | none ↦ skipped
    | some receipt ↦ elim (decode_message parse number_of (or_default m.body "") m.attributes) [
      | malformed why ↦ deleted none receipt
      | decoded d ↦
          let call = call_for m d.payload d.headers d.message_id in
          elim (handler call) [
            | none ↦ deleted (some call) receipt
            | some malformed_error ↦ deleted (some call) receipt
            | some (failed e) ↦ rejected call
          ]
    ]
  ]

  -- The loop over the messages. The handlers are cleared only after a stop, so that the subscription has its handler
  -- wherever the loop asks for it. `is_stopped` is asked with the number of
  -- messages left; `delete_error` is what a deletion rejects with.
  unfoldable pub poll_messages : (ℕ → Bool) → (String → Option Thrown) → List SqsMessage → Batch
  poll_messages is_stopped delete_error [] = record { calls = []; deletes = []; ending = completed }
  poll_messages is_stopped delete_error (m ∷ ms) =
      let rest = poll_messages is_stopped delete_error ms in
      if is_stopped (length (m ∷ ms))
      then record { calls = []; deletes = []; ending = stopped }
      else elim (fate m) [
        | skipped ↦ rest
        | rejected call ↦ record { calls = call ∷ []; deletes = []; ending = threw }
        | deleted call receipt ↦ elim (delete_error receipt) [
          | some e ↦ record { calls = called call []; deletes = receipt ∷ []; ending = threw }
          | none ↦ record {
            calls = called call rest.calls;
            deletes = receipt ∷ rest.deletes;
            ending = rest.ending;
          }
        ]
      ]
