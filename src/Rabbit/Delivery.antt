-- ===== src/Rabbit/Delivery.antt =====
-- Deliveries to the RabbitMQ subscriber: `dispatchDelivery` for a message, with what it reads of the message,
-- libs/cap-transport-rabbitmq/src/rabbitmq-subscriber.ts. `JSON.parse`, the handlers and the answer of the
-- channel to an acknowledgement are parameters. (Session has what happens for a cancelled consumer.)
use cap_nodejs.Prelude.{
  String, Bool, true, false, not, ◌&&◌, Option, none, some, List, [], ◌∷◌, ◌⊎◌, if◌then◌else◌, join,
  str_eq, or_default, opt_eq, is_some, inl, inr,
}
use cap_nodejs.JsValue.{
  Value, Fields, field, end, HeaderValue, Headers, text, numeric, flag, instant, Thrown, error,
}
use cap_nodejs.JsMap.{JsMap, get, set, values}
use cap_nodejs.Envelope.{record_of}
use cap_nodejs.Effect.{Result, ok, thrown}
use cap_nodejs.Engine.Incoming.{Metadata}
use cap_nodejs.Rabbit.{ResolvedOptions, queue_name}
use cap_nodejs.Rabbit.Topics.{topic_matches}

-- `Subscription`, without its handler
pub record Subscription : Type 0 where
  pub topic : String
  pub group : String

-- `RabbitMqMessage`, the fields that are read
pub record Message : Type 0 where
  pub routing_key : String
  pub redelivered : Bool
  pub content_type : Option String
  pub content : String
  pub headers : Value
  pub correlation_id : Value
  pub message_id : Value

-- What is thrown while a message is handled: `RabbitMqMalformedMessageError`, or any other value
pub data Failure : Type 0 where
  malformed : String → Failure
  failed : Thrown → Failure

pub data Settlement : Type 0 where
  acked : Settlement
  nacked : Bool → Settlement

pub record HandlerCall : Type 0 where
  pub subscription : Subscription
  pub payload : Value
  pub headers : Option Headers
  pub metadata : Metadata

-- The effects of a delivery: handler calls, what the channel was told, and whether it ended with an error
pub record Delivered : Type 0 where
  pub calls : List HandlerCall
  pub settlements : List Settlement
  pub rejected : Bool

-- The condition of `findSubscription`
abbrev pub is_for : String → String → Subscription → Bool
is_for topic group sub = str_eq sub.group group && topic_matches sub.topic topic

abbrev pub first : (Subscription → Bool) → List Subscription → Option Subscription
first p [] = none
first p (x ∷ xs) = if p x then some x else first p xs

-- `findSubscription`
unfoldable pub find_subscription : String → String → JsMap Subscription → Option Subscription
find_subscription topic group m = first (is_for topic group) (values m)

-- `normalizeIdentifier`
unfoldable pub normalize_identifier : Value → Option String
normalize_identifier (Value.string s) = some s
normalize_identifier (Value.number n) = some n
normalize_identifier (Value.boolean b) = some (if b then "true" else "false")
normalize_identifier _ = none

-- A header value that the loop of `inboundHeaders` takes over
abbrev pub header_value : Value → Option HeaderValue
header_value (Value.string s) = some (text s)
header_value (Value.number n) = some (numeric n)
header_value (Value.boolean b) = some (flag b)
header_value (Value.date t) = some (instant t)
header_value _ = none

abbrev pub copy_headers : Fields → Headers → Headers
copy_headers end hs = hs
copy_headers (field k v fs) hs =
    copy_headers fs (elim (header_value v) [ none ↦ hs | some h ↦ set k h hs ])

-- `inboundHeaders`
unfoldable pub inbound_headers : Message → Option Headers
unfolding normalize_identifier
inbound_headers m =
    let copied = copy_headers (or_default (record_of m.headers) end) [] in
    let correlated : Headers = elim (normalize_identifier m.correlation_id) [
      | none ↦ copied
      | some id ↦
          if is_some (get "correlation-id" copied)
          then copied
          else set "correlation-id" (text id) copied
    ] in
    let all =
      if m.redelivered
      then set "x-cap-rabbitmq-redelivered" (flag true) correlated
      else correlated in
    elim all [ [] ↦ none | h ∷ hs ↦ some (h ∷ hs) ]

module _ (parse : String → Result Value) (o : ResolvedOptions) where
  -- `decodePayload`
  unfoldable pub decode_payload : Message → Value ⊎ Failure
  decode_payload m =
      if not (opt_eq m.content_type "application/json")
      then inr (
          malformed (
            join "Expected application/json but received "
              (or_default m.content_type "no content type")))
      else elim (parse m.content) [
        | ok v ↦ inl v
        | thrown (error e) ↦ inr (malformed (join "RabbitMQ message contains invalid JSON: " e))
        | thrown (Thrown.other e) ↦
            inr (malformed (join "RabbitMQ message contains invalid JSON: " e))
      ]

  -- `inboundMetadata`; an empty id gives no key.
  unfoldable pub inbound_metadata : Message → String → Metadata ⊎ Failure
  unfolding normalize_identifier queue_name
  inbound_metadata m group = elim (normalize_identifier m.message_id) [
    | none ↦ inl (record { message_id = none; dedupe_key = none })
    | some id ↦
        if str_eq id ""
        then inl (record { message_id = some id; dedupe_key = none })
        else elim (queue_name o group) [
          | thrown e ↦ inr (failed e)
          | ok queue ↦ inl (record {
            message_id = some id;
            dedupe_key = some (join o.exchange_name (join "/" (join queue (join "|" id))));
          })
        ]
  ]

  -- The `try` of `dispatchDelivery` up to the handler
  unfoldable pub handler_call : Subscription → Message → String → HandlerCall ⊎ Failure
  unfolding decode_payload inbound_headers inbound_metadata
  handler_call sub m group = elim (decode_payload m) [
    | inr e ↦ inr e
    | inl payload ↦ elim (inbound_metadata m group) [
      | inr e ↦ inr e
      | inl md ↦ inl (record {
        subscription = sub;
        payload = payload;
        headers = inbound_headers m;
        metadata = md;
      })
    ]
  ]

  -- Whether a failed delivery is given back to the queue
  abbrev pub requeues : Failure → Bool
  requeues (malformed e) = false
  requeues (failed e) = o.requeue_on_handler_error

  -- `dispatchDelivery` for a message; `open` tells whether there is a channel. `handler` is what the subscription's
  -- handler answers, `ack_error` what the channel throws when it is told to acknowledge.
  unfoldable pub dispatch_delivery :
      Bool
      → (HandlerCall → Option Thrown)
      → Option Thrown
      → JsMap Subscription
      → String
      → Message
      → Delivered
  unfolding find_subscription handler_call
  dispatch_delivery false handler ack_error subs group m = record {
    calls = [];
    settlements = [];
    rejected = false;
  }
  dispatch_delivery true handler ack_error subs group m =
      elim (find_subscription m.routing_key group subs) [
        | none ↦ record { calls = []; settlements = nacked false ∷ []; rejected = true }
        | some sub ↦ elim (handler_call sub m group) [
          | inr e ↦ record { calls = []; settlements = nacked (requeues e) ∷ []; rejected = true }
          | inl call ↦ elim (handler call) [
            | some e ↦ record {
              calls = call ∷ [];
              settlements = nacked (requeues (failed e)) ∷ [];
              rejected = true;
            }
            | none ↦ elim ack_error [
              | none ↦ record { calls = call ∷ []; settlements = acked ∷ []; rejected = false }
              | some e ↦ record {
                calls = call ∷ [];
                settlements = nacked (requeues (failed e)) ∷ [];
                rejected = true;
              }
            ]
          ]
        ]
      ]
