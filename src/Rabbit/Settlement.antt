-- ===== src/Rabbit/Settlement.antt =====
-- How deliveries end: what is acknowledged, what goes back to the queue, and what does not.
use cap_nodejs.Prelude.{
  String, Bool, true, false, Option, none, some, [], ◌∷◌, ◌≡◌, ◌≢◌, ◌⊎◌, inl, inr,
}
use cap_nodejs.JsValue.{Value, Thrown}
use cap_nodejs.JsMap.{JsMap}
use cap_nodejs.Effect.{Result, thrown}
use cap_nodejs.Rabbit.{ResolvedOptions, queue_name}
use cap_nodejs.Rabbit.Delivery.{
  Subscription, Message, malformed, acked, nacked, HandlerCall, Delivered, find_subscription,
  decode_payload,
}

module _ (parse : String → Result Value) (o : ResolvedOptions)
    (handler : HandlerCall → Option Thrown) (ack_error : Option Thrown) where
  -- How a delivery on a channel ends, told by what was found, decoded and answered
  data Ends (subs : JsMap Subscription) (group : String) (m : Message) (d : Delivered)
      : Type 0 where
    unknown :
        find_subscription m.routing_key group subs ≡ none
        → d.calls ≡ []
        → d.settlements ≡ nacked false ∷ []
        → d.rejected ≡ true
        → Ends subs group m d
    undecodable :
        (sub : Subscription) (reason : String)
        → find_subscription m.routing_key group subs ≡ some sub
        → decode_payload parse o m ≡ inr (malformed reason)
        → d.calls ≡ []
        → d.settlements ≡ nacked false ∷ []
        → d.rejected ≡ true
        → Ends subs group m d
    unnamed :
        (sub : Subscription) (v : Value) (e : Thrown)
        → find_subscription m.routing_key group subs ≡ some sub
        → decode_payload parse o m ≡ inl v
        → queue_name o group ≡ thrown e
        → d.calls ≡ []
        → d.settlements ≡ nacked o.requeue_on_handler_error ∷ []
        → d.rejected ≡ true
        → Ends subs group m d
    refused :
        (call : HandlerCall) (e : Thrown)
        → find_subscription m.routing_key group subs ≡ some call.subscription
        → decode_payload parse o m ≡ inl call.payload
        → handler call ≡ some e
        → d.calls ≡ call ∷ []
        → d.settlements ≡ nacked o.requeue_on_handler_error ∷ []
        → d.rejected ≡ true
        → Ends subs group m d
    handled :
        (call : HandlerCall)
        → find_subscription m.routing_key group subs ≡ some call.subscription
        → decode_payload parse o m ≡ inl call.payload
        → handler call ≡ none
        → ack_error ≡ none
        → d.calls ≡ call ∷ []
        → d.settlements ≡ acked ∷ []
        → d.rejected ≡ false
        → Ends subs group m d
    unacknowledged :
        (call : HandlerCall) (e : Thrown)
        → find_subscription m.routing_key group subs ≡ some call.subscription
        → decode_payload parse o m ≡ inl call.payload
        → handler call ≡ none
        → ack_error ≡ some e
        → d.calls ≡ call ∷ []
        → d.settlements ≡ nacked o.requeue_on_handler_error ∷ []
        → d.rejected ≡ true
        → Ends subs group m d

  -- The handler was called once, of the subscription that was found, with what was decoded, and it resolved.
  abbrev pub IsHandled : JsMap Subscription → String → Message → Delivered → Type 0
  IsHandled subs group m d =
      (call : HandlerCall) × (d.calls ≡ call ∷ [])
      × (find_subscription m.routing_key group subs ≡ some call.subscription)
      × (decode_payload parse o m ≡ inl call.payload)
      × (handler call ≡ none)

  -- A message that no handler can be called for, by its topic or by its content
  abbrev pub IsHopeless : JsMap Subscription → String → Message → Type 0
  IsHopeless subs group m =
      (find_subscription m.routing_key group subs ≡ none)
      ⊎ ((reason : String) × (decode_payload parse o m ≡ inr (malformed reason)))

  -- One answer to the channel: an acknowledgement, which it accepts, or a refusal
  abbrev pub Settled : JsMap Subscription → String → Message → Delivered → Type 0
  Settled subs group m d =
      ((d.settlements ≡ acked ∷ [])
        × (d.rejected ≡ false)
        × (ack_error ≡ none)
        × IsHandled subs group m d)
      ⊎ ((again : Bool) × (d.settlements ≡ nacked again ∷ [])
          × (d.rejected ≡ true)
          × (IsHandled subs group m d → ack_error ≢ none)
          × (IsHopeless subs group m → (again ≡ false) × (d.calls ≡ []))
          × ((IsHopeless subs group m → ⊥) → again ≡ o.requeue_on_handler_error))
