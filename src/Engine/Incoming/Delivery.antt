-- ===== src/Engine/Incoming/Delivery.antt =====
-- Deliveries: the consume callback of cap-engine.ts with `persistReceived`, over the in-memory inbox.
use cap_nodejs.Prelude.{suc, String, false, Option, some, ◌≡◌, refl, arith, eq_iff}
use cap_nodejs.JsValue.{Value, Headers}
use cap_nodejs.JsMap.{get}
use cap_nodejs.Model.{ReceivedEvent}
use cap_nodejs.Envelope.{Decoding, LegacyMode, DecodedMessage, EnvelopeError, decode_cap_message}
use cap_nodejs.Inbox.{dedupe_identity, try_save_received}
use cap_nodejs.Inbox.Dedupe.{IsInbox}
use cap_nodejs.Engine.{Environment, Config, World, ok, thrown}
use cap_nodejs.Engine.Incoming.{
  Metadata, persist_received, deliver, received_event, known_message_id, envelope_error,
}
use cap_nodejs.Engine.Incoming.Handler.{IsCalm}

-- A message that cannot be decoded is refused with the decoder's error: nothing is stored, no handler is called.
pub deliver_malformed :
    (env : Environment) (c : Config) (mode : LegacyMode) (topic group : String) (msg : Value)
    (headers : Option Headers) (md : Metadata) (w : World) (e : EnvelopeError)
    → decode_cap_message msg headers mode ≡ Decoding.err e
    → deliver env c mode topic group msg headers md w ≡ (thrown (envelope_error env e), w)
unfolding deliver persist_received
deliver_malformed env c mode topic group msg headers md w e bad = ground arith

module _ (env : Environment) (c : Config) (calm : IsCalm env) (mode : LegacyMode)
    (topic group : String) (msg : Value) (headers : Option Headers) (md : Metadata)
    (decoded : DecodedMessage) (message_id : String) (w : World)
    (decodes : decode_cap_message msg headers mode ≡ Decoding.ok decoded)
    (known : known_message_id env md decoded.headers ≡ some message_id) where
  -- The event that this delivery would store
  abbrev pub incoming : ReceivedEvent
  incoming =
      received_event env topic group md decoded message_id (env.uuid w.moment)
        (env.clock (suc w.moment))

  -- The world after the attempt to store it
  abbrev pub after_save : World
  after_save = record w {
    moment = suc (suc (suc w.moment));
    inbox = (try_save_received incoming w.inbox).1;
  }

  persist_received_lem :
      persist_received env mode topic group msg headers md w
      ≡ (ok (try_save_received incoming w.inbox).0, after_save)
  unfolding persist_received
  persist_received_lem =
      ground (arith, calm.no_fault (suc (suc w.moment)), calm.alone (suc (suc w.moment)) w.inbox)

  deliver_stops :
      (try_save_received incoming w.inbox).0.inserted ≡ false
      → deliver env c mode topic group msg headers md w ≡ (ok tt, after_save)
  unfolding deliver
  deliver_stops old = ground (arith, persist_received_lem)

  -- When no storage call rejects, no other process writes to the inbox, and its two maps agree: a message
  -- that decodes, whose message id is in the metadata or the headers, and whose identity is known, is a
  -- duplicate. The callback resolves, and neither the inbox nor the list of handler calls changes.
  pub deliver_duplicate :
      (id : String)
      → IsInbox w.inbox
      → get (dedupe_identity incoming) w.inbox.dedupe ≡ some id
      → let (r, v) = deliver env c mode topic group msg headers md w in
        (r ≡ ok tt) × (v.inbox ≡ w.inbox) × (v.handled ≡ w.handled)
  unfolding try_save_received
  deliver_duplicate id h seen =
      let (e, there, same) = h.leads (dedupe_identity incoming) id seen in
      let full = h.named id e there in
      let old : (try_save_received incoming w.inbox).0.inserted ≡ false =
        ground (arith, eq_iff id "", full) in
      let kept : (try_save_received incoming w.inbox).1 ≡ w.inbox =
        ground (arith, eq_iff id "", full) in
      rw (deliver_stops old) (refl, kept, refl)
