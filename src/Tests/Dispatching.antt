-- ===== src/Tests/Dispatching.antt =====
-- An engine in a quiet environment.
use cap_nodejs.Prelude.{
  true, false, none, some, [], ◌∷◌, ◌++◌, ◌≡◌, refl, arith, All, map, length, differ,
}
use cap_nodejs.JsMap.{get, JsMap}
use cap_nodejs.Model.{ReceivedEvent, PublishEvent, PublishStatus, requeued}
use cap_nodejs.Envelope.{
  warn, Decoding, DecodedMessage, EnvelopeError, decode_cap_message, decode_unmarked,
  is_explicit_cap_envelope_kind, is_strict_legacy_envelope, has_json_payload, clone_headers,
  validate_explicit_envelope,
}
use cap_nodejs.Inbox.{empty, try_save_received, dedupe_identity}
use cap_nodejs.Subscriptions.{Subscription, unattached_entry}
use cap_nodejs.Engine.{Environment, Config, World, ok, thrown}
use cap_nodejs.Engine.Outgoing.{dispatch_outbox_batch, emit_claimed_outbox_event}
use cap_nodejs.Engine.Outgoing.Delivery as Sending
use cap_nodejs.Engine.Outgoing.Delivery.{emission_of}
use cap_nodejs.Engine.Outgoing.Frame.{emit_claimed_outbox_event-Keeps}
use cap_nodejs.Outbox.{published_at_time, failed_once, requeued_at, is_claimable}
use cap_nodejs.Engine.Administration.{requeue_outbox}
use cap_nodejs.Prelude.{◌⊎◌, ◌&&◌, not}
use cap_nodejs.JsValue.{Thrown}
use cap_nodejs.Engine.Outgoing.{publish}
use cap_nodejs.Engine.Outgoing.Publish.{new_event, refusal_of, publish_lem}
use cap_nodejs.Engine.Outgoing.Batch.{IsDone, claimed_of, dispatch_outbox_batch_delivers}
use cap_nodejs.Engine.Incoming.{Metadata, deliver, try_handle, retry_inbox_batch, envelope_error}
use cap_nodejs.Engine.Incoming.Handler.{IsCalm, handling_of, Settles, try_handle-Settles}
use cap_nodejs.Engine.Incoming.Delivery.{deliver_malformed, deliver_duplicate, incoming}
use cap_nodejs.Engine.Incoming.Batch.{due_batch, calls_for, retry_inbox_batch_lem}
use cap_nodejs.Tests.Publishing.{two_events, two_events-IsStore, waiting}
use cap_nodejs.Tests.Receiving.{one_arrived, one_arrived-IsInbox, one_arrived-found, arrived}
use cap_nodejs.Tests.Messages.{order, unversioned}

abbrev pub quiet : Environment
quiet = record {
  clock = λ n. 100;
  uuid = λ n. "u";
  random = λ n. 0;
  broker = λ n. none;
  handler = λ n. none;
  fault = λ n. none;
  heartbeats = λ n. 1;
  others_outbox = λ n s. s;
  others_inbox = λ n b. b;
  string_of = λ v. "";
  locale_le = λ a b. true;
}

abbrev pub config : Config
config = record {
  batch_size = 10;
  lease_ms = 30;
  inbox_fallback_window_ms = 50;
  max_retries = 3;
  max_inbox_retries = 3;
  instance_id = "i";
  disabled = false;
  has_diagnostics = true;
  has_renew = true;
}

abbrev world : World
world = record {
  moment = 0;
  outbox = two_events;
  inbox = one_arrived;
  emissions = [];
  handled = [];
  diagnostics = [];
}

quiet-sends : Sending.IsCalm quiet
quiet-sends = record { no_fault = λ n. refl; alone = λ n s. refl }

quiet-IsCalm : IsCalm quiet
quiet-IsCalm = record { no_fault = λ n. refl; alone = λ n b. refl }

dispatch_outbox_batch_delivers_example :
    let (r, v) = dispatch_outbox_batch quiet config world in
    let batch = (claimed_of quiet config world).0 in
    (r ≡ ok (length batch))
    × All (IsDone v.outbox) batch
    × (v.emissions ≡ [] ++ map emission_of batch)
dispatch_outbox_batch_delivers_example =
    dispatch_outbox_batch_delivers quiet config world quiet-sends (λ m n. omega arith) (λ n. refl)
      refl two_events-IsStore

emit_claimed_outbox_event-Keeps_example :
    get "2" (emit_claimed_outbox_event quiet config (waiting "1") "a" world).1.outbox
    ≡ get "2" two_events
emit_claimed_outbox_event-Keeps_example =
    emit_claimed_outbox_event-Keeps quiet config "2" (λ n s. refl) (waiting "1") "a"
      (differ "1" "2" refl) world

abbrev no_metadata : Metadata
no_metadata = record { message_id = none; dedupe_key = none }

abbrev keyed : Metadata
keyed = record { message_id = some "m"; dedupe_key = some "m" }

abbrev bad_version : EnvelopeError
bad_version = EnvelopeError.malformed "missing $cap.version"

deliver_malformed_example :
    deliver quiet config warn "orders" "billing" unversioned none no_metadata world
    ≡ (thrown (envelope_error quiet bad_version), world)
deliver_malformed_example =
    deliver_malformed quiet config warn "orders" "billing" unversioned none no_metadata world
      bad_version
      (unfold decode_cap_message is_explicit_cap_envelope_kind validate_explicit_envelope in refl)

abbrev plain : DecodedMessage
plain = record { payload = order; headers = none; envelope_version = none; legacy_envelope = false }

order-decodes : decode_cap_message order none warn ≡ Decoding.ok plain
unfolding decode_cap_message decode_unmarked is_explicit_cap_envelope_kind is_strict_legacy_envelope
    has_json_payload clone_headers
order-decodes = refl

deliver_duplicate_example :
    let (r, v) = deliver quiet config warn "orders" "billing" order none keyed world in
    (r ≡ ok tt) × (v.inbox ≡ one_arrived) × (v.handled ≡ [])
deliver_duplicate_example =
    deliver_duplicate quiet config quiet-IsCalm warn "orders" "billing" order none keyed plain "m"
      world order-decodes refl "1" one_arrived-IsInbox
      (unfold try_save_received dedupe_identity in refl)

abbrev fresh_world : World
fresh_world = record world { inbox = empty }

abbrev fresh : ReceivedEvent
fresh =
    incoming quiet config quiet-IsCalm warn "orders" "billing" order none keyed plain "m"
      fresh_world order-decodes refl

try_handle-Settles_example :
    let (r, v) = try_handle quiet config "orders" "billing" (arrived "1" "m") world in
    (rec' : ReceivedEvent) × (r ≡ ok rec')
    × (get "1" v.inbox.store ≡ some rec')
    × (v.handled ≡ [] ++ handling_of "orders" "billing" (arrived "1" "m") ∷ [])
    × Settles quiet config 0 (arrived "1" "m") rec'
try_handle-Settles_example =
    try_handle-Settles quiet config quiet-IsCalm "orders" "billing" (arrived "1" "m") world
      one_arrived-found

abbrev billing : JsMap Subscription
billing = ("orders|billing", unattached_entry "orders" "billing") ∷ []

retry_inbox_batch_lem_example :
    let (r, v) = retry_inbox_batch quiet config (λ _. billing) world in
    (r ≡ ok (length (due_batch quiet config quiet-IsCalm billing world)))
    × (v.handled ≡ [] ++ calls_for billing (due_batch quiet config quiet-IsCalm billing world))
retry_inbox_batch_lem_example = retry_inbox_batch_lem quiet config quiet-IsCalm billing world refl

abbrev NewOrder : Type 0
NewOrder =
    let (r, v) = publish quiet config "orders" order none false false world in
    let e = new_event quiet config quiet-sends "orders" order none 0 in
    (r ≡ ok tt)
    × (((false && not false ≡ true) × (get e.id v.outbox ≡ some e) × (v.emissions ≡ []))
        ⊎ ((false && not false ≡ false)
            × (quiet.broker 3 ≡ none)
            × (get e.id v.outbox ≡ some (published_at_time 100 e))
            × (v.emissions ≡ [] ++ emission_of e ∷ []))
        ⊎ ((err : Thrown) × (false && not false ≡ false)
            × (quiet.broker 3 ≡ some err)
            × (get e.id v.outbox ≡ some (failed_once err (refusal_of quiet config quiet-sends 3) e))
            × (v.emissions ≡ [])))

publish_lem_example : NewOrder
publish_lem_example = publish_lem quiet config quiet-sends "orders" order none false false world

abbrev dead : PublishEvent
dead = record (waiting "1") { status = PublishStatus.dead_letter; retry_count = 3 }

abbrev with_dead : World
with_dead = record {
  moment = 0;
  outbox = ("1", dead) ∷ [];
  inbox = empty;
  emissions = [];
  handled = [];
  diagnostics = [];
}

abbrev Requeued : Type 0
Requeued =
    let (r, v) = requeue_outbox quiet config "1" with_dead in
    (r
      ≡ ok (
        record { id = "1"; outcome = requeued; previous_status = some PublishStatus.dead_letter },
        some (record {
          id = "1";
          topic = "orders";
          previous_status = some PublishStatus.dead_letter;
          at = 100;
        }),
      ))
    × (get "1" v.outbox ≡ some (requeued_at 100 dead))
    × (is_claimable (requeued_at 100 dead) 100 ≡ true)
