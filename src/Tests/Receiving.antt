-- ===== src/Tests/Receiving.antt =====
-- The in-memory inbox with a few events.
use cap_nodejs.Prelude.{String, true, false, none, some, List, ◌≡◌, refl, ◌≢◌, ◌⊎◌, leb, differ}
use cap_nodejs.JsValue.{Value}
use cap_nodejs.JsMap.{get}
use cap_nodejs.Model.{
  ReceivedEvent, ReceivedStatus, MarkReceivedFailedOptions, requeued, not_found, not_eligible,
}
use cap_nodejs.Inbox.{
  Inbox, empty, dedupe_identity, try_save_received, requeue_received, is_due, is_requeueable,
}
use cap_nodejs.Inbox.Dedupe.{IsInbox, empty-IsInbox, Step, Reach, Reach-IsInbox}

abbrev pub arrived : String → String → ReceivedEvent
arrived id key = record {
  id = id;
  topic = "orders";
  group = "billing";
  message_id = key;
  dedupe_key = key;
  occurred_at = 10;
  payload = Value.null;
  headers = none;
  retry_count = 0;
  status = ReceivedStatus.pending;
  is_processed = false;
  last_error = none;
  processed_at = none;
  next_retry = none;
}

abbrev pub one_arrived : Inbox
one_arrived = (try_save_received (arrived "1" "m") empty).1

pub one_arrived-Reach : Reach empty one_arrived
one_arrived-Reach =
    Reach.next (let r : Reach empty empty = Reach.here in r)
      (Step.save (arrived "1" "m") empty (differ "1" "" refl) refl)

pub one_arrived-IsInbox : IsInbox one_arrived
one_arrived-IsInbox = Reach-IsInbox one_arrived-Reach empty-IsInbox

pub one_arrived-found : get "1" one_arrived.store ≡ some (arrived "1" "m")
unfolding try_save_received dedupe_identity
one_arrived-found = refl

abbrev failing : MarkReceivedFailedOptions
failing = record { max_retries = 3; next_retry_at = 200; now = 110 }

abbrev SaveAgain : Type 0
SaveAgain =
    let (r, b') = try_save_received (arrived "2" "m") one_arrived in
    ((r.inserted ≡ false)
      × (b' ≡ one_arrived)
      × (get (dedupe_identity (arrived "2" "m")) one_arrived.dedupe ≡ some r.id)
      × (get r.id one_arrived.store ≡ r.event)
      × (r.event ≢ none))
    ⊎ ((r.inserted ≡ true)
        × (get (dedupe_identity (arrived "2" "m")) one_arrived.dedupe ≡ none)
        × (r.event ≡ some (arrived "2" "m"))
        × (get "2" b'.store ≡ some (arrived "2" "m"))
        × (get (dedupe_identity (arrived "2" "m")) b'.dedupe ≡ some "2"))

-- The same message arrives again, under another id.
abbrev arrived_again : Inbox
arrived_again = (try_save_received (arrived "2" "m") one_arrived).1

abbrev RequeueAnswer : Type 0
RequeueAnswer =
    let (r, b') = requeue_received "1" 300 one_arrived in
    ((get "1" one_arrived.store ≡ none) × (r.outcome ≡ not_found) × (b' ≡ one_arrived))
    ⊎ ((e : ReceivedEvent) × (get "1" one_arrived.store ≡ some e)
        × (is_requeueable e.status ≡ false)
        × (r.outcome ≡ not_eligible)
        × (r.previous_status ≡ some e.status)
        × (b' ≡ one_arrived))
    ⊎ ((e e' : ReceivedEvent) × (get "1" one_arrived.store ≡ some e)
        × (is_requeueable e.status ≡ true)
        × (r.outcome ≡ requeued)
        × (r.previous_status ≡ some e.status)
        × (get "1" b'.store ≡ some e')
        × (e'.retry_count ≡ 0)
        × (e'.last_error ≡ none)
        × (e'.is_processed ≡ false)
        × (is_due 300 none e' ≡ leb 300 300))
