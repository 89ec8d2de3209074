-- ===== src/Inbox/Admin.antt =====
-- The read-only methods of the in-memory inbox storage: `getReceivedSnapshot` and `listReceived`.
use cap_nodejs.Prelude.{
  ℕ, ◌+◌, String, Bool, true, false, Option, none, some, List, [], ◌∷◌, length, keep, slice,
  if◌then◌else◌, or_default, str_eq, due_by, ◌&&◌,
}
use cap_nodejs.JsMap.{values}
use cap_nodejs.Model.{
  ReceivedEvent, ReceivedStatus, InboxStatusCounts, InboxSnapshot, ListReceivedOptions, Page,
}
use cap_nodejs.Outbox.Admin.{older}
use cap_nodejs.Inbox.{Inbox}

-- `counts[event.status] += 1`
unfoldable pub count_status : ReceivedStatus → InboxStatusCounts → InboxStatusCounts
count_status ReceivedStatus.pending c = record c { pending = c.pending + 1 }
count_status ReceivedStatus.processing c = record c { processing = c.processing + 1 }
count_status ReceivedStatus.processed c = record c { processed = c.processed + 1 }
count_status ReceivedStatus.failed c = record c { failed = c.failed + 1 }
count_status ReceivedStatus.dead_letter c = record c { dead_letter = c.dead_letter + 1 }

abbrev pub is_status_pending : ReceivedStatus → Bool
is_status_pending ReceivedStatus.pending = true
is_status_pending _ = false

abbrev pub is_status_failed : ReceivedStatus → Bool
is_status_failed ReceivedStatus.failed = true
is_status_failed _ = false

-- The body of the loop of `getReceivedSnapshot`
unfoldable pub snapshot_step : InboxSnapshot → ReceivedEvent → InboxSnapshot
unfolding count_status older
snapshot_step r e = record {
  counts = count_status e.status r.counts;
  oldest_pending_at =
      if is_status_pending e.status
      then older r.oldest_pending_at e.occurred_at
      else r.oldest_pending_at;
  oldest_failed_at =
      if is_status_failed e.status
      then older r.oldest_failed_at e.occurred_at
      else r.oldest_failed_at;
}

unfoldable pub snapshot_from : InboxSnapshot → List ReceivedEvent → InboxSnapshot
unfolding snapshot_step
snapshot_from r [] = r
snapshot_from r (e ∷ es) = snapshot_from (snapshot_step r e) es

abbrev pub no_events : InboxSnapshot
no_events = record {
  counts = record { pending = 0; processing = 0; processed = 0; failed = 0; dead_letter = 0 };
  oldest_pending_at = none;
  oldest_failed_at = none;
}

-- `getReceivedSnapshot`
unfoldable pub get_received_snapshot : Inbox → InboxSnapshot
unfolding snapshot_from
get_received_snapshot b = snapshot_from no_events (values b.store)

-- `if (options.topic)`: an empty text is no filter.
abbrev pub by_topic : Option String → List ReceivedEvent → List ReceivedEvent
by_topic none es = es
by_topic (some t) es = if str_eq t "" then es else keep (λ e. str_eq e.topic t) es

-- The events that `listReceived` pages through; `now` is its `Date.now()`.
unfoldable pub filtered : ListReceivedOptions → ℕ → Inbox → List ReceivedEvent
filtered o now b =
    let es = by_topic o.topic (values b.store) in
    if o.due then keep (λ e. is_status_failed e.status && due_by e.next_retry now) es else es

-- `listReceived`
unfoldable pub list_received : ListReceivedOptions → ℕ → Inbox → Page ReceivedEvent
unfolding filtered
list_received o now b =
    let es = filtered o now b in
    record {
      items = slice (or_default o.offset 0) (or_default o.limit (length es)) es;
      total = length es;
    }
