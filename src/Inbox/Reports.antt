-- ===== src/Inbox/Reports.antt =====
-- What `getReceivedSnapshot` reports.
use cap_nodejs.Prelude.{
  ℕ, ◌+◌, min, Bool, true, false, Option, none, some, List, [], ◌∷◌, ◌≡◌, arith, length, keep,
}
use cap_nodejs.JsMap.{values}
use cap_nodejs.Model.{ReceivedEvent, ReceivedStatus, InboxSnapshot}
use cap_nodejs.Inbox.{Inbox}
use cap_nodejs.Inbox.Admin.{
  is_status_pending, is_status_failed, snapshot_step, snapshot_from, no_events,
  get_received_snapshot,
}

abbrev pub is_processing : ReceivedStatus → Bool
is_processing ReceivedStatus.processing = true
is_processing _ = false

abbrev pub is_processed : ReceivedStatus → Bool
is_processed ReceivedStatus.processed = true
is_processed _ = false

abbrev pub is_dead_letter : ReceivedStatus → Bool
is_dead_letter ReceivedStatus.dead_letter = true
is_dead_letter _ = false

-- How many events of a list have a status that passes the test.
abbrev pub count_if : (ReceivedStatus → Bool) → List ReceivedEvent → ℕ
count_if p es = length (keep (λ e. p e.status) es)

-- The earliest `occurred_at` in a list.
abbrev pub earliest : List ReceivedEvent → Option ℕ
earliest [] = none
earliest (e ∷ es) =
    some (elim (earliest es) [ none ↦ e.occurred_at | some t ↦ min e.occurred_at t ])

abbrev sooner : Option ℕ → Option ℕ → Option ℕ
sooner none b = b
sooner (some a) none = some a
sooner (some a) (some b) = some (min a b)

snapshot_from-counts :
    (r : InboxSnapshot) (es : List ReceivedEvent)
    → ((snapshot_from r es).counts.pending ≡ r.counts.pending + count_if is_status_pending es)
      × ((snapshot_from r es).counts.processing ≡ r.counts.processing + count_if is_processing es)
      × ((snapshot_from r es).counts.processed ≡ r.counts.processed + count_if is_processed es)
      × ((snapshot_from r es).counts.failed ≡ r.counts.failed + count_if is_status_failed es)
      × ((snapshot_from r es).counts.dead_letter
          ≡ r.counts.dead_letter + count_if is_dead_letter es)
unfolding snapshot_from
snapshot_from-counts r [] = omega arith
snapshot_from-counts r (e ∷ es) = ground (arith, snapshot_from-counts (snapshot_step r e) es)

snapshot_from-oldest :
    (r : InboxSnapshot) (es : List ReceivedEvent)
    → ((snapshot_from r es).oldest_pending_at
        ≡ sooner r.oldest_pending_at (earliest (keep (λ e. is_status_pending e.status) es)))
      × ((snapshot_from r es).oldest_failed_at
          ≡ sooner r.oldest_failed_at (earliest (keep (λ e. is_status_failed e.status) es)))
unfolding snapshot_from
snapshot_from-oldest r [] = (ground arith, ground arith)
snapshot_from-oldest r (e ∷ es) = ground (arith, snapshot_from-oldest (snapshot_step r e) es)

-- A snapshot counts the inbox events of each status, and its two instants are the earliest
-- `occurred_at` among the pending and among the failed events (none where there are none).
pub get_received_snapshot_lem :
    (b : Inbox)
    → let r = get_received_snapshot b in
      let es = values b.store in
      (r.counts.pending ≡ count_if is_status_pending es)
      × (r.counts.processing ≡ count_if is_processing es)
      × (r.counts.processed ≡ count_if is_processed es)
      × (r.counts.failed ≡ count_if is_status_failed es)
      × (r.counts.dead_letter ≡ count_if is_dead_letter es)
      × (r.oldest_pending_at ≡ earliest (keep (λ e. is_status_pending e.status) es))
      × (r.oldest_failed_at ≡ earliest (keep (λ e. is_status_failed e.status) es))
unfolding get_received_snapshot
get_received_snapshot_lem b = ground (
  arith,
  snapshot_from-counts no_events (values b.store),
  snapshot_from-oldest no_events (values b.store),
)
