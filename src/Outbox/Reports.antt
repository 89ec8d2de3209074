-- ===== src/Outbox/Reports.antt =====
-- What `getPublishSnapshot` and `listPublish` report.
use cap_nodejs.Prelude.{
  ℕ, ◌+◌, min, Bool, true, false, Option, none, some, List, [], ◌∷◌, ◌++◌, ◌≡◌, refl, arith, length,
  keep, take-add, drop-drop, drop,
}
use cap_nodejs.JsMap.{values}
use cap_nodejs.Model.{PublishEvent, PublishStatus, OutboxSnapshot, ListPublishOptions}
use cap_nodejs.Outbox.{Store, is_processing, is_dead_letter}
use cap_nodejs.Outbox.Admin.{
  is_status_pending, is_status_failed, snapshot_step, snapshot_from, no_events,
  get_publish_snapshot, filtered, list_publish,
}

abbrev pub is_published : PublishStatus → Bool
is_published PublishStatus.published = true
is_published _ = false

-- How many events of a list have a status that passes the test.
abbrev pub count_if : (PublishStatus → Bool) → List PublishEvent → ℕ
count_if p es = length (keep (λ e. p e.status) es)

-- The earliest `occurred_at` in a list.
abbrev pub earliest : List PublishEvent → Option ℕ
earliest [] = none
earliest (e ∷ es) =
    some (elim (earliest es) [ none ↦ e.occurred_at | some t ↦ min e.occurred_at t ])

abbrev sooner : Option ℕ → Option ℕ → Option ℕ
sooner none b = b
sooner (some a) none = some a
sooner (some a) (some b) = some (min a b)

snapshot_from-pending :
    (r : OutboxSnapshot) (es : List PublishEvent)
    → ((snapshot_from r es).counts.pending ≡ r.counts.pending + count_if is_status_pending es)
      × ((snapshot_from r es).counts.processing ≡ r.counts.processing + count_if is_processing es)
      × ((snapshot_from r es).counts.published ≡ r.counts.published + count_if is_published es)
      × ((snapshot_from r es).counts.failed ≡ r.counts.failed + count_if is_status_failed es)
      × ((snapshot_from r es).counts.dead_letter
          ≡ r.counts.dead_letter + count_if is_dead_letter es)
unfolding snapshot_from
snapshot_from-pending r [] = omega arith
snapshot_from-pending r (e ∷ es) = ground (arith, snapshot_from-pending (snapshot_step r e) es)

snapshot_from-oldest :
    (r : OutboxSnapshot) (es : List PublishEvent)
    → ((snapshot_from r es).oldest_pending_at
        ≡ sooner r.oldest_pending_at (earliest (keep (λ e. is_status_pending e.status) es)))
      × ((snapshot_from r es).oldest_failed_at
          ≡ sooner r.oldest_failed_at (earliest (keep (λ e. is_status_failed e.status) es)))
unfolding snapshot_from
snapshot_from-oldest r [] = (ground arith, ground arith)
snapshot_from-oldest r (e ∷ es) = ground (arith, snapshot_from-oldest (snapshot_step r e) es)

-- A snapshot counts the events of each status, and its two instants are the earliest `occurred_at` among the
-- pending and among the failed events (none where there are none).
pub get_publish_snapshot_lem :
    (s : Store)
    → let r = get_publish_snapshot s in
      (r.counts.pending ≡ count_if is_status_pending (values s))
      × (r.counts.processing ≡ count_if is_processing (values s))
      × (r.counts.published ≡ count_if is_published (values s))
      × (r.counts.failed ≡ count_if is_status_failed (values s))
      × (r.counts.dead_letter ≡ count_if is_dead_letter (values s))
      × (r.oldest_pending_at ≡ earliest (keep (λ e. is_status_pending e.status) (values s)))
      × (r.oldest_failed_at ≡ earliest (keep (λ e. is_status_failed e.status) (values s)))
unfolding get_publish_snapshot
get_publish_snapshot_lem s =
    ground
      (arith, snapshot_from-pending no_events (values s), snapshot_from-oldest no_events (values s))

abbrev pub page : ListPublishOptions → ℕ → ℕ → ListPublishOptions
page o offset limit = record o { offset = some offset; limit = some limit }

-- Two adjacent pages are the page of both lengths: paging neither repeats nor skips an event, and every
-- page reports the same total.
pub list_publish-append :
    (o : ListPublishOptions) (now p m n : ℕ) (s : Store)
    → ((list_publish (page o p m) now s).items ++ (list_publish (page o (p + m) n) now s).items
        ≡ (list_publish (page o p (m + n)) now s).items)
      × ((list_publish (page o p m) now s).total ≡ (list_publish (page o (p + m) n) now s).total)
unfolding list_publish filtered
list_publish-append o now p m n s =
    let es = filtered o now s in (rw (← drop-drop p m es) (take-add m n (drop p es)), refl)
