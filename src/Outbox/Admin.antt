-- ===== src/Outbox/Admin.antt =====
-- The read-only methods of the in-memory outbox storage: `getPublishSnapshot` and `listPublish`.
use cap_nodejs.Prelude.{
  ℕ, ◌+◌, String, Bool, Option, none, some, List, [], ◌∷◌, length, keep, slice, ltb, if◌then◌else◌,
  or_default, str_eq,
}
use cap_nodejs.JsMap.{values}
use cap_nodejs.Model.{
  PublishEvent, PublishStatus, OutboxStatusCounts, OutboxSnapshot, ListPublishOptions, Page,
}
use cap_nodejs.Outbox.{Store, is_claimable}

-- `counts[event.status] += 1`
unfoldable pub count_status : PublishStatus → OutboxStatusCounts → OutboxStatusCounts
count_status PublishStatus.pending c = record c { pending = c.pending + 1 }
count_status PublishStatus.processing c = record c { processing = c.processing + 1 }
count_status PublishStatus.published c = record c { published = c.published + 1 }
count_status PublishStatus.failed c = record c { failed = c.failed + 1 }
count_status PublishStatus.dead_letter c = record c { dead_letter = c.dead_letter + 1 }

-- `if (!oldest || at < oldest) oldest = at`
unfoldable pub older : Option ℕ → ℕ → Option ℕ
older none at = some at
older (some oldest) at = if ltb at oldest then some at else some oldest

unfoldable pub is_status_pending : PublishStatus → Bool
is_status_pending PublishStatus.pending = Bool.true
is_status_pending _ = Bool.false

unfoldable pub is_status_failed : PublishStatus → Bool
is_status_failed PublishStatus.failed = Bool.true
is_status_failed _ = Bool.false

-- The body of the loop of `getPublishSnapshot`
unfoldable pub snapshot_step : OutboxSnapshot → PublishEvent → OutboxSnapshot
unfolding count_status older is_status_pending is_status_failed
snapshot_step r e = record {
  counts = count_status e.status r.counts;
  oldest_pending_at =
      if is_status_pending e.status
      then older r.oldest_pending_at e.occurred_at
      else r.oldest_pending_at;
  oldest_failed_at =
      if is_status_failed e.status
      then older r.oldest_failed_at e.occurred_at
      else r.oldest_failed_at;
}

unfoldable pub snapshot_from : OutboxSnapshot → List PublishEvent → OutboxSnapshot
unfolding snapshot_step
snapshot_from r [] = r
snapshot_from r (e ∷ es) = snapshot_from (snapshot_step r e) es

abbrev pub no_events : OutboxSnapshot
no_events = record {
  counts = record { pending = 0; processing = 0; published = 0; failed = 0; dead_letter = 0 };
  oldest_pending_at = none;
  oldest_failed_at = none;
}

-- `getPublishSnapshot`
unfoldable pub get_publish_snapshot : Store → OutboxSnapshot
unfolding snapshot_from
get_publish_snapshot s = snapshot_from no_events (values s)

-- `if (options.topic)`: an empty text is no filter.
abbrev pub by_topic : Option String → List PublishEvent → List PublishEvent
by_topic none es = es
by_topic (some t) es = if str_eq t "" then es else keep (λ e. str_eq e.topic t) es

-- The events that `listPublish` pages through; `now` is its `new Date()`.
unfoldable pub filtered : ListPublishOptions → ℕ → Store → List PublishEvent
unfolding is_claimable
filtered o now s =
    let es = by_topic o.topic (values s) in
    if o.only_unpublished then keep (λ e. is_claimable e now) es else es

-- `listPublish`
unfoldable pub list_publish : ListPublishOptions → ℕ → Store → Page PublishEvent
unfolding filtered
list_publish o now s =
    let es = filtered o now s in
    record {
      items = slice (or_default o.offset 0) (or_default o.limit (length es)) es;
      total = length es;
    }
