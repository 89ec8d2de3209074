-- ===== src/Prisma/Reports.antt =====
-- `getPublishSnapshot` and `listPublish` of libs/cap-storage-prisma/src/prisma-publish-storage.ts, whose rows of a
-- snapshot have the columns of TypeORM's.
use cap_nodejs.Prelude.{
  ℕ, String, Bool, true, ◌&&◌, ◌||◌, not, is_some, none, some, List, [], ◌∷◌, if◌then◌else◌, due_by,
  str_eq, or_default, map,
}
use cap_nodejs.JsValue.{Value, Headers}
use cap_nodejs.Model.{
  PublishEvent, PublishStatus, OutboxStatusCounts, OutboxSnapshot, ListPublishOptions, Page,
}
use cap_nodejs.Outbox.{is_processing}
use cap_nodejs.Outbox.Admin.{is_status_pending, is_status_failed, no_events}
use cap_nodejs.TypeOrm.{SnapshotRow}
use cap_nodejs.Prisma.{PublishRow, Table, map_publish_row}

-- `counts[row.status] = Number(row.count)`
unfoldable pub set_count : PublishStatus → ℕ → OutboxStatusCounts → OutboxStatusCounts
set_count PublishStatus.pending n c = record c { pending = n }
set_count PublishStatus.processing n c = record c { processing = n }
set_count PublishStatus.published n c = record c { published = n }
set_count PublishStatus.failed n c = record c { failed = n }
set_count PublishStatus.dead_letter n c = record c { dead_letter = n }

-- The body of the loop of `mapOutboxSnapshot`
unfoldable pub add_row : OutboxSnapshot → SnapshotRow → OutboxSnapshot
unfolding set_count is_status_pending is_status_failed
add_row s row = record {
  counts = set_count row.status row.count s.counts;
  oldest_pending_at = if is_status_pending row.status then row.oldest_at else s.oldest_pending_at;
  oldest_failed_at = if is_status_failed row.status then row.oldest_at else s.oldest_failed_at;
}

unfoldable pub add_rows : OutboxSnapshot → List SnapshotRow → OutboxSnapshot
add_rows s [] = s
add_rows s (row ∷ rows) = add_rows (add_row s row) rows

-- `mapOutboxSnapshot`
unfoldable pub map_outbox_snapshot : List SnapshotRow → OutboxSnapshot
map_outbox_snapshot = add_rows no_events

-- `getPublishSnapshot`; `grouped` is its SELECT with GROUP BY.
unfoldable pub get_publish_snapshot : (Table → List SnapshotRow) → Table → OutboxSnapshot
unfolding map_outbox_snapshot
get_publish_snapshot grouped t = map_outbox_snapshot (grouped t)

-- `publishListFilters`, at the instant `now`
unfoldable pub publish_list_filters : ListPublishOptions → ℕ → PublishRow → Bool
unfolding is_status_pending is_status_failed
publish_list_filters o now r =
    (elim o.topic [ none ↦ true | some topic ↦ str_eq topic "" || str_eq r.topic topic ])
    && (if o.only_unpublished
        then is_status_pending r.status
          || ((is_status_failed r.status
                && (not (is_some r.next_retry_at) || due_by r.next_retry_at now))
              || (is_processing r.status && due_by r.locked_until now))
        else true)

abbrev pub default_limit : ℕ
default_limit = 2147483647

-- `listPublish`; `total` and `select` are its two SELECTs, the second with an order, a limit and an offset.
unfoldable pub list_publish :
    (String → Value)
    → (String → Headers)
    → ((PublishRow → Bool) → Table → ℕ)
    → ((PublishRow → Bool) → ℕ → ℕ → Table → List PublishRow)
    → ListPublishOptions
    → ℕ
    → Table
    → Page PublishEvent
unfolding map_publish_row publish_list_filters
list_publish parse parse_headers total select o now t = record {
  items = map (map_publish_row parse parse_headers) (
      select (publish_list_filters o now) (or_default o.limit default_limit) (or_default o.offset 0)
        t);
  total = total (publish_list_filters o now) t;
}
