-- ===== src/Mikro.antt =====
-- The outbox storage on MikroORM, libs/cap-storage-mikro-orm/src/storage/mikro-publish-storage.ts. An entity is read
-- from a row with the columns of the Prisma storage, whose JSON texts the library parses. `platform` is the name of
-- the driver's platform in lower case, if it has one; the library and its database are parameters.
pub mod Runs
pub mod Claims
use cap_nodejs.Prelude.{
  ℕ, ◌+◌, String, Bool, true, false, not, ◌&&◌, ◌||◌, Option, none, some, List, [], ◌∷◌, leb,
  if◌then◌else◌, opt_eq, due_by, str_eq, is_some, map,
}
use cap_nodejs.JsValue.{Value, Headers, Thrown, normalize_error}
use cap_nodejs.Text.{includes}
use cap_nodejs.Effect.{Result, ok, thrown}
use cap_nodejs.Model.{
  PublishEvent, PublishStatus, OutboxSnapshot, OutboxStatusCounts, ClaimUnpublishedOptions,
  MarkPublishFailedOptions, RenewPublishClaimOptions, RequeueResult, requeued, not_found,
  not_eligible, ListPublishOptions, Page,
}
use cap_nodejs.Outbox.{is_processing, is_requeueable}
use cap_nodejs.Outbox.Admin.{is_status_pending, is_status_failed, no_events}
use cap_nodejs.Sql.{Assignment, Update}
use cap_nodejs.Prisma.{
  PublishRow, Table, set_status, set_locked_by, set_locked_until, set_next_retry_at,
  set_published_at, set_last_error, set_updated_at, set_retry_count, add_retry, find_row,
  has_row_id, claimed_row,
}

-- `usesMySqlAssignmentSemantics`
unfoldable pub uses_my_sql_assignment_semantics : Option String → Bool
uses_my_sql_assignment_semantics none = false
uses_my_sql_assignment_semantics (some platform) =
    includes "mysql" platform || includes "maria" platform

-- `ownershipWhere`
unfoldable pub ownership_filter : String → Option String → PublishRow → Bool
ownership_filter id none r = str_eq r.id id
ownership_filter id (some owner) r =
    str_eq r.id id && (is_processing r.status && opt_eq r.locked_by owner)

-- `claimableWhere`
unfoldable pub claimable_where : ℕ → PublishRow → Bool
unfolding is_status_pending is_status_failed
claimable_where now r =
    is_status_pending r.status
    || (is_status_failed r.status && (not (is_some r.next_retry_at) || due_by r.next_retry_at now)
        || is_processing r.status && due_by r.locked_until now)

-- `thresholdRetryCount`, compared with `maxRetries`
unfoldable pub retry_threshold : Bool → ℕ → PublishRow → Bool
retry_threshold left_to_right max r =
    leb max (if left_to_right then r.retry_count else r.retry_count + 1)

-- `coalesce(x, y)`
abbrev pub coalesce : Option ℕ → Option ℕ → Option ℕ
coalesce none y = y
coalesce (some x) y = some x

-- `mapPublishEntity`, of the entity that the library reads from a row
unfoldable pub map_publish_entity :
    (String → Value) → (String → Headers) → PublishRow → PublishEvent
map_publish_entity parse parse_headers r = record {
  id = r.id;
  topic = r.topic;
  occurred_at = r.created_at;
  payload = parse r.payload;
  headers = elim r.headers [ none ↦ none | some text ↦ some (parse_headers text) ];
  retry_count = r.retry_count;
  status = r.status;
  next_retry_at = r.next_retry_at;
  last_error = r.last_error;
  locked_by = r.locked_by;
  locked_until = r.locked_until;
  published_at = r.published_at;
}

-- `mapPublishToEntity` at the instant `now`, as the library writes it to a row
unfoldable pub map_publish_to_entity :
    (Value → String) → (Headers → String) → ℕ → PublishEvent → PublishRow
map_publish_to_entity stringify stringify_headers now e = record {
  id = e.id;
  topic = e.topic;
  payload = stringify e.payload;
  headers = elim e.headers [ none ↦ none | some h ↦ some (stringify_headers h) ];
  retry_count = e.retry_count;
  status = e.status;
  next_retry_at = e.next_retry_at;
  last_error = e.last_error;
  locked_by = e.locked_by;
  locked_until = e.locked_until;
  published_at = e.published_at;
  created_at = e.occurred_at;
  updated_at = now;
}

module _ (execute : Update PublishRow → Table → ℕ × Table) where
  -- `(await em.nativeUpdate(CapPublishEntity, condition, assignments)) > 0`, with the table after it
  abbrev pub update_where :
      (PublishRow → Bool) → List (Assignment PublishRow) → Table → Bool × Table
  update_where condition assignments t =
      let (affected, t') =
        execute (record { assignments = assignments; condition = condition }) t in
      (leb 1 affected, t')

  -- `markPublished`; `now` is its `new Date()`.
  unfoldable pub mark_published : String → ℕ → ℕ → Option String → Table → Bool × Table
  unfolding ownership_filter
  mark_published id at now expected = update_where (ownership_filter id expected) (
      set_status PublishStatus.published
      ∷ set_published_at (some at)
      ∷ set_locked_by none
      ∷ set_locked_until none
      ∷ set_next_retry_at none
      ∷ set_updated_at now
      ∷ [])

  -- `markPublishFailed`, by whether the assignments take effect from left to right
  unfoldable pub fail_by : Bool → String → Thrown → MarkPublishFailedOptions → Table → Bool × Table
  unfolding ownership_filter retry_threshold
  fail_by left_to_right id err o = update_where (ownership_filter id o.expected_locked_by) (
      add_retry
      ∷ (λ old r. record r {
        status =
            if retry_threshold left_to_right o.max_retries old
            then PublishStatus.dead_letter
            else PublishStatus.failed;
      })
      ∷ (λ old r. record r {
        next_retry_at =
            if retry_threshold left_to_right o.max_retries old
            then none
            else coalesce (some o.next_retry_at) old.next_retry_at;
      })
      ∷ set_last_error (some (normalize_error err))
      ∷ set_locked_by none
      ∷ set_locked_until none
      ∷ set_updated_at o.now
      ∷ [])

  -- `markPublishFailed`
  unfoldable pub mark_publish_failed :
      Option String → String → Thrown → MarkPublishFailedOptions → Table → Bool × Table
  unfolding fail_by uses_my_sql_assignment_semantics
  mark_publish_failed platform = fail_by (uses_my_sql_assignment_semantics platform)

  -- `renewPublishClaim`
  unfoldable pub renew_publish_claim : RenewPublishClaimOptions → Table → Bool × Table
  renew_publish_claim o =
      update_where
        (λ r.
          str_eq r.id o.id
          && (is_processing r.status
              && (opt_eq r.locked_by o.expected_locked_by
                  && (is_some r.locked_until && not (due_by r.locked_until o.now)))))
        (set_locked_until (some o.lock_until) ∷ set_updated_at o.now ∷ [])

  -- `releaseExpiredClaims`
  unfoldable pub release_expired_claims : ℕ → Table → Table
  release_expired_claims now t =
      (update_where (λ r. is_processing r.status && due_by r.locked_until now)
        (set_status PublishStatus.failed
          ∷ set_locked_by none
          ∷ set_locked_until none
          ∷ set_updated_at now
          ∷ [])
        t).1

  -- `requeuePublish`
  unfoldable pub requeue_publish : String → ℕ → Table → RequeueResult PublishStatus × Table
  requeue_publish id now t =
      let (changed, t') =
        update_where (λ r. str_eq r.id id && is_requeueable r.status)
          (set_status PublishStatus.failed
            ∷ set_retry_count 0
            ∷ set_last_error none
            ∷ set_next_retry_at (some now)
            ∷ set_locked_by none
            ∷ set_locked_until none
            ∷ set_published_at none
            ∷ set_updated_at now
            ∷ [])
          t in
      (
        if changed
            then record { id = id; outcome = requeued; previous_status = none }
            else elim (find_row id t') [
              | none ↦ record { id = id; outcome = not_found; previous_status = none }
              | some r ↦ record { id = id; outcome = not_eligible; previous_status = some r.status }
            ],
        t',
      )

-- `claimUnpublished`. `find` is the query of the transaction; `flush` writes the changed entities.
unfoldable pub claim_unpublished :
    (String → Value)
    → (String → Headers)
    → ((PublishRow → Bool) → ℕ → Table → List PublishRow)
    → (List PublishRow → Table → Table)
    → ClaimUnpublishedOptions
    → Table
    → List PublishEvent × Table
unfolding map_publish_entity claimable_where
claim_unpublished parse parse_headers find flush o t =
    let entities = map (claimed_row o) (find (claimable_where o.now) o.limit t) in
    (map (map_publish_entity parse parse_headers) entities, flush entities t)

-- `savePublish`; `insert` is `persistAndFlush`, with the table after it or the database's error.
unfoldable pub save_publish :
    (Value → String)
    → (Headers → String)
    → (PublishRow → Table → Result Table)
    → ℕ
    → PublishEvent
    → Table
    → Result String × Table
unfolding map_publish_to_entity
save_publish stringify stringify_headers insert now e t =
    elim (insert (map_publish_to_entity stringify stringify_headers now e) t) [
      | ok t' ↦ (ok e.id, t')
      | thrown err ↦ (thrown err, t)
    ]

-- `findPublishById`
unfoldable pub find_publish_by_id :
    (String → Value) → (String → Headers) → String → Table → Option PublishEvent
unfolding map_publish_entity
find_publish_by_id parse parse_headers id t = elim (find_row id t) [
  | none ↦ none
  | some r ↦ some (map_publish_entity parse parse_headers r)
]

-- A row of the query of `getPublishSnapshot`
pub record SnapshotRow : Type 0 where
  pub status : PublishStatus
  pub count : ℕ
  pub oldest_at : Option ℕ

-- `counts[row.status] = Number(row.count)`
unfoldable pub put_count : PublishStatus → ℕ → OutboxStatusCounts → OutboxStatusCounts
put_count PublishStatus.pending n c = record c { pending = n }
put_count PublishStatus.processing n c = record c { processing = n }
put_count PublishStatus.published n c = record c { published = n }
put_count PublishStatus.failed n c = record c { failed = n }
put_count PublishStatus.dead_letter n c = record c { dead_letter = n }

-- The body of the loop of `mapOutboxSnapshot`
unfoldable pub put_row : OutboxSnapshot → SnapshotRow → OutboxSnapshot
unfolding put_count is_status_pending is_status_failed
put_row s row = record {
  counts = put_count row.status row.count s.counts;
  oldest_pending_at = if is_status_pending row.status then row.oldest_at else s.oldest_pending_at;
  oldest_failed_at = if is_status_failed row.status then row.oldest_at else s.oldest_failed_at;
}

unfoldable pub put_rows : OutboxSnapshot → List SnapshotRow → OutboxSnapshot
put_rows s [] = s
put_rows s (row ∷ rows) = put_rows (put_row s row) rows

-- `mapOutboxSnapshot`
unfoldable pub map_outbox_snapshot : List SnapshotRow → OutboxSnapshot
map_outbox_snapshot = put_rows no_events

-- `getPublishSnapshot`; `grouped` is its SELECT with GROUP BY.
unfoldable pub get_publish_snapshot : (Table → List SnapshotRow) → Table → OutboxSnapshot
unfolding map_outbox_snapshot
get_publish_snapshot grouped t = map_outbox_snapshot (grouped t)

-- The filter of `listPublish`, at the instant `now`
unfoldable pub publish_list_where : ListPublishOptions → ℕ → PublishRow → Bool
unfolding claimable_where
publish_list_where o now r =
    (elim o.topic [ none ↦ true | some topic ↦ str_eq topic "" || str_eq r.topic topic ])
    && (if o.only_unpublished then claimable_where now r else true)

-- `listPublish`; `total` and `select` are the two results of `findAndCount`.
unfoldable pub list_publish :
    (String → Value)
    → (String → Headers)
    → ((PublishRow → Bool) → Table → ℕ)
    → ((PublishRow → Bool) → Option ℕ → Option ℕ → Table → List PublishRow)
    → ListPublishOptions
    → ℕ
    → Table
    → Page PublishEvent
unfolding map_publish_entity publish_list_where
list_publish parse parse_headers total select o now t = record {
  items =
      map (map_publish_entity parse parse_headers)
        (select (publish_list_where o now) o.limit o.offset t);
  total = total (publish_list_where o now) t;
}
