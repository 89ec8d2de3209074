-- ===== src/Knex.antt =====
-- The outbox storage on Knex, libs/cap-storage-knex/src/knex-publish-storage.ts, whose rows have the columns of the
-- Prisma storage. `client` is the name of the database client in lower case; the database is a parameter.
pub mod Runs
pub mod Reports
use cap_nodejs.Prelude.{
  ℕ, ◌+◌, String, Bool, true, false, not, ◌&&◌, ◌||◌, Option, none, some, List, [], ◌∷◌, leb,
  if◌then◌else◌, opt_eq, due_by, str_eq, is_some, map,
}
use cap_nodejs.JsValue.{Value, Headers, Thrown, normalize_error}
use cap_nodejs.Text.{includes}
use cap_nodejs.Effect.{Result, ok, thrown}
use cap_nodejs.Model.{
  PublishEvent, PublishStatus, ClaimUnpublishedOptions, MarkPublishFailedOptions,
  RenewPublishClaimOptions, RequeueResult, requeued, not_found, not_eligible,
}
use cap_nodejs.Outbox.{is_processing, is_requeueable}
use cap_nodejs.Outbox.Admin.{is_status_pending, is_status_failed}
use cap_nodejs.Sql.{Assignment, Update}
use cap_nodejs.Prisma.{
  PublishRow, Table, set_status, set_locked_by, set_locked_until, set_next_retry_at,
  set_published_at, set_last_error, set_updated_at, set_retry_count, add_retry, find_row,
  has_row_id, claimed_row,
}

-- `usesMySqlAssignmentSemantics`
unfoldable pub uses_my_sql_assignment_semantics : String → Bool
uses_my_sql_assignment_semantics client = includes "mysql" client || includes "maria" client

-- `applyOwnershipWhere`
unfoldable pub apply_ownership_where : Option String → PublishRow → Bool
apply_ownership_where none r = true
apply_ownership_where (some owner) r = is_processing r.status && opt_eq r.locked_by owner

-- `applyClaimableWhere`
unfoldable pub apply_claimable_where : ℕ → PublishRow → Bool
unfolding is_status_pending is_status_failed
apply_claimable_where now r =
    is_status_pending r.status
    || (is_status_failed r.status && (not (is_some r.next_retry_at) || due_by r.next_retry_at now)
        || is_processing r.status && due_by r.locked_until now)

-- `?? >= ?` for a client with MySQL's assignments, else `?? + 1 >= ?`
unfoldable pub retry_threshold : Bool → ℕ → PublishRow → Bool
retry_threshold left_to_right max r =
    leb max (if left_to_right then r.retry_count else r.retry_count + 1)

-- `mapPublishRow`
unfoldable pub map_publish_row : (String → Value) → (String → Headers) → PublishRow → PublishEvent
map_publish_row parse parse_headers r = record {
  id = r.id;
  topic = r.topic;
  occurred_at = r.created_at;
  payload = parse r.payload;
  headers = elim r.headers [ none ↦ none | some text ↦ some (parse_headers text) ];
  retry_count = r.retry_count;
  status = r.status;
  next_retry_at = r.next_retry_at;
  last_error = r.last_error;
  locked_by = r.locked_by;
  locked_until = r.locked_until;
  published_at = r.published_at;
}

-- `mapPublishToRow`, at the instant `now`
unfoldable pub map_publish_to_row :
    (Value → String) → (Headers → String) → ℕ → PublishEvent → PublishRow
map_publish_to_row stringify stringify_headers now e = record {
  id = e.id;
  topic = e.topic;
  payload = stringify e.payload;
  headers = elim e.headers [ none ↦ none | some h ↦ some (stringify_headers h) ];
  retry_count = e.retry_count;
  status = e.status;
  next_retry_at = e.next_retry_at;
  last_error = e.last_error;
  locked_by = e.locked_by;
  locked_until = e.locked_until;
  published_at = e.published_at;
  created_at = e.occurred_at;
  updated_at = now;
}

module _ (execute : Update PublishRow → Table → ℕ × Table) where
  -- `Number(await query.where(condition).update(assignments)) > 0`, with the table after it
  abbrev pub update_where :
      (PublishRow → Bool) → List (Assignment PublishRow) → Table → Bool × Table
  update_where condition assignments t =
      let (affected, t') =
        execute (record { assignments = assignments; condition = condition }) t in
      (leb 1 affected, t')

  -- `markPublished`; `now` is its `new Date()`.
  unfoldable pub mark_published : String → ℕ → ℕ → Option String → Table → Bool × Table
  unfolding apply_ownership_where
  mark_published id at now expected =
      update_where (λ r. str_eq r.id id && apply_ownership_where expected r)
        (set_status PublishStatus.published
          ∷ set_published_at (some at)
          ∷ set_locked_by none
          ∷ set_locked_until none
          ∷ set_next_retry_at none
          ∷ set_updated_at now
          ∷ [])

  -- `markPublishFailed`, by whether the assignments take effect from left to right
  unfoldable pub fail_by : Bool → String → Thrown → MarkPublishFailedOptions → Table → Bool × Table
  unfolding apply_ownership_where retry_threshold
  fail_by left_to_right id err o =
      update_where (λ r. str_eq r.id id && apply_ownership_where o.expected_locked_by r)
        (add_retry
          ∷ (λ old r. record r {
            status =
                if retry_threshold left_to_right o.max_retries old
                then PublishStatus.dead_letter
                else PublishStatus.failed;
          })
          ∷ (λ old r. record r {
            next_retry_at =
                if retry_threshold left_to_right o.max_retries old
                then none
                else some o.next_retry_at;
          })
          ∷ set_last_error (some (normalize_error err))
          ∷ set_locked_by none
          ∷ set_locked_until none
          ∷ set_updated_at o.now
          ∷ [])

  -- `markPublishFailed`
  unfoldable pub mark_publish_failed :
      String → String → Thrown → MarkPublishFailedOptions → Table → Bool × Table
  unfolding fail_by uses_my_sql_assignment_semantics
  mark_publish_failed client = fail_by (uses_my_sql_assignment_semantics client)

  -- `renewPublishClaim`
  unfoldable pub renew_publish_claim : RenewPublishClaimOptions → Table → Bool × Table
  renew_publish_claim o =
      update_where
        (λ r.
          str_eq r.id o.id
          && (is_processing r.status
              && (opt_eq r.locked_by o.expected_locked_by
                  && (is_some r.locked_until && not (due_by r.locked_until o.now)))))
        (set_locked_until (some o.lock_until) ∷ set_updated_at o.now ∷ [])

  -- `releaseExpiredClaims`
  unfoldable pub release_expired_claims : ℕ → Table → Table
  release_expired_claims now t =
      (update_where (λ r. is_processing r.status && due_by r.locked_until now)
        (set_status PublishStatus.failed
          ∷ set_locked_by none
          ∷ set_locked_until none
          ∷ set_updated_at now
          ∷ [])
        t).1

  -- `requeuePublish`
  unfoldable pub requeue_publish : String → ℕ → Table → RequeueResult PublishStatus × Table
  requeue_publish id now t =
      let (changed, t') =
        update_where (λ r. str_eq r.id id && is_requeueable r.status)
          (set_status PublishStatus.failed
            ∷ set_retry_count 0
            ∷ set_last_error none
            ∷ set_next_retry_at (some now)
            ∷ set_locked_by none
            ∷ set_locked_until none
            ∷ set_published_at none
            ∷ set_updated_at now
            ∷ [])
          t in
      (
        if changed
            then record { id = id; outcome = requeued; previous_status = none }
            else elim (find_row id t') [
              | none ↦ record { id = id; outcome = not_found; previous_status = none }
              | some r ↦ record { id = id; outcome = not_eligible; previous_status = some r.status }
            ],
        t',
      )

  -- `claimUnpublished`; `select` is the SELECT of the transaction.
  unfoldable pub claim_unpublished :
      (String → Value)
      → (String → Headers)
      → ((PublishRow → Bool) → ℕ → Table → List PublishRow)
      → ClaimUnpublishedOptions
      → Table
      → List PublishEvent × Table
  unfolding map_publish_row apply_claimable_where
  claim_unpublished parse parse_headers select o t =
      let rows = select (apply_claimable_where o.now) o.limit t in
      elim rows [
        | [] ↦ ([], t)
        | r ∷ rs ↦ (
          map (λ x. map_publish_row parse parse_headers (claimed_row o x)) (r ∷ rs),
          (update_where (λ x. has_row_id (r ∷ rs) x.id)
              (set_status PublishStatus.processing
                ∷ set_locked_by (some o.locked_by)
                ∷ set_locked_until (some o.lock_until)
                ∷ set_updated_at o.now
                ∷ [])
              t).1,
        )
      ]

-- `savePublish`; `insert` is the INSERT, with the table after it or the database's error.
unfoldable pub save_publish :
    (Value → String)
    → (Headers → String)
    → (PublishRow → Table → Result Table)
    → ℕ
    → PublishEvent
    → Table
    → Result String × Table
unfolding map_publish_to_row
save_publish stringify stringify_headers insert now e t =
    elim (insert (map_publish_to_row stringify stringify_headers now e) t) [
      | ok t' ↦ (ok e.id, t')
      | thrown err ↦ (thrown err, t)
    ]

-- `findPublishById`
unfoldable pub find_publish_by_id :
    (String → Value) → (String → Headers) → String → Table → Option PublishEvent
unfolding map_publish_row
find_publish_by_id parse parse_headers id t = elim (find_row id t) [
  | none ↦ none
  | some r ↦ some (map_publish_row parse parse_headers r)
]
