-- ===== src/Prisma.antt =====
-- The outbox storage on Prisma, libs/cap-storage-prisma/src/prisma-publish-storage.ts. A table is its rows; the
-- database that runs the statements is a parameter. A column that holds an ISO text is the instant it denotes,
-- as in Model; a status column holds one of the statuses. `JSON.stringify` and `JSON.parse` are parameters.
pub mod Refines
pub mod Claims
pub mod Runs
pub mod Received
pub mod Reports
use cap_nodejs.Prelude.{
  ℕ, zero, suc, ◌+◌, String, Bool, true, false, ◌&&◌, ◌||◌, not, Option, none, some, List, [], ◌∷◌,
  leb, if◌then◌else◌, opt_eq, due_by, str_eq, is_some, or_default, map,
}
use cap_nodejs.JsValue.{Value, Headers, Thrown, normalize_error}
use cap_nodejs.Model.{
  PublishEvent, PublishStatus, ClaimUnpublishedOptions, MarkPublishFailedOptions,
  RenewPublishClaimOptions, RequeueResult, requeued, not_found, not_eligible,
}
use cap_nodejs.Effect.{Result, ok, thrown}
use cap_nodejs.Outbox.{is_processing, is_requeueable}
use cap_nodejs.Outbox.Admin.{is_status_pending, is_status_failed}
use cap_nodejs.Sql.{Assignment, Update}

-- `ResolvedPrismaStorageProvider`
pub data Provider : Type 0 where
  postgresql mysql sqlite : Provider

-- Whether the assignments of an UPDATE take effect from left to right
abbrev pub in_order : Provider → Bool
in_order mysql = true
in_order _ = false

pub record PublishRow : Type 0 where
  pub id : String
  pub topic : String
  pub payload : String
  pub headers : Option String
  pub retry_count : ℕ
  pub status : PublishStatus
  pub next_retry_at : Option ℕ
  pub last_error : Option String
  pub locked_by : Option String
  pub locked_until : Option ℕ
  pub published_at : Option ℕ
  pub created_at : ℕ
  pub updated_at : ℕ

abbrev pub Table : Type 0
Table = List PublishRow

-- The assignments of the SET clauses
abbrev pub set_status : PublishStatus → Assignment PublishRow
set_status x old r = record r { status = x }

abbrev pub set_locked_by : Option String → Assignment PublishRow
set_locked_by x old r = record r { locked_by = x }

abbrev pub set_locked_until : Option ℕ → Assignment PublishRow
set_locked_until x old r = record r { locked_until = x }

abbrev pub set_next_retry_at : Option ℕ → Assignment PublishRow
set_next_retry_at x old r = record r { next_retry_at = x }

abbrev pub set_published_at : Option ℕ → Assignment PublishRow
set_published_at x old r = record r { published_at = x }

abbrev pub set_last_error : Option String → Assignment PublishRow
set_last_error x old r = record r { last_error = x }

abbrev pub set_updated_at : ℕ → Assignment PublishRow
set_updated_at x old r = record r { updated_at = x }

abbrev pub set_retry_count : ℕ → Assignment PublishRow
set_retry_count x old r = record r { retry_count = x }

-- `SET retry_count = retry_count + 1`
abbrev pub add_retry : Assignment PublishRow
add_retry old r = record r { retry_count = old.retry_count + 1 }

-- `thresholdRetryCount`
unfoldable pub threshold_retry_count : Provider → PublishRow → ℕ
threshold_retry_count mysql r = r.retry_count
threshold_retry_count _ r = r.retry_count + 1

-- `SET status = CASE WHEN threshold >= maxRetries THEN 'dead_letter' ELSE 'failed' END`
abbrev pub set_failed_status : Provider → ℕ → Assignment PublishRow
unfolding threshold_retry_count
set_failed_status p max old r = record r {
  status =
      if leb max (threshold_retry_count p old)
      then PublishStatus.dead_letter
      else PublishStatus.failed;
}

-- `SET next_retry_at = CASE WHEN threshold >= maxRetries THEN NULL ELSE nextRetry END`
abbrev pub set_failed_retry : Provider → ℕ → ℕ → Assignment PublishRow
unfolding threshold_retry_count
set_failed_retry p max at old r = record r {
  next_retry_at = if leb max (threshold_retry_count p old) then none else some at;
}

-- `ownershipWhere`
abbrev pub ownership_where : Option String → PublishRow → Bool
ownership_where none r = true
ownership_where (some owner) r = is_processing r.status && opt_eq r.locked_by owner

-- The WHERE clause of `claimUnpublished`, and of `publishListFilters` for the unpublished; a comparison with NULL
-- does not hold.
unfoldable pub claimable_where : ℕ → PublishRow → Bool
unfolding is_status_pending is_status_failed
claimable_where now r =
    is_status_pending r.status
    || (is_status_failed r.status && (not (is_some r.next_retry_at) || due_by r.next_retry_at now)
        || is_processing r.status && due_by r.locked_until now)

-- The statement of `markPublished`; `now` is its `new Date()`.
unfoldable pub published_update : String → ℕ → ℕ → Option String → Update PublishRow
published_update id at now expected = record {
  assignments =
      set_status PublishStatus.published
      ∷ set_published_at (some at)
      ∷ set_locked_by none
      ∷ set_locked_until none
      ∷ set_next_retry_at none
      ∷ set_updated_at now
      ∷ [];
  condition = λ r. str_eq r.id id && ownership_where expected r;
}

-- The statement of `markPublishFailed`
unfoldable pub failed_update :
    Provider → String → Thrown → MarkPublishFailedOptions → Update PublishRow
failed_update p id err o = record {
  assignments =
      add_retry
      ∷ set_failed_status p o.max_retries
      ∷ set_failed_retry p o.max_retries o.next_retry_at
      ∷ set_last_error (some (normalize_error err))
      ∷ set_locked_by none
      ∷ set_locked_until none
      ∷ set_updated_at o.now
      ∷ [];
  condition = λ r. str_eq r.id id && ownership_where o.expected_locked_by r;
}

-- The statement of `renewPublishClaim`
unfoldable pub renew_update : RenewPublishClaimOptions → Update PublishRow
renew_update o = record {
  assignments = set_locked_until (some o.lock_until) ∷ set_updated_at o.now ∷ [];
  condition = λ r.
      str_eq r.id o.id
      && (is_processing r.status
          && (opt_eq r.locked_by o.expected_locked_by
              && (is_some r.locked_until && not (due_by r.locked_until o.now))));
}

-- The statement of `releaseExpiredClaims`
unfoldable pub release_update : ℕ → Update PublishRow
release_update now = record {
  assignments =
      set_status PublishStatus.failed
      ∷ set_locked_by none
      ∷ set_locked_until none
      ∷ set_updated_at now
      ∷ [];
  condition = λ r. is_processing r.status && due_by r.locked_until now;
}

-- The statement of `requeuePublish`
unfoldable pub requeue_update : String → ℕ → Update PublishRow
requeue_update id now = record {
  assignments =
      set_status PublishStatus.failed
      ∷ set_retry_count 0
      ∷ set_last_error none
      ∷ set_next_retry_at (some now)
      ∷ set_locked_by none
      ∷ set_locked_until none
      ∷ set_published_at none
      ∷ set_updated_at now
      ∷ [];
  condition = λ r. str_eq r.id id && is_requeueable r.status;
}

abbrev pub has_row_id : List PublishRow → String → Bool
has_row_id [] id = false
has_row_id (r ∷ rs) id = str_eq r.id id || has_row_id rs id

-- The UPDATE of `claimUnpublished`, `WHERE id IN (ids)`
unfoldable pub claim_update : ClaimUnpublishedOptions → List PublishRow → Update PublishRow
claim_update o rows = record {
  assignments =
      set_status PublishStatus.processing
      ∷ set_locked_by (some o.locked_by)
      ∷ set_locked_until (some o.lock_until)
      ∷ set_updated_at o.now
      ∷ [];
  condition = λ r. has_row_id rows r.id;
}

-- The row that `claimUnpublished` returns for one that it selected
abbrev pub claimed_row : ClaimUnpublishedOptions → PublishRow → PublishRow
claimed_row o r = record r {
  status = PublishStatus.processing;
  locked_by = some o.locked_by;
  locked_until = some o.lock_until;
  updated_at = o.now;
}

module _ (parse : String → Value) (parse_headers : String → Headers) where
  -- `mapPublishRow`
  unfoldable pub map_publish_row : PublishRow → PublishEvent
  map_publish_row r = record {
    id = r.id;
    topic = r.topic;
    occurred_at = r.created_at;
    payload = parse r.payload;
    headers = elim r.headers [ none ↦ none | some text ↦ some (parse_headers text) ];
    retry_count = r.retry_count;
    status = r.status;
    next_retry_at = r.next_retry_at;
    last_error = r.last_error;
    locked_by = r.locked_by;
    locked_until = r.locked_until;
    published_at = r.published_at;
  }

module _ (stringify : Value → String) (stringify_headers : Headers → String) where
  -- `mapPublishToValues`, at the instant `now`
  unfoldable pub map_publish_to_values : ℕ → PublishEvent → PublishRow
  map_publish_to_values now e = record {
    id = e.id;
    topic = e.topic;
    payload = stringify e.payload;
    headers = elim e.headers [ none ↦ none | some h ↦ some (stringify_headers h) ];
    retry_count = e.retry_count;
    status = e.status;
    next_retry_at = e.next_retry_at;
    last_error = e.last_error;
    locked_by = e.locked_by;
    locked_until = e.locked_until;
    published_at = e.published_at;
    created_at = e.occurred_at;
    updated_at = now;
  }

  -- `savePublish`; `insert` is the INSERT, with the table after it or the database's error.
  unfoldable pub save_publish :
      (PublishRow → Table → Result Table) → ℕ → PublishEvent → Table → Result String × Table
  unfolding map_publish_to_values
  save_publish insert now e t = elim (insert (map_publish_to_values now e) t) [
    | ok t' ↦ (ok e.id, t')
    | thrown err ↦ (thrown err, t)
  ]

-- `findPublishRowById`, a SELECT by primary key
abbrev pub find_row : String → Table → Option PublishRow
find_row id [] = none
find_row id (r ∷ t) = if str_eq r.id id then some r else find_row id t

module _ (p : Provider) (execute : Update PublishRow → Table → ℕ × Table) where
  -- `affected > 0`, with the table after the statement
  abbrev pub affects : Update PublishRow → Table → Bool × Table
  affects u t = let (affected, t') = execute u t in (leb 1 affected, t')

  -- `markPublished`
  unfoldable pub mark_published : String → ℕ → ℕ → Option String → Table → Bool × Table
  mark_published id at now expected = affects (published_update id at now expected)

  -- `markPublishFailed`
  unfoldable pub mark_publish_failed :
      String → Thrown → MarkPublishFailedOptions → Table → Bool × Table
  mark_publish_failed id err o = affects (failed_update p id err o)

  -- `renewPublishClaim`
  unfoldable pub renew_publish_claim : RenewPublishClaimOptions → Table → Bool × Table
  renew_publish_claim o = affects (renew_update o)

  -- `releaseExpiredClaims`
  unfoldable pub release_expired_claims : ℕ → Table → Table
  release_expired_claims now t = (affects (release_update now) t).1

  -- `requeuePublish`
  unfoldable pub requeue_publish : String → ℕ → Table → RequeueResult PublishStatus × Table
  requeue_publish id now t =
      let (changed, t') = affects (requeue_update id now) t in
      (
        if changed
            then record { id = id; outcome = requeued; previous_status = none }
            else elim (find_row id t') [
              | none ↦ record { id = id; outcome = not_found; previous_status = none }
              | some r ↦ record { id = id; outcome = not_eligible; previous_status = some r.status }
            ],
        t',
      )

  -- `claimUnpublished`; `select` is the SELECT of the transaction, run on the table as the transaction sees it.
  module _ (parse : String → Value) (parse_headers : String → Headers)
      (select : (PublishRow → Bool) → ℕ → Table → List PublishRow) where
    unfoldable pub claim_unpublished : ClaimUnpublishedOptions → Table → List PublishEvent × Table
    unfolding map_publish_row
    claim_unpublished o t =
        let rows = select (claimable_where o.now) o.limit t in
        elim rows [
          | [] ↦ ([], t)
          | r ∷ rs ↦ (
            map (λ x. map_publish_row parse parse_headers (claimed_row o x)) (r ∷ rs),
            (affects (claim_update o (r ∷ rs)) t).1,
          )
        ]

-- `findPublishById`
unfoldable pub find_publish_by_id :
    (String → Value) → (String → Headers) → String → Table → Option PublishEvent
unfolding map_publish_row
find_publish_by_id parse parse_headers id t = elim (find_row id t) [
  | none ↦ none
  | some r ↦ some (map_publish_row parse parse_headers r)
]
