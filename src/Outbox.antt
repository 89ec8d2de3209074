-- ===== src/Outbox.antt =====
-- The in-memory outbox storage, libs/cap-core/src/testing/in-memory-publish-storage.ts.
-- A method of the class is a function on its one field, the `store`; a method that writes returns
-- the store after the call. `Promise.resolve` and `async` add no step of their own.
pub mod Admin
pub mod Valid
pub mod Claims
pub mod Ownership
pub mod Retry
pub mod Reports
pub mod Claimed
use cap_nodejs.Prelude.{
  ℕ, zero, suc, ◌+◌, String, Bool, true, false, not, ◌&&◌, ◌||◌, Option, none, some, List, [], ◌∷◌,
  length, keep, slice, leb, ltb, ◌==◌, if◌then◌else◌, opt_eq, due_by, or_default, str_eq, is_some,
}
use cap_nodejs.JsValue.{Thrown, normalize_error}
use cap_nodejs.JsMap.{JsMap, get, set, update, update_all, values}
use cap_nodejs.Model.{
  PublishEvent, PublishStatus, ClaimUnpublishedOptions, MarkPublishFailedOptions,
  RenewPublishClaimOptions, RequeueResult, requeued, not_found, not_eligible, OutboxStatusCounts,
  OutboxSnapshot, ListPublishOptions, Page,
}

abbrev pub Store : Type 0
Store = JsMap PublishEvent

abbrev pub is_processing : PublishStatus → Bool
is_processing PublishStatus.processing = true
is_processing _ = false

abbrev pub is_dead_letter : PublishStatus → Bool
is_dead_letter PublishStatus.dead_letter = true
is_dead_letter _ = false

-- `isClaimable`
unfoldable pub is_claimable : PublishEvent → ℕ → Bool
is_claimable e now = elim e.status [
  | PublishStatus.pending ↦ true
  | PublishStatus.failed ↦ not (is_some e.next_retry_at) || due_by e.next_retry_at now
  | PublishStatus.processing ↦ due_by e.locked_until now
  | _ ↦ false
]

-- `ownsClaim`
unfoldable pub owns_claim : PublishEvent → Option String → Bool
owns_claim e none = true
owns_claim e (some owner) = is_processing e.status && opt_eq e.locked_by owner

-- `savePublish`
unfoldable pub save_publish : PublishEvent → Store → String × Store
save_publish e s = (e.id, set e.id e s)

-- What `claimUnpublished` writes to an event that it claims.
abbrev pub lock : ClaimUnpublishedOptions → PublishEvent → PublishEvent
lock o e = record e {
  status = PublishStatus.processing;
  locked_by = some o.locked_by;
  locked_until = some o.lock_until;
}

-- The loop of `claimUnpublished`, with the number of events claimed so far.
unfoldable pub claim_from : ClaimUnpublishedOptions → ℕ → Store → List PublishEvent × Store
unfolding is_claimable
claim_from o claimed [] = ([], [])
claim_from o claimed ((k, e) ∷ s) =
    let taken = claim_from o (claimed + 1) s in
    let skipped = claim_from o claimed s in
    if leb o.limit claimed
    then ([], (k, e) ∷ s)
    else if is_claimable e o.now
    then (lock o e ∷ taken.0, (k, lock o e) ∷ taken.1)
    else (skipped.0, (k, e) ∷ skipped.1)

-- `claimUnpublished`
unfoldable pub claim_unpublished : ClaimUnpublishedOptions → Store → List PublishEvent × Store
unfolding claim_from
claim_unpublished o s = claim_from o 0 s

-- What `markPublished` writes.
abbrev pub published_at_time : ℕ → PublishEvent → PublishEvent
published_at_time at e = record e {
  status = PublishStatus.published;
  published_at = some at;
  locked_by = none;
  locked_until = none;
  next_retry_at = none;
}

-- `markPublished`
unfoldable pub mark_published : String → ℕ → Option String → Store → Bool × Store
unfolding owns_claim
mark_published id at expected s = elim (get id s) [
  | none ↦ (false, s)
  | some e ↦
      if owns_claim e expected then (true, update id (published_at_time at) s) else (false, s)
]

-- What `markPublishFailed` writes: one more attempt, and the next state from the new count.
abbrev pub failed_once : Thrown → MarkPublishFailedOptions → PublishEvent → PublishEvent
failed_once err o e =
    let dead = leb o.max_retries (e.retry_count + 1) in
    record e {
      retry_count = e.retry_count + 1;
      status = if dead then PublishStatus.dead_letter else PublishStatus.failed;
      next_retry_at = if dead then none else some o.next_retry_at;
      last_error = some (normalize_error err);
      locked_by = none;
      locked_until = none;
    }

-- `markPublishFailed`
unfoldable pub mark_publish_failed :
    String → Thrown → MarkPublishFailedOptions → Store → Bool × Store
unfolding owns_claim
mark_publish_failed id err o s = elim (get id s) [
  | none ↦ (false, s)
  | some e ↦
      if owns_claim e o.expected_locked_by
      then (true, update id (failed_once err o) s)
      else (false, s)
]

-- The guard of `renewPublishClaim`
unfoldable pub can_renew : RenewPublishClaimOptions → PublishEvent → Bool
can_renew o e =
    is_processing e.status
    && (opt_eq e.locked_by o.expected_locked_by
        && (is_some e.locked_until && not (due_by e.locked_until o.now)))

-- `renewPublishClaim`
unfoldable pub renew_publish_claim : RenewPublishClaimOptions → Store → Bool × Store
unfolding can_renew
renew_publish_claim o s = elim (get o.id s) [
  | none ↦ (false, s)
  | some e ↦
      if can_renew o e
      then (true, update o.id (λ e. record e { locked_until = some o.lock_until }) s)
      else (false, s)
]

-- The body of the loop of `releaseExpiredClaims`
unfoldable pub release_expired : ℕ → PublishEvent → PublishEvent
release_expired now e =
    if is_processing e.status && due_by e.locked_until now
    then record e { status = PublishStatus.failed; locked_by = none; locked_until = none }
    else e

-- `releaseExpiredClaims`
unfoldable pub release_expired_claims : ℕ → Store → Store
unfolding release_expired
release_expired_claims now s = update_all (release_expired now) s

-- `findPublishById`
unfoldable pub find_publish_by_id : String → Store → Option PublishEvent
find_publish_by_id id s = get id s

-- What `requeuePublish` writes.
abbrev pub requeued_at : ℕ → PublishEvent → PublishEvent
requeued_at now e = record e {
  status = PublishStatus.failed;
  retry_count = 0;
  last_error = none;
  next_retry_at = some now;
  locked_by = none;
  locked_until = none;
  published_at = none;
}

abbrev pub is_requeueable : PublishStatus → Bool
is_requeueable PublishStatus.failed = true
is_requeueable PublishStatus.dead_letter = true
is_requeueable _ = false

-- `requeuePublish`
unfoldable pub requeue_publish : String → ℕ → Store → RequeueResult PublishStatus × Store
requeue_publish id now s = elim (get id s) [
  | none ↦ (record { id = id; outcome = not_found; previous_status = none }, s)
  | some e ↦
      if is_requeueable e.status
      then (
        record { id = id; outcome = requeued; previous_status = some e.status },
        update id (requeued_at now) s,
      )
      else (record { id = id; outcome = not_eligible; previous_status = some e.status }, s)
]
