-- ===== src/Outbox/Retry.antt =====
-- Failed attempts, dead letters, expired claims and manual requeues.
use cap_nodejs.Prelude.{
  ℕ, zero, suc, ◌+◌, ◌<◌, String, true, false, none, some, ◌≡◌, refl, ◌⊎◌, inl, inr, eq_iff, arith,
  if◌then◌else◌, Bool-cases, Option-cases, leb,
}
use cap_nodejs.JsValue.{Thrown}
use cap_nodejs.JsMap.{get}
use cap_nodejs.JsMap.Laws.{get-update, get-update_all}
use cap_nodejs.Model.{
  PublishEvent, PublishStatus, MarkPublishFailedOptions, requeued, not_found, not_eligible,
}
use cap_nodejs.Outbox.{
  Store, is_claimable, mark_publish_failed, release_expired, release_expired_claims,
  requeue_publish, failed_once, requeued_at, is_requeueable,
}

-- After a failure that was written, the count of attempts is one higher and no one holds the event;
-- with attempts left it is claimable from `next_retry_at` on and not before, and with none left it is a
-- dead letter, which is never claimable.
pub mark_publish_failed-retry :
    (id : String) (err : Thrown) (o : MarkPublishFailedOptions) (t : ℕ) (e : PublishEvent)
    (s : Store)
    → get id s ≡ some e
    → (mark_publish_failed id err o s).0 ≡ true
    → (e' : PublishEvent) × (get id (mark_publish_failed id err o s).1 ≡ some e')
      × (e'.retry_count ≡ e.retry_count + 1)
      × (e'.locked_by ≡ none)
      × (is_claimable e' t
          ≡ (if leb o.max_retries (e.retry_count + 1) then false else leb o.next_retry_at t))
unfolding mark_publish_failed is_claimable
mark_publish_failed-retry id err o t e s found done = (
  failed_once err o e,
  ground (arith, get-update id id (failed_once err o) s, eq_iff id id),
  refl,
  refl,
  ground arith,
)

-- `n` failures in a row, none of them fenced.
abbrev pub fail_times : ℕ → String → Thrown → MarkPublishFailedOptions → Store → Store
fail_times zero id err o s = s
fail_times (suc n) id err o s = (mark_publish_failed id err o (fail_times n id err o s)).1

fail_times-count :
    (n : ℕ) (id : String) (err : Thrown) (o : MarkPublishFailedOptions) (e : PublishEvent)
    (s : Store)
    → get id s ≡ some e
    → o.expected_locked_by ≡ none
    → (e' : PublishEvent) × (get id (fail_times n id err o s) ≡ some e')
      × (e'.retry_count ≡ e.retry_count + n)
unfolding mark_publish_failed
fail_times-count zero id err o e s found unfenced = (e, found, omega arith)
fail_times-count (suc n) id err o e s found unfenced =
    let (w, there, count) = fail_times-count n id err o e s found unfenced in
    (
      failed_once err o w,
      ground (arith, get-update id id (failed_once err o) (fail_times n id err o s), eq_iff id id),
      ground arith,
    )

-- A stored event is a dead letter after its `n`th failure in a row, for `n` at least 1 and failures that
-- no owner is asked for, exactly when the attempts, with those made before, have reached the maximum;
-- otherwise it is in the state `failed`.
pub fail_times-dead :
    (n : ℕ) (id : String) (err : Thrown) (o : MarkPublishFailedOptions) (e : PublishEvent)
    (s : Store)
    → get id s ≡ some e
    → o.expected_locked_by ≡ none
    → (e' : PublishEvent) × (get id (fail_times (suc n) id err o s) ≡ some e')
      × (e'.status ≡ (
          if leb o.max_retries (e.retry_count + suc n)
          then PublishStatus.dead_letter
          else PublishStatus.failed))
unfolding mark_publish_failed
fail_times-dead n id err o e s found unfenced =
    let (w, there, count) = fail_times-count n id err o e s found unfenced in
    (
      failed_once err o w,
      ground (arith, get-update id id (failed_once err o) (fail_times n id err o s), eq_iff id id),
      ground arith,
    )

-- Once the claims that have expired at `now` are released, no event is held past its time; the events
-- whose claims run on, and those that nobody holds, are as they were.
pub release_expired_claims_lem :
    (k : String) (now : ℕ) (e : PublishEvent) (s : Store)
    → get k s ≡ some e
    → (e' : PublishEvent) × (get k (release_expired_claims now s) ≡ some e')
      × (e'.status ≡ PublishStatus.processing
          → (until : ℕ) → e'.locked_until ≡ some until
          → now < until)
      × ((e' ≡ e)
          ⊎ ((e.status ≡ PublishStatus.processing)
              × (e'.status ≡ PublishStatus.failed)
              × (e'.locked_by ≡ none)))
unfolding release_expired_claims
release_expired_claims_lem k now e s found = (
  release_expired now e,
  ground (arith, get-update_all k (release_expired now) s),
  λ p until held. ground arith,
  ground arith,
)

-- A requeue answers for the three cases: a missing event is not found; a pending, processed or
-- published one is not eligible; in both the store stays as it was. A failed one or a dead letter
-- starts afresh, with no attempts counted, no error and no owner, and is claimable from `now` on.
pub requeue_publish_lem :
    (id : String) (now t : ℕ) (s : Store)
    → let (r, s') = requeue_publish id now s in
      ((get id s ≡ none) × (r.outcome ≡ not_found) × (s' ≡ s))
      ⊎ ((e : PublishEvent) × (get id s ≡ some e)
          × (is_requeueable e.status ≡ false)
          × (r.outcome ≡ not_eligible)
          × (r.previous_status ≡ some e.status)
          × (s' ≡ s))
      ⊎ ((e e' : PublishEvent) × (get id s ≡ some e)
          × (is_requeueable e.status ≡ true)
          × (r.outcome ≡ requeued)
          × (r.previous_status ≡ some e.status)
          × (get id s' ≡ some e')
          × (e'.retry_count ≡ 0)
          × (e'.last_error ≡ none)
          × (e'.locked_by ≡ none)
          × (is_claimable e' t ≡ leb now t))
unfolding requeue_publish is_claimable
requeue_publish_lem id now t s = elim (Option-cases (get id s)) [
  | inl missing ↦ inl (missing, ground arith, ground arith)
  | inr (e, found) ↦ elim (Bool-cases (is_requeueable e.status)) [
    | inl fits ↦ inr (
        inr (
          e,
          requeued_at now e,
          found,
          fits,
          ground arith,
          ground arith,
          ground (arith, get-update id id (requeued_at now) s, eq_iff id id),
          refl,
          refl,
          refl,
          ground arith,
        ))
    | inr refused ↦ inr (inl (e, found, refused, ground arith, ground arith, ground arith))
  ]
]
