-- ===== src/Inbox/Retry.antt =====
-- Completion, failed attempts and manual requeues of received events.
use cap_nodejs.Prelude.{
  ℕ, ◌+◌, String, true, false, Option, none, some, ◌≡◌, refl, ◌⊎◌, inl, inr, eq_iff, arith,
  if◌then◌else◌, Bool-cases, Option-cases, leb,
}
use cap_nodejs.JsValue.{Thrown}
use cap_nodejs.JsMap.{get}
use cap_nodejs.JsMap.Laws.{get-update}
use cap_nodejs.Model.{ReceivedEvent, MarkReceivedFailedOptions, requeued, not_found, not_eligible}
use cap_nodejs.Inbox.{
  Inbox, is_due, mark_processed, mark_received_failed, requeue_received, is_requeueable,
  processed_by, failed_once, requeued_at,
}

-- A failure of a stored event counts one more attempt; with attempts left the event is due from
-- `next_retry_at` on and not before, whatever the window for pending events is, and with none left it is a
-- dead letter, which is never due.
pub mark_received_failed-is_due :
    (id : String) (err : Thrown) (o : MarkReceivedFailedOptions) (t : ℕ) (before : Option ℕ)
    (e : ReceivedEvent) (b : Inbox)
    → get id b.store ≡ some e
    → (e' : ReceivedEvent) × (get id (mark_received_failed id err o b).store ≡ some e')
      × (e'.retry_count ≡ e.retry_count + 1)
      × (is_due t before e'
          ≡ (if leb o.max_retries (e.retry_count + 1) then false else leb o.next_retry_at t))
unfolding mark_received_failed is_due
mark_received_failed-is_due id err o t before e b found = (
  failed_once err o e,
  ground (arith, get-update id id (failed_once err o) b.store, eq_iff id id),
  refl,
  ground arith,
)

-- A stored event that is marked as processed has the time of that, is due at no time, and is not eligible
-- for a requeue, which leaves the inbox as it was.
pub mark_processed-final :
    (id : String) (at now t : ℕ) (before : Option ℕ) (e : ReceivedEvent) (b : Inbox)
    → get id b.store ≡ some e
    → (e' : ReceivedEvent) × (get id (mark_processed id at b).store ≡ some e')
      × (e'.processed_at ≡ some at)
      × (is_due t before e' ≡ false)
      × ((requeue_received id now (mark_processed id at b)).0.outcome ≡ not_eligible)
      × ((requeue_received id now (mark_processed id at b)).1 ≡ mark_processed id at b)
unfolding mark_processed is_due requeue_received
mark_processed-final id at now t before e b found = (
  processed_by at e,
  ground (arith, get-update id id (processed_by at) b.store, eq_iff id id),
  refl,
  refl,
  ground (arith, get-update id id (processed_by at) b.store, eq_iff id id),
  ground (arith, get-update id id (processed_by at) b.store, eq_iff id id),
)

-- A requeue answers for the three cases: a missing event is not found; one that is pending, in work or
-- processed is not eligible; in both the inbox stays as it was. A failed one or a dead letter starts
-- afresh, with no attempts counted and no error, and is due from `now` on.
pub requeue_received_lem :
    (id : String) (now t : ℕ) (before : Option ℕ) (b : Inbox)
    → let (r, b') = requeue_received id now b in
      ((get id b.store ≡ none) × (r.outcome ≡ not_found) × (b' ≡ b))
      ⊎ ((e : ReceivedEvent) × (get id b.store ≡ some e)
          × (is_requeueable e.status ≡ false)
          × (r.outcome ≡ not_eligible)
          × (r.previous_status ≡ some e.status)
          × (b' ≡ b))
      ⊎ ((e e' : ReceivedEvent) × (get id b.store ≡ some e)
          × (is_requeueable e.status ≡ true)
          × (r.outcome ≡ requeued)
          × (r.previous_status ≡ some e.status)
          × (get id b'.store ≡ some e')
          × (e'.retry_count ≡ 0)
          × (e'.last_error ≡ none)
          × (e'.is_processed ≡ false)
          × (is_due t before e' ≡ leb now t))
unfolding requeue_received is_due
requeue_received_lem id now t before b = elim (Option-cases (get id b.store)) [
  | inl missing ↦ inl (missing, ground arith, ground arith)
  | inr (e, found) ↦ elim (Bool-cases (is_requeueable e.status)) [
    | inl fits ↦ inr (
        inr (
          e,
          requeued_at now e,
          found,
          fits,
          ground arith,
          ground arith,
          ground (arith, get-update id id (requeued_at now) b.store, eq_iff id id),
          refl,
          refl,
          refl,
          ground arith,
        ))
    | inr refused ↦ inr (inl (e, found, refused, ground arith, ground arith, ground arith))
  ]
]
