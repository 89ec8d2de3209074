-- ===== src/Dashboard/ReadOnly.antt =====
-- The guard of the dashboard's writing methods.
use cap_nodejs.Prelude.{ℕ, String, true, ◌≡◌, refl, inl, inr, Bool-cases}
use cap_nodejs.JsValue.{normalize_error}
use cap_nodejs.Effect.{catch, Result-cases}
use cap_nodejs.Model.{ReceivedEvent}
use cap_nodejs.Engine.{Environment, Config, World, ok, Action}
use cap_nodejs.Dashboard.{
  Settings, ActionResult, read_only_result, failure, guarded, retry_outbox, mark_outbox_published,
  retry_inbox, mark_inbox_processed,
}
use cap_nodejs.Dashboard.Flush.{flush_outbox}

-- The calls of the service that can write
pub data DashboardCall : Type 0 where
  retries_outbox marks_published retries_inbox marks_processed : String → DashboardCall
  flushes : DashboardCall

module _ (env : Environment) (o : Settings) (show_number : ℕ → String) (lower : String → String)
    (c : Config) (retry : ReceivedEvent → Action (Unit {0})) where
  unfoldable pub dashboard_call : DashboardCall → Action ActionResult
  dashboard_call (DashboardCall.retries_outbox id) = retry_outbox env o show_number lower c id
  dashboard_call (DashboardCall.marks_published id) =
      mark_outbox_published env o show_number lower id
  dashboard_call (DashboardCall.retries_inbox id) = retry_inbox env o show_number lower retry id
  dashboard_call (DashboardCall.marks_processed id) =
      mark_inbox_processed env o show_number lower id
  dashboard_call DashboardCall.flushes = flush_outbox env o show_number lower c

  -- A read-only dashboard answers each call that could write with the read-only failure, and leaves the world as it
  -- is: both storages, the broker and the retry handler are not touched.
  pub read_only_writes_nothing :
      (call : DashboardCall) (w : World)
      → o.read_only ≡ true
      → dashboard_call call w ≡ (ok read_only_result, w)
  unfolding dashboard_call retry_outbox mark_outbox_published retry_inbox mark_inbox_processed
      flush_outbox
  read_only_writes_nothing (DashboardCall.retries_outbox id) w h = rw (h) refl
  read_only_writes_nothing (DashboardCall.marks_published id) w h = rw (h) refl
  read_only_writes_nothing (DashboardCall.retries_inbox id) w h = rw (h) refl
  read_only_writes_nothing (DashboardCall.marks_processed id) w h = rw (h) refl
  read_only_writes_nothing DashboardCall.flushes w h = rw (h) refl

  guarded_answers :
      (m : Action ActionResult) (w : World)
      → (a : ActionResult) × ((guarded env o show_number lower m w).0 ≡ ok a)
  guarded_answers m w = elim (Bool-cases o.read_only) [
    | inl locked ↦ (read_only_result, rw (locked) refl)
    | inr open_to ↦ elim (Result-cases (m w).0) [
      | inl (a, good) ↦ (a, rw (open_to, catch, good) refl)
      | inr (e, bad) ↦ (failure (normalize_error e), rw (open_to, catch, bad) refl)
    ]
  ]

  -- No call that could write rejects: what a storage, the broker or the retry handler throws is an answer that
  -- reports a failure.
  pub dashboard_call_answers :
      (call : DashboardCall) (w : World) → (a : ActionResult) × ((dashboard_call call w).0 ≡ ok a)
  unfolding dashboard_call retry_outbox mark_outbox_published retry_inbox mark_inbox_processed
      flush_outbox
  dashboard_call_answers (DashboardCall.retries_outbox id) w = guarded_answers _ w
  dashboard_call_answers (DashboardCall.marks_published id) w = guarded_answers _ w
  dashboard_call_answers (DashboardCall.retries_inbox id) w = guarded_answers _ w
  dashboard_call_answers (DashboardCall.marks_processed id) w = guarded_answers _ w
  dashboard_call_answers DashboardCall.flushes w = guarded_answers _ w
