-- ===== src/Engine/Administration.antt =====
-- The administration methods of the engine and its options, libs/cap-core/src/engine/cap-engine.ts:
-- `requeueInbox`, `requeueOutbox`, `getMessagingSnapshot`, `resolveSchedulerOptions`. The in-memory storages support
-- administration. A requeue answers its result, with the diagnostic that it emits once its lookup has resolved.
pub mod Requeues
use cap_nodejs.Prelude.{
  ℕ, suc, String, Bool, true, false, Option, none, some, if◌then◌else◌, or_default,
}
use mathlib.Core.Option
use cap_nodejs.JsValue.{error}
use cap_nodejs.Text.{is_blank}
use cap_nodejs.Model.{
  PublishEvent, PublishStatus, ReceivedEvent, ReceivedStatus, RequeueOutcome, RequeueResult,
  requeued, not_found, not_eligible, InboxSnapshot, OutboxSnapshot,
}
use cap_nodejs.Outbox.{requeue_publish, find_publish_by_id}
use cap_nodejs.Outbox.Admin.{get_publish_snapshot}
use cap_nodejs.Inbox.{requeue_received, find_received_by_id}
use cap_nodejs.Inbox.Admin.{get_received_snapshot}
use cap_nodejs.Engine.{
  Environment, Config, Action, Result, ok, thrown, pure, ◌>>=◌, ◌>>◌, catch, done, now, outbox_call,
  inbox_call,
}

-- The diagnostics `outbox.manually_requeued` and `inbox.manually_requeued`, whose retry count is zero
pub record OutboxRequeued : Type 0 where
  pub id : String
  pub topic : String
  pub previous_status : Option PublishStatus
  pub at : ℕ

pub record InboxRequeued : Type 0 where
  pub id : String
  pub topic : String
  pub group : String
  pub message_id : String
  pub previous_status : Option ReceivedStatus
  pub at : ℕ

-- `assertAdministrationId`
unfoldable pub assert_administration_id : String → Result (Unit {0})
assert_administration_id id =
    if is_blank id
    then thrown (error "CAP messaging administration id must be a non-empty string")
    else ok tt

abbrev pub settled : Result (Unit {0}) → Action (Unit {0})
settled r w = (r, w)

abbrev pub is_requeued : RequeueOutcome → Bool
is_requeued requeued = true
is_requeued _ = false

-- The diagnostic of a requeue, from what its lookup found
unfoldable pub outbox_requeued :
    ℕ → Option PublishEvent → RequeueResult PublishStatus → Option OutboxRequeued
outbox_requeued at found r =
    if is_requeued r.outcome
    then Option.map
        (λ e. record { id = e.id; topic = e.topic; previous_status = r.previous_status; at = at })
        found
    else none

unfoldable pub inbox_requeued :
    ℕ → Option ReceivedEvent → RequeueResult ReceivedStatus → Option InboxRequeued
inbox_requeued at found r =
    if is_requeued r.outcome
    then Option.map
        (λ e. record {
          id = e.id;
          topic = e.topic;
          group = e.group;
          message_id = e.message_id;
          previous_status = r.previous_status;
          at = at;
        })
        found
    else none

module _ (env : Environment) (c : Config) where
  -- `captureOutboxRequeueMetadata`, when a diagnostics sink is there: a lookup that rejects finds nothing.
  unfoldable pub capture_outbox : String → Action (Option PublishEvent)
  capture_outbox id =
      if c.has_diagnostics
      then catch (outbox_call env (λ s. (find_publish_by_id id s, s))) (λ err. pure none)
      else pure none

  unfoldable pub capture_inbox : String → Action (Option ReceivedEvent)
  capture_inbox id =
      if c.has_diagnostics
      then catch (inbox_call env (λ b. (find_received_by_id id b, b))) (λ err. pure none)
      else pure none

  -- `requeueOutbox`
  unfoldable pub requeue_outbox :
      String → Action (RequeueResult PublishStatus × Option OutboxRequeued)
  requeue_outbox id = do
    settled (assert_administration_id id)
    at ← now env
    found ← capture_outbox id
    r ← outbox_call env (requeue_publish id at)
    pure (r, outbox_requeued at found r)

  -- `requeueInbox`
  unfoldable pub requeue_inbox :
      String → Action (RequeueResult ReceivedStatus × Option InboxRequeued)
  requeue_inbox id = do
    settled (assert_administration_id id)
    at ← now env
    found ← capture_inbox id
    r ← inbox_call env (requeue_received id at)
    pure (r, inbox_requeued at found r)

  -- `getMessagingSnapshot`: the copies of both snapshots
  unfoldable pub get_messaging_snapshot : Action (InboxSnapshot × OutboxSnapshot)
  get_messaging_snapshot = do
    inbox ← inbox_call env (λ b. (get_received_snapshot b, b))
    outbox ← outbox_call env (λ s. (get_publish_snapshot s, s))
    pure (inbox, outbox)

-- `CapSchedulerOptions`, and the instance id of the engine's options; a window is a natural number or another.
pub data Window : Type 0 where
  duration : ℕ → Window
  invalid : Window

pub record SchedulerOptions : Type 0 where
  pub batch_size : Option ℕ
  pub lease_ms : Option ℕ
  pub inbox_fallback_window_ms : Option Window
  pub max_retries : Option ℕ
  pub max_inbox_retries : Option ℕ
  pub instance_id : Option String
  pub disabled : Option Bool

abbrev pub default_inbox_fallback_window_ms : ℕ
default_inbox_fallback_window_ms = 240000

-- `resolveInboxFallbackWindowMs`
unfoldable pub resolve_inbox_fallback_window_ms : Option Window → Result ℕ
resolve_inbox_fallback_window_ms none = ok default_inbox_fallback_window_ms
resolve_inbox_fallback_window_ms (some (duration n)) = ok n
resolve_inbox_fallback_window_ms (some invalid) =
    thrown (error "scheduler.inboxFallbackWindowMs must be a finite non-negative number")

-- `resolveSchedulerOptions`; the sink and the renewal of claims are no scheduler options.
unfoldable pub resolve_scheduler_options :
    Option String → SchedulerOptions → Bool → Bool → Result Config
unfolding resolve_inbox_fallback_window_ms
resolve_scheduler_options instance_id o has_diagnostics has_renew =
    elim (resolve_inbox_fallback_window_ms o.inbox_fallback_window_ms) [
      | thrown e ↦ thrown e
      | ok window ↦ ok (record {
        batch_size = or_default o.batch_size 200;
        lease_ms = or_default o.lease_ms 30000;
        inbox_fallback_window_ms = window;
        max_retries = or_default o.max_retries 3;
        max_inbox_retries = or_default o.max_inbox_retries (or_default o.max_retries 3);
        instance_id = or_default instance_id (or_default o.instance_id "cap-engine-default");
        disabled = or_default o.disabled false;
        has_diagnostics = has_diagnostics;
        has_renew = has_renew;
      })
    ]
