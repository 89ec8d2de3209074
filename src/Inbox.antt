-- ===== src/Inbox.antt =====
-- The in-memory inbox storage, libs/cap-core/src/testing/in-memory-received-storage.ts.
-- The state is the class's two maps. A method that writes returns the state after the call; the copies
-- that a method makes of its events are the events. `Array.prototype.sort` is a stable sort, and
-- `localeCompare`, which the runtime's locale decides, is a parameter.
pub mod Admin
pub mod Dedupe
pub mod Due
pub mod Retry
pub mod Reports
use cap_nodejs.Prelude.{
  ℕ, ◌+◌, String, Bool, true, false, Option, none, some, List, [], ◌∷◌, keep, take, leb, ltb, ◌==◌,
  if◌then◌else◌, due_by, str_eq, join, or_default, not,
}
use cap_nodejs.JsValue.{Thrown, normalize_error}
use cap_nodejs.JsMap.{JsMap, get, set, update, values}
use cap_nodejs.Model.{
  ReceivedEvent, ReceivedStatus, MarkReceivedFailedOptions, RequeueResult, requeued, not_found,
  not_eligible, TrySaveReceivedResult,
}

pub record Inbox : Type 0 where
  pub store : JsMap ReceivedEvent
  pub dedupe : JsMap String

abbrev pub empty : Inbox
empty = record { store = []; dedupe = [] }

-- `dedupeIdentity`
unfoldable pub dedupe_identity : ReceivedEvent → String
dedupe_identity e = join e.group (join "|" e.dedupe_key)

-- `if (existingId)`: an empty text counts as no id.
abbrev pub truthy : Option String → Option String
truthy none = none
truthy (some s) = if str_eq s "" then none else some s

-- `trySaveReceived`
unfoldable pub try_save_received : ReceivedEvent → Inbox → TrySaveReceivedResult × Inbox
unfolding dedupe_identity
try_save_received e b = elim (truthy (get (dedupe_identity e) b.dedupe)) [
  | some existing ↦ (record { inserted = false; id = existing; event = get existing b.store }, b)
  | none ↦ (
    record { inserted = true; id = e.id; event = some e },
    record { store = set e.id e b.store; dedupe = set (dedupe_identity e) e.id b.dedupe },
  )
]

-- What `markProcessed` writes.
abbrev pub processed_by : ℕ → ReceivedEvent → ReceivedEvent
processed_by at e = record e {
  status = ReceivedStatus.processed;
  is_processed = true;
  processed_at = some at;
  next_retry = none;
}

-- `markProcessed`
unfoldable pub mark_processed : String → ℕ → Inbox → Inbox
mark_processed id at b = record b { store = update id (processed_by at) b.store }

-- The filter of `getRetryDue`
unfoldable pub is_due : ℕ → Option ℕ → ReceivedEvent → Bool
is_due now pending_before e = elim e.status [
  | ReceivedStatus.failed ↦ due_by e.next_retry now
  | ReceivedStatus.pending ↦ elim pending_before [
    | none ↦ false
    | some before ↦ leb e.occurred_at before
  ]
  | _ ↦ false
]

-- `leftTime`, `rightTime`: the time by which `getRetryDue` sorts.
unfoldable pub due_time : ReceivedEvent → ℕ
due_time e = elim e.status [
  | ReceivedStatus.failed ↦ or_default e.next_retry e.occurred_at
  | _ ↦ e.occurred_at
]

module _ (locale_le : String → String → Bool) where
  -- The comparison of `getRetryDue` is not positive.
  unfoldable pub not_after : ReceivedEvent → ReceivedEvent → Bool
  unfolding due_time
  not_after l r =
      if not (due_time l == due_time r)
      then ltb (due_time l) (due_time r)
      else if not (l.occurred_at == r.occurred_at)
      then ltb l.occurred_at r.occurred_at
      else locale_le l.id r.id

  unfoldable pub insert : ReceivedEvent → List ReceivedEvent → List ReceivedEvent
  unfolding not_after
  insert e [] = e ∷ []
  insert e (x ∷ xs) = if not_after e x then e ∷ x ∷ xs else x ∷ insert e xs

  unfoldable pub sort : List ReceivedEvent → List ReceivedEvent
  unfolding insert
  sort [] = []
  sort (e ∷ es) = insert e (sort es)

  -- `getRetryDue`
  unfoldable pub get_retry_due : ℕ → ℕ → Option ℕ → Inbox → List ReceivedEvent
  unfolding sort is_due
  get_retry_due limit now pending_before b =
      take limit (sort (keep (is_due now pending_before) (values b.store)))

-- What `markReceivedFailed` writes.
abbrev pub failed_once : Thrown → MarkReceivedFailedOptions → ReceivedEvent → ReceivedEvent
failed_once err o e =
    let dead = leb o.max_retries (e.retry_count + 1) in
    record e {
      retry_count = e.retry_count + 1;
      status = if dead then ReceivedStatus.dead_letter else ReceivedStatus.failed;
      next_retry = if dead then none else some o.next_retry_at;
      last_error = some (normalize_error err);
    }

-- `markReceivedFailed`
unfoldable pub mark_received_failed : String → Thrown → MarkReceivedFailedOptions → Inbox → Inbox
mark_received_failed id err o b = record b { store = update id (failed_once err o) b.store }

-- `findReceivedById`
unfoldable pub find_received_by_id : String → Inbox → Option ReceivedEvent
find_received_by_id id b = get id b.store

-- What `requeueReceived` writes.
abbrev pub requeued_at : ℕ → ReceivedEvent → ReceivedEvent
requeued_at now e = record e {
  status = ReceivedStatus.failed;
  retry_count = 0;
  last_error = none;
  next_retry = some now;
  is_processed = false;
  processed_at = none;
}

abbrev pub is_requeueable : ReceivedStatus → Bool
is_requeueable ReceivedStatus.failed = true
is_requeueable ReceivedStatus.dead_letter = true
is_requeueable _ = false

-- `requeueReceived`
unfoldable pub requeue_received : String → ℕ → Inbox → RequeueResult ReceivedStatus × Inbox
requeue_received id now b = elim (get id b.store) [
  | none ↦ (record { id = id; outcome = not_found; previous_status = none }, b)
  | some e ↦
      if is_requeueable e.status
      then (
        record { id = id; outcome = requeued; previous_status = some e.status },
        record b { store = update id (requeued_at now) b.store },
      )
      else (record { id = id; outcome = not_eligible; previous_status = some e.status }, b)
]
