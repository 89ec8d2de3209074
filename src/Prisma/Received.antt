-- ===== src/Prisma/Received.antt =====
-- The writes of the inbox storage on Prisma to one message, libs/cap-storage-prisma/src/prisma-received-storage.ts.
-- `markReceivedFailed` reads the row before it writes, so that its two statements are two steps.
pub mod LostUpdate
use cap_nodejs.Prelude.{
  ℕ, suc, ◌+◌, String, Bool, true, false, ◌&&◌, Option, none, some, List, [], ◌∷◌, leb,
  if◌then◌else◌, str_eq,
}
use cap_nodejs.JsValue.{Value, Headers, Thrown, normalize_error}
use cap_nodejs.Model.{
  ReceivedEvent, ReceivedStatus, MarkReceivedFailedOptions, RequeueResult, requeued, not_found,
  not_eligible,
}
use cap_nodejs.Inbox.{is_requeueable}
use cap_nodejs.Sql.{Assignment, Update}

pub record ReceivedRow : Type 0 where
  pub id : String
  pub topic : String
  pub group : String
  pub message_id : String
  pub dedupe_key : String
  pub payload : String
  pub headers : Option String
  pub is_processed : Bool
  pub retry_count : ℕ
  pub status : ReceivedStatus
  pub last_error : Option String
  pub next_retry : Option ℕ
  pub processed_at : Option ℕ
  pub created_at : ℕ
  pub updated_at : ℕ

abbrev pub ReceivedTable : Type 0
ReceivedTable = List ReceivedRow

-- `mapReceivedRow`
unfoldable pub map_received_row :
    (String → Value) → (String → Headers) → ReceivedRow → ReceivedEvent
map_received_row parse parse_headers r = record {
  id = r.id;
  topic = r.topic;
  group = r.group;
  message_id = r.message_id;
  dedupe_key = r.dedupe_key;
  occurred_at = r.created_at;
  payload = parse r.payload;
  headers = elim r.headers [ none ↦ none | some text ↦ some (parse_headers text) ];
  retry_count = r.retry_count;
  status = r.status;
  is_processed = r.is_processed;
  last_error = r.last_error;
  processed_at = r.processed_at;
  next_retry = r.next_retry;
}

-- The SET clause of `markProcessed`
abbrev pub set_processed : ℕ → Assignment ReceivedRow
set_processed at old r = record r {
  status = ReceivedStatus.processed;
  is_processed = true;
  processed_at = some at;
  next_retry = none;
  updated_at = at;
}

-- The statement of `markProcessed`
unfoldable pub processed_update : String → ℕ → Update ReceivedRow
processed_update id at = record {
  assignments = set_processed at ∷ [];
  condition = λ r. str_eq r.id id;
}

-- The SET clause of `markReceivedFailed`, whose values come from the row `seen` that was read before
abbrev pub set_failure : Thrown → MarkReceivedFailedOptions → ReceivedRow → Assignment ReceivedRow
set_failure err o seen old r =
    let dead = leb o.max_retries (seen.retry_count + 1) in
    record r {
      retry_count = seen.retry_count + 1;
      status = if dead then ReceivedStatus.dead_letter else ReceivedStatus.failed;
      next_retry = if dead then none else some o.next_retry_at;
      last_error = some (normalize_error err);
      updated_at = o.now;
    }

-- The UPDATE of `markReceivedFailed`
unfoldable pub failure_update :
    String → Thrown → MarkReceivedFailedOptions → ReceivedRow → Update ReceivedRow
failure_update id err o seen = record {
  assignments = set_failure err o seen ∷ [];
  condition = λ r. str_eq r.id id;
}

-- `findReceivedRowById`
abbrev pub find_received_row : String → ReceivedTable → Option ReceivedRow
find_received_row id [] = none
find_received_row id (r ∷ t) = if str_eq r.id id then some r else find_received_row id t

module _ (execute : Update ReceivedRow → ReceivedTable → ℕ × ReceivedTable) where
  -- `markProcessed`
  unfoldable pub mark_processed : String → ℕ → ReceivedTable → ReceivedTable
  mark_processed id at t = (execute (processed_update id at) t).1

  -- The write of `markReceivedFailed`, after its read has found `seen`
  unfoldable pub write_failure :
      String
      → Thrown
      → MarkReceivedFailedOptions
      → Option ReceivedRow
      → ReceivedTable
      → ReceivedTable
  write_failure id err o none t = t
  write_failure id err o (some seen) t = (execute (failure_update id err o seen) t).1

  -- `markReceivedFailed`, with no other write between its read and its own
  unfoldable pub mark_received_failed :
      String → Thrown → MarkReceivedFailedOptions → ReceivedTable → ReceivedTable
  unfolding write_failure
  mark_received_failed id err o t = write_failure id err o (find_received_row id t) t
