-- ===== src/Model.antt =====
-- The data models of libs/cap-core/src/models and the option types of libs/cap-core/src/ports.
-- An instant is its milliseconds since the earliest date that JavaScript represents, and an ISO text
-- (`occurredAt`) is the instant that it denotes.
use cap_nodejs.Prelude.{ℕ, String, Bool, Option, List}
use cap_nodejs.JsValue.{Value, Headers}

pub data PublishStatus : Type 0 where
  pending processing published failed dead_letter : PublishStatus

pub data ReceivedStatus : Type 0 where
  pending processing processed failed dead_letter : ReceivedStatus

pub record PublishEvent : Type 0 where
  pub id : String
  pub topic : String
  pub occurred_at : ℕ
  pub payload : Value
  pub headers : Option Headers
  pub retry_count : ℕ
  pub status : PublishStatus
  pub next_retry_at : Option ℕ
  pub last_error : Option String
  pub locked_by : Option String
  pub locked_until : Option ℕ
  pub published_at : Option ℕ

pub record ReceivedEvent : Type 0 where
  pub id : String
  pub topic : String
  pub group : String
  pub message_id : String
  pub dedupe_key : String
  pub occurred_at : ℕ
  pub payload : Value
  pub headers : Option Headers
  pub retry_count : ℕ
  pub status : ReceivedStatus
  pub is_processed : Bool
  pub last_error : Option String
  pub processed_at : Option ℕ
  pub next_retry : Option ℕ

pub data RequeueOutcome : Type 0 where
  requeued not_found not_eligible : RequeueOutcome

pub record RequeueResult (S : Type 0) : Type 0 where
  pub id : String
  pub outcome : RequeueOutcome
  pub previous_status : Option S

-- `CapOutboxStatusCounts`
pub record OutboxStatusCounts : Type 0 where
  pub pending : ℕ
  pub processing : ℕ
  pub published : ℕ
  pub failed : ℕ
  pub dead_letter : ℕ

-- `CapInboxStatusCounts`
pub record InboxStatusCounts : Type 0 where
  pub pending : ℕ
  pub processing : ℕ
  pub processed : ℕ
  pub failed : ℕ
  pub dead_letter : ℕ

-- `CapOutboxSnapshot`, `CapInboxSnapshot`
pub record OutboxSnapshot : Type 0 where
  pub counts : OutboxStatusCounts
  pub oldest_pending_at : Option ℕ
  pub oldest_failed_at : Option ℕ

pub record InboxSnapshot : Type 0 where
  pub counts : InboxStatusCounts
  pub oldest_pending_at : Option ℕ
  pub oldest_failed_at : Option ℕ

-- ports/publish-storage.port.ts
pub record ClaimUnpublishedOptions : Type 0 where
  pub limit : ℕ
  pub locked_by : String
  pub lock_until : ℕ
  pub now : ℕ

pub record MarkPublishFailedOptions : Type 0 where
  pub max_retries : ℕ
  pub next_retry_at : ℕ
  pub now : ℕ
  pub expected_locked_by : Option String

pub record RenewPublishClaimOptions : Type 0 where
  pub id : String
  pub expected_locked_by : String
  pub lock_until : ℕ
  pub now : ℕ

-- ports/received-storage.port.ts
pub record MarkReceivedFailedOptions : Type 0 where
  pub max_retries : ℕ
  pub next_retry_at : ℕ
  pub now : ℕ

pub record TrySaveReceivedResult : Type 0 where
  pub inserted : Bool
  pub id : String
  pub event : Option ReceivedEvent

-- ports/dashboard-list.port.ts, as the in-memory storages read it
pub record ListPublishOptions : Type 0 where
  pub limit : Option ℕ
  pub offset : Option ℕ
  pub topic : Option String
  pub only_unpublished : Bool

pub record ListReceivedOptions : Type 0 where
  pub limit : Option ℕ
  pub offset : Option ℕ
  pub topic : Option String
  pub due : Bool

pub record Page (A : Type 0) : Type 0 where
  pub items : List A
  pub total : ℕ
