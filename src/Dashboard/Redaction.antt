-- ===== src/Dashboard/Redaction.antt =====
-- What the dashboard shows of a stored message: `mapPublishToOutboxDto`, `mapReceivedToInboxDto`, `redactHeaders`,
-- `redactPayload` and `redactPath` of libs/cap-dashboard-core/src/dashboard.service.ts.
-- A payload is a JSON value, of which `structuredCloneSafe` makes an equal copy. A configured path is taken to name own
-- properties of objects and indices of arrays only: a part that is a name objects inherit (`head in record` accepts
-- it), or the `length` of an array (writing it throws a RangeError), is not modelled. `show_index` is `String(i)` of an array index, `lower` is `toLowerCase`.
pub mod Hidden
pub mod HeaderNames
use cap_nodejs.Prelude.{
  ℕ, suc, String, Bool, true, false, not, ◌&&◌, ◌||◌, Option, none, some, List, [], ◌∷◌,
  if◌then◌else◌, map, str_eq,
}
use mathlib.Core.Option
use cap_nodejs.JsValue.{Value, Items, Fields, nil, cons, end, field, HeaderValue, Headers, text}
use cap_nodejs.JsMap.{JsMap}
use cap_nodejs.Text.{split_dots}
use cap_nodejs.Model.{PublishEvent, PublishStatus, ReceivedEvent, ReceivedStatus}

pub record RedactOptions : Type 0 where
  pub headers : List String
  pub payload_paths : List String

abbrev pub redacted : String
redacted = "[redacted]"

-- A write to the own property of a name, where there is one
unfoldable pub on_field : String → (Value → Value) → Fields → Fields
on_field key f end = end
on_field key f (field k v fs) =
    if str_eq k key then field k (f v) fs else field k v (on_field key f fs)

module _ (show_index : ℕ → String) where
  unfoldable pub on_index : ℕ → String → (Value → Value) → Items → Items
  on_index i key f nil = nil
  on_index i key f (cons v xs) =
      if str_eq (show_index i) key then cons (f v) xs else cons v (on_index (suc i) key f xs)

  -- The write to `record[head]`, or the step into it, where there is an own property or an index of that name
  unfoldable pub on_key : String → (Value → Value) → Value → Value
  unfolding on_field on_index
  on_key key f (Value.object plain fs) =
      if str_eq key "" then Value.object plain fs else Value.object plain (on_field key f fs)
  on_key key f (Value.array xs) =
      if str_eq key "" then Value.array xs else Value.array (on_index 0 key f xs)
  on_key key f v = v

  -- `redactPath`
  unfoldable pub redact_path : List String → Value → Value
  unfolding on_key
  redact_path [] v = v
  redact_path (head ∷ []) v = on_key head (λ _. Value.string redacted) v
  redact_path (head ∷ (next ∷ tail)) v = on_key head (redact_path (next ∷ tail)) v

  unfoldable pub redact_paths : List String → Value → Value
  unfolding redact_path
  redact_paths [] v = v
  redact_paths (path ∷ paths) v = redact_paths paths (redact_path (split_dots path) v)

  abbrev pub is_object : Value → Bool
  is_object (Value.object plain fs) = true
  is_object (Value.array xs) = true
  is_object _ = false

  -- `redactPayload`
  unfoldable pub redact_payload : List String → Value → Value
  unfolding redact_paths
  redact_payload paths v = if is_object v then redact_paths paths v else v

module _ (lower : String → String) where
  -- `sensitive.has(key.toLowerCase())`
  unfoldable pub is_sensitive : List String → String → Bool
  is_sensitive [] key = false
  is_sensitive (h ∷ hs) key = str_eq (lower h) (lower key) || is_sensitive hs key

  -- `redactHeaders`
  unfoldable pub redact_headers : List String → Headers → Headers
  unfolding is_sensitive
  redact_headers sensitive =
      map λ (key, value). (key, if is_sensitive sensitive key then text redacted else value)

-- `OutboxItemDto`; the preview is the value whose JSON text is cut to 300 characters.
pub record OutboxItem : Type 0 where
  pub id : String
  pub topic : String
  pub status : PublishStatus
  pub retry_count : ℕ
  pub occurred_at : ℕ
  pub payload_preview : Option Value
  pub payload : Option Value
  pub headers : Option Headers

-- `InboxItemDto`
pub record InboxItem : Type 0 where
  pub id : String
  pub topic : String
  pub message_id : String
  pub dedupe_key : String
  pub status : ReceivedStatus
  pub processed : Bool
  pub retry_count : ℕ
  pub last_error : Option String
  pub next_retry : Option ℕ
  pub processed_at : Option ℕ
  pub payload_preview : Option Value
  pub payload : Option Value
  pub headers : Option Headers

-- Whether a JSON value counts as true
abbrev pub is_truthy : Value → Bool
is_truthy Value.undefined = false
is_truthy Value.null = false
is_truthy (Value.boolean b) = b
is_truthy (Value.number n) = not (str_eq n "0" || str_eq n "NaN")
is_truthy (Value.string s) = not (str_eq s "")
is_truthy _ = true

module _ (show_index : ℕ → String) (lower : String → String) (o : RedactOptions) where
  abbrev pub preview : Bool → Value → Option Value
  preview full v = if not full && is_truthy v then some v else none

  -- `mapPublishToOutboxDto`
  unfoldable pub map_publish_to_outbox_dto : PublishEvent → Bool → OutboxItem
  unfolding redact_payload redact_headers
  map_publish_to_outbox_dto e full =
      let payload = redact_payload show_index o.payload_paths e.payload in
      record {
        id = e.id;
        topic = e.topic;
        status = e.status;
        retry_count = e.retry_count;
        occurred_at = e.occurred_at;
        payload_preview = preview full payload;
        payload = if full then some payload else none;
        headers = if full then Option.map (redact_headers lower o.headers) e.headers else none;
      }

  -- `mapReceivedToInboxDto`
  unfoldable pub map_received_to_inbox_dto : ReceivedEvent → Bool → InboxItem
  unfolding redact_payload redact_headers
  map_received_to_inbox_dto e full =
      let payload = redact_payload show_index o.payload_paths e.payload in
      record {
        id = e.id;
        topic = e.topic;
        message_id = e.message_id;
        dedupe_key = e.dedupe_key;
        status = e.status;
        processed = e.is_processed;
        retry_count = e.retry_count;
        last_error = e.last_error;
        next_retry = e.next_retry;
        processed_at = e.processed_at;
        payload_preview = preview full payload;
        payload = if full then some payload else none;
        headers = if full then Option.map (redact_headers lower o.headers) e.headers else none;
      }
