-- ===== src/Engine/Incoming.antt =====
-- Incoming messages: the consume callback of `attachSubscription`, `persistReceived`, `tryHandle`,
-- `retryReceived` and `retryInboxBatch` of cap-engine.ts, with libs/cap-core/src/utils/dedupe-key.util.ts.
-- The subscriptions map may change while a batch runs, so it is given for each moment. Log lines are left
-- out, and with them the flag that the deprecation warning has been logged.
pub mod Handler
pub mod Delivery
pub mod Batch
use cap_nodejs.Prelude.{
  ℕ, suc, ◌+◌, ◌-◌, String, Bool, true, false, not, Option, none, some, List, [], ◌∷◌, ◌++◌,
  if◌then◌else◌, join, leb, length, is_some, or_default,
}
use mathlib.Core.Option
use cap_nodejs.JsValue.{
  Value, HeaderValue, Headers, text, numeric, flag, instant, Thrown, error, normalize_error,
}
use cap_nodejs.JsMap.{JsMap, get}
use cap_nodejs.Model.{ReceivedEvent, ReceivedStatus, TrySaveReceivedResult}
use cap_nodejs.Envelope.{EnvelopeError, Decoding, LegacyMode, DecodedMessage, decode_cap_message}
use cap_nodejs.Inbox.{Inbox, try_save_received, mark_processed, mark_received_failed, get_retry_due}
use cap_nodejs.Subscriptions.{Subscription, subscription_key}
use cap_nodejs.Engine.{
  Environment, Config, World, Result, ok, thrown, Action, pure, ◌>>=◌, ◌>>◌, catch, done, ask, now,
  jitter, inbox_call, emit_diagnostic, Diagnostic, DiagnosticKind,
}

-- `SubscribeMetadata`
pub record Metadata : Type 0 where
  pub message_id : Option String
  pub dedupe_key : Option String

-- `createDedupeKey`
unfoldable pub create_dedupe_key : String → String → String → String
create_dedupe_key topic group message_id = join topic (join "|" (join group (join "|" message_id)))

abbrev pub inbox_diagnostic :
    DiagnosticKind → ReceivedEvent → Option String → Option ℕ → ℕ → Diagnostic
inbox_diagnostic kind rec err next at = record {
  kind = kind;
  id = rec.id;
  topic = rec.topic;
  retry_count = rec.retry_count;
  error = err;
  next_retry_at = next;
  at = at;
}

abbrev pub is_dead_letter : ReceivedStatus → Bool
is_dead_letter ReceivedStatus.dead_letter = true
is_dead_letter _ = false

-- `emitInboxFailureDiagnostic`
unfoldable pub emit_inbox_failure_diagnostic : Config → ReceivedEvent → ℕ → Action (Unit {0})
emit_inbox_failure_diagnostic c rec at =
    let err = some (or_default rec.last_error "") in
    if is_dead_letter rec.status
    then emit_diagnostic c (inbox_diagnostic DiagnosticKind.inbox_dead_lettered rec err none at)
    else emit_diagnostic c (
        inbox_diagnostic DiagnosticKind.inbox_failed rec err (some (or_default rec.next_retry at))
          at)

module _ (env : Environment) where
  -- `String(value)` of a header
  abbrev pub header_string : HeaderValue → String
  header_string (text s) = s
  header_string (numeric n) = n
  header_string (flag true) = "true"
  header_string (flag false) = "false"
  header_string (instant t) = env.string_of (Value.date t)

  -- `getCapMessageId`
  unfoldable pub get_cap_message_id : Option Headers → Option String
  get_cap_message_id none = none
  get_cap_message_id (some hs) = Option.map header_string (get "cap-message-id" hs)

  -- The message of a refused envelope's error
  abbrev pub envelope_error : EnvelopeError → Thrown
  envelope_error (EnvelopeError.unsupported_version v) =
      error (join "Unsupported CAP message envelope version: " (env.string_of v))
  envelope_error (EnvelopeError.malformed reason) =
      error (join "Malformed CAP message envelope: " reason)
  envelope_error EnvelopeError.legacy_rejected =
      error
        "Legacy unversioned CAP message envelopes are rejected. Use createCapMessageEnvelope() or configure messageEnvelope.legacyUnversioned."

  -- `metadata?.messageId ?? getCapMessageId(decoded.headers)`
  abbrev pub known_message_id : Metadata → Option Headers → Option String
  known_message_id md hs = elim md.message_id [ some m ↦ some m | none ↦ get_cap_message_id hs ]

  -- The event that `persistReceived` saves, with `id` and `at` from the generator and the clock
  abbrev pub received_event :
      String → String → Metadata → DecodedMessage → String → String → ℕ → ReceivedEvent
  received_event topic group md decoded message_id id at = record {
    id = id;
    topic = topic;
    group = group;
    message_id = message_id;
    dedupe_key = or_default md.dedupe_key (create_dedupe_key topic group message_id);
    occurred_at = at;
    payload = decoded.payload;
    headers = decoded.headers;
    retry_count = 0;
    status = ReceivedStatus.pending;
    is_processed = false;
    last_error = none;
    processed_at = none;
    next_retry = none;
  }

  -- `persistReceived`
  unfoldable pub persist_received :
      LegacyMode
      → String
      → String
      → Value
      → Option Headers
      → Metadata
      → Action TrySaveReceivedResult
  persist_received mode topic group payload headers md =
      elim (decode_cap_message payload headers mode) [
        | Decoding.err e ↦ λ w. (thrown (envelope_error e), w)
        | Decoding.ok decoded ↦ (do
          message_id ← elim (known_message_id md decoded.headers) [
            | some m ↦ pure m
            | none ↦ ask env.uuid
          ]
          id ← ask env.uuid
          at ← now env
          inbox_call env
              (try_save_received (received_event topic group md decoded message_id id at)))
      ]

module _ (env : Environment) (c : Config) where
  -- `handler(rec.payload, rec.headers)`, of the handler that was registered for a topic and a group
  unfoldable pub handle : String → String → ReceivedEvent → Action (Unit {0})
  handle topic group rec w =
      let v : World = record w {
        moment = suc w.moment;
        handled =
            w.handled
            ++ record { topic = topic; group = group; payload = rec.payload; headers = rec.headers }
              ∷ [];
      } in
      elim (env.handler w.moment) [ none ↦ (ok tt, v) | some err ↦ (thrown err, v) ]

  -- `tryHandle` after the handler; the result is `rec` as the method leaves it.
  unfoldable pub handle_succeeded : ReceivedEvent → Action ReceivedEvent
  handle_succeeded rec = do
    at ← now env
    inbox_call env (λ b. (tt, mark_processed rec.id at b))
    let after : ReceivedEvent = record rec {
      status = ReceivedStatus.processed;
      is_processed = true;
      processed_at = some at;
      next_retry = none;
    }
    emit_diagnostic c (inbox_diagnostic DiagnosticKind.inbox_processed after none none at)
    pure after

  -- The `catch` of `tryHandle`
  unfoldable pub handle_failed : ReceivedEvent → Thrown → Action ReceivedEvent
  handle_failed rec err = do
    delay ← jitter env rec.retry_count
    at ← now env
    inbox_call env (λ b. (
      tt,
      mark_received_failed rec.id err
          (record { max_retries = c.max_inbox_retries; next_retry_at = at + delay; now = at }) b,
    ))
    let dead = leb c.max_inbox_retries (rec.retry_count + 1)
    let after : ReceivedEvent = record rec {
      retry_count = rec.retry_count + 1;
      status = if dead then ReceivedStatus.dead_letter else ReceivedStatus.failed;
      next_retry = if dead then none else some (at + delay);
      last_error = some (normalize_error err);
    }
    emit_inbox_failure_diagnostic c after at
    pure after

  -- `tryHandle`, with the handler that was registered for a topic and a group
  unfoldable pub try_handle : String → String → ReceivedEvent → Action ReceivedEvent
  try_handle topic group rec =
      catch (handle topic group rec >> handle_succeeded rec) (handle_failed rec)

  -- The callback that `attachSubscription` gives to `consume`
  unfoldable pub deliver :
      LegacyMode → String → String → Value → Option Headers → Metadata → Action (Unit {0})
  deliver mode topic group msg headers md = do
    saved ← persist_received env mode topic group msg headers md
    if not saved.inserted
        then done
        else elim saved.event [ none ↦ done | some e ↦ try_handle topic group e >> done ]

  module _ (subscriptions : ℕ → JsMap Subscription) where
    abbrev pub has_handler : ℕ → ReceivedEvent → Bool
    has_handler n rec = is_some (get (subscription_key rec.topic rec.group) (subscriptions n))

    -- `retryReceived`: the handler is that of the subscription under the event's key.
    unfoldable pub retry_received : ReceivedEvent → Action (Unit {0})
    retry_received rec w =
        elim (get (subscription_key rec.topic rec.group) (subscriptions w.moment)) [
          | none ↦ done w
          | some sub ↦ (try_handle sub.topic sub.group rec >> done) w
        ]

    -- The `inbox.retried` diagnostic of `retryInboxBatch`
    unfoldable pub report_retried : ℕ → ReceivedEvent → Action (Unit {0})
    report_retried at rec w =
        (if has_handler w.moment rec
            then emit_diagnostic c (inbox_diagnostic DiagnosticKind.inbox_retried rec none none at)
            else done)
          w

    -- The loop of `retryInboxBatch`
    unfoldable pub retry_batch : ℕ → List ReceivedEvent → Action (Unit {0})
    retry_batch at [] w = (ok tt, w)
    retry_batch at (rec ∷ recs) w =
        let (r, v) = (report_retried at rec >> retry_received rec) w in
        elim r [ ok _ ↦ retry_batch at recs v | thrown err ↦ (thrown err, v) ]

    -- `retryInboxBatch`; before the earliest date there is no instant, and no event is due by it.
    unfoldable pub retry_inbox_batch : Action ℕ
    retry_inbox_batch = if c.disabled then pure 0 else do
      at ← now env
      let before =
          if leb c.inbox_fallback_window_ms at then some (at - c.inbox_fallback_window_ms) else none
      batch ← inbox_call env (λ b. (get_retry_due env.locale_le c.batch_size at before b, b))
      retry_batch at batch
      pure (length batch)
