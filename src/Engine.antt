-- ===== src/Engine.antt =====
-- The message paths of `CapEngine`, libs/cap-core/src/engine/cap-engine.ts, over the in-memory storages.
-- A method is a computation on the `World`, which ends with a value or with a thrown one. Whatever the
-- engine does not decide comes from an `Environment`, asked at numbered moments: the clock, new ids, the
-- random part of a delay, the broker's and the handler's answers, storage calls that reject, and what other
-- processes do to the storages while the engine waits; also the runtime's `String(v)` and `localeCompare`.
pub mod Outgoing
pub mod Administration
pub mod Incoming
pub use cap_nodejs.Effect.{Effect, Result, ok, thrown, pure, ◌>>=◌, ◌>>◌, catch, done, attempt}
use cap_nodejs.Prelude.{
  ℕ, suc, ◌+◌, String, Bool, true, false, Option, none, some, List, [], ◌∷◌, ◌++◌, if◌then◌else◌,
  or_default,
}
use cap_nodejs.JsValue.{Value, HeaderValue, Headers, Thrown, text}
use cap_nodejs.JsMap.{set}
use cap_nodejs.Model.{PublishEvent, PublishStatus, ReceivedStatus}
use cap_nodejs.Backoff.{exp_jitter, default_base_ms, default_max_ms}
use cap_nodejs.Outbox.{Store}
use cap_nodejs.Inbox.{Inbox}

pub record Environment : Type 0 where
  pub clock : ℕ → ℕ
  pub uuid : ℕ → String
  pub random : ℕ → ℕ
  pub broker : ℕ → Option Thrown
  pub handler : ℕ → Option Thrown
  pub fault : ℕ → Option Thrown
  pub heartbeats : ℕ → ℕ
  pub others_outbox : ℕ → Store → Store
  pub others_inbox : ℕ → Inbox → Inbox
  pub string_of : Value → String
  pub locale_le : String → String → Bool

-- A call of a handler: the topic and the group that it was registered for, and what it was given
pub record Handling : Type 0 where
  pub topic : String
  pub group : String
  pub payload : Value
  pub headers : Option Headers

-- `ResolvedCapEngineSchedulerOptions`; whether a diagnostics sink is there, and whether the storage has
-- `renewPublishClaim`.
pub record Config : Type 0 where
  pub batch_size : ℕ
  pub lease_ms : ℕ
  pub inbox_fallback_window_ms : ℕ
  pub max_retries : ℕ
  pub max_inbox_retries : ℕ
  pub instance_id : String
  pub disabled : Bool
  pub has_diagnostics : Bool
  pub has_renew : Bool

-- What `publisher.emit` was given.
pub record Emission : Type 0 where
  pub topic : String
  pub payload : Value
  pub headers : Headers
  pub message_id : String

pub data DiagnosticKind : Type 0 where
  outbox_published outbox_failed outbox_dead_lettered outbox_retried : DiagnosticKind
  inbox_processed inbox_failed inbox_dead_lettered inbox_retried : DiagnosticKind

-- `CapMessagingDiagnosticEvent`, the fields that the engine decides
pub record Diagnostic : Type 0 where
  pub kind : DiagnosticKind
  pub id : String
  pub topic : String
  pub retry_count : ℕ
  pub error : Option String
  pub next_retry_at : Option ℕ
  pub at : ℕ

pub record World : Type 0 where
  pub moment : ℕ
  pub outbox : Store
  pub inbox : Inbox
  pub emissions : List Emission
  pub handled : List Handling
  pub diagnostics : List Diagnostic

abbrev pub Action : Type 0 → Type 0
Action = Effect World

-- Asks the environment, and goes on to the next moment.
abbrev pub ask : {A : Type 0} → (ℕ → A) → Action A
ask f w = (ok (f w.moment), record w { moment = suc w.moment })

module _ (env : Environment) where
  open env use {clock, random, fault, others_outbox, others_inbox}

  -- `this.now()`
  abbrev pub now : Action ℕ
  now = ask clock

  -- `expJitter(attempt)`
  abbrev pub jitter : ℕ → Action ℕ
  jitter attempt = ask λ n. exp_jitter attempt default_base_ms default_max_ms (random n)

  -- A call of the outbox storage: others come first, then the call rejects or is made.
  abbrev pub outbox_call : {A : Type 0} → (Store → A × Store) → Action A
  outbox_call f w =
      let s = others_outbox w.moment w.outbox in
      let (a, t) = f s in
      elim (fault w.moment) [
        | none ↦ (ok a, record w { moment = suc w.moment; outbox = t })
        | some e ↦ (thrown e, record w { moment = suc w.moment; outbox = s })
      ]

  -- A call of the inbox storage
  abbrev pub inbox_call : {A : Type 0} → (Inbox → A × Inbox) → Action A
  inbox_call f w =
      let b = others_inbox w.moment w.inbox in
      let (a, t) = f b in
      elim (fault w.moment) [
        | none ↦ (ok a, record w { moment = suc w.moment; inbox = t })
        | some e ↦ (thrown e, record w { moment = suc w.moment; inbox = b })
      ]

-- `emitDiagnostic`: what the sink throws is swallowed.
abbrev pub emit_diagnostic : Config → Diagnostic → Action (Unit {0})
emit_diagnostic c d w =
    (ok tt, if c.has_diagnostics then record w { diagnostics = w.diagnostics ++ d ∷ [] } else w)

-- `withCapMessageId`
unfoldable pub with_cap_message_id : Option Headers → String → Headers
with_cap_message_id headers id = set "cap-message-id" (text id) (or_default headers [])
