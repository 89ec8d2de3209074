-- ===== src/Engine/Outgoing.antt =====
-- Outgoing messages: `publish`, `emitPersistedEvent`, `emitClaimedOutboxEvent`, `renewClaim`,
-- `dispatchOutboxBatch` of cap-engine.ts, and `runWithActiveLeaseHeartbeat` of
-- libs/cap-core/src/utils/active-lease-heartbeat.util.ts. Log lines are left out.
pub mod Frame
pub mod Delivery
pub mod Batch
pub mod Publish
use cap_nodejs.Prelude.{
  ℕ, zero, suc, ◌+◌, String, Bool, true, false, not, ◌&&◌, ◌||◌, Option, none, some, List, [], ◌∷◌,
  ◌++◌, if◌then◌else◌, join, leb, ltb, opt_eq, length,
}
use cap_nodejs.JsValue.{Value, Headers, Thrown, normalize_error}
use cap_nodejs.Model.{PublishEvent, PublishStatus}
use cap_nodejs.Outbox.{
  Store, save_publish, claim_unpublished, mark_published, mark_publish_failed, renew_publish_claim,
  release_expired_claims,
}
use cap_nodejs.Engine.{
  Environment, Config, World, Result, ok, thrown, Action, attempt, pure, ◌>>=◌, ◌>>◌, catch, done,
  ask, now, jitter, outbox_call, emit_diagnostic, with_cap_message_id, Diagnostic, DiagnosticKind,
  Emission,
}

abbrev pub outbox_diagnostic :
    DiagnosticKind → PublishEvent → ℕ → Option String → Option ℕ → ℕ → Diagnostic
outbox_diagnostic kind e retry_count err next at = record {
  kind = kind;
  id = e.id;
  topic = e.topic;
  retry_count = retry_count;
  error = err;
  next_retry_at = next;
  at = at;
}

-- `emitOutboxFailureDiagnostic`
unfoldable pub emit_outbox_failure_diagnostic :
    Config → PublishEvent → Thrown → ℕ → ℕ → ℕ → Action (Unit {0})
emit_outbox_failure_diagnostic c e err retry_count next at =
    if leb c.max_retries retry_count
    then emit_diagnostic c (
        outbox_diagnostic DiagnosticKind.outbox_dead_lettered e retry_count
          (some (normalize_error err)) none at)
    else emit_diagnostic c (
        outbox_diagnostic DiagnosticKind.outbox_failed e retry_count (some (normalize_error err))
          (some next) at)

module _ (env : Environment) (c : Config) where
  -- `publisher.emit`: the message leaves, or the broker refuses it.
  unfoldable pub emit : PublishEvent → Action (Unit {0})
  emit e w = elim (env.broker w.moment) [
    | some err ↦ (thrown err, record w { moment = suc w.moment })
    | none ↦ (
      ok tt,
      record w {
        moment = suc w.moment;
        emissions =
            w.emissions
            ++ record {
              topic = e.topic;
              payload = e.payload;
              headers = with_cap_message_id e.headers e.id;
              message_id = e.id;
            }
              ∷ [];
      },
    )
  ]

  -- The `catch` of `emitPersistedEvent`
  unfoldable pub emit_failed : PublishEvent → Option String → Thrown → Action (Unit {0})
  unfolding emit_outbox_failure_diagnostic
  emit_failed e owner err = do
    at ← now env
    delay ← jitter env e.retry_count
    failed ← outbox_call env (
        mark_publish_failed e.id err (record {
          max_retries = c.max_retries;
          next_retry_at = at + delay;
          now = at;
          expected_locked_by = owner;
        }))
    if failed
        then emit_outbox_failure_diagnostic c e err (e.retry_count + 1) (at + delay) at
        else done

  -- The write and the diagnostic that follow a successful emission
  unfoldable pub emit_succeeded : PublishEvent → Option String → Action (Unit {0})
  emit_succeeded e owner = do
    at ← now env
    completed ← outbox_call env (mark_published e.id at owner)
    if completed
        then emit_diagnostic c
            (outbox_diagnostic DiagnosticKind.outbox_published e e.retry_count none none at)
        else done

  -- `emitPersistedEvent`
  unfoldable pub emit_persisted_event : PublishEvent → Action (Unit {0})
  emit_persisted_event e = catch (emit e >> emit_succeeded e none) (emit_failed e none)

  -- `renewClaim`: a storage that rejects counts as a lost claim.
  unfoldable pub renew_claim : PublishEvent → String → Action Bool
  renew_claim e owner =
      if not c.has_renew
      then pure true
      else (now env >>= λ at.
          catch
            (outbox_call env (
              renew_publish_claim (record {
                id = e.id;
                expected_locked_by = owner;
                lock_until = at + c.lease_ms;
                now = at;
              })))
            (λ err. pure false))

  -- The renewals of `runWithActiveLeaseHeartbeat` while the operation is in flight: after one that failed none
  -- is scheduled. The result says whether ownership was lost.
  unfoldable pub heartbeat : ℕ → PublishEvent → String → Action Bool
  heartbeat zero e owner w = (ok false, w)
  heartbeat (suc n) e owner w =
      let (r, v) = renew_claim e owner w in
      elim r [
        | ok true ↦ heartbeat n e owner v
        | ok false ↦ (ok true, v)
        | thrown err ↦ (ok true, v)
      ]

  -- `runWithActiveLeaseHeartbeat` of the emission: its result, and whether ownership was lost. `operation()`
  -- runs first; the renewals come while its promise is pending.
  unfoldable pub emit_with_heartbeat : PublishEvent → String → Action (Option Thrown × Bool)
  emit_with_heartbeat e owner = do
    result ← attempt (emit e)
    beats ← ask env.heartbeats
    lost ← heartbeat (if c.has_renew then beats else 0) e owner
    pure (result, lost)

  -- `emitClaimedOutboxEvent` after the emission
  unfoldable pub settle_claimed : PublishEvent → String → Option Thrown × Bool → Action (Unit {0})
  settle_claimed e owner (result, true) = done
  settle_claimed e owner (some err, false) = emit_failed e (some owner) err
  settle_claimed e owner (none, false) = emit_succeeded e (some owner)

  -- The `outbox.retried` diagnostic of `emitClaimedOutboxEvent`
  unfoldable pub report_retry : PublishEvent → Action (Unit {0})
  report_retry e =
      if ltb 0 e.retry_count
      then (now env >>= λ at.
          emit_diagnostic c
            (outbox_diagnostic DiagnosticKind.outbox_retried e e.retry_count none none at))
      else done

  -- `emitClaimedOutboxEvent`
  unfoldable pub emit_claimed_outbox_event : PublishEvent → String → Action (Unit {0})
  emit_claimed_outbox_event e owner = do
    renewed ← renew_claim e owner
    if renewed
        then (report_retry e >> (emit_with_heartbeat e owner >>= settle_claimed e owner))
        else done

  -- The loop of `dispatchOutboxBatch`
  unfoldable pub emit_batch : String → List PublishEvent → Action (Unit {0})
  emit_batch owner [] w = (ok tt, w)
  emit_batch owner (e ∷ es) w =
      let (r, v) =
        (if opt_eq e.locked_by owner then emit_claimed_outbox_event e owner else done) w in
      elim r [ ok _ ↦ emit_batch owner es v | thrown err ↦ (thrown err, v) ]

  -- `dispatchOutboxBatch`
  unfoldable pub dispatch_outbox_batch : Action ℕ
  dispatch_outbox_batch = if c.disabled then pure 0 else do
    at ← now env
    outbox_call env (λ s. (tt, release_expired_claims at s))
    claim_id ← ask env.uuid
    let owner = join c.instance_id (join ":" claim_id)
    batch ← outbox_call env (
        claim_unpublished (record {
          limit = c.batch_size;
          locked_by = owner;
          lock_until = at + c.lease_ms;
          now = at;
        }))
    emit_batch owner batch
    pure (length batch)

  -- `publish`: `has_tx` says whether an explicit or ambient operation context has a transaction, which the
  -- in-memory storage ignores; `immediate` is the option. (`savePublishEvent` is the storage's
  -- `savePublish`: the in-memory storage has no `savePublishWithTx`.)
  unfoldable pub publish : String → Value → Option Headers → Bool → Bool → Action (Unit {0})
  publish topic payload headers has_tx immediate = do
    id ← ask env.uuid
    at ← now env
    let e : PublishEvent = record {
      id = id;
      topic = topic;
      occurred_at = at;
      payload = payload;
      headers = headers;
      retry_count = 0;
      status = PublishStatus.pending;
      next_retry_at = none;
      last_error = none;
      locked_by = none;
      locked_until = none;
      published_at = none;
    }
    db_id ← outbox_call env (save_publish e)
    if has_tx && not immediate then done else emit_persisted_event (record e { id = db_id })
