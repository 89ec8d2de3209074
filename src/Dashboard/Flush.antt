-- ===== src/Dashboard/Flush.antt =====
-- `flushOutbox` and `renewDashboardClaim` of the dashboard's service, with the package's copy of
-- `runWithActiveLeaseHeartbeat`, libs/cap-dashboard-core/src/internal/active-lease-heartbeat.ts.
pub mod Counts
use cap_nodejs.Prelude.{
  ℕ, zero, suc, ◌+◌, String, Bool, true, false, not, ◌==◌, Option, none, some, List, [], ◌∷◌,
  if◌then◌else◌, join, opt_eq,
}
use cap_nodejs.JsValue.{Thrown, normalize_error}
use cap_nodejs.Model.{PublishEvent}
use cap_nodejs.Outbox.{
  mark_published, mark_publish_failed, renew_publish_claim, release_expired_claims,
  claim_unpublished,
}
use cap_nodejs.Engine.{
  Environment, Config, World, Result, ok, thrown, Action, attempt, pure, ◌>>=◌, ◌>>◌, catch, done,
  ask, now, outbox_call,
}
use cap_nodejs.Engine.Outgoing.{emit}
use cap_nodejs.Dashboard.{
  Settings, ActionResult, failure, guarded, resolve_limit, default_list_limit, dashboard_lease_ms,
}

module _ (env : Environment) (o : Settings) (show_number : ℕ → String) (lower : String → String)
    (c : Config) where
  -- `renewDashboardClaim`: a renewal that rejects counts as a lost claim.
  unfoldable pub renew_dashboard_claim : PublishEvent → String → Action Bool
  renew_dashboard_claim e owner =
      if not o.has_renew
      then pure true
      else (now env >>= λ at.
          catch
            (outbox_call env (
              renew_publish_claim (record {
                id = e.id;
                expected_locked_by = owner;
                lock_until = at + dashboard_lease_ms;
                now = at;
              })))
            (λ err. pure false))

  -- The renewals while the emission is in flight: whether ownership was lost. After one that failed none follows.
  unfoldable pub dashboard_heartbeat : ℕ → PublishEvent → String → Action Bool
  dashboard_heartbeat zero e owner w = (ok false, w)
  dashboard_heartbeat (suc n) e owner w =
      let (r, v) = renew_dashboard_claim e owner w in
      let rest = dashboard_heartbeat n e owner v in
      elim r [ ok true ↦ rest | ok false ↦ (ok true, v) | thrown err ↦ (ok true, v) ]

  -- The emission under `runWithActiveLeaseHeartbeat`: how it settled, and whether ownership was lost
  unfoldable pub emit_for_flush : PublishEvent → String → Action (Option Thrown × Bool)
  emit_for_flush e owner = do
    result ← attempt (emit env c e)
    beats ← ask env.heartbeats
    lost ← dashboard_heartbeat (if o.has_renew then beats else 0) e owner
    pure (result, lost)

  -- The rest of the loop's body after the emission: whether the message counts as published. A write that finds
  -- the claim lost is only logged.
  unfoldable pub settle_flushed : PublishEvent → String → Option Thrown × Bool → Action Bool
  settle_flushed e owner (result, true) = pure false
  settle_flushed e owner (some err, false) = do
    retry_from ← now env
    at ← now env
    outbox_call env (
        mark_publish_failed e.id err (record {
          max_retries = o.max_retries;
          next_retry_at = retry_from + 1000;
          now = at;
          expected_locked_by = some owner;
        }))
    pure false
  settle_flushed e owner (none, false) = do
    at ← now env
    outbox_call env (mark_published e.id at (some owner))

  -- The body of the loop of `flushOutbox`
  unfoldable pub flush_one : String → PublishEvent → Action Bool
  flush_one owner e =
      if not (opt_eq e.locked_by owner)
      then pure false
      else (renew_dashboard_claim e owner >>= λ renewed.
          if renewed then (emit_for_flush e owner >>= settle_flushed e owner) else pure false)

  -- The loop of `flushOutbox`, with `published` and `failed`
  unfoldable pub flush_batch : String → List PublishEvent → ℕ → ℕ → Action (ℕ × ℕ)
  flush_batch owner [] published failed w = (ok (published, failed), w)
  flush_batch owner (e ∷ es) published failed w =
      let (r, v) = flush_one owner e w in
      elim r [
        | ok true ↦ flush_batch owner es (suc published) failed v
        | ok false ↦ flush_batch owner es published (suc failed) v
        | thrown err ↦ (thrown err, v)
      ]

  abbrev pub flushed : ℕ × ℕ → ActionResult
  flushed (published, failed) = record {
    success = failed == 0;
    message = some (
        join "Flush complete: " (
          join (show_number published)
            (join " published, " (join (show_number failed) " failed"))));
  }

  -- The claim of `flushOutbox`: its owner and its events
  unfoldable pub claim_for_flush : Action (String × List PublishEvent)
  unfolding resolve_limit
  claim_for_flush = do
    at ← now env
    id ← ask env.uuid
    outbox_call env (λ s. (tt, release_expired_claims at s))
    let owner = join "cap-dashboard" (join ":" id)
    batch ← outbox_call env (
        claim_unpublished (record {
          limit = resolve_limit o (some default_list_limit);
          locked_by = owner;
          lock_until = at + dashboard_lease_ms;
          now = at;
        }))
    pure (owner, batch)

  -- `flushOutbox`
  unfoldable pub flush_outbox : Action ActionResult
  flush_outbox = guarded env o show_number lower (
      if not o.has_publisher
      then pure (failure "No publisher available to emit messages")
      else (claim_for_flush >>= λ (owner, batch).
          (flush_batch owner batch 0 0 >>= λ counts. pure (flushed counts))))
