-- ===== src/Engine/Outgoing/Frame.antt =====
-- Which rows of the outbox an action leaves alone.
use cap_nodejs.Prelude.{
  ℕ, zero, suc, ◌+◌, String, Bool, true, false, Option, none, some, ◌≡◌, refl, ◌≢◌, arith, eq_iff,
  if◌then◌else◌,
}
use cap_nodejs.JsValue.{Thrown}
use cap_nodejs.JsMap.{get}
use cap_nodejs.JsMap.Laws.{get-update}
use cap_nodejs.Model.{PublishEvent, MarkPublishFailedOptions, RenewPublishClaimOptions}
use cap_nodejs.Outbox.{
  Store, mark_published, mark_publish_failed, renew_publish_claim, published_at_time, failed_once,
}
use cap_nodejs.Backoff.{exp_jitter, default_base_ms, default_max_ms}
use cap_nodejs.Engine.{Environment, Config, World, Action}
use cap_nodejs.Engine.Outgoing.{
  emit, emit_failed, emit_succeeded, renew_claim, heartbeat, emit_with_heartbeat, settle_claimed,
  report_retry, emit_claimed_outbox_event,
}

-- An action leaves the row `k` of the outbox as it was.
abbrev pub Keeps : {A : Type 0} → String → Action A → Type 0
Keeps k m = (w : World) → get k (m w).1.outbox ≡ get k w.outbox

module _ (env : Environment) (c : Config) (k : String)
    (others_keep : (n : ℕ) (s : Store) → get k (env.others_outbox n s) ≡ get k s) where
  mark_published-keeps :
      (id : String) (at : ℕ) (owner : Option String) (s : Store)
      → id ≢ k
      → get k (mark_published id at owner s).1 ≡ get k s
  unfolding mark_published
  mark_published-keeps id at owner s ne =
      ground (arith, get-update id k (published_at_time at) s, eq_iff id k)

  mark_publish_failed-keeps :
      (id : String) (err : Thrown) (o : MarkPublishFailedOptions) (s : Store)
      → id ≢ k
      → get k (mark_publish_failed id err o s).1 ≡ get k s
  unfolding mark_publish_failed
  mark_publish_failed-keeps id err o s ne =
      ground (arith, get-update id k (failed_once err o) s, eq_iff id k)

  renew_publish_claim-keeps :
      (o : RenewPublishClaimOptions) (s : Store)
      → o.id ≢ k
      → get k (renew_publish_claim o s).1 ≡ get k s
  unfolding renew_publish_claim
  renew_publish_claim-keeps o s ne = ground (
    arith,
    get-update o.id k (λ (w : PublishEvent). record w { locked_until = some o.lock_until }) s,
    eq_iff o.id k,
  )

  emit_failed-Keeps :
      (e : PublishEvent) (owner : Option String) (err : Thrown)
      → e.id ≢ k
      → Keeps k (emit_failed env c e owner err)
  unfolding emit_failed
  emit_failed-Keeps e owner err ne w =
      let at = env.clock w.moment in
      let delay =
        exp_jitter e.retry_count default_base_ms default_max_ms (env.random (suc w.moment)) in
      let n = suc (suc w.moment) in
      ground (
        arith,
        others_keep n w.outbox,
        mark_publish_failed-keeps e.id err
            (record {
              max_retries = c.max_retries;
              next_retry_at = at + delay;
              now = at;
              expected_locked_by = owner;
            })
            (env.others_outbox n w.outbox) ne,
      )

  emit_succeeded-Keeps :
      (e : PublishEvent) (owner : Option String) → e.id ≢ k → Keeps k (emit_succeeded env c e owner)
  unfolding emit_succeeded
  emit_succeeded-Keeps e owner ne w = ground (
    arith,
    others_keep (suc w.moment) w.outbox,
    mark_published-keeps e.id (env.clock w.moment) owner (env.others_outbox (suc w.moment) w.outbox)
        ne,
  )

  emit-Keeps : (e : PublishEvent) → Keeps k (emit env c e)
  unfolding emit
  emit-Keeps e w = ground arith

  renew_claim-Keeps :
      (e : PublishEvent) (owner : String) → e.id ≢ k → Keeps k (renew_claim env c e owner)
  unfolding renew_claim
  renew_claim-Keeps e owner ne w =
      let at = env.clock w.moment in
      ground (
        arith,
        others_keep (suc w.moment) w.outbox,
        renew_publish_claim-keeps
            (record {
              id = e.id;
              expected_locked_by = owner;
              lock_until = at + c.lease_ms;
              now = at;
            })
            (env.others_outbox (suc w.moment) w.outbox) ne,
      )

  heartbeat-Keeps :
      (n : ℕ) (e : PublishEvent) (owner : String) → e.id ≢ k → Keeps k (heartbeat env c n e owner)
  unfolding heartbeat
  heartbeat-Keeps zero e owner ne w = refl
  heartbeat-Keeps (suc n) e owner ne w = ground (
    arith,
    renew_claim-Keeps e owner ne w,
    heartbeat-Keeps n e owner ne (renew_claim env c e owner w).1,
  )

  settle_claimed-Keeps :
      (e : PublishEvent) (owner : String) (r : Option Thrown × Bool)
      → e.id ≢ k
      → Keeps k (settle_claimed env c e owner r)
  unfolding settle_claimed
  settle_claimed-Keeps e owner (err, true) ne w = refl
  settle_claimed-Keeps e owner (some err, false) ne w = emit_failed-Keeps e (some owner) err ne w
  settle_claimed-Keeps e owner (none, false) ne w = emit_succeeded-Keeps e (some owner) ne w

  emit_with_heartbeat-Keeps :
      (e : PublishEvent) (owner : String) → e.id ≢ k → Keeps k (emit_with_heartbeat env c e owner)
  unfolding emit_with_heartbeat
  emit_with_heartbeat-Keeps e owner ne w =
      let v = (emit env c e w).1 in
      let n = env.heartbeats v.moment in
      ground (
        arith,
        emit-Keeps e w,
        heartbeat-Keeps (if c.has_renew then n else 0) e owner ne
            (record v { moment = suc v.moment }),
      )

  report_retry-Keeps : (e : PublishEvent) → Keeps k (report_retry env c e)
  unfolding report_retry
  report_retry-Keeps e w = ground arith

  -- If the other processes leave a row of the outbox alone, then dispatching a claimed event of another id does so
  -- too, however the broker answers, the storage fails and the heartbeat runs.
  pub emit_claimed_outbox_event-Keeps :
      (e : PublishEvent) (owner : String)
      → e.id ≢ k
      → (w : World) → get k (emit_claimed_outbox_event env c e owner w).1.outbox ≡ get k w.outbox
  unfolding emit_claimed_outbox_event
  emit_claimed_outbox_event-Keeps e owner ne w =
      let u = (renew_claim env c e owner w).1 in
      let v = (report_retry env c e u).1 in
      let x = emit_with_heartbeat env c e owner v in
      grind (
        arith,
        renew_claim-Keeps e owner ne w,
        report_retry-Keeps e u,
        emit_with_heartbeat-Keeps e owner ne v,
        λ (r : Option Thrown × Bool). settle_claimed-Keeps e owner r ne x.1,
      )
