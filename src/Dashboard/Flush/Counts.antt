-- ===== src/Dashboard/Flush/Counts.antt =====
-- What the counts of a flush say.
use cap_nodejs.Prelude.{
  ℕ, zero, suc, ◌+◌, ◌≤◌, String, Bool, true, false, Option, none, some, List, [], ◌∷◌, ◌++◌, ◌≡◌,
  refl, ap, inl, inr, arith, length,
}
use cap_nodejs.JsValue.{Thrown}
use cap_nodejs.Model.{PublishEvent}
use cap_nodejs.Engine.{with_cap_message_id, Environment, Config, World, ok, thrown}
use cap_nodejs.Effect.{Result-cases}
use cap_nodejs.Engine.Outgoing.{emit}
use cap_nodejs.Dashboard.{Settings}
use cap_nodejs.Dashboard.Flush.{
  renew_dashboard_claim, dashboard_heartbeat, emit_for_flush, settle_flushed, flush_one,
  flush_batch,
}

module _ (env : Environment) (o : Settings) (show_number : ℕ → String) (lower : String → String)
    (c : Config) where
  renew_emissions :
      (e : PublishEvent) (owner : String) (w : World)
      → (renew_dashboard_claim env o show_number lower c e owner w).1.emissions ≡ w.emissions
  unfolding renew_dashboard_claim
  renew_emissions e owner w = ground arith

  heartbeat_emissions :
      (n : ℕ) (e : PublishEvent) (owner : String) (w : World)
      → (dashboard_heartbeat env o show_number lower c n e owner w).1.emissions ≡ w.emissions
  unfolding dashboard_heartbeat
  heartbeat_emissions zero e owner w = refl
  heartbeat_emissions (suc n) e owner w =
      let v = (renew_dashboard_claim env o show_number lower c e owner w).1 in
      ground (arith, renew_emissions e owner w, heartbeat_emissions n e owner v)

  settle_emissions :
      (e : PublishEvent) (owner : String) (result : Option Thrown) (lost : Bool) (w : World)
      → (settle_flushed env o show_number lower c e owner (result, lost) w).1.emissions
        ≡ w.emissions
  unfolding settle_flushed
  settle_emissions e owner none true w = refl
  settle_emissions e owner (some err) true w = refl
  settle_emissions e owner (some err) false w = ground arith
  settle_emissions e owner none false w = ground arith

  length-snoc : {A : Type 0} (x : A) (xs : List A) → length (xs ++ x ∷ []) ≡ suc (length xs)
  length-snoc x [] = refl
  length-snoc x (y ∷ xs) = omega (arith, length-snoc x xs)

  emit_emissions :
      (e : PublishEvent) (w : World)
      → length (emit env c e w).1.emissions ≡ elim (emit env c e w).0 [
        | ok _ ↦ suc (length w.emissions)
        | thrown _ ↦ length w.emissions
      ]
  unfolding emit
  emit_emissions e w = ground (
    arith,
    length-snoc
        (record {
          topic = e.topic;
          payload = e.payload;
          headers = with_cap_message_id e.headers e.id;
          message_id = e.id;
        })
        w.emissions,
  )

  -- An emission that succeeds adds one message, one that fails adds none, and the renewals meanwhile add none.
  emit_for_flush_emissions :
      (e : PublishEvent) (owner : String) (w : World)
      → let (r, v) = emit_for_flush env o show_number lower c e owner w in
        (length w.emissions ≤ length v.emissions)
        × ((lost : Bool) → r ≡ ok (none, lost) → length v.emissions ≡ suc (length w.emissions))
  unfolding emit_for_flush
  emit_for_flush_emissions e owner w =
      let u = (emit env c e w).1 in
      let v : World = record u { moment = suc u.moment } in
      ground (
        arith,
        emit_emissions e w,
        ap length (heartbeat_emissions (env.heartbeats u.moment) e owner v),
        ap length (heartbeat_emissions 0 e owner v),
      )

  settle_flushed_published :
      (e : PublishEvent) (owner : String) (result : Option Thrown × Bool) (w : World)
      → (settle_flushed env o show_number lower c e owner result w).0 ≡ ok true
      → result ≡ (none, false)
  unfolding settle_flushed
  settle_flushed_published e owner (result, true) w h = absurd (ground (arith, h))
  settle_flushed_published e owner (some err, false) w h = absurd (ground (arith, h))
  settle_flushed_published e owner (none, false) w h = refl

  -- A message that counts as published has been emitted, once; one that does not was emitted at most once.
  flush_one_emissions :
      (owner : String) (e : PublishEvent) (w : World)
      → let (r, v) = flush_one env o show_number lower c owner e w in
        (length w.emissions ≤ length v.emissions)
        × (r ≡ ok true → length v.emissions ≡ suc (length w.emissions))
  unfolding flush_one
  flush_one_emissions owner e w =
      let u = (renew_dashboard_claim env o show_number lower c e owner w).1 in
      let (r, v) = emit_for_flush env o show_number lower c e owner u in
      elim (Result-cases r) [
        | inl (result, good) ↦ ground (
          arith,
          good,
          ap length (renew_emissions e owner w),
          (emit_for_flush_emissions e owner u).0,
          (emit_for_flush_emissions e owner u).1 false,
          ap length (settle_emissions e owner result.0 result.1 v),
          settle_flushed_published e owner result v,
        )
        | inr (err, bad) ↦ ground (
          arith,
          bad,
          ap length (renew_emissions e owner w),
          (emit_for_flush_emissions e owner u).0,
        )
      ]

  -- Of a batch that is flushed to its end, every event counts either as published or as failed, and the broker was
  -- given at least as many messages as count as published.
  pub flush_batch_counts :
      (owner : String) (es : List PublishEvent) (published failed : ℕ) (w : World) (p f : ℕ)
      → (flush_batch env o show_number lower c owner es published failed w).0 ≡ ok (p, f)
      → (p + f ≡ published + failed + length es)
        × (p + length w.emissions
            ≤ published
              + length
                  (flush_batch env o show_number lower c owner es published failed w).1.emissions)
  unfolding flush_batch
  flush_batch_counts owner [] published failed w p f h = ground (arith, h)
  flush_batch_counts owner (e ∷ es) published failed w p f h =
      let v = (flush_one env o show_number lower c owner e w).1 in
      ground (
        arith,
        h,
        flush_one_emissions owner e w,
        flush_batch_counts owner es (suc published) failed v p f,
        flush_batch_counts owner es published (suc failed) v p f,
      )
