-- ===== src/Engine/Outgoing/Publish.antt =====
-- What `publish` of engine/cap-engine.ts leaves in the outbox and gives to the broker.
use cap_nodejs.Prelude.{
  ℕ, suc, ◌+◌, String, Bool, true, false, not, ◌&&◌, Option, none, some, [], ◌∷◌, ◌++◌, ◌≡◌, refl,
  ◌⊎◌, inl, inr, arith, eq_iff, if◌then◌else◌, Bool-cases, Option-cases,
}
use cap_nodejs.JsValue.{Value, Headers, Thrown}
use cap_nodejs.JsMap.{get, set}
use cap_nodejs.JsMap.Laws.{get-set, get-update}
use cap_nodejs.Model.{PublishEvent, PublishStatus, MarkPublishFailedOptions}
use cap_nodejs.Backoff.{exp_jitter, default_base_ms, default_max_ms}
use cap_nodejs.Outbox.{
  save_publish, mark_published, mark_publish_failed, owns_claim, published_at_time, failed_once,
}
use cap_nodejs.Outbox.Valid.{IsNew}
use cap_nodejs.Engine.{Environment, Config, World, ok}
use cap_nodejs.Engine.Outgoing.{
  publish, emit, emit_persisted_event, emit_succeeded, emit_failed, emit_outbox_failure_diagnostic,
}
use cap_nodejs.Engine.Outgoing.Delivery.{IsCalm, emission_of}

module _ (env : Environment) (c : Config) (calm : IsCalm env) where
  -- The event that `publish` saves when it is called at this moment
  abbrev pub new_event : String → Value → Option Headers → ℕ → PublishEvent
  new_event topic payload headers n = record {
    id = env.uuid n;
    topic = topic;
    occurred_at = env.clock (suc n);
    payload = payload;
    headers = headers;
    retry_count = 0;
    status = PublishStatus.pending;
    next_retry_at = none;
    last_error = none;
    locked_by = none;
    locked_until = none;
    published_at = none;
  }

  -- It is new, as the events that Outbox/Valid lets be saved are.
  new_event-IsNew :
      (topic : String) (payload : Value) (headers : Option Headers) (n : ℕ)
      → IsNew (new_event topic payload headers n)
  new_event-IsNew topic payload headers n = (refl, refl, refl)

  -- What the storage is asked to write when the broker refused the event at this moment
  abbrev pub refusal_of : ℕ → MarkPublishFailedOptions
  refusal_of n = record {
    max_retries = c.max_retries;
    next_retry_at =
        env.clock (suc n) + exp_jitter 0 default_base_ms default_max_ms (env.random (suc (suc n)));
    now = env.clock (suc n);
    expected_locked_by = none;
  }

  emit_persisted_event_accepted :
      (e : PublishEvent) (w : World)
      → get e.id w.outbox ≡ some e
      → env.broker w.moment ≡ none
      → let (r, v) = emit_persisted_event env c e w in
        (r ≡ ok tt)
        × (get e.id v.outbox ≡ some (published_at_time (env.clock (suc w.moment)) e))
        × (v.emissions ≡ w.emissions ++ emission_of e ∷ [])
  unfolding emit_persisted_event emit emit_succeeded mark_published owns_claim
  emit_persisted_event_accepted e w found accepts =
      let quiet = calm.no_fault (suc (suc w.moment)) in
      let same = calm.alone (suc (suc w.moment)) w.outbox in
      (
        ground (arith, quiet, same),
        ground (
          arith,
          quiet,
          same,
          eq_iff e.id e.id,
          get-update e.id e.id (published_at_time (env.clock (suc w.moment))) w.outbox,
        ),
        ground (arith, quiet, same),
      )

  emit_persisted_event_refused :
      (e : PublishEvent) (err : Thrown) (w : World)
      → get e.id w.outbox ≡ some e
      → e.retry_count ≡ 0
      → env.broker w.moment ≡ some err
      → let (r, v) = emit_persisted_event env c e w in
        (r ≡ ok tt)
        × (get e.id v.outbox ≡ some (failed_once err (refusal_of w.moment) e))
        × (v.emissions ≡ w.emissions)
  unfolding emit_persisted_event emit emit_failed emit_outbox_failure_diagnostic mark_publish_failed
      owns_claim
  emit_persisted_event_refused e err w found first refuses =
      let quiet = calm.no_fault (suc (suc (suc w.moment))) in
      let same = calm.alone (suc (suc (suc w.moment))) w.outbox in
      (
        ground (arith, quiet, same),
        ground (
          arith,
          quiet,
          same,
          first,
          eq_iff e.id e.id,
          get-update e.id e.id (failed_once err (refusal_of w.moment)) w.outbox,
        ),
        ground (arith, quiet, same),
      )

  -- The world in which `publish` has saved its event
  abbrev pub after_save : String → Value → Option Headers → World → World
  after_save topic payload headers w = record w {
    moment = suc (suc (suc w.moment));
    outbox = set (env.uuid w.moment) (new_event topic payload headers w.moment) w.outbox;
  }

  publish_goes_on :
      (topic : String) (payload : Value) (headers : Option Headers) (has_tx immediate : Bool)
      (w : World)
      → let u = after_save topic payload headers w in
        publish env c topic payload headers has_tx immediate w ≡ (
          if has_tx && not immediate
          then (ok tt, u)
          else emit_persisted_event env c (new_event topic payload headers w.moment) u)
  unfolding publish save_publish
  publish_goes_on topic payload headers has_tx immediate w =
      ground (arith, calm.no_fault (suc (suc w.moment)), calm.alone (suc (suc w.moment)) w.outbox)

  -- When no storage call rejects and no other process writes, `publish` resolves, and the message is in the outbox
  -- in each case. Within a transaction, and not asked to be immediate, it is pending and nothing is emitted.
  -- Otherwise it is offered to the broker once: if the broker takes it, it is published; if not, nothing is
  -- emitted, and the event has one failed attempt with the error and the time of the next.
  pub publish_lem :
      (topic : String) (payload : Value) (headers : Option Headers) (has_tx immediate : Bool)
      (w : World)
      → let (r, v) = publish env c topic payload headers has_tx immediate w in
        let e = new_event topic payload headers w.moment in
        let n = suc (suc (suc w.moment)) in
        (r ≡ ok tt)
        × (((has_tx && not immediate ≡ true)
              × (get e.id v.outbox ≡ some e)
              × (v.emissions ≡ w.emissions))
            ⊎ ((has_tx && not immediate ≡ false)
                × (env.broker n ≡ none)
                × (get e.id v.outbox ≡ some (published_at_time (env.clock (suc n)) e))
                × (v.emissions ≡ w.emissions ++ emission_of e ∷ []))
            ⊎ ((err : Thrown) × (has_tx && not immediate ≡ false)
                × (env.broker n ≡ some err)
                × (get e.id v.outbox ≡ some (failed_once err (refusal_of n) e))
                × (v.emissions ≡ w.emissions)))
  publish_lem topic payload headers has_tx immediate w =
      let e = new_event topic payload headers w.moment in
      let u = after_save topic payload headers w in
      let there : get e.id u.outbox ≡ some e =
        ground (arith, get-set e.id e.id e w.outbox, eq_iff e.id e.id) in
      elim (Bool-cases (has_tx && not immediate)) [
        | inl deferred ↦
            rw (publish_goes_on topic payload headers has_tx immediate w, deferred)
              (refl, inl (refl, there, refl))
        | inr direct ↦ elim (Option-cases (env.broker u.moment)) [
          | inl accepts ↦
              let (good, stored, sent) = emit_persisted_event_accepted e u there accepts in
              rw (publish_goes_on topic payload headers has_tx immediate w, direct)
                (good, inr (inl (refl, accepts, stored, sent)))
          | inr (err, refuses) ↦
              let (good, stored, sent) = emit_persisted_event_refused e err u there refl refuses in
              rw (publish_goes_on topic payload headers has_tx immediate w, direct)
                (good, inr (inr (err, refl, refuses, stored, sent)))
        ]
      ]
