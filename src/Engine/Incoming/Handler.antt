-- ===== src/Engine/Incoming/Handler.antt =====
-- A call of a handler and what is written after it: `tryHandle` of cap-engine.ts over the in-memory inbox.
use cap_nodejs.Prelude.{
  ℕ, String, suc, ◌+◌, true, false, none, some, [], ◌∷◌, ◌++◌, ◌≡◌, refl, inl, inr, arith, eq_iff,
  leb, Option-cases, Bool-cases,
}
use cap_nodejs.JsValue.{Thrown, normalize_error}
use cap_nodejs.JsMap.{get}
use cap_nodejs.JsMap.Laws.{get-update}
use cap_nodejs.Model.{ReceivedEvent, ReceivedStatus, MarkReceivedFailedOptions}
use cap_nodejs.Backoff.{exp_jitter, default_base_ms, default_max_ms}
use cap_nodejs.Inbox.{Inbox, mark_processed, mark_received_failed, processed_by, failed_once}
use cap_nodejs.Engine.{Environment, Config, World, ok, Handling}
use cap_nodejs.Engine.Incoming.{
  try_handle, handle, handle_succeeded, handle_failed, emit_inbox_failure_diagnostic,
}

-- No storage call rejects, and no other process writes to the inbox.
pub record IsCalm (env : Environment) : Type 0 where
  pub no_fault : (n : ℕ) → env.fault n ≡ none
  pub alone : (n : ℕ) (b : Inbox) → env.others_inbox n b ≡ b

-- A call of the handler of a topic and a group for an event: what it is given
abbrev pub handling_of : String → String → ReceivedEvent → Handling
handling_of topic group rec = record {
  topic = topic;
  group = group;
  payload = rec.payload;
  headers = rec.headers;
}

-- The time of the next attempt after one that the handler refused at this moment
abbrev pub next_attempt : Environment → ReceivedEvent → ℕ → ℕ
next_attempt env rec n =
    env.clock (suc (suc n))
    + exp_jitter rec.retry_count default_base_ms default_max_ms (env.random (suc n))

-- What an answer of the handler makes of the event
pub data Settles (env : Environment) (c : Config) (n : ℕ) (rec rec' : ReceivedEvent) : Type 0 where
  handled :
      env.handler n ≡ none
      → rec'.status ≡ ReceivedStatus.processed
      → rec'.processed_at ≡ some (env.clock (suc n))
      → rec'.retry_count ≡ rec.retry_count
      → Settles env c n rec rec'
  retried :
      (err : Thrown)
      → env.handler n ≡ some err
      → leb c.max_inbox_retries (rec.retry_count + 1) ≡ false
      → rec'.status ≡ ReceivedStatus.failed
      → rec'.next_retry ≡ some (next_attempt env rec n)
      → rec'.retry_count ≡ rec.retry_count + 1
      → rec'.last_error ≡ some (normalize_error err)
      → Settles env c n rec rec'
  dead :
      (err : Thrown)
      → env.handler n ≡ some err
      → leb c.max_inbox_retries (rec.retry_count + 1) ≡ true
      → rec'.status ≡ ReceivedStatus.dead_letter
      → rec'.next_retry ≡ none
      → rec'.retry_count ≡ rec.retry_count + 1
      → rec'.last_error ≡ some (normalize_error err)
      → Settles env c n rec rec'

module _ (env : Environment) (c : Config) (calm : IsCalm env) where
  handle_succeeded_lem :
      (rec : ReceivedEvent) (w : World)
      → get rec.id w.inbox.store ≡ some rec
      → let (r, v) = handle_succeeded env c rec w in
        let rec' = processed_by (env.clock w.moment) rec in
        (r ≡ ok rec') × (get rec.id v.inbox.store ≡ some rec') × (v.handled ≡ w.handled)
  unfolding handle_succeeded mark_processed
  handle_succeeded_lem rec w found =
      let quiet = calm.no_fault (suc w.moment) in
      let same = calm.alone (suc w.moment) w.inbox in
      (
        ground (arith, quiet, same),
        ground (
          arith,
          quiet,
          same,
          eq_iff rec.id rec.id,
          get-update rec.id rec.id (processed_by (env.clock w.moment)) w.inbox.store,
        ),
        ground (arith, quiet, same),
      )

  -- What the storage is asked to write after the handler refused
  abbrev pub failure_of : ReceivedEvent → ℕ → MarkReceivedFailedOptions
  failure_of rec n = record {
    max_retries = c.max_inbox_retries;
    next_retry_at =
        env.clock (suc n)
        + exp_jitter rec.retry_count default_base_ms default_max_ms (env.random n);
    now = env.clock (suc n);
  }

  handle_failed_lem :
      (rec : ReceivedEvent) (err : Thrown) (w : World)
      → get rec.id w.inbox.store ≡ some rec
      → let (r, v) = handle_failed env c rec err w in
        let rec' = failed_once err (failure_of rec w.moment) rec in
        (r ≡ ok rec') × (get rec.id v.inbox.store ≡ some rec') × (v.handled ≡ w.handled)
  unfolding handle_failed mark_received_failed emit_inbox_failure_diagnostic
  handle_failed_lem rec err w found =
      let quiet = calm.no_fault (suc (suc w.moment)) in
      let same = calm.alone (suc (suc w.moment)) w.inbox in
      (
        ground (arith, quiet, same),
        ground (
          arith,
          quiet,
          same,
          eq_iff rec.id rec.id,
          get-update rec.id rec.id (failed_once err (failure_of rec w.moment)) w.inbox.store,
        ),
        ground (arith, quiet, same),
      )

  -- When no storage call rejects and no other process writes to the inbox, a stored event whose handler is
  -- called is settled by the handler's answer and the attempts that it has had: the handler is called once,
  -- with the event's payload and headers, and the event as the engine goes on with it is the one that the
  -- storage holds.
  pub try_handle-Settles :
      (topic group : String) (rec : ReceivedEvent) (w : World)
      → get rec.id w.inbox.store ≡ some rec
      → let (r, v) = try_handle env c topic group rec w in
        (rec' : ReceivedEvent) × (r ≡ ok rec')
        × (get rec.id v.inbox.store ≡ some rec')
        × (v.handled ≡ w.handled ++ handling_of topic group rec ∷ [])
        × Settles env c w.moment rec rec'
  unfolding try_handle handle
  try_handle-Settles topic group rec w found =
      let u : World = record w {
        moment = suc w.moment;
        handled = w.handled ++ handling_of topic group rec ∷ [];
      } in
      elim (Option-cases (env.handler w.moment)) [
        | inl good ↦
            let (p, q, s) = handle_succeeded_lem rec u found in
            (
              processed_by (env.clock (suc w.moment)) rec,
              ground (arith, p),
              ground (arith, p, q),
              ground (arith, p, s),
              handled good refl refl refl,
            )
        | inr (err, bad) ↦
            let (p, q, s) = handle_failed_lem rec err u found in
            (
              failed_once err (failure_of rec (suc w.moment)) rec,
              ground (arith, p),
              ground (arith, p, q),
              ground (arith, p, s),
              settles_failed rec err w.moment bad,
            )
      ]
    where
      settles_failed :
          (rec : ReceivedEvent) (err : Thrown) (n : ℕ)
          → env.handler n ≡ some err
          → Settles env c n rec (failed_once err (failure_of rec (suc n)) rec)
      settles_failed rec err n bad =
          elim (Bool-cases (leb c.max_inbox_retries (rec.retry_count + 1))) [
            | inl over ↦ dead err bad over (ground arith) (ground arith) refl refl
            | inr left ↦ retried err bad left (ground arith) (ground arith) refl refl
          ]
