-- ===== src/Engine/Incoming/Batch.antt =====
-- A whole run of `retryInboxBatch` of cap-engine.ts over the in-memory inbox.
use mathlib.Core.List.{append_assoc, append-nil}
use cap_nodejs.Prelude.{
  ℕ, suc, ◌-◌, String, Bool, true, false, none, some, List, [], ◌∷◌, ◌++◌, ◌≡◌, refl, sym, ap, ◌∙◌,
  inl, inr, arith, if◌then◌else◌, leb, length, Option-cases,
}
use cap_nodejs.JsMap.{JsMap, get}
use cap_nodejs.Model.{ReceivedEvent}
use cap_nodejs.Inbox.{get_retry_due}
use cap_nodejs.Subscriptions.{Subscription, subscription_key}
use cap_nodejs.Engine.{Environment, Config, World, Handling, Result, ok, thrown, ◌>>◌}
use cap_nodejs.Engine.Incoming.{
  try_handle, handle, handle_succeeded, handle_failed, emit_inbox_failure_diagnostic,
  retry_received, report_retried, retry_batch, retry_inbox_batch,
}
use cap_nodejs.Engine.Incoming.Handler.{IsCalm, handling_of}

abbrev is_ok : {A : Type 0} → Result A → Bool
is_ok (ok a) = true
is_ok (thrown e) = false

-- The calls that a run makes for some events: of the handler of the subscription that stands under the event's key, if
-- there is one, with the event's payload and headers
abbrev pub calls_for : JsMap Subscription → List ReceivedEvent → List Handling
calls_for subs [] = []
calls_for subs (rec ∷ recs) = elim (get (subscription_key rec.topic rec.group) subs) [
  | none ↦ calls_for subs recs
  | some sub ↦ handling_of sub.topic sub.group rec ∷ calls_for subs recs
]

-- The action ended well, and these calls were made, in their order.
abbrev pub Calls : List Handling → World → Result (Unit {0}) × World → Type 0
Calls calls w (r, v) = (r ≡ ok tt) × (v.handled ≡ w.handled ++ calls)

calls_for-cons :
    (subs : JsMap Subscription) (rec : ReceivedEvent) (recs : List ReceivedEvent)
    → calls_for subs (rec ∷ []) ++ calls_for subs recs ≡ calls_for subs (rec ∷ recs)
calls_for-cons subs rec recs =
    elim (Option-cases (get (subscription_key rec.topic rec.group) subs)) [
      | inl absent ↦ ground (arith, absent)
      | inr (sub, there) ↦ ground (arith, there)
    ]

module _ (env : Environment) (c : Config) (calm : IsCalm env) (subs : JsMap Subscription) where
  try_handle_calls :
      (topic group : String) (rec : ReceivedEvent) (w : World)
      → let (r, v) = try_handle env c topic group rec w in
        (is_ok r ≡ true) × (v.handled ≡ w.handled ++ handling_of topic group rec ∷ [])
  unfolding try_handle handle handle_succeeded handle_failed emit_inbox_failure_diagnostic
  try_handle_calls topic group rec w = elim (Option-cases (env.handler w.moment)) [
    | inl good ↦
        let quiet = calm.no_fault (suc (suc w.moment)) in
        (ground (arith, quiet), ground (arith, quiet))
    | inr (err, bad) ↦
        let quiet = calm.no_fault (suc (suc (suc w.moment))) in
        (ground (arith, quiet), ground (arith, quiet))
  ]

  retry_one-Calls :
      (at : ℕ) (rec : ReceivedEvent) (w : World)
      → Calls
          (calls_for subs (rec ∷ []))
          w
          ((report_retried env c (λ _. subs) at rec >> retry_received env c (λ _. subs) rec) w)
  unfolding report_retried retry_received
  retry_one-Calls at rec w = elim (Option-cases (get (subscription_key rec.topic rec.group) subs)) [
    | inr (sub, there) ↦
        let u = (report_retried env c (λ _. subs) at rec w).1 in
        let (good, called) = try_handle_calls sub.topic sub.group rec u in
        (ground (arith, there, good), ground (arith, there, good, called))
    | inl missing ↦ (ground (arith, missing), ground (arith, missing, append-nil w.handled))
  ]

  batch_goes_on :
      (at : ℕ) (rec : ReceivedEvent) (recs : List ReceivedEvent) (w : World)
      → let p =
          (report_retried env c (λ _. subs) at rec >> retry_received env c (λ _. subs) rec) w in
        p.0 ≡ ok tt
        → retry_batch env c (λ _. subs) at (rec ∷ recs) w
          ≡ retry_batch env c (λ _. subs) at recs p.1
  unfolding retry_batch
  batch_goes_on at rec recs w good = ground arith

  retry_batch-Calls :
      (at : ℕ) (recs : List ReceivedEvent) (w : World)
      → Calls (calls_for subs recs) w (retry_batch env c (λ _. subs) at recs w)
  retry_batch-Calls at [] w = unfold retry_batch in (refl, sym (append-nil w.handled))
  retry_batch-Calls at (rec ∷ recs) w =
      let p = (report_retried env c (λ _. subs) at rec >> retry_received env c (λ _. subs) rec) w in
      let (good, called) = retry_one-Calls at rec w in
      let (rest, others) = retry_batch-Calls at recs p.1 in
      let first = calls_for subs (rec ∷ []) in
      let more = calls_for subs recs in
      rw (batch_goes_on at rec recs w good) (
        rest,
        others
            ∙ ap (λ l. l ++ more) called
            ∙ append_assoc w.handled first more
            ∙ ap (λ l. w.handled ++ l) (calls_for-cons subs rec recs),
      )

  -- The retry batch at this moment
  abbrev pub due_batch : World → List ReceivedEvent
  due_batch w =
      let at = env.clock w.moment in
      get_retry_due env.locale_le c.batch_size at
        (if leb c.inbox_fallback_window_ms at then some (at - c.inbox_fallback_window_ms) else none)
        w.inbox

  -- When the engine is not disabled, its subscriptions stay as they are during the run, no storage call rejects and
  -- no other process writes to the inbox: for each due event of the batch, in the batch's order, a run calls once the
  -- handler of the subscription that stands under the key of the event's topic and group, with the event's payload and
  -- headers, and calls no other handler. Handlers that fail do not end the run: it returns the size of the batch.
  pub retry_inbox_batch_lem :
      (w : World)
      → c.disabled ≡ false
      → let (r, v) = retry_inbox_batch env c (λ _. subs) w in
        (r ≡ ok (length (due_batch w))) × (v.handled ≡ w.handled ++ calls_for subs (due_batch w))
  unfolding retry_inbox_batch
  retry_inbox_batch_lem w on =
      let u : World = record w { moment = suc (suc w.moment) } in
      let (good, called) = retry_batch-Calls (env.clock w.moment) (due_batch w) u in
      let quiet = calm.no_fault (suc w.moment) in
      let same = calm.alone (suc w.moment) w.inbox in
      (ground (arith, quiet, same, good), ground (arith, quiet, same, good, called))
