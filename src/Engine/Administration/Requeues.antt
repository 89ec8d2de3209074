-- ===== src/Engine/Administration/Requeues.antt =====
-- What a requeue through the engine does to a message.
use cap_nodejs.Prelude.{
  ℕ, suc, ◌≤◌, String, true, false, none, some, ◌≡◌, arith, if◌then◌else◌, eq_iff,
}
use cap_nodejs.JsMap.{get}
use cap_nodejs.JsMap.Laws.{get-update}
use cap_nodejs.Text.{is_blank}
use cap_nodejs.Model.{PublishEvent, requeued}
use cap_nodejs.Outbox.{
  Store, is_claimable, is_requeueable, requeued_at, requeue_publish, find_publish_by_id,
}
use cap_nodejs.Engine.{Environment, Config, World, ok}
use cap_nodejs.Engine.Administration.{
  assert_administration_id, capture_outbox, outbox_requeued, requeue_outbox,
}

module _ (env : Environment) (c : Config) (alone : (n : ℕ) (s : Store) → env.others_outbox n s ≡ s)
    (works : (n : ℕ) → env.fault n ≡ none) where
  assert_administration_id_named :
      (id : String) → is_blank id ≡ false → assert_administration_id id ≡ ok tt
  unfolding assert_administration_id
  assert_administration_id_named id named = ground (arith, named)

  -- Where no storage call rejects and no other process writes, a requeue of a failed message or of a dead letter
  -- answers that it is requeued, with its status before; the message is stored with no attempts and no error, and
  -- can be claimed from the instant of the requeue on. The diagnostic, if there is a sink, names the message and
  -- the status that it had.
  pub requeue_outbox_lem :
      (id : String) (e : PublishEvent) (w : World) (later : ℕ)
      → is_blank id ≡ false
      → get id w.outbox ≡ some e
      → is_requeueable e.status ≡ true
      → env.clock w.moment ≤ later
      → let at = env.clock w.moment in
        let (r, v) = requeue_outbox env c id w in
        (r
          ≡ ok (
            record { id = id; outcome = requeued; previous_status = some e.status },
            if c.has_diagnostics
                then some (record {
                  id = e.id;
                  topic = e.topic;
                  previous_status = some e.status;
                  at = at;
                })
                else none,
          ))
        × (get id v.outbox ≡ some (requeued_at at e))
        × (is_claimable (requeued_at at e) later ≡ true)
  unfolding requeue_outbox capture_outbox outbox_requeued requeue_publish find_publish_by_id
      is_claimable
  requeue_outbox_lem id e w later named found eligible time = ground (
    arith,
    assert_administration_id_named id named,
    alone (suc w.moment) w.outbox,
    alone (suc (suc w.moment)) w.outbox,
    works (suc w.moment),
    works (suc (suc w.moment)),
    get-update id id (requeued_at (env.clock w.moment)) w.outbox,
    eq_iff id id,
  )
