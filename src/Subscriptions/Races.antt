-- ===== src/Subscriptions/Races.antt =====
-- Interleavings in which the lifecycle does not say what it means to.
use cap_nodejs.Prelude.{String, true, none, some, [], ◌∷◌, ◌≡◌, ◌≢◌, arith, eq_iff}
use cap_nodejs.Subscriptions.{
  Lifecycle, new_engine, subscription_key, attaching, get_subscription_lifecycle,
}
use cap_nodejs.Subscriptions.Events.{Event, step, run}

-- A `subscribe` of a new engine, to a topic that is not empty, that is still in flight when a stop runs to
-- its end: when `consume` then resolves, the engine goes from `stopped` to `ready` with the subscription
-- attached, though the stop has resolved and nothing was started since.
pub subscribe_outlives_stop :
    (topic group : String)
    → topic ≢ ""
    → let k = subscription_key topic group in
      let s =
        run true
          (Event.subscribes topic group ∷ Event.stops ∷ Event.close_done ∷ Event.stop_done ∷ [])
          new_engine in
      let t = step true (Event.subscribe_done k) s in
      (s.lifecycle ≡ Lifecycle.stopped)
      × (s.stop ≡ none)
      × (t.lifecycle ≡ Lifecycle.ready)
      × ((get_subscription_lifecycle t).attached_count ≡ 1)
unfolding run get_subscription_lifecycle
subscribe_outlives_stop topic group named =
    let k = subscription_key topic group in
    (
      ground (arith, eq_iff topic ""),
      ground (arith, eq_iff topic ""),
      ground (arith, eq_iff topic "", eq_iff k k),
      ground (arith, eq_iff topic "", eq_iff k k),
    )

-- A startup that begins while a `subscribe` of a new engine, to a topic that is not empty, is in flight
-- attaches the same subscription again: both calls of `consume`, for the same key, are in flight at once.
pub start_attaches_again :
    (topic group : String)
    → topic ≢ ""
    → let k = subscription_key topic group in
      let s = run true (Event.subscribes topic group ∷ Event.starts ∷ []) new_engine in
      (s.subscribing ≡ k ∷ []) × (s.start ≡ some (attaching k []))
unfolding run
start_attaches_again topic group named =
    (ground (arith, eq_iff topic ""), ground (arith, eq_iff topic ""))
