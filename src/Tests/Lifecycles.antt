-- ===== src/Tests/Lifecycles.antt =====
-- The subscription lifecycle of an engine with a few subscriptions, and the delays between attempts.
use cap_nodejs.Prelude.{
  str_eq, differ, String, true, false, none, some, List, [], ◌∷◌, ◌≡◌, refl, ◌≢◌, ◌⊎◌, arith,
  if◌then◌else◌, join,
}
use cap_nodejs.JsMap.{get, has, update}
use cap_nodejs.Subscriptions.{
  Engine, Lifecycle, StartTask, new_engine, subscription_key, register_subscription,
  start_subscriptions, stop_subscriptions, closed, start_settles, stop_resumes, attached,
  set_attached, unattached_entry, is_registrable, get_subscription_lifecycle, refused, resolved,
  in_flight, duplicate, invalid_topic, not_registrable, attaching, do_start_subscriptions,
  next_attachment,
}
use cap_nodejs.Subscriptions.Events.{Event, step, run}
use cap_nodejs.Subscriptions.Invariant.{IsLive, run-IsLive}
use cap_nodejs.Subscriptions.Startup.{IsIdle, IsAttaching}
use cap_nodejs.Subscriptions.Shutdown.{IsStopped, stop_during_startup}
use cap_nodejs.Subscriptions.Keys.{subscription_key-collision}
use cap_nodejs.Subscriptions.Races.{subscribe_outlives_stop, start_attaches_again}
use cap_nodejs.Scheduler as Scheduler
use cap_nodejs.Scheduler.Invariant.{IsSound, run-IsSound}

abbrev orders : String
orders = "orders"

abbrev billing : String
billing = "billing"

abbrev mail : String
mail = "mail"

abbrev one_registered : Engine
one_registered = (register_subscription "orders" "billing" new_engine).1

abbrev key : String
key = "orders|billing"

new_engine-IsLive : IsLive new_engine
new_engine-IsLive = ground arith

one_registered-IsIdle : IsIdle one_registered
unfolding register_subscription subscription_key
one_registered-IsIdle = record {
  distinct = (refl, tt);
  startable = refl;
  no_start = refl;
  complete = refl;
}

abbrev one_starting : Engine
one_starting = (start_subscriptions one_registered).1

one_starting-IsAttaching : IsAttaching key [] one_starting
unfolding register_subscription subscription_key start_subscriptions do_start_subscriptions
    next_attachment
one_starting-IsAttaching = record {
  distinct = (refl, tt);
  keys = refl;
  unasked = refl;
  active = refl;
  cleared = refl;
  waits = refl;
}

abbrev a_life : List Event
a_life = Event.registers "orders" "billing" ∷ Event.starts ∷ Event.stops ∷ Event.attach_done ∷ []

run-IsLive_example : IsLive (run true a_life new_engine)
run-IsLive_example = run-IsLive true a_life new_engine new_engine-IsLive

stop_during_startup_example :
    let (reply, t) = stop_subscriptions true one_starting in
    let u = attached t in
    (reply ≡ in_flight)
    × (t.start ≡ one_starting.start)
    × (u.start ≡ some (StartTask.settled none))
    × (u.subscriptions ≡ update key (set_attached true) one_starting.subscriptions)
    × IsStopped (closed (stop_resumes true (start_settles u)))
stop_during_startup_example = stop_during_startup key [] one_starting one_starting-IsAttaching (
    unfold register_subscription start_subscriptions do_start_subscriptions next_attachment in refl)

abbrev one_closing : Engine
one_closing = (stop_subscriptions true one_registered).1

abbrev Registration : Type 0
Registration =
    let (reply, s') = register_subscription "mail" "billing" one_registered in
    let k = subscription_key "mail" "billing" in
    ((reply ≡ resolved)
      × (mail ≢ "")
      × (is_registrable one_registered.lifecycle ≡ true)
      × (get k one_registered.subscriptions ≡ none)
      × (get key s'.subscriptions ≡ (
          if str_eq k key
          then some (unattached_entry "mail" "billing")
          else get key one_registered.subscriptions)))
    ⊎ ((s' ≡ one_registered)
        × (((reply ≡ refused invalid_topic) × (mail ≡ ""))
            ⊎ ((reply ≡ refused not_registrable)
                × (is_registrable one_registered.lifecycle ≡ false))
            ⊎ ((reply ≡ refused duplicate) × (has k one_registered.subscriptions ≡ true))))

subscription_key-collision_example :
    let s' = (register_subscription "orders" (join "a" (join "|" "b")) new_engine).1 in
    (register_subscription (join "orders" (join "|" "a")) "b" s' ≡ (refused duplicate, s'))
    × (orders ≢ join "orders" (join "|" "a"))
subscription_key-collision_example =
    subscription_key-collision "orders" "a" "b" new_engine
      (unfold register_subscription subscription_key in refl)

subscribe_outlives_stop_example :
    let k = subscription_key "orders" "billing" in
    let s =
      run true
        (Event.subscribes "orders" "billing"
          ∷ Event.stops
          ∷ Event.close_done
          ∷ Event.stop_done
          ∷ [])
        new_engine in
    let t = step true (Event.subscribe_done k) s in
    (s.lifecycle ≡ Lifecycle.stopped)
    × (s.stop ≡ none)
    × (t.lifecycle ≡ Lifecycle.ready)
    × ((get_subscription_lifecycle t).attached_count ≡ 1)
subscribe_outlives_stop_example =
    subscribe_outlives_stop "orders" "billing" (differ "orders" "" refl)

start_attaches_again_example :
    let k = subscription_key "orders" "billing" in
    let s = run true (Event.subscribes "orders" "billing" ∷ Event.starts ∷ []) new_engine in
    (s.subscribing ≡ k ∷ []) × (s.start ≡ some (attaching k []))
start_attaches_again_example = start_attaches_again "orders" "billing" (differ "orders" "" refl)

abbrev some_calls : List Scheduler.Event
some_calls =
    Scheduler.Event.starts ∷ Scheduler.Event.starts ∷ Scheduler.Event.outbox_fires
    ∷ Scheduler.Event.outbox_called ∷ []

abbrev passing : List Scheduler.Event
passing =
    Scheduler.Event.outbox_fires ∷ Scheduler.Event.outbox_settles ∷ Scheduler.Event.inbox_fires ∷ []

new_scheduler-IsSound : IsSound (Scheduler.new_scheduler false)
new_scheduler-IsSound = ground arith

run-IsSound_example : IsSound (Scheduler.run some_calls (Scheduler.new_scheduler false))
run-IsSound_example = run-IsSound some_calls (Scheduler.new_scheduler false) new_scheduler-IsSound
