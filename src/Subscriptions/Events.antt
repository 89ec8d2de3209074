-- ===== src/Subscriptions/Events.antt =====
-- Calls and settled promises as events, and runs of them.
use cap_nodejs.Prelude.{String, Bool, List, [], ◌∷◌}
use cap_nodejs.JsValue.{Thrown}
use cap_nodejs.Subscriptions.{
  Engine, register_subscription, start_subscriptions, attached, attach_failed, start_settles,
  stop_subscriptions, stop_resumes, closed, close_failed, stop_settles, subscribe, subscribed,
  subscribe_failed,
}

pub data Event : Type 0 where
  registers subscribes : String → String → Event
  starts attach_done start_done stops stop_wakes close_done stop_done : Event
  attach_fails close_fails : Thrown → Event
  subscribe_done : String → Event
  subscribe_fails : String → Thrown → Event

-- `has_close` says whether the subscriber has a `close` method.
unfoldable pub step : Bool → Event → Engine → Engine
unfolding register_subscription start_subscriptions attached attach_failed start_settles
    stop_subscriptions stop_resumes closed close_failed stop_settles subscribe subscribed
    subscribe_failed
step has_close (registers topic group) s = (register_subscription topic group s).1
step has_close (subscribes topic group) s = (subscribe topic group s).1
step has_close starts s = (start_subscriptions s).1
step has_close attach_done s = attached s
step has_close (attach_fails err) s = attach_failed err s
step has_close start_done s = start_settles s
step has_close stops s = (stop_subscriptions has_close s).1
step has_close stop_wakes s = stop_resumes has_close s
step has_close close_done s = closed s
step has_close (close_fails err) s = close_failed err s
step has_close stop_done s = stop_settles s
step has_close (subscribe_done k) s = subscribed k s
step has_close (subscribe_fails k err) s = subscribe_failed k err s

unfoldable pub run : Bool → List Event → Engine → Engine
unfolding step
run has_close [] s = s
run has_close (e ∷ es) s = run has_close es (step has_close e s)
