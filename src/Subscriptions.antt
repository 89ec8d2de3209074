-- ===== src/Subscriptions.antt =====
-- The subscription lifecycle of `CapEngine`, libs/cap-core/src/engine/cap-engine.ts: registration,
-- `startSubscriptions`, `stopSubscriptions` and `subscribe`.
-- A call runs to its first `await` at once; what remains is a task in the state, and each later step is
-- an event: the promise that a task waits for has settled. So a sequence of events is an interleaving.
-- Left out: handlers, log lines, and the wait at the top of `doStartSubscriptions`, which is dead, since
-- `startSubscriptions` has returned before it where the lifecycle is `stopping` with a stop in flight.
pub mod Events
pub mod Invariant
pub mod Startup
pub mod Shutdown
pub mod Keys
pub mod Races
use cap_nodejs.Prelude.{
  ℕ, suc, ◌+◌, String, Bool, true, false, not, ◌&&◌, ◌||◌, Option, none, some, List, [], ◌∷◌,
  length, keep, every, ltb, if◌then◌else◌, str_eq, join, is_some, map,
}
use cap_nodejs.JsValue.{Thrown, error, other}
use cap_nodejs.JsMap.{JsMap, get, has, set, update, update_all, values}

-- `CapSubscriptionLifecycleState`
pub data Lifecycle : Type 0 where
  idle starting ready failed stopping stopped : Lifecycle

-- `RegisteredSubscription`, without its handler
pub record Subscription : Type 0 where
  pub key : String
  pub topic : String
  pub group : String
  pub attached : Bool

pub record Failure : Type 0 where
  pub topic : Option String
  pub group : Option String
  pub message : String

-- What is in flight behind `startPromise`: an attachment with the keys still to attach, or a result
-- whose `finally` has not run.
pub data StartTask : Type 0 where
  attaching : String → List String → StartTask
  settled : Option Failure → StartTask

-- What is in flight behind `stopPromise`: the wait for the startup that was running, with the number of
-- startups that had settled before; the close; or a result whose `finally` has not run.
pub data StopTask : Type 0 where
  awaiting_start : ℕ → StopTask
  closing : StopTask
  settled : Option String → StopTask

pub record Engine : Type 0 where
  pub subscriptions : JsMap Subscription
  pub lifecycle : Lifecycle
  pub failure : Option Failure
  pub start : Option StartTask
  pub stop : Option StopTask
  pub stop_requested : Bool
  pub shutdown_incomplete : Bool
  pub starts_settled : ℕ
  pub subscribing : List String

abbrev pub new_engine : Engine
new_engine = record {
  subscriptions = [];
  lifecycle = Lifecycle.idle;
  failure = none;
  start = none;
  stop = none;
  stop_requested = false;
  shutdown_incomplete = false;
  starts_settled = 0;
  subscribing = [];
}

-- Why a call is refused.
pub data Refusal : Type 0 where
  invalid_topic duplicate not_registrable incomplete_shutdown in_transition : Refusal

-- How a call answers: it is refused, it has resolved, it shares or starts the task in flight, or it goes
-- on when the stop in flight has settled.
pub data Reply : Type 0 where
  refused : Refusal → Reply
  resolved in_flight after_stop : Reply

-- `subscriptionKey`
unfoldable pub subscription_key : String → String → String
subscription_key topic group = join topic (join "|" group)

-- `assertRegistrable`
abbrev pub is_registrable : Lifecycle → Bool
is_registrable Lifecycle.starting = false
is_registrable Lifecycle.stopping = false
is_registrable Lifecycle.ready = false
is_registrable _ = true

abbrev pub is_transitional : Lifecycle → Bool
is_transitional Lifecycle.starting = true
is_transitional Lifecycle.stopping = true
is_transitional _ = false

abbrev pub unattached_entry : String → String → Subscription
unattached_entry topic group = record {
  key = subscription_key topic group;
  topic = topic;
  group = group;
  attached = false;
}

-- `registerSubscription`, with `assertTopicValid`; a group of the type `string` is always valid.
unfoldable pub register_subscription : String → String → Engine → Reply × Engine
register_subscription topic group s =
    let key = subscription_key topic group in
    if str_eq topic ""
    then (refused invalid_topic, s)
    else if not (is_registrable s.lifecycle)
    then (refused not_registrable, s)
    else if has key s.subscriptions
    then (refused duplicate, s)
    else (
      resolved,
      record s { subscriptions = set key (unattached_entry topic group) s.subscriptions },
    )

-- The loop of `doStartSubscriptions` from the check before an attachment on.
unfoldable pub next_attachment : List String → Engine → Engine
next_attachment [] s =
    if s.stop_requested
    then record s { start = some (StartTask.settled none) }
    else record s { lifecycle = Lifecycle.ready; start = some (StartTask.settled none) }
next_attachment (k ∷ ks) s =
    if s.stop_requested
    then record s { start = some (StartTask.settled none) }
    else record s { start = some (attaching k ks) }

-- `[...subscriptions.values()].filter((s) => !s.attached)`, by their keys
abbrev pub unattached_keys : JsMap Subscription → List String
unattached_keys [] = []
unattached_keys ((k, sub) ∷ m) = if sub.attached then unattached_keys m else k ∷ unattached_keys m

-- `doStartSubscriptions` up to its first attachment
unfoldable pub do_start_subscriptions : Engine → Engine
unfolding next_attachment
do_start_subscriptions s =
    let t = record s { lifecycle = Lifecycle.starting; failure = none } in
    elim (unattached_keys s.subscriptions) [
      | [] ↦ record t { lifecycle = Lifecycle.ready; start = some (StartTask.settled none) }
      | k ∷ ks ↦ next_attachment (k ∷ ks) t
    ]

abbrev pub is_ready : Lifecycle → Bool
is_ready Lifecycle.ready = true
is_ready _ = false

abbrev pub is_stopping : Lifecycle → Bool
is_stopping Lifecycle.stopping = true
is_stopping _ = false

abbrev pub is_stopped : Lifecycle → Bool
is_stopped Lifecycle.stopped = true
is_stopped _ = false

-- `startSubscriptions`
unfoldable pub start_subscriptions : Engine → Reply × Engine
unfolding do_start_subscriptions
start_subscriptions s =
    if is_ready s.lifecycle
    then (resolved, s)
    else if is_stopping s.lifecycle && is_some s.stop
    then (after_stop, s)
    else if s.shutdown_incomplete
    then (refused incomplete_shutdown, s)
    else if is_some s.start
    then (in_flight, s)
    else (in_flight, do_start_subscriptions (record s { stop_requested = false }))

abbrev pub set_attached : Bool → Subscription → Subscription
set_attached b sub = record sub { attached = b }

-- The message of a rejection: `err instanceof Error ? err.message : fallback`
abbrev pub message_of : String → Thrown → String
message_of fallback (error message) = message
message_of fallback (other s) = fallback

-- `consume` has resolved for the subscription that the startup is attaching.
unfoldable pub attached : Engine → Engine
unfolding next_attachment
attached s = elim s.start [
  | some (attaching k ks) ↦
      next_attachment ks (record s { subscriptions = update k (set_attached true) s.subscriptions })
  | _ ↦ s
]

abbrev pub failure_of : String → JsMap Subscription → String → Failure
failure_of k m message = elim (get k m) [
  | none ↦ record { topic = none; group = none; message = message }
  | some sub ↦ record { topic = some sub.topic; group = some sub.group; message = message }
]

-- `consume` has rejected for the subscription that the startup is attaching.
unfoldable pub attach_failed : Thrown → Engine → Engine
attach_failed err s = elim s.start [
  | some (attaching k ks) ↦
      let f = failure_of k s.subscriptions (message_of "Subscriber attachment failed" err) in
      record s {
        failure = some f;
        lifecycle = Lifecycle.failed;
        start = some (StartTask.settled (some f));
      }
  | _ ↦ s
]

-- The `finally` of `startSubscriptions`
unfoldable pub start_settles : Engine → Engine
start_settles s = elim s.start [
  | some (StartTask.settled _) ↦ record s { start = none; starts_settled = s.starts_settled + 1 }
  | _ ↦ s
]

-- The end of `doStopSubscriptions`, after a close that succeeded
abbrev pub all_stopped : Engine → Engine
all_stopped s = record s {
  subscriptions = update_all (set_attached false) s.subscriptions;
  shutdown_incomplete = false;
  failure = none;
  lifecycle = Lifecycle.stopped;
  stop = some (StopTask.settled none);
}

-- `doStopSubscriptions` after the wait; `has_close` says whether the subscriber has a `close`.
unfoldable pub begin_close : Bool → Engine → Engine
begin_close has_close s =
    let t = record s { lifecycle = Lifecycle.stopping } in
    if has_close then record t { stop = some closing } else all_stopped t

-- `stopSubscriptions`, and `close`
unfoldable pub stop_subscriptions : Bool → Engine → Reply × Engine
unfolding begin_close
stop_subscriptions has_close s =
    let t = record s { stop_requested = true } in
    if is_stopped s.lifecycle
    then (resolved, s)
    else if is_some s.stop
    then (in_flight, s)
    else if is_some s.start
    then (in_flight, record t { stop = some (awaiting_start s.starts_settled) })
    else (in_flight, begin_close has_close t)

-- The startup that a stop waits for has settled.
unfoldable pub stop_resumes : Bool → Engine → Engine
unfolding begin_close
stop_resumes has_close s = elim s.stop [
  | some (awaiting_start n) ↦ if ltb n s.starts_settled then begin_close has_close s else s
  | _ ↦ s
]

-- `subscriber.close()` has resolved.
unfoldable pub closed : Engine → Engine
closed s = elim s.stop [ some closing ↦ all_stopped s | _ ↦ s ]

-- `subscriber.close()` has rejected.
unfoldable pub close_failed : Thrown → Engine → Engine
close_failed err s = elim s.stop [
  | some closing ↦
      let message = message_of "Subscriber close failed" err in
      record s {
        failure = some (record { topic = none; group = none; message = message });
        shutdown_incomplete = true;
        lifecycle = Lifecycle.failed;
        stop = some (StopTask.settled (some message));
      }
  | _ ↦ s
]

-- The `finally` of `stopSubscriptions`
unfoldable pub stop_settles : Engine → Engine
stop_settles s = elim s.stop [
  | some (StopTask.settled _) ↦ record s { stop = none; stop_requested = false }
  | _ ↦ s
]

-- `subscribe` up to its attachment (`doSubscribe`)
unfoldable pub subscribe : String → String → Engine → Reply × Engine
subscribe topic group s =
    let key = subscription_key topic group in
    if has key s.subscriptions
    then (refused duplicate, s)
    else if str_eq topic ""
    then (refused invalid_topic, s)
    else if s.shutdown_incomplete
    then (refused incomplete_shutdown, s)
    else if is_transitional s.lifecycle
    then (refused in_transition, s)
    else (
      in_flight,
      record s {
        subscriptions = set key (unattached_entry topic group) s.subscriptions;
        subscribing = key ∷ s.subscribing;
      },
    )

abbrev pub contains : String → List String → Bool
contains k [] = false
contains k (x ∷ xs) = if str_eq x k then true else contains k xs

abbrev pub remove : String → List String → List String
remove k [] = []
remove k (x ∷ xs) = if str_eq x k then xs else x ∷ remove k xs

-- `consume` has resolved for a `subscribe` in flight.
unfoldable pub subscribed : String → Engine → Engine
subscribed k s =
    let m = update k (set_attached true) s.subscriptions in
    let t = record s { subscriptions = m; subscribing = remove k s.subscribing } in
    if not (contains k s.subscribing)
    then s
    else if is_transitional s.lifecycle
    then t
    else if every (λ sub. sub.attached) (values m)
    then record t { lifecycle = Lifecycle.ready; failure = none }
    else t

-- `consume` has rejected for a `subscribe` in flight.
unfoldable pub subscribe_failed : String → Thrown → Engine → Engine
subscribe_failed k err s =
    let f = failure_of k s.subscriptions (message_of "Subscriber attachment failed" err) in
    if not (contains k s.subscribing) then s else record s {
      failure = some f;
      lifecycle = Lifecycle.failed;
      subscribing = remove k s.subscribing;
    }

-- `CapSubscriptionLifecycleSnapshot`
pub record Snapshot : Type 0 where
  pub state : Lifecycle
  pub registered_count : ℕ
  pub attached_count : ℕ
  pub failure : Option Failure

-- `getSubscriptionLifecycle`
unfoldable pub get_subscription_lifecycle : Engine → Snapshot
get_subscription_lifecycle s = record {
  state = s.lifecycle;
  registered_count = length s.subscriptions;
  attached_count = length (keep (λ sub. sub.attached) (values s.subscriptions));
  failure = s.failure;
}
