-- ===== src/Subscriptions/Shutdown.antt =====
-- Stops: from rest, during a startup, and when the close fails.
use cap_nodejs.Prelude.{
  String, true, false, none, some, List, [], ◌∷◌, ◌≡◌, refl, ◌≢◌, arith, keep, eq_iff,
}
use cap_nodejs.JsValue.{Thrown}
use cap_nodejs.JsMap.{JsMap, has, update, update_all, values}
use cap_nodejs.Subscriptions.{
  Engine, Lifecycle, StartTask, Subscription, in_flight, refused, incomplete_shutdown, closing,
  set_attached, next_attachment, start_subscriptions, attached, start_settles, stop_subscriptions,
  stop_resumes, stop_settles, closed, close_failed, subscribe, get_subscription_lifecycle,
  subscription_key,
}
use cap_nodejs.Subscriptions.Startup.{IsAttaching}

-- Nothing is attached, the shutdown is complete, and there is no failure.
pub record IsStopped (s : Engine) : Type 0 where
  pub stopped : s.lifecycle ≡ Lifecycle.stopped
  pub none_attached : (get_subscription_lifecycle s).attached_count ≡ 0
  pub complete : s.shutdown_incomplete ≡ false
  pub no_failure : s.failure ≡ none

keep-set_attached :
    (m : JsMap Subscription)
    → keep (λ sub. sub.attached) (values (update_all (set_attached false) m)) ≡ []
keep-set_attached [] = refl
keep-set_attached ((k, sub) ∷ m) = keep-set_attached m

closed-IsStopped : (s : Engine) → s.stop ≡ some closing → IsStopped (closed s)
unfolding closed get_subscription_lifecycle
closed-IsStopped s e = ground (arith, keep-set_attached s.subscriptions)

-- A stop of an engine that is not stopped, with no startup and no stop in flight, closes the subscriber;
-- once that succeeds no subscription is attached, the lifecycle is `stopped`, and every registration is
-- still there. Without a `close` it is stopped at once.
pub stop_subscriptions-IsStopped :
    (s : Engine)
    → s.lifecycle ≢ Lifecycle.stopped
    → s.start ≡ none
    → s.stop ≡ none
    → IsStopped (closed (stop_subscriptions true s).1)
      × IsStopped (stop_subscriptions false s).1
      × ((closed (stop_subscriptions true s).1).subscriptions
          ≡ update_all (set_attached false) s.subscriptions)
unfolding closed stop_subscriptions get_subscription_lifecycle
stop_subscriptions-IsStopped s running no_start no_stop = (
  ground (arith, keep-set_attached s.subscriptions),
  ground (arith, keep-set_attached s.subscriptions),
  ground arith,
)

-- A stop that is asked for while a startup attaches `k`, and while no other stop is in flight, lets that
-- attachment end and begins no other: the startup settles with the keys after `k` as they were, the stop
-- wakes, closes, and ends with nothing attached in the state `stopped`.
pub stop_during_startup :
    (k : String) (ks : List String) (s : Engine)
    → IsAttaching k ks s
    → s.stop ≡ none
    → let (reply, t) = stop_subscriptions true s in
      let u = attached t in
      (reply ≡ in_flight)
      × (t.start ≡ s.start)
      × (u.start ≡ some (StartTask.settled none))
      × (u.subscriptions ≡ update k (set_attached true) s.subscriptions)
      × IsStopped (closed (stop_resumes true (start_settles u)))
unfolding stop_subscriptions attached next_attachment start_settles stop_resumes closed
    get_subscription_lifecycle
stop_during_startup k [] s h no_stop = (
  ground arith,
  ground arith,
  ground arith,
  ground arith,
  ground (arith, keep-set_attached (update k (set_attached true) s.subscriptions)),
)
stop_during_startup k (l ∷ ks) s h no_stop = (
  ground arith,
  ground arith,
  ground arith,
  ground arith,
  ground (arith, keep-set_attached (update k (set_attached true) s.subscriptions)),
)

-- If a close fails while no startup is in flight, every attachment is kept, the lifecycle is `failed`, and
-- once the stop has settled neither a startup nor a subscription of a new pair with a topic is let in;
-- another stop is, and if its close succeeds the engine is stopped and can start again.
pub close_failed-blocks :
    (s : Engine) (err : Thrown) (topic group : String)
    → s.stop ≡ some closing
    → s.start ≡ none
    → topic ≢ ""
    → has (subscription_key topic group) s.subscriptions ≡ false
    → let f = stop_settles (close_failed err s) in
      (f.lifecycle ≡ Lifecycle.failed)
      × (f.subscriptions ≡ s.subscriptions)
      × (start_subscriptions f ≡ (refused incomplete_shutdown, f))
      × (subscribe topic group f ≡ (refused incomplete_shutdown, f))
      × IsStopped (closed (stop_subscriptions true f).1)
      × ((start_subscriptions (stop_settles (closed (stop_subscriptions true f).1))).0 ≡ in_flight)
unfolding close_failed stop_settles start_subscriptions subscribe stop_subscriptions closed
    get_subscription_lifecycle
close_failed-blocks s err topic group waits no_start named fresh = (
  ground arith,
  ground arith,
  ground arith,
  ground (arith, eq_iff topic ""),
  ground (arith, keep-set_attached s.subscriptions),
  ground arith,
)
