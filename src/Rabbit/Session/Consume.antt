-- ===== src/Rabbit/Session/Consume.antt =====
-- What a call of `consume` leaves registered, whatever the broker answers.
use cap_nodejs.Prelude.{
  ℕ, zero, suc, ◌-◌, String, true, false, Option, [], ◌∷◌, ◌++◌, ◌≡◌, arith, eq_iff, if◌then◌else◌,
  str_eq, not, ◌&&◌, some,
}
use cap_nodejs.JsValue.{Thrown}
use cap_nodejs.JsMap.{get, has, set, values}
use cap_nodejs.JsMap.Laws.{get-set, get-delete}
use cap_nodejs.Effect.{ok, thrown}
use cap_nodejs.Subscriptions.{subscription_key}
use cap_nodejs.Rabbit.{ResolvedOptions}
use cap_nodejs.Rabbit.Delivery.{Subscription}
use cap_nodejs.Rabbit.Session.{
  Session, BrokerCall, take_channel, open_channel, connect_and_restore, initialize, connect_within,
  consume, restore_on_channel,
}
use cap_nodejs.Rabbit.Session.Restore.{restore_all-SameLink, restore_subscription-SameLink}

module _ (o : ResolvedOptions) (broker : ℕ → Option Thrown) (tag : ℕ → String) where
  take_channel_same :
      (s : Session) → (take_channel o broker tag s).1.subscriptions ≡ s.subscriptions
  unfolding take_channel
  take_channel_same s =
      let u : Session = record s { connection = true; channel = true; groups = [] } in
      ground (arith, restore_all-SameLink o broker tag (values s.subscriptions) u)

  open_channel_same :
      (s : Session) → (open_channel o broker tag s).1.subscriptions ≡ s.subscriptions
  unfolding open_channel
  open_channel_same s =
      let bare : Session = record s {
        moment = suc (suc s.moment);
        calls =
            (s.calls ++ BrokerCall.creates_channel ∷ []) ++ BrokerCall.prefetches o.prefetch ∷ [];
      } in
      let asserted : Session = record bare {
        moment = suc bare.moment;
        calls = bare.calls ++ BrokerCall.asserts_exchange o.exchange_name ∷ [];
      } in
      ground (arith, take_channel_same bare, take_channel_same asserted)

  connect_and_restore_same :
      (s : Session) → (connect_and_restore o broker tag s).1.subscriptions ≡ s.subscriptions
  unfolding connect_and_restore
  connect_and_restore_same s = ground (
    arith,
    open_channel_same
        (record s { moment = suc s.moment; calls = s.calls ++ BrokerCall.connects ∷ [] }),
  )

  connect_within_same :
      (left : ℕ) (s : Session)
      → (connect_within o broker tag left s).1.subscriptions ≡ s.subscriptions
  unfolding connect_within
  connect_within_same zero s = connect_and_restore_same s
  connect_within_same (suc left) s =
      let t = (connect_and_restore o broker tag s).1 in
      ground (arith, connect_and_restore_same s, connect_within_same left t)

  initialize_same : (s : Session) → (initialize o broker tag s).1.subscriptions ≡ s.subscriptions
  unfolding initialize
  initialize_same s =
      ground (arith, connect_within_same (o.attempts - 1) (record s { disposed = false }))

  restore_on_channel_same :
      (sub : Subscription) (s : Session)
      → (restore_on_channel o broker tag sub s).1.subscriptions ≡ s.subscriptions
  unfolding restore_on_channel
  restore_on_channel_same sub s = ground (arith, restore_subscription-SameLink o broker tag sub s)

  -- A call of `consume` that throws leaves each key of the subscriptions as it was, also the key that it had
  -- entered before it connected. One that returns has entered the topic and the group under their key, unless the
  -- key was there, and has changed no other.
  pub get-consume :
      (topic group k : String) (s : Session)
      → let (r, t) = consume o broker tag topic group s in
        let key = subscription_key topic group in
        get k t.subscriptions ≡ elim r [
          | ok _ ↦
              if str_eq key k && not (has key s.subscriptions)
              then some (record { topic = topic; group = group })
              else get k s.subscriptions
          | thrown _ ↦ get k s.subscriptions
        ]
  unfolding consume
  get-consume topic group k s =
      let key = subscription_key topic group in
      let sub : Subscription = record { topic = topic; group = group } in
      let u : Session = record s { subscriptions = set key sub s.subscriptions } in
      let v = (initialize o broker tag u).1 in
      let w = (restore_on_channel o broker tag sub v).1 in
      ground (
        arith,
        initialize_same u,
        restore_on_channel_same sub v,
        get-delete key k v.subscriptions,
        get-delete key k w.subscriptions,
        get-set key k sub s.subscriptions,
        get-set key key sub s.subscriptions,
        eq_iff key k,
        eq_iff key key,
      )
