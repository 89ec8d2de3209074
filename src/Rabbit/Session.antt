-- ===== src/Rabbit/Session.antt =====
-- The connection of the RabbitMQ subscriber, libs/cap-transport-rabbitmq/src/rabbitmq-subscriber.ts: `consume`,
-- `initialize`, `connectAndRestore`, `restoreSubscription`, `close`, the loss of a connection, and its recovery.
-- The broker's answers are parameters, asked at numbered moments: which call rejects, and the tag of a consumer.
-- A method is run to its end before the next begins; the delays between attempts are left out (Retry has them),
-- and so are log lines and the listeners, whose effects are `connection_lost` and `recover`.
pub mod Called
pub mod Restore
pub mod Connect
pub mod Consume
use cap_nodejs.Prelude.{
  ℕ, zero, suc, ◌+◌, ◌-◌, String, Bool, true, false, not, ◌&&◌, ◌||◌, Option, none, some, List, [],
  ◌∷◌, ◌++◌, if◌then◌else◌, join, is_some, map,
}
use cap_nodejs.JsValue.{Thrown, error}
use cap_nodejs.JsMap.{JsMap, get, has, set, update, values, delete}
use cap_nodejs.Effect.{Effect, Result, ok, thrown, pure, ◌>>=◌, ◌>>◌, catch, done}
use cap_nodejs.Subscriptions.{subscription_key}
use cap_nodejs.Rabbit.{ResolvedOptions, queue_name, validate_name}
use cap_nodejs.Rabbit.Delivery.{Subscription}

pub record GroupConsumer : Type 0 where
  pub queue : String
  pub consumer_tag : Option String

pub data BrokerCall : Type 0 where
  connects creates_channel closes_channel closes_connection : BrokerCall
  prefetches : ℕ → BrokerCall
  asserts_exchange asserts_queue consumes cancels : String → BrokerCall
  binds_queue : String → String → BrokerCall

pub record Session : Type 0 where
  pub subscriptions : JsMap Subscription
  pub groups : JsMap GroupConsumer
  pub channel : Bool
  pub connection : Bool
  pub disposed : Bool
  pub recovering : Bool
  pub moment : ℕ
  pub calls : List BrokerCall

abbrev pub Act : Type 0 → Type 0
Act = Effect Session

abbrev pub modify : (Session → Session) → Act (Unit {0})
modify f s = (ok tt, f s)

abbrev pub fail : {A : Type 0} → Thrown → Act A
fail e s = (thrown e, s)

abbrev pub lift : {A : Type 0} → Result A → Act A
lift r s = (r, s)

abbrev pub reject : Option Thrown → Act (Unit {0})
reject none = done
reject (some e) = fail e

module _ (o : ResolvedOptions) (broker : ℕ → Option Thrown) (tag : ℕ → String) where
  -- A call of the broker's library: it is made, and resolves or rejects.
  abbrev pub broker_call : BrokerCall → Act (Unit {0})
  broker_call c s = (
    elim (broker s.moment) [ none ↦ ok tt | some e ↦ thrown e ],
    record s { moment = suc s.moment; calls = s.calls ++ c ∷ [] },
  )

  -- A call whose rejection is caught and logged
  abbrev pub quiet_call : BrokerCall → Act (Unit {0})
  quiet_call c = catch (broker_call c) (λ e. done)

  abbrev pub when_topology : Act (Unit {0}) → Act (Unit {0})
  when_topology m = if o.auto_create_topology then m else done

  -- `if (!groupConsumer) { ... }` of `restoreSubscription`
  unfoldable pub ensure_group : String → String → Act (Unit {0})
  ensure_group group queue s =
      (if has group s.groups
          then done
          else (when_topology (broker_call (BrokerCall.asserts_queue queue))
              >> modify (λ t. record t {
                groups = set group (record { queue = queue; consumer_tag = none }) t.groups;
              })))
        s

  abbrev pub has_consumer : String → Session → Bool
  has_consumer group s = elim (get group s.groups) [
    | none ↦ false
    | some g ↦ is_some g.consumer_tag
  ]

  abbrev pub set_tag : String → GroupConsumer → GroupConsumer
  set_tag t g = record g { consumer_tag = some t }

  -- `if (!groupConsumer.consumerTag) { ... }` of `restoreSubscription`
  unfoldable pub ensure_consumer : String → String → Act (Unit {0})
  ensure_consumer group queue s =
      (if has_consumer group s
          then done
          else (broker_call (BrokerCall.consumes queue)
              >> modify
                  (λ t. record t { groups = update group (set_tag (tag s.moment)) t.groups })))
        s

  -- `restoreSubscription`
  unfoldable pub restore_subscription : Subscription → Act (Unit {0})
  restore_subscription sub = lift (queue_name o sub.group) >>= λ queue.
      (ensure_group sub.group queue
        >> (when_topology (broker_call (BrokerCall.binds_queue queue sub.topic))
            >> ensure_consumer sub.group queue))

  unfoldable pub restore_all : List Subscription → Act (Unit {0})
  restore_all [] s = (ok tt, s)
  restore_all (sub ∷ subs) s =
      let (r, t) = restore_subscription sub s in
      elim r [ ok _ ↦ restore_all subs t | thrown e ↦ (thrown e, t) ]

  -- `connectAndRestore` once the channel is there and its topology is asserted
  unfoldable pub take_channel : Act (Unit {0})
  take_channel s =
      (if s.disposed
          then (broker_call BrokerCall.closes_channel >> broker_call BrokerCall.closes_connection)
          else (modify (λ t. record t { connection = true; channel = true; groups = [] })
              >> restore_all (values s.subscriptions)))
        s

  -- The `try` of `connectAndRestore`
  unfoldable pub open_channel : Act (Unit {0})
  open_channel =
      broker_call BrokerCall.creates_channel
      >> (broker_call (BrokerCall.prefetches o.prefetch)
          >> (when_topology (broker_call (BrokerCall.asserts_exchange o.exchange_name))
              >> take_channel))

  -- `connectAndRestore`
  unfoldable pub connect_and_restore : Act (Unit {0})
  connect_and_restore =
      broker_call BrokerCall.connects
      >> catch open_channel (λ e. quiet_call BrokerCall.closes_connection >> fail e)

  -- `retryConnection` around it, with `left` attempts after the next
  unfoldable pub connect_within : ℕ → Act (Unit {0})
  connect_within zero s = connect_and_restore s
  connect_within (suc left) s =
      let (r, t) = connect_and_restore s in
      elim r [ ok _ ↦ (ok tt, t) | thrown e ↦ connect_within left t ]

  -- `initialize`
  unfoldable pub initialize : Act (Unit {0})
  initialize s =
      (if s.channel
          then done
          else (modify (λ t. record t { disposed = false }) >> connect_within (o.attempts - 1)))
        s

  abbrev pub disconnected : Thrown
  disconnected = error "RabbitMQ is disconnected; consume failed fast"

  -- `const channel = this.channel; if (!channel) throw ...` and the restoration, of `consume`
  unfoldable pub restore_on_channel : Subscription → Act (Unit {0})
  restore_on_channel sub s = (if s.channel then restore_subscription sub else fail disconnected) s

  -- `consume`
  unfoldable pub consume : String → String → Act (Unit {0})
  consume topic group s =
      let key = subscription_key topic group in
      let sub : Subscription = record { topic = topic; group = group } in
      (reject (validate_name topic "topic")
          >> (lift (queue_name o group) >>= λ queue.
              (if has key s.subscriptions
                then done
                else (modify (λ t. record t { subscriptions = set key sub t.subscriptions })
                    >> catch (initialize >> restore_on_channel sub) (λ e.
                      (modify (λ t. record t { subscriptions = delete key t.subscriptions })
                        >> fail e))))))
        s

  abbrev pub cancel_tag : Option String → Act (Unit {0})
  cancel_tag none = done
  cancel_tag (some t) = quiet_call (BrokerCall.cancels t)

  abbrev pub cancel_all : List GroupConsumer → Act (Unit {0})
  cancel_all [] s = (ok tt, s)
  cancel_all (g ∷ gs) s = let (r, t) = cancel_tag g.consumer_tag s in cancel_all gs t

  -- `close`
  unfoldable pub close : Act (Unit {0})
  close s =
      let t = record s { disposed = true; channel = false; connection = false; groups = [] } in
      (if s.disposed && (not s.channel && not s.connection)
          then done
          else (modify (λ _. t)
              >> ((if s.channel
                    then (cancel_all (values s.groups) >> quiet_call BrokerCall.closes_channel)
                    else done)
                  >> (if s.connection then quiet_call BrokerCall.closes_connection else done))))
        s

  -- `onConnectionClose` and `onChannelClose`, and `dispatchDelivery` for a cancelled consumer; what is left of
  -- the channel and the connection is closed, and `scheduleRecovery` begins a recovery unless one is in flight.
  unfoldable pub connection_lost : Session → Session
  connection_lost s = record s {
    channel = false;
    connection = false;
    groups = [];
    recovering = not s.disposed || s.recovering;
  }

  -- The recovery that `scheduleRecovery` began: it is given up when the subscriber is disposed, and a failure is
  -- only logged.
  unfoldable pub recover : Act (Unit {0})
  recover s =
      (if s.disposed
          then modify (λ t. record t { recovering = false })
          else (catch (connect_within (o.attempts - 1)) (λ e. done)
              >> modify (λ t. record t { recovering = false })))
        s
