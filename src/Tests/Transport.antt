-- ===== src/Tests/Transport.antt =====
-- The RabbitMQ subscriber against a broker with two subscriptions.
use cap_nodejs.Prelude.{
  ℕ, zero, suc, String, Bool, true, false, Option, none, some, [], ◌∷◌, ◌≡◌, ◌≤◌, ◌<◌, ◌+◌, ◌↔◌,
  refl, arith, All, length, if◌then◌else◌, str_eq,
}
use cap_nodejs.JsValue.{Value, Thrown, error}
use cap_nodejs.JsMap.{JsMap}
use cap_nodejs.Effect.{Result, ok, thrown}
use cap_nodejs.Text.{split_dots}
use cap_nodejs.Rabbit.{ResolvedOptions, queue_name, validate_name}
use cap_nodejs.Rabbit.Topics.{topic_matches, Matches, topic_matches-iff-Matches}
use cap_nodejs.Rabbit.Delivery.{Subscription, Message, HandlerCall}
use cap_nodejs.Rabbit.Retry.{retry_connection, retry_connection_bounds}
use cap_nodejs.Rabbit.Session.{
  Session, connect_and_restore, open_channel, take_channel, restore_all, restore_subscription,
  ensure_group, ensure_consumer,
}
use cap_nodejs.Rabbit.Session.Connect.{Serves, connect_and_restore-Serves}

abbrev options : ResolvedOptions
options = record {
  url = "amqp://localhost";
  exchange_name = "cap";
  exchange_durable = true;
  queue_prefix = "cap.";
  is_quorum = false;
  prefetch = 1;
  dead_letter_exchange = none;
  dead_letter_routing_key = none;
  auto_create_topology = true;
  confirm_timeout_ms = 10000;
  attempts = 3;
  initial_delay_ms = 100;
  max_delay_ms = 150;
  requeue_on_handler_error = true;
}

abbrev orders : Subscription
orders = record { topic = "orders.*"; group = "g" }

abbrev audit : Subscription
audit = record { topic = "#"; group = "audit" }

abbrev subscriptions : JsMap Subscription
subscriptions = ("orders.*|g", orders) ∷ ("#|audit", audit) ∷ []

abbrev idle : Session
idle = record {
  subscriptions = subscriptions;
  groups = [];
  channel = false;
  connection = false;
  disposed = false;
  recovering = false;
  moment = 0;
  calls = [];
}

abbrev accepts : ℕ → Option Thrown
accepts n = none

abbrev refuses : ℕ → Option Thrown
refuses n = some (error "down")

abbrev tag : ℕ → String
tag n = "t"

connect_and_restore-Serves_example :
    Serves options accepts tag idle (connect_and_restore options accepts tag idle).1
unfolding connect_and_restore open_channel take_channel restore_all restore_subscription
    ensure_group ensure_consumer queue_name validate_name
connect_and_restore-Serves_example = connect_and_restore-Serves options accepts tag idle refl refl

abbrev parse : String → Result Value
parse text = if str_eq text "{" then thrown (error "end of input") else ok (Value.string text)

abbrev handler : HandlerCall → Option Thrown
handler call = some (error "boom")

abbrev message : Message
message = record {
  routing_key = "orders.paid";
  redelivered = true;
  content_type = some "application/json";
  content = "1";
  headers = Value.undefined;
  correlation_id = Value.undefined;
  message_id = Value.string "m";
}

topic_matches-iff-Matches_example :
    (topic_matches "orders.#.paid" "orders.eu.paid" ≡ true)
    ↔ Matches (split_dots "orders.#.paid") (split_dots "orders.eu.paid")
topic_matches-iff-Matches_example = topic_matches-iff-Matches "orders.#.paid" "orders.eu.paid"

-- The first attempt fails, and the later ones succeed.
abbrev operation : ℕ → Result String
operation (suc zero) = thrown (error "down")
operation _ = ok "up"

abbrev never : ℕ → Bool
never n = false

retry_connection_bounds_example :
    ((retry_connection operation never options).attempts ≤ 3)
    × (length (retry_connection operation never options).delays < 3)
    × All (λ d. d ≤ 150) (retry_connection operation never options).delays
retry_connection_bounds_example = retry_connection_bounds operation never options (omega arith)

first_fails : (k : ℕ) → k < 1 → (e : Thrown) × (operation (1 + k) ≡ thrown e)
first_fails zero h = (error "down", refl)
first_fails (suc k) h = absurd (omega arith)
