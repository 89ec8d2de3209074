-- ===== src/Rabbit.antt =====
-- The RabbitMQ transport, libs/cap-transport-rabbitmq/src: its names and options (rabbitmq-config.ts).
-- amqplib, the library that speaks to the broker, is not part of the repository.
pub mod Topics
pub mod Delivery
pub mod Settlement
pub mod Retry
pub mod Session
use cap_nodejs.Prelude.{
  ℕ, String, Bool, true, false, not, ◌&&◌, ◌||◌, Option, none, some, if◌then◌else◌, join, str_eq,
  ltb, leb, or_default, is_some,
}
use cap_nodejs.JsValue.{Thrown, error}
use cap_nodejs.Effect.{Result, ok, thrown}
use cap_nodejs.Text.{has_control, starts_with_space, ends_with_space, byte_length, starts_with}

abbrev pub max_amqp_name_bytes : ℕ
max_amqp_name_bytes = 255

-- `validateName`: none, or what it throws
unfoldable pub validate_name : String → String → Option Thrown
validate_name value label =
    if str_eq value "" || (starts_with_space value || (ends_with_space value || has_control value))
    then some (error (join "RabbitMQ " (join label " is invalid")))
    else if ltb max_amqp_name_bytes (byte_length value)
    then some (error (join "RabbitMQ " (join label " is too long")))
    else none

-- `validatePrefix`
unfoldable pub validate_prefix : String → String → Option Thrown
validate_prefix value label =
    if has_control value
    then some (error (join "RabbitMQ " (join label " is invalid")))
    else if leb max_amqp_name_bytes (byte_length value)
    then some (error (join "RabbitMQ " (join label " is too long")))
    else none

-- A number option: a non-negative integer, or any other number
pub data Number : Type 0 where
  natural : ℕ → Number
  unnatural : Number

unfoldable pub is_positive_integer : Number → Bool
is_positive_integer (natural n) = ltb 0 n
is_positive_integer unnatural = false

unfoldable pub is_non_negative_integer : Number → Bool
is_non_negative_integer (natural n) = true
is_non_negative_integer unnatural = false

abbrev pub number_value : Number → ℕ
number_value (natural n) = n
number_value unnatural = 0

-- `RabbitMqOptions`, without the socket options, the connection factory and the logger
pub record Options : Type 0 where
  pub url : Option String
  pub naming_prefix : Option String
  pub exchange_name : Option String
  pub exchange_type : Option String
  pub exchange_durable : Option Bool
  pub queue_prefix : Option String
  pub is_quorum : Option Bool
  pub prefetch : Option Number
  pub dead_letter_exchange : Option String
  pub dead_letter_routing_key : Option String
  pub auto_create_topology : Option Bool
  pub confirm_timeout_ms : Option Number
  pub attempts : Option Number
  pub initial_delay_ms : Option Number
  pub max_delay_ms : Option Number
  pub requeue_on_handler_error : Option Bool

-- `ResolvedRabbitMqOptions`
pub record ResolvedOptions : Type 0 where
  pub url : String
  pub exchange_name : String
  pub exchange_durable : Bool
  pub queue_prefix : String
  pub is_quorum : Bool
  pub prefetch : ℕ
  pub dead_letter_exchange : Option String
  pub dead_letter_routing_key : Option String
  pub auto_create_topology : Bool
  pub confirm_timeout_ms : ℕ
  pub attempts : ℕ
  pub initial_delay_ms : ℕ
  pub max_delay_ms : ℕ
  pub requeue_on_handler_error : Bool

-- A text that is there and not empty
abbrev pub is_given : Option String → Bool
is_given none = false
is_given (some s) = not (str_eq s "")

abbrev pub guard : Bool → String → Option Thrown → Option Thrown
guard good message rest = if good then rest else some (error message)

abbrev pub then_check : Option Thrown → Option Thrown → Option Thrown
then_check (some e) rest = some e
then_check none rest = rest

-- The checks of `resolveRabbitMqOptions`, in their order
unfoldable pub check_options : Options → Option Thrown
check_options o =
    let prefix = or_default o.naming_prefix "" in
    let attempts = or_default o.attempts (natural 5) in
    let initial = or_default o.initial_delay_ms (natural 100) in
    let longest = or_default o.max_delay_ms (natural 5000) in
    then_check (validate_name (join prefix (or_default o.exchange_name "cap")) "exchange name") (
      then_check (validate_prefix (join prefix (or_default o.queue_prefix "cap.")) "queue prefix") (
        guard
          (not (is_given o.exchange_type) || str_eq (or_default o.exchange_type "topic") "topic")
          "RabbitMQ CAP transport requires a topic exchange"
          (guard (is_positive_integer (or_default o.prefetch (natural 1)))
            "RabbitMQ prefetch must be a positive integer"
            (guard (is_positive_integer (or_default o.confirm_timeout_ms (natural 10000)))
              "RabbitMQ confirmTimeoutMs must be a positive integer"
              (guard (not (is_given o.dead_letter_routing_key) || is_given o.dead_letter_exchange)
                "RabbitMQ deadLetterRoutingKey requires deadLetterExchange"
                (then_check
                  (if is_given o.dead_letter_exchange
                    then validate_name (or_default o.dead_letter_exchange "")
                        "dead-letter exchange name"
                    else none)
                  (guard (is_positive_integer attempts)
                    "RabbitMQ reconnect attempts must be a positive integer"
                    (guard (is_non_negative_integer initial)
                      "RabbitMQ reconnect initialDelayMs must be a non-negative integer"
                      (guard (is_non_negative_integer longest)
                        "RabbitMQ reconnect maxDelayMs must be a non-negative integer"
                        (guard (leb (number_value initial) (number_value longest))
                          "RabbitMQ reconnect maxDelayMs must be at least initialDelayMs"
                          none))))))))))

-- `resolveRabbitMqOptions`
unfoldable pub resolve_rabbit_mq_options : Options → Result ResolvedOptions
resolve_rabbit_mq_options o =
    let prefix = or_default o.naming_prefix "" in
    elim (check_options o) [
      | some e ↦ thrown e
      | none ↦ ok (record {
        url = or_default o.url "amqp://localhost";
        exchange_name = join prefix (or_default o.exchange_name "cap");
        exchange_durable = or_default o.exchange_durable true;
        queue_prefix = join prefix (or_default o.queue_prefix "cap.");
        is_quorum = or_default o.is_quorum false;
        prefetch = number_value (or_default o.prefetch (natural 1));
        dead_letter_exchange = o.dead_letter_exchange;
        dead_letter_routing_key = o.dead_letter_routing_key;
        auto_create_topology = or_default o.auto_create_topology true;
        confirm_timeout_ms = number_value (or_default o.confirm_timeout_ms (natural 10000));
        attempts = number_value (or_default o.attempts (natural 5));
        initial_delay_ms = number_value (or_default o.initial_delay_ms (natural 100));
        max_delay_ms = number_value (or_default o.max_delay_ms (natural 5000));
        requeue_on_handler_error = or_default o.requeue_on_handler_error false;
      })
    ]

-- `queueName`
unfoldable pub queue_name : ResolvedOptions → String → Result String
queue_name o group =
    let value = join o.queue_prefix group in
    elim (validate_name group "consumer group") [
      | some e ↦ thrown e
      | none ↦ elim (validate_name value "generated queue name") [
        | some e ↦ thrown e
        | none ↦
            if starts_with "amq." value
            then thrown (error "Generated RabbitMQ queue names must not use amq.*")
            else ok value
      ]
    ]
