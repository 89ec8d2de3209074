-- ===== src/Envelope/Json.antt =====
-- `isJsonValue` of libs/cap-core/src/utils/cap-message-envelope.util.ts.
use cap_nodejs.Prelude.{Bool, true, false, ◌&&◌}
use cap_nodejs.JsValue.{Value, Items, Fields, nil, cons, end, field, is_finite}

unfoldable mutual
  unfolding is_finite

  pub is_json_value : Value → Bool
  is_json_value Value.null = true
  is_json_value (Value.string s) = true
  is_json_value (Value.boolean b) = true
  is_json_value (Value.number n) = is_finite n
  is_json_value (Value.array xs) = every_json_item xs
  is_json_value (Value.object true fs) = every_json_field fs
  is_json_value _ = false

  pub every_json_item : Items → Bool
  every_json_item nil = true
  every_json_item (cons v xs) = is_json_value v && every_json_item xs

  pub every_json_field : Fields → Bool
  every_json_field end = true
  every_json_field (field k v fs) = is_json_value v && every_json_field fs
