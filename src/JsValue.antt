-- ===== src/JsValue.antt =====
-- JavaScript values as the message code inspects them (`unknown`, `JsonValue`, `CapHeaders`).
-- A number is the text that `String(n)` gives, by which `===` on numbers is equality of texts for
-- every number but NaN. A date is its time value, `none` for an invalid date. An object has its own
-- enumerable properties in order, and says whether its prototype is `Object.prototype` or null.
use cap_nodejs.Prelude.{ℕ, String, Bool, Option, str_eq, not, ◌||◌}
use cap_nodejs.JsMap.{JsMap}

mutual
  pub data Value : Type 0 where
    undefined : Value
    null : Value
    boolean : Bool → Value
    number : String → Value
    string : String → Value
    date : Option ℕ → Value
    array : Items → Value
    object : Bool → Fields → Value
    function : Value

  pub data Items : Type 0 where
    nil : Items
    cons : Value → Items → Items

  pub data Fields : Type 0 where
    end : Fields
    field : String → Value → Fields → Fields

-- `CapHeaderValue` of models/cap-headers.type.ts
pub data HeaderValue : Type 0 where
  text : String → HeaderValue
  numeric : String → HeaderValue
  flag : Bool → HeaderValue
  instant : Option ℕ → HeaderValue

-- `CapHeaders`
abbrev pub Headers : Type 0
Headers = JsMap HeaderValue

-- A thrown value: an `Error` with its message, or any other value with its text.
pub data Thrown : Type 0 where
  error : String → Thrown
  other : String → Thrown

-- utils/error.util.ts
unfoldable pub normalize_error : Thrown → String
normalize_error (error message) = message
normalize_error (other s) = s

-- `Number.isFinite` on a number's text
unfoldable pub is_finite : String → Bool
is_finite n = not (str_eq n "NaN" || (str_eq n "Infinity" || str_eq n "-Infinity"))
