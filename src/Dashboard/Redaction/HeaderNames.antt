-- ===== src/Dashboard/Redaction/HeaderNames.antt =====
-- What redaction does to the headers of a message.
use cap_nodejs.Prelude.{String, List, [], ◌∷◌, ◌≡◌, refl, if◌then◌else◌, eq_iff, arith}
use mathlib.Core.Option
use cap_nodejs.JsValue.{Headers, text}
use cap_nodejs.JsMap.{get}
use cap_nodejs.Dashboard.Redaction.{redacted, is_sensitive, redact_headers}

-- Of the headers that the dashboard shows, one whose name is in lower case a sensitive one has the mark for its
-- value, and every other has its own; no header is added or left out.
pub get-redact_headers :
    (lower : String → String) (sensitive : List String) (name : String) (headers : Headers)
    → get name (redact_headers lower sensitive headers)
      ≡ Option.map
          (λ value. if is_sensitive lower sensitive name then text redacted else value)
          (get name headers)
unfolding redact_headers
get-redact_headers lower sensitive name [] = refl
get-redact_headers lower sensitive name ((k, value) ∷ headers) =
    ground (arith, eq_iff k name, get-redact_headers lower sensitive name headers)
