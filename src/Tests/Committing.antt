-- ===== src/Tests/Committing.antt =====
-- Work after a commit.
use cap_nodejs.Prelude.{ℕ, zero, String, Option, none, List, [], ◌∷◌, ◌≡◌, refl}
use cap_nodejs.JsValue.{Thrown, error}
use cap_nodejs.Effect.{Effect, Result, ok, thrown}
use cap_nodejs.Transactions.{Queue, with_transaction_and_post_commit}
use cap_nodejs.Transactions.PostCommit.{given, retrying, retrying_delivers_rolled_back}

abbrev queues : ℕ → Result String × List String
queues zero = (thrown (error "conflict"), "sent" ∷ [])
queues _ = (ok "done", "sent" ∷ [])

abbrev delivers : List String → Option Thrown
delivers items = none

abbrev just_once : Effect (Queue String) String → Effect (Queue String) String
just_once m = m

retrying_delivers_rolled_back_example :
    (with_transaction_and_post_commit queues retrying delivers).1 ≡ given ("sent" ∷ "sent" ∷ [])
retrying_delivers_rolled_back_example =
    retrying_delivers_rolled_back queues delivers (error "conflict") "done" ("sent" ∷ [])
      ("sent" ∷ []) refl refl
