-- ===== src/Rabbit/Retry.antt =====
-- Bounded retries of a connection, `retryConnection` of libs/cap-transport-rabbitmq/src/rabbitmq-retry.ts.
-- `operation n` is what the `n`th attempt ends with, `stops n` the `n`th answer of `shouldStop`. Log lines are
-- left out.
use cap_nodejs.Prelude.{
  ℕ, zero, suc, ◌+◌, ◌-◌, ◌*◌, ◌^◌, ◌≤◌, ◌<◌, min, Bool, false, List, [], ◌∷◌, ◌≡◌, arith,
  if◌then◌else◌, length, All, ◌++◌, subst,
}
use cap_nodejs.JsValue.{Thrown}
use cap_nodejs.Effect.{Result, ok, thrown}
use cap_nodejs.Rabbit.{ResolvedOptions}

-- `backoff`
unfoldable pub backoff : ResolvedOptions → ℕ → ℕ
backoff o attempt = min o.max_delay_ms (o.initial_delay_ms * 2 ^ (attempt - 1))

-- How the loop ends: with a value, with `RabbitMqRetryCancelledError`, or with the last error
pub data End (A : Type 0) : Type 0 where
  returned : A → End A
  cancelled : End A
  exhausted : Thrown → End A

-- The end of a run, the attempts that were made, and the delays that were waited
pub record Run (A : Type 0) : Type 0 where
  pub end : End A
  pub attempts : ℕ
  pub delays : List ℕ

add_zero : (n : ℕ) → n + 0 ≡ n
add_zero n = omega arith

shift : (n k : ℕ) → n + suc k ≡ n + 1 + k
shift n k = omega arith

module _ {A : Type 0} (operation : ℕ → Result A) (stops : ℕ → Bool) (o : ResolvedOptions) where
  abbrev pub attempted : List ℕ → Run A → Run A
  attempted waited r = record r { attempts = suc r.attempts; delays = waited ++ r.delays }

  -- The loop from `attempt` on, with `left` attempts after this one; `asked` times `shouldStop` was asked.
  unfoldable pub retry_from : ℕ → ℕ → ℕ → Run A
  retry_from zero attempt asked =
      if stops asked
      then record { end = cancelled; attempts = 0; delays = [] }
      else elim (operation attempt) [
        | ok a ↦ record { end = returned a; attempts = 1; delays = [] }
        | thrown e ↦ record {
          end = if stops (asked + 1) then cancelled else exhausted e;
          attempts = 1;
          delays = [];
        }
      ]
  retry_from (suc left) attempt asked =
      let rest = retry_from left (attempt + 1) (asked + 3) in
      if stops asked
      then record { end = cancelled; attempts = 0; delays = [] }
      else elim (operation attempt) [
        | ok a ↦ record { end = returned a; attempts = 1; delays = [] }
        | thrown e ↦
            if stops (asked + 1)
            then record { end = cancelled; attempts = 1; delays = [] }
            else if stops (asked + 2)
            then record { end = cancelled; attempts = 1; delays = backoff o attempt ∷ [] }
            else attempted (backoff o attempt ∷ []) rest
      ]

  -- `retryConnection`, for a positive number of attempts
  unfoldable pub retry_connection : Run A
  unfolding retry_from
  retry_connection = retry_from (o.attempts - 1) 1 0

  retry_from_bounds :
      (left attempt asked : ℕ)
      → let r = retry_from left attempt asked in
        (r.attempts ≤ suc left) × (length r.delays ≤ left) × All (λ d. d ≤ o.max_delay_ms) r.delays
  unfolding retry_from backoff
  retry_from_bounds zero attempt asked = ground arith
  retry_from_bounds (suc left) attempt asked =
      ground (arith, retry_from_bounds left (attempt + 1) (asked + 3))

  -- With a positive number of attempts, the loop ends after at most that many; it waits at most once between two
  -- of them, and never longer than the longest delay of the options.
  pub retry_connection_bounds :
      0 < o.attempts
      → (retry_connection.attempts ≤ o.attempts)
        × (length retry_connection.delays < o.attempts)
        × All (λ d. d ≤ o.max_delay_ms) retry_connection.delays
  unfolding retry_connection
  retry_connection_bounds some_attempts = ground (arith, retry_from_bounds (o.attempts - 1) 1 0)

  retry_from_succeeds :
      (n left attempt asked : ℕ) (a : A)
      → n ≤ left
      → ((k : ℕ) → stops k ≡ false)
      → ((k : ℕ) → k < n → (e : Thrown) × (operation (attempt + k) ≡ thrown e))
      → operation (attempt + n) ≡ ok a
      → ((retry_from left attempt asked).end ≡ returned a)
        × ((retry_from left attempt asked).attempts ≡ suc n)
  unfolding retry_from
  retry_from_succeeds zero zero attempt asked a room runs fails good =
      let now : operation attempt ≡ ok a =
        subst (λ k. operation k ≡ ok a) (add_zero attempt) good in
      ground (arith, runs asked)
  retry_from_succeeds zero (suc left) attempt asked a room runs fails good =
      let now : operation attempt ≡ ok a =
        subst (λ k. operation k ≡ ok a) (add_zero attempt) good in
      ground (arith, runs asked)
  retry_from_succeeds (suc n) zero attempt asked a room runs fails good = absurd (omega arith)
  retry_from_succeeds (suc n) (suc left) attempt asked a room runs fails good =
      let (e, bad) = fails 0 (omega arith) in
      let now : operation attempt ≡ thrown e =
        subst (λ k. operation k ≡ thrown e) (add_zero attempt) bad in
      let later =
        retry_from_succeeds n left (attempt + 1) (asked + 3) a (omega arith) runs
          (λ k less.
            let (f, worse) = fails (suc k) (omega arith) in
            (f, subst (λ j. operation j ≡ thrown f) (shift attempt k) worse))
          (subst (λ j. operation j ≡ ok a) (shift attempt n) good) in
      ground (arith, runs asked, runs (asked + 1), runs (asked + 2), later)

  -- If nobody asks to stop, the attempts before one fail and that one succeeds within the number of attempts, then
  -- its value is returned and no attempt is made after it.
  pub retry_connection_succeeds :
      (n : ℕ) (a : A)
      → n < o.attempts
      → ((k : ℕ) → stops k ≡ false)
      → ((k : ℕ) → k < n → (e : Thrown) × (operation (1 + k) ≡ thrown e))
      → operation (1 + n) ≡ ok a
      → (retry_connection.end ≡ returned a) × (retry_connection.attempts ≡ suc n)
  unfolding retry_connection
  retry_connection_succeeds n a room runs fails good =
      retry_from_succeeds n (o.attempts - 1) 1 0 a (omega arith) runs fails good
