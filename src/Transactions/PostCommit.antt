-- ===== src/Transactions/PostCommit.antt =====
-- What is delivered after a commit.
use cap_nodejs.Prelude.{ℕ, Option, none, some, List, [], ◌∷◌, ◌++◌, ◌≡◌, refl, sym, subst, arith}
use cap_nodejs.JsValue.{Thrown}
use cap_nodejs.Effect.{Effect, Result, ok, thrown, catch}
use cap_nodejs.Transactions.{post_commit, Queue, transactional_fn, with_transaction_and_post_commit}

-- The items that are given to the callback, if there are any
abbrev pub given : {A : Type 0} → List A → Option (List A)
given [] = none
given (x ∷ xs) = some (x ∷ xs)

-- A transaction runner that runs its function again if it throws, as those do that retry after a conflict
abbrev pub retrying : {S T : Type 0} → Effect S T → Effect S T
retrying m = catch m (λ e. m)

module _ {T Item : Type 0} (work : ℕ → Result T × List Item)
    (after : List Item → Option Thrown) where
  abbrev start : Queue Item
  start = record { calls = 0; items = [] }

  post_commit_gives :
      (r : Result T) (q : Queue Item)
      → (post_commit work after (r, q)).1 ≡ elim r [ ok _ ↦ given q.items | thrown _ ↦ none ]
  unfolding post_commit
  post_commit_gives (thrown e) q = refl
  post_commit_gives (ok a) q = ground arith

  -- With a runner that calls its function once, the callback is given what the function queued, in order, if it
  -- returns and has queued something; it is not called if the function throws.
  pub once_delivers :
      (run_in_tx : Effect (Queue Item) T → Effect (Queue Item) T)
      → ((m : Effect (Queue Item) T) (q : Queue Item) → run_in_tx m q ≡ m q)
      → (with_transaction_and_post_commit work run_in_tx after).1
        ≡ elim (work 0).0 [ ok _ ↦ given (work 0).1 | thrown _ ↦ none ]
  unfolding with_transaction_and_post_commit transactional_fn
  once_delivers run_in_tx once =
      subst
        (λ r.
          (post_commit work after r).1
          ≡ elim (work 0).0 [ ok _ ↦ given (work 0).1 | thrown _ ↦ none ])
        (sym (once (transactional_fn work) start))
        (post_commit_gives (work 0).0 (record { calls = 1; items = (work 0).1 }))

  -- With a runner that runs its function again after a failure, the callback is also given what the failed call
  -- had queued, whose writes are rolled back, before what the call that succeeds has queued.
  pub retrying_delivers_rolled_back :
      (e : Thrown) (a : T) (xs ys : List Item)
      → work 0 ≡ (thrown e, xs)
      → work 1 ≡ (ok a, ys)
      → (with_transaction_and_post_commit work retrying after).1 ≡ given (xs ++ ys)
  unfolding with_transaction_and_post_commit transactional_fn
  retrying_delivers_rolled_back e a xs ys first second =
      ground
        (arith, first, second, post_commit_gives (ok a) (record { calls = 2; items = xs ++ ys }))
