-- ===== src/Transactions.antt =====
-- Operation contexts and work after a commit: libs/cap-core/src/utils/operation-context.util.ts,
-- `resolvePublishOperationContext` of engine/cap-engine.ts, and libs/cap-core/src/utils/transaction.util.ts.
pub mod PostCommit
use cap_nodejs.Prelude.{
  ℕ, suc, Bool, true, false, Option, none, some, List, [], ◌∷◌, ◌++◌, if◌then◌else◌, is_some,
}
use cap_nodejs.JsValue.{Thrown}
use cap_nodejs.Effect.{Effect, Result, ok, thrown}

-- `CapOperationContext`
pub record OperationContext (Tx : Type 0) : Type 0 where
  pub tx : Option Tx

-- `CapPublishOptions`, the fields that are read
pub record PublishOptions (Tx : Type 0) : Type 0 where
  pub tx : Option Tx
  pub ctx : Option (OperationContext Tx)

-- `a ?? b`
abbrev pub or_else : {A : Type 0} → Option A → Option A → Option A
or_else none b = b
or_else (some a) b = some a

module _ {Tx : Type 0} where
  -- `resolveOperationContext`
  unfoldable pub resolve_operation_context :
      PublishOptions Tx → Option (OperationContext Tx) → Option (OperationContext Tx)
  resolve_operation_context o current = elim o.ctx [
    | some ctx ↦ some ctx
    | none ↦ elim o.tx [ some tx ↦ some (record { tx = some tx }) | none ↦ current ]
  ]

  -- `resolvePublishOperationContext`: `managed` is the transaction manager's current context, `ambient` that of the
  -- transaction context.
  unfoldable pub resolve_publish_operation_context :
      PublishOptions Tx
      → Option (OperationContext Tx)
      → Option (OperationContext Tx)
      → Option (OperationContext Tx)
  unfolding resolve_operation_context
  resolve_publish_operation_context o managed ambient =
      or_else (resolve_operation_context o none) (or_else managed ambient)

  -- `hasOperationTransaction`
  unfoldable pub has_operation_transaction : Option (OperationContext Tx) → Bool
  has_operation_transaction none = false
  has_operation_transaction (some ctx) = is_some ctx.tx

-- The state of `withTransactionAndPostCommit`: how often the transactional function was called, and
-- `postCommitQueue`
pub record Queue (Item : Type 0) : Type 0 where
  pub calls : ℕ
  pub items : List Item

module _ {T Item : Type 0} (work : ℕ → Result T × List Item) where
  -- A call of the transactional function: `work n` is what its `n`th call ends with, and what it queues.
  unfoldable pub transactional_fn : Effect (Queue Item) T
  transactional_fn q =
      let (r, items) = work q.calls in (r, record { calls = suc q.calls; items = q.items ++ items })

  -- The call of `afterCommitFn`, after the runner has ended with `r` and the queue `q`
  unfoldable pub post_commit :
      (List Item → Option Thrown) → Result T × Queue Item → Result T × Option (List Item)
  post_commit after (r, q) = elim r [
    | thrown e ↦ (thrown e, none)
    | ok a ↦ elim q.items [
      | [] ↦ (ok a, none)
      | x ∷ xs ↦ (elim (after (x ∷ xs)) [ none ↦ ok a | some e ↦ thrown e ], some (x ∷ xs))
    ]
  ]

  -- `withTransactionAndPostCommit`, with what `afterCommitFn` is given, if it is called; `run_in_tx` is the
  -- transaction runner, `after` the answer of `afterCommitFn`.
  unfoldable pub with_transaction_and_post_commit :
      (Effect (Queue Item) T → Effect (Queue Item) T)
      → (List Item → Option Thrown)
      → Result T × Option (List Item)
  unfolding transactional_fn post_commit
  with_transaction_and_post_commit run_in_tx after =
      post_commit after (run_in_tx transactional_fn (record { calls = 0; items = [] }))
