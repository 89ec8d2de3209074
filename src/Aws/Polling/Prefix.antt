-- ===== src/Aws/Polling/Prefix.antt =====
-- What a batch does: it settles a part of its messages, in their order, up to the first whose handler rejects or whose
-- deletion fails, or to the stop.
use cap_nodejs.Prelude.{
  ℕ, String, Bool, true, Option, none, some, List, [], ◌∷◌, ◌++◌, ◌≡◌, ◌⊎◌, length, All,
}
use cap_nodejs.JsValue.{Value, Thrown}
use cap_nodejs.Effect.{Result}
use cap_nodejs.Aws.Polling.{
  SqsMessage, Rejection, HandlerCall, Fate, skipped, deleted, rejected, completed, stopped, threw,
  Batch, fate, called, poll_messages,
}

module _ (parse : String → Result Value) (number_of : String → Option String)
    (handler : HandlerCall → Option Rejection) (topic group : String) (is_stopped : ℕ → Bool)
    (delete_error : String → Option Thrown) where
  abbrev pub fate_of : SqsMessage → Fate
  fate_of = fate parse number_of handler topic group

  abbrev pub poll : List SqsMessage → Batch
  poll = poll_messages parse number_of handler topic group is_stopped delete_error

  abbrev pub call_in : Fate → List HandlerCall
  call_in skipped = []
  call_in (deleted none receipt) = []
  call_in (deleted (some call) receipt) = call ∷ []
  call_in (rejected call) = call ∷ []

  abbrev pub receipt_in : Fate → List String
  receipt_in (deleted call receipt) = receipt ∷ []
  receipt_in skipped = []
  receipt_in (rejected call) = []

  -- The handler calls for some messages, and the receipt handles that are deleted
  abbrev pub calls_of : List SqsMessage → List HandlerCall
  calls_of [] = []
  calls_of (m ∷ ms) = call_in (fate_of m) ++ calls_of ms

  abbrev pub receipts_of : List SqsMessage → List String
  receipts_of [] = []
  receipts_of (m ∷ ms) = receipt_in (fate_of m) ++ receipts_of ms

  -- A message that the loop goes on after
  abbrev pub Settles : Fate → Type 0
  Settles skipped = Unit
  Settles (deleted call receipt) = delete_error receipt ≡ none
  Settles (rejected call) = ⊥

  -- An error: the message's handler rejects and it is not deleted, or its deletion fails.
  abbrev pub Breaks : Fate → List String → List String → Type 0
  Breaks skipped before deletes = ⊥
  Breaks (deleted call receipt) before deletes =
      (e : Thrown) × (delete_error receipt ≡ some e) × (deletes ≡ before ++ receipt ∷ [])
  Breaks (rejected call) before deletes = deletes ≡ before

  -- What ended a batch after some messages
  abbrev pub Ends : List SqsMessage → List SqsMessage → Batch → Type 0
  Ends before after b =
      ((b.ending ≡ completed)
        × (after ≡ [])
        × (b.calls ≡ calls_of before)
        × (b.deletes ≡ receipts_of before))
      ⊎ (((b.ending ≡ stopped)
            × (is_stopped (length after) ≡ true)
            × (b.calls ≡ calls_of before)
            × (b.deletes ≡ receipts_of before))
          ⊎ ((m : SqsMessage) × (rest : List SqsMessage) × (b.ending ≡ threw)
              × (after ≡ m ∷ rest)
              × (b.calls ≡ calls_of before ++ call_in (fate_of m))
              × Breaks (fate_of m) (receipts_of before) b.deletes))

  -- The batch after one more message that settles
  abbrev grown : Fate → Batch → Batch
  grown f b = record {
    calls = call_in f ++ b.calls;
    deletes = receipt_in f ++ b.deletes;
    ending = b.ending;
  }

  abbrev Splits : List SqsMessage → Batch → Type 0
  Splits ms b =
      (before after : List SqsMessage) × (ms ≡ before ++ after)
      × All (λ m. Settles (fate_of m)) before
      × Ends before after b

  -- The batch that starts with a message of some fate, and that some others follow
  abbrev starting : Fate → Batch → Batch
  starting f rest = elim f [
    | skipped ↦ rest
    | rejected call ↦ record { calls = call ∷ []; deletes = []; ending = threw }
    | deleted call receipt ↦ elim (delete_error receipt) [
      | some e ↦ record { calls = called call []; deletes = receipt ∷ []; ending = threw }
      | none ↦ record {
        calls = called call rest.calls;
        deletes = receipt ∷ rest.deletes;
        ending = rest.ending;
      }
    ]
  ]

  Fails : Fate → Batch → Type 0
  Fails f b =
      ((starting f b).ending ≡ threw)
      × ((starting f b).calls ≡ call_in f)
      × Breaks f [] (starting f b).deletes
