-- ===== src/Sql/Operations.antt =====
-- The calls that an engine and a dashboard make of an outbox storage after the insertion of its events, and runs
-- of them, on the in-memory storage and on any other.
use cap_nodejs.Prelude.{ℕ, String, Bool, Option, List, [], ◌∷◌, ◌≡◌, refl}
use cap_nodejs.JsValue.{Thrown}
use cap_nodejs.Model.{
  PublishStatus, RequeueOutcome, RequeueResult, MarkPublishFailedOptions, RenewPublishClaimOptions,
}
use cap_nodejs.Outbox

pub data Operation : Type 0 where
  marks_published : String → ℕ → ℕ → Option String → Operation
  marks_failed : String → Thrown → MarkPublishFailedOptions → Operation
  renews : RenewPublishClaimOptions → Operation
  releases : ℕ → Operation
  retries : String → ℕ → Operation

-- What a caller learns
pub data Answer : Type 0 where
  changed : Bool → Answer
  released : Answer
  outcome : RequeueOutcome → Answer

abbrev pub report : {S : Type 0} → Bool × S → Answer × S
report (b, s) = (changed b, s)

abbrev pub report_outcome : {S : Type 0} → RequeueResult PublishStatus × S → Answer × S
report_outcome (r, s) = (outcome r.outcome, s)

unfoldable pub memory_step : Operation → Outbox.Store → Answer × Outbox.Store
memory_step (Operation.marks_published id at now expected) s =
    report (Outbox.mark_published id at expected s)
memory_step (Operation.marks_failed id err o) s = report (Outbox.mark_publish_failed id err o s)
memory_step (Operation.renews o) s = report (Outbox.renew_publish_claim o s)
memory_step (Operation.releases now) s = (released, Outbox.release_expired_claims now s)
memory_step (Operation.retries id now) s = report_outcome (Outbox.requeue_publish id now s)

module _ {S : Type 0} (step : Operation → S → Answer × S) where
  unfoldable pub run : List Operation → S → List Answer × S
  run [] s = ([], s)
  run (op ∷ ops) s = let (a, t) = step op s in let (rest, u) = run ops t in (a ∷ rest, u)

-- Runs of steps that are the same are the same.
pub run_same :
    {S : Type 0} (step step' : Operation → S → Answer × S)
    → ((op : Operation) (s : S) → step op s ≡ step' op s)
    → (ops : List Operation) (s : S) → run step ops s ≡ run step' ops s
unfolding run
run_same step step' same [] s = refl
run_same step step' same (op ∷ ops) s =
    rw (same op s, run_same step step' same ops (step' op s).1) refl

module _ {S T : Type 0} (abstract_step : Operation → S → Answer × S)
    (step : Operation → T → Answer × T) (view : T → S) (Fits : T → Type 0)
    (refines : (op : Operation) (t : T)
      → Fits t
      → abstract_step op (view t) ≡ ((step op t).0, view (step op t).1))
    (keeps : (op : Operation) (t : T) → Fits t → Fits (step op t).1) where
  -- A refinement of each step is one of each run.
  pub run_refines :
      (ops : List Operation) (t : T)
      → Fits t
      → run abstract_step ops (view t) ≡ ((run step ops t).0, view (run step ops t).1)
  unfolding run
  run_refines [] t h = refl
  run_refines (op ∷ ops) t h =
      let next = (step op t).1 in
      let rest = run_refines ops next (keeps op t h) in rw (refines op t h, rest) refl
