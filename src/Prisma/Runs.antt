-- ===== src/Prisma/Runs.antt =====
-- Runs of the outbox storage on Prisma.
use cap_nodejs.Prelude.{ℕ, String, Bool, true, false, List, ◌≡◌, refl, sym, ap, subst}
use cap_nodejs.JsValue.{Value, Headers}
use cap_nodejs.Sql.{Update, Executes}
use cap_nodejs.Sql.Operations.{
  Operation, Answer, released, report, report_outcome, memory_step, run, run_refines, run_same,
}
use cap_nodejs.Prisma.{
  Provider, mysql, postgresql, in_order, PublishRow, Table, mark_published, mark_publish_failed,
  renew_publish_claim, release_expired_claims, requeue_publish, published_update, failed_update,
  renew_update, release_update, requeue_update,
}
use cap_nodejs.Prisma.Refines.{
  to_store, IsTable, affects-IsTable, mark_published_refines, mark_publish_failed_refines,
  renew_publish_claim_refines, release_expired_claims_refines, requeue_publish_refines,
}

module _ (p : Provider) (execute : Update PublishRow → Table → ℕ × Table) where
  unfoldable pub prisma_step : Operation → Table → Answer × Table
  prisma_step (Operation.marks_published id at now expected) t =
      report (mark_published p execute id at now expected t)
  prisma_step (Operation.marks_failed id err o) t =
      report (mark_publish_failed p execute id err o t)
  prisma_step (Operation.renews o) t = report (renew_publish_claim p execute o t)
  prisma_step (Operation.releases now) t = (released, release_expired_claims p execute now t)
  prisma_step (Operation.retries id now) t = report_outcome (requeue_publish p execute id now t)

module _ (parse : String → Value) (parse_headers : String → Headers) (p : Provider)
    (execute : Update PublishRow → Table → ℕ × Table)
    (documented : Executes (in_order p) execute) where
  prisma_step_refines :
      (op : Operation) (t : Table)
      → IsTable parse parse_headers t
      → memory_step op (to_store parse parse_headers t) ≡ (
        (prisma_step p execute op t).0,
        to_store parse parse_headers (prisma_step p execute op t).1,
      )
  unfolding memory_step prisma_step
  prisma_step_refines (Operation.marks_published id at now expected) t h =
      ap report
        (mark_published_refines parse parse_headers p execute documented id at now expected t h)
  prisma_step_refines (Operation.marks_failed id err o) t h =
      ap report (mark_publish_failed_refines parse parse_headers p execute documented id err o t h)
  prisma_step_refines (Operation.renews o) t h =
      ap report (renew_publish_claim_refines parse parse_headers p execute documented o t h)
  prisma_step_refines (Operation.releases now) t h =
      rw (release_expired_claims_refines parse parse_headers p execute documented now t) refl
  prisma_step_refines (Operation.retries id now) t h =
      let (same, after) =
        requeue_publish_refines parse parse_headers p execute documented id now t h in
      rw (same, after) refl

  prisma_step-IsTable :
      (op : Operation) (t : Table)
      → IsTable parse parse_headers t
      → IsTable parse parse_headers (prisma_step p execute op t).1
  unfolding prisma_step mark_published published_update mark_publish_failed failed_update
      renew_publish_claim renew_update release_expired_claims release_update requeue_publish
      requeue_update cap_nodejs.Prisma.set_failed_retry
  prisma_step-IsTable (Operation.marks_published id at now expected) t =
      affects-IsTable parse parse_headers p execute documented (published_update id at now expected)
        (λ r. refl) t
  prisma_step-IsTable (Operation.marks_failed id err o) t =
      affects-IsTable parse parse_headers p execute documented (failed_update p id err o)
        (λ r. refl) t
  prisma_step-IsTable (Operation.renews o) t =
      affects-IsTable parse parse_headers p execute documented (renew_update o) (λ r. refl) t
  prisma_step-IsTable (Operation.releases now) t =
      affects-IsTable parse parse_headers p execute documented (release_update now) (λ r. refl) t
  prisma_step-IsTable (Operation.retries id now) t =
      affects-IsTable parse parse_headers p execute documented (requeue_update id now) (λ r. refl) t

  -- On a database that executes an UPDATE as documented, and a table whose ids are distinct, any sequence of
  -- calls of the Prisma outbox storage (completions, failures, renewals, releases and requeues) gives the answers
  -- of the in-memory storage on the events of the rows, and leaves the rows of the events that it leaves; of a
  -- requeue the answer is its outcome.
  pub prisma_run_refines :
      (ops : List Operation) (t : Table)
      → IsTable parse parse_headers t
      → let (answers, t') = run (prisma_step p execute) ops t in
        run memory_step ops (to_store parse parse_headers t)
        ≡ (answers, to_store parse parse_headers t')
  prisma_run_refines =
      run_refines memory_step (prisma_step p execute) (to_store parse parse_headers)
        (IsTable parse parse_headers) prisma_step_refines prisma_step-IsTable

-- A provider whose assignments take effect from left to right, or not
abbrev pub provider_like : Bool → Provider
provider_like true = mysql
provider_like false = postgresql

in_order-like : (b : Bool) → in_order (provider_like b) ≡ b
in_order-like true = refl
in_order-like false = refl

-- A storage whose calls are those of the Prisma storage on such a provider refines the in-memory storage as well.
pub like_run_refines :
    (parse : String → Value) (parse_headers : String → Headers) (left_to_right : Bool)
    (execute : Update PublishRow → Table → ℕ × Table) (step : Operation → Table → Answer × Table)
    → Executes left_to_right execute
    → ((op : Operation) (t : Table)
        → step op t ≡ prisma_step (provider_like left_to_right) execute op t)
    → (ops : List Operation) (t : Table) → IsTable parse parse_headers t
    → let (answers, t') = run step ops t in
      run memory_step ops (to_store parse parse_headers t)
      ≡ (answers, to_store parse parse_headers t')
like_run_refines parse parse_headers b execute step documented same ops t keys =
    let p = provider_like b in
    let documented' : Executes (in_order p) execute =
      subst (λ c. Executes c execute) (sym (in_order-like b)) documented in
    rw (run_same step (prisma_step p execute) same ops t)
      (prisma_run_refines parse parse_headers p execute documented' ops t keys)
