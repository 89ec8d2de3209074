-- ===== src/Knex/Runs.antt =====
-- The statements of the Knex outbox storage against those of the Prisma one, and runs of it.
use cap_nodejs.Prelude.{ℕ, String}
use cap_nodejs.Sql.{Update}
use cap_nodejs.Sql.Operations.{Operation, Answer, released, report, report_outcome}
use cap_nodejs.Prisma
use cap_nodejs.Prisma.{PublishRow, Table}
use cap_nodejs.Knex

module _ (execute : Update PublishRow → Table → ℕ × Table) where
  unfoldable pub knex_step : String → Operation → Table → Answer × Table
  knex_step client (Operation.marks_published id at now expected) t =
      report (Knex.mark_published execute id at now expected t)
  knex_step client (Operation.marks_failed id err o) t =
      report (Knex.mark_publish_failed execute client id err o t)
  knex_step client (Operation.renews o) t = report (Knex.renew_publish_claim execute o t)
  knex_step client (Operation.releases now) t =
      (released, Knex.release_expired_claims execute now t)
  knex_step client (Operation.retries id now) t =
      report_outcome (Knex.requeue_publish execute id now t)
