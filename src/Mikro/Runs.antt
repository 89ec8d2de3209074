-- ===== src/Mikro/Runs.antt =====
-- The statements of the MikroORM outbox storage against those of the Prisma one, and runs of it.
use cap_nodejs.Prelude.{ℕ, String, Option}
use cap_nodejs.Sql.{Update}
use cap_nodejs.Sql.Operations.{Operation, Answer, released, report, report_outcome}
use cap_nodejs.Prisma
use cap_nodejs.Prisma.{PublishRow, Table}
use cap_nodejs.Mikro

module _ (execute : Update PublishRow → Table → ℕ × Table) where
  unfoldable pub mikro_step : Option String → Operation → Table → Answer × Table
  mikro_step platform (Operation.marks_published id at now expected) t =
      report (Mikro.mark_published execute id at now expected t)
  mikro_step platform (Operation.marks_failed id err o) t =
      report (Mikro.mark_publish_failed execute platform id err o t)
  mikro_step platform (Operation.renews o) t = report (Mikro.renew_publish_claim execute o t)
  mikro_step platform (Operation.releases now) t =
      (released, Mikro.release_expired_claims execute now t)
  mikro_step platform (Operation.retries id now) t =
      report_outcome (Mikro.requeue_publish execute id now t)
