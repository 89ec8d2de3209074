-- ===== src/TypeOrm/Runs.antt =====
-- The statements of the TypeORM outbox storage against those of the Prisma one, and runs of it.
use cap_nodejs.Prelude.{ℕ, String}
use cap_nodejs.Sql.{Update}
use cap_nodejs.Sql.Operations.{Operation, Answer, released, report, report_outcome}
use cap_nodejs.Prisma
use cap_nodejs.Prisma.{PublishRow, Table}
use cap_nodejs.TypeOrm

module _ (execute : Update PublishRow → Table → ℕ × Table) where
  unfoldable pub typeorm_step : String → Operation → Table → Answer × Table
  typeorm_step dialect (Operation.marks_published id at now expected) t =
      report (TypeOrm.mark_published execute id at now expected t)
  typeorm_step dialect (Operation.marks_failed id err o) t =
      report (TypeOrm.mark_publish_failed execute dialect id err o t)
  typeorm_step dialect (Operation.renews o) t = report (TypeOrm.renew_publish_claim execute o t)
  typeorm_step dialect (Operation.releases now) t =
      (released, TypeOrm.release_expired_claims execute now t)
  typeorm_step dialect (Operation.retries id now) t =
      report_outcome (TypeOrm.requeue_publish execute id now t)
