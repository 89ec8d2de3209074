-- ===== src/Tests/Storing.antt =====
-- The outbox storages on a small table.
use cap_nodejs.Prelude.{
  ℕ, String, Bool, true, false, none, some, List, [], ◌∷◌, ◌≡◌, refl, arith, take, keep, map,
}
use cap_nodejs.JsValue.{Value, Headers, error}
use cap_nodejs.Model.{
  ReceivedStatus, MarkReceivedFailedOptions, PublishStatus, OutboxSnapshot, ClaimUnpublishedOptions,
}
use cap_nodejs.Sql.{Update, Executes, matched, updated}
use cap_nodejs.Sql.Operations.{Operation, memory_step, run}
use cap_nodejs.Prisma.{
  mysql, PublishRow, Table, map_publish_row, claimable_where, claim_unpublished,
}
use cap_nodejs.Prisma.Refines.{to_store}
use cap_nodejs.Prisma.Runs.{prisma_step, prisma_run_refines}
use cap_nodejs.Prisma.Received.{ReceivedRow, ReceivedTable, find_received_row, write_failure}
use cap_nodejs.Prisma.Received.LostUpdate.{overlapping_failures_count_once}
use cap_nodejs.Outbox.Admin
use cap_nodejs.TypeOrm
use cap_nodejs.TypeOrm.Snapshots.{Groups, events}
use cap_nodejs.Mikro
use cap_nodejs.Prisma.Reports.{get_publish_snapshot as prisma_snapshot}
use cap_nodejs.Knex.Reports.{get_publish_snapshot as knex_snapshot}
use cap_nodejs.Sql.Snapshots.{as_knex, as_mikro, snapshots_same}
use cap_nodejs.Prisma.Claims.{Takes, claim_unpublished-Takes}

abbrev parse : String → Value
parse text = Value.string text

abbrev parse_headers : String → Headers
parse_headers text = []

abbrev row : String → PublishStatus → PublishRow
row id status = record {
  id = id;
  topic = "orders";
  payload = "null";
  headers = none;
  retry_count = 2;
  status = status;
  next_retry_at = none;
  last_error = none;
  locked_by = none;
  locked_until = none;
  published_at = none;
  created_at = 10;
  updated_at = 10;
}

abbrev table : Table
table = row "1" PublishStatus.pending ∷ row "2" PublishStatus.failed ∷ []

abbrev execute : Update PublishRow → Table → ℕ × Table
execute u t = (matched u t, updated true u t)

execute-Executes : Executes true execute
execute-Executes u t = refl

abbrev calls : List Operation
calls =
    Operation.marks_failed "1" (error "boom")
      (record { max_retries = 3; next_retry_at = 200; now = 110; expected_locked_by = none })
    ∷ Operation.marks_published "2" 120 121 (some "a")
    ∷ Operation.retries "1" 130
    ∷ []

prisma_run_refines_example : run memory_step calls (to_store parse parse_headers table) ≡ (
  (run (prisma_step mysql execute) calls table).0,
  to_store parse parse_headers (run (prisma_step mysql execute) calls table).1,
)
prisma_run_refines_example =
    prisma_run_refines parse parse_headers mysql execute execute-Executes calls table
      (refl, (refl, tt))

abbrev select : (PublishRow → Bool) → ℕ → Table → List PublishRow
select c n t = take n (keep c t)

abbrev claim : ClaimUnpublishedOptions
claim = record { limit = 1; locked_by = "a"; lock_until = 130; now = 100 }

claim_unpublished-Takes_example :
    Takes parse parse_headers claim table
      (claim_unpublished mysql execute parse parse_headers select claim table).0
      (claim_unpublished mysql execute parse parse_headers select claim table).1
unfolding claimable_where
claim_unpublished-Takes_example =
    claim_unpublished-Takes parse parse_headers mysql execute execute-Executes select claim table
      (omega arith, ((refl, refl), tt))

-- What a database answers to the snapshot's query on the table
abbrev grouped : Table → List TypeOrm.SnapshotRow
grouped t =
    record { status = PublishStatus.failed; count = 1; oldest_at = some 10 }
    ∷ record { status = PublishStatus.pending; count = 1; oldest_at = some 10 }
    ∷ []

-- What the in-memory storage reports of the table's events
abbrev snapshot : OutboxSnapshot
snapshot = Admin.get_publish_snapshot (to_store parse parse_headers table)

grouped-Groups : Groups (events parse parse_headers table) (grouped table)
unfolding Admin.is_status_pending map_publish_row Admin.is_status_failed
grouped-Groups PublishStatus.pending = refl
grouped-Groups PublishStatus.processing = refl
grouped-Groups PublishStatus.published = refl
grouped-Groups PublishStatus.failed = refl
grouped-Groups PublishStatus.dead_letter = refl

snapshots_same_example :
    (prisma_snapshot grouped table ≡ snapshot)
    × (knex_snapshot (λ t. map as_knex (grouped t)) table ≡ snapshot)
    × (TypeOrm.get_publish_snapshot grouped table ≡ snapshot)
    × (Mikro.get_publish_snapshot (λ t. map as_mikro (grouped t)) table ≡ snapshot)
unfolding Admin.is_status_failed
snapshots_same_example =
    snapshots_same parse parse_headers grouped table (refl, (refl, tt)) grouped-Groups

abbrev received : ReceivedRow
received = record {
  id = "1";
  topic = "orders";
  group = "g";
  message_id = "m";
  dedupe_key = "k";
  payload = "null";
  headers = none;
  is_processed = false;
  retry_count = 0;
  status = ReceivedStatus.pending;
  last_error = none;
  next_retry = none;
  processed_at = none;
  created_at = 10;
  updated_at = 10;
}

abbrev failing : MarkReceivedFailedOptions
failing = record { max_retries = 3; next_retry_at = 200; now = 110 }

abbrev execute_received : Update ReceivedRow → ReceivedTable → ℕ × ReceivedTable
execute_received u t = (matched u t, updated false u t)

execute_received-Executes : Executes false execute_received
execute_received-Executes u t = refl

abbrev after_first : ReceivedTable
after_first = write_failure execute_received "1" (error "a") failing (some received) (received ∷ [])

overlapping_failures_count_once_example :
    (r' : ReceivedRow) × (find_received_row "1"
        (write_failure execute_received "1" (error "b") failing (some received) after_first)
      ≡ some r')
    × (r'.retry_count ≡ 1)
overlapping_failures_count_once_example =
    overlapping_failures_count_once false execute_received execute_received-Executes "1" (error "a")
      (error "b") failing failing (received ∷ []) received refl
