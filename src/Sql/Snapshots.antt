-- ===== src/Sql/Snapshots.antt =====
-- The snapshots of the outbox storages on a SQL database: Prisma, Knex, TypeORM and MikroORM.
use cap_nodejs.Prelude.{String, some, List, [], ◌∷◌, ◌≡◌, refl, ◌∙◌, ap, map}
use cap_nodejs.JsValue.{Value, Headers}
use cap_nodejs.Model.{PublishStatus, OutboxSnapshot}
use cap_nodejs.Outbox.Admin
use cap_nodejs.Outbox.Admin.{no_events}
use cap_nodejs.Prisma.{Table}
use cap_nodejs.Prisma.Refines.{to_store}
use cap_nodejs.Prisma.Reports.{
  add_row as prisma_row, add_rows as prisma_rows, set_count as prisma_count,
  get_publish_snapshot as prisma_snapshot,
}
use cap_nodejs.Knex.Reports.{
  SnapshotRow as KnexRow, add_row as knex_row, add_rows as knex_rows, set_count as knex_count,
  get_publish_snapshot as knex_snapshot,
}
use cap_nodejs.TypeOrm
use cap_nodejs.TypeOrm.Snapshots.{OneEach, Groups, events, get_publish_snapshot_same}
use cap_nodejs.Mikro

-- A row of a result as Knex and as MikroORM type it
abbrev pub as_knex : TypeOrm.SnapshotRow → KnexRow
as_knex r = record { status = r.status; count = some r.count; oldest_at = r.oldest_at }

abbrev pub as_mikro : TypeOrm.SnapshotRow → Mikro.SnapshotRow
as_mikro r = record { status = r.status; count = r.count; oldest_at = r.oldest_at }

prisma_row_same :
    (st : PublishStatus) (s : OutboxSnapshot) (r : TypeOrm.SnapshotRow)
    → prisma_count st r.count s.counts ≡ TypeOrm.put_count st r.count s.counts
unfolding prisma_count TypeOrm.put_count
prisma_row_same PublishStatus.pending s r = refl
prisma_row_same PublishStatus.processing s r = refl
prisma_row_same PublishStatus.published s r = refl
prisma_row_same PublishStatus.failed s r = refl
prisma_row_same PublishStatus.dead_letter s r = refl

knex_row_same :
    (st : PublishStatus) (s : OutboxSnapshot) (r : TypeOrm.SnapshotRow)
    → knex_count st r.count s.counts ≡ TypeOrm.put_count st r.count s.counts
unfolding knex_count TypeOrm.put_count
knex_row_same PublishStatus.pending s r = refl
knex_row_same PublishStatus.processing s r = refl
knex_row_same PublishStatus.published s r = refl
knex_row_same PublishStatus.failed s r = refl
knex_row_same PublishStatus.dead_letter s r = refl

mikro_row_same :
    (st : PublishStatus) (s : OutboxSnapshot) (r : TypeOrm.SnapshotRow)
    → Mikro.put_count st r.count s.counts ≡ TypeOrm.put_count st r.count s.counts
unfolding Mikro.put_count TypeOrm.put_count
mikro_row_same PublishStatus.pending s r = refl
mikro_row_same PublishStatus.processing s r = refl
mikro_row_same PublishStatus.published s r = refl
mikro_row_same PublishStatus.failed s r = refl
mikro_row_same PublishStatus.dead_letter s r = refl

prisma_rows_same :
    (s : OutboxSnapshot) (rows : List TypeOrm.SnapshotRow)
    → prisma_rows s rows ≡ TypeOrm.put_rows s rows
unfolding prisma_rows TypeOrm.put_rows prisma_row TypeOrm.put_row
prisma_rows_same s [] = refl
prisma_rows_same s (r ∷ rows) =
    prisma_rows_same (prisma_row s r) rows
    ∙ ap (λ c. TypeOrm.put_rows (record (prisma_row s r) { counts = c }) rows)
        (prisma_row_same r.status s r)

knex_rows_same :
    (s : OutboxSnapshot) (rows : List TypeOrm.SnapshotRow)
    → knex_rows s (map as_knex rows) ≡ TypeOrm.put_rows s rows
unfolding knex_rows TypeOrm.put_rows knex_row TypeOrm.put_row
knex_rows_same s [] = refl
knex_rows_same s (r ∷ rows) =
    knex_rows_same (knex_row s (as_knex r)) rows
    ∙ ap (λ c. TypeOrm.put_rows (record (knex_row s (as_knex r)) { counts = c }) rows)
        (knex_row_same r.status s r)

mikro_rows_same :
    (s : OutboxSnapshot) (rows : List TypeOrm.SnapshotRow)
    → Mikro.put_rows s (map as_mikro rows) ≡ TypeOrm.put_rows s rows
unfolding Mikro.put_rows TypeOrm.put_rows Mikro.put_row TypeOrm.put_row
mikro_rows_same s [] = refl
mikro_rows_same s (r ∷ rows) =
    mikro_rows_same (Mikro.put_row s (as_mikro r)) rows
    ∙ ap (λ c. TypeOrm.put_rows (record (Mikro.put_row s (as_mikro r)) { counts = c }) rows)
        (mikro_row_same r.status s r)

-- On a database that groups as documented, so that its result has one row for each status that some event has, with
-- their number and the instant of the earliest, the snapshots of the Prisma, the Knex, the TypeORM and the MikroORM
-- outbox storage are the snapshot of the in-memory storage on the events of the rows.
pub snapshots_same :
    (parse : String → Value) (parse_headers : String → Headers)
    (grouped : Table → List TypeOrm.SnapshotRow) (t : Table)
    → OneEach (grouped t)
    → Groups (events parse parse_headers t) (grouped t)
    → let snapshot = Admin.get_publish_snapshot (to_store parse parse_headers t) in
      (prisma_snapshot grouped t ≡ snapshot)
      × (knex_snapshot (λ t. map as_knex (grouped t)) t ≡ snapshot)
      × (TypeOrm.get_publish_snapshot grouped t ≡ snapshot)
      × (Mikro.get_publish_snapshot (λ t. map as_mikro (grouped t)) t ≡ snapshot)
unfolding prisma_snapshot knex_snapshot TypeOrm.get_publish_snapshot TypeOrm.map_outbox_snapshot
    Mikro.get_publish_snapshot
snapshots_same parse parse_headers grouped t one groups =
    let same = get_publish_snapshot_same parse parse_headers grouped t one groups in
    (
      prisma_rows_same no_events (grouped t) ∙ same,
      knex_rows_same no_events (grouped t) ∙ same,
      same,
      mikro_rows_same no_events (grouped t) ∙ same,
    )
