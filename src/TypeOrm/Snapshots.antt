-- ===== src/TypeOrm/Snapshots.antt =====
-- The snapshot of the TypeORM outbox storage against that of the in-memory one.
use cap_nodejs.Prelude.{
  ℕ, String, Bool, Option, none, some, List, [], ◌∷◌, ◌≡◌, refl, sym, arith, ap, inl, inr,
  Bool-cases, if◌then◌else◌, keep, length, map, ◌==◌,
}
use cap_nodejs.JsValue.{Value, Headers}
use cap_nodejs.JsMap.{values}
use cap_nodejs.Model.{PublishEvent, PublishStatus, OutboxSnapshot}
use cap_nodejs.Outbox
use cap_nodejs.Outbox.{is_processing, is_dead_letter}
use cap_nodejs.Outbox.Admin
use cap_nodejs.Outbox.Admin.{is_status_pending, is_status_failed, no_events}
use cap_nodejs.Outbox.Reports.{is_published, count_if, earliest, get_publish_snapshot_lem}
use cap_nodejs.Prisma.{Table, map_publish_row}
use cap_nodejs.Prisma.Refines.{to_store}
use cap_nodejs.TypeOrm.{SnapshotRow, put_row, put_rows, get_publish_snapshot}

-- A test for each status
abbrev pub is_status : PublishStatus → PublishStatus → Bool
is_status PublishStatus.pending s = is_status_pending s
is_status PublishStatus.processing s = is_processing s
is_status PublishStatus.published s = is_published s
is_status PublishStatus.failed s = is_status_failed s
is_status PublishStatus.dead_letter s = is_dead_letter s

-- The row of a status in the result of a query that groups by the status
abbrev pub row_of : PublishStatus → List SnapshotRow → Option SnapshotRow
row_of st [] = none
row_of st (r ∷ rows) = if is_status st r.status then some r else row_of st rows

abbrev of_status : PublishStatus → List PublishEvent → List PublishEvent
of_status st es = keep (λ e. is_status st e.status) es

-- What GROUP BY, COUNT and MIN are documented to return: one row for each status that some row has, with their
-- number and the earliest instant
abbrev pub Groups : List PublishEvent → List SnapshotRow → Type 0
Groups es rows =
    (st : PublishStatus)
    → row_of st rows ≡ (
        if count_if (is_status st) es == 0
        then none
        else some (record {
          status = st;
          count = count_if (is_status st) es;
          oldest_at = earliest (keep (λ e. is_status st e.status) es);
        }))

-- No two rows have the same status.
abbrev pub OneEach : List SnapshotRow → Type 0
OneEach [] = Unit
OneEach (r ∷ rows) = (row_of r.status rows ≡ none) × OneEach rows

abbrev pub count_in : Option SnapshotRow → ℕ → ℕ
count_in none n = n
count_in (some r) n = r.count

abbrev pub oldest_in : Option SnapshotRow → Option ℕ → Option ℕ
oldest_in none at = at
oldest_in (some r) at = r.oldest_at

-- What a snapshot has of each status, by the rows and the snapshot before
abbrev Puts : OutboxSnapshot → List SnapshotRow → OutboxSnapshot → Type 0
Puts s rows s' =
    (s'.counts.pending ≡ count_in (row_of PublishStatus.pending rows) s.counts.pending)
    × (s'.counts.processing ≡ count_in (row_of PublishStatus.processing rows) s.counts.processing)
    × (s'.counts.published ≡ count_in (row_of PublishStatus.published rows) s.counts.published)
    × (s'.counts.failed ≡ count_in (row_of PublishStatus.failed rows) s.counts.failed)
    × (s'.counts.dead_letter
        ≡ count_in (row_of PublishStatus.dead_letter rows) s.counts.dead_letter)
    × (s'.oldest_pending_at ≡ oldest_in (row_of PublishStatus.pending rows) s.oldest_pending_at)
    × (s'.oldest_failed_at ≡ oldest_in (row_of PublishStatus.failed rows) s.oldest_failed_at)

Puts-cons :
    (st : PublishStatus) (n : ℕ) (at : Option ℕ) (s s' : OutboxSnapshot) (rows : List SnapshotRow)
    → row_of st rows ≡ none
    → Puts (put_row s (record { status = st; count = n; oldest_at = at })) rows s'
    → Puts s (record { status = st; count = n; oldest_at = at } ∷ rows) s'
unfolding put_row is_status_pending is_status_failed
Puts-cons PublishStatus.pending n at s s' rows new h = ground (arith, new, h)
Puts-cons PublishStatus.processing n at s s' rows new h = ground (arith, new, h)
Puts-cons PublishStatus.published n at s s' rows new h = ground (arith, new, h)
Puts-cons PublishStatus.failed n at s s' rows new h = ground (arith, new, h)
Puts-cons PublishStatus.dead_letter n at s s' rows new h = ground (arith, new, h)

put_rows-Puts :
    (s : OutboxSnapshot) (rows : List SnapshotRow) → OneEach rows → Puts s rows (put_rows s rows)
unfolding put_rows
put_rows-Puts s [] one = (refl, refl, refl, refl, refl, refl, refl)
put_rows-Puts s (r ∷ rows) (new, one) =
    Puts-cons r.status r.count r.oldest_at s (put_rows (put_row s r) rows) rows new
      (put_rows-Puts (put_row s r) rows one)

-- The events of the rows
abbrev pub events : (String → Value) → (String → Headers) → Table → List PublishEvent
events parse parse_headers t = map (map_publish_row parse parse_headers) t

values-to_store :
    (parse : String → Value) (parse_headers : String → Headers) (t : Table)
    → values (to_store parse parse_headers t) ≡ events parse parse_headers t
values-to_store parse parse_headers [] = refl
values-to_store parse parse_headers (r ∷ t) =
    ap (◌∷◌ (map_publish_row parse parse_headers r)) (values-to_store parse parse_headers t)

earliest-none :
    (st : PublishStatus) (es : List PublishEvent)
    → count_if (is_status st) es ≡ 0
    → earliest (of_status st es) ≡ none
earliest-none st es h = nothing (of_status st es) h
  where
    nothing : (xs : List PublishEvent) → length xs ≡ 0 → earliest xs ≡ none
    nothing [] h = refl
    nothing (x ∷ xs) h = absurd (omega arith)

module _ (st : PublishStatus) (es : List PublishEvent) (rows : List SnapshotRow)
    (groups : Groups es rows) where
  counted : count_in (row_of st rows) 0 ≡ count_if (is_status st) es
  counted = elim (Bool-cases (count_if (is_status st) es == 0)) [
    | inl nobody ↦ rw (groups st, nobody) (ground (arith, nobody))
    | inr some_of ↦ rw (groups st, some_of) refl
  ]

  oldest : oldest_in (row_of st rows) none ≡ earliest (of_status st es)
  oldest = elim (Bool-cases (count_if (is_status st) es == 0)) [
    | inl nobody ↦ rw (groups st, nobody) (sym (earliest-none st es (ground (arith, nobody))))
    | inr some_of ↦ rw (groups st, some_of) refl
  ]

-- On a database that groups as documented, the snapshot of the TypeORM storage is that of the in-memory storage on
-- the events of the rows.
pub get_publish_snapshot_same :
    (parse : String → Value) (parse_headers : String → Headers) (grouped : Table → List SnapshotRow)
    (t : Table)
    → OneEach (grouped t)
    → Groups (events parse parse_headers t) (grouped t)
    → get_publish_snapshot grouped t
      ≡ Outbox.Admin.get_publish_snapshot (to_store parse parse_headers t)
unfolding get_publish_snapshot
get_publish_snapshot_same parse parse_headers grouped t one groups =
    let es = events parse parse_headers t in
    let mine = put_rows-Puts no_events (grouped t) one in
    let theirs =
      rw (values-to_store parse parse_headers t) at
        (get_publish_snapshot_lem (to_store parse parse_headers t)) in
    ground (
      arith,
      mine,
      theirs,
      counted PublishStatus.pending es (grouped t) groups,
      counted PublishStatus.processing es (grouped t) groups,
      counted PublishStatus.published es (grouped t) groups,
      counted PublishStatus.failed es (grouped t) groups,
      counted PublishStatus.dead_letter es (grouped t) groups,
      oldest PublishStatus.pending es (grouped t) groups,
      oldest PublishStatus.failed es (grouped t) groups,
    )
