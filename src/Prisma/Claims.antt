-- ===== src/Prisma/Claims.antt =====
-- What a claim of the outbox storage on Prisma takes.
use cap_nodejs.Prelude.{
  ℕ, ◌≤◌, String, Bool, true, none, some, List, [], ◌∷◌, ◌≡◌, refl, sym, ◌∙◌, eq_iff, arith,
  if◌then◌else◌, map, length, All,
}
use mathlib.Core.Option
use cap_nodejs.JsValue.{Value, Headers}
use cap_nodejs.JsMap.{get}
use cap_nodejs.Model.{PublishEvent, ClaimUnpublishedOptions}
use cap_nodejs.Outbox
use cap_nodejs.Outbox.Admin.{is_status_pending, is_status_failed}
use cap_nodejs.Outbox.Claims.{has_id}
use cap_nodejs.Sql.{Update, Executes, updated}
use cap_nodejs.Prisma.{
  Provider, affects, in_order, PublishRow, Table, map_publish_row, find_row, has_row_id,
  claimable_where, claim_update, claimed_row, claim_unpublished,
}
use cap_nodejs.Prisma.Refines.{to_store, get-find_row}

-- The WHERE clause of a claim is the test of the in-memory storage.
claimable_where_lem :
    (parse : String → Value) (parse_headers : String → Headers) (now : ℕ) (r : PublishRow)
    → claimable_where now r ≡ Outbox.is_claimable (map_publish_row parse parse_headers r) now
unfolding claimable_where map_publish_row Outbox.is_claimable is_status_pending is_status_failed
claimable_where_lem parse parse_headers now r = ground arith

-- What a SELECT with a condition and a limit returns: rows of the table that satisfy it, at most that many
abbrev pub Selects : (PublishRow → Bool) → ℕ → Table → List PublishRow → Type 0
Selects c n t rows = (length rows ≤ n) × All (λ r. (find_row r.id t ≡ some r) × (c r ≡ true)) rows

module _ (parse : String → Value) (parse_headers : String → Headers) where
  -- The events of selected rows are those that were claimable, locked.
  abbrev pub IsTaken : ClaimUnpublishedOptions → Table → Table → PublishEvent → Type 0
  IsTaken o t t' e =
      (e' : PublishEvent) × (get e.id (to_store parse parse_headers t) ≡ some e')
      × (Outbox.is_claimable e' o.now ≡ true)
      × (e ≡ Outbox.lock o e')
      × (get e.id (to_store parse parse_headers t') ≡ some e)

  abbrev pub Takes : ClaimUnpublishedOptions → Table → List PublishEvent → Table → Type 0
  Takes o t events t' =
      (length events ≤ o.limit)
      × All (IsTaken o t t') events
      × ((k : String)
          → get k (to_store parse parse_headers t')
            ≡ Option.map (λ e. if has_id k events then Outbox.lock o e else e)
                (get k (to_store parse parse_headers t)))

module _ (parse : String → Value) (parse_headers : String → Headers) (p : Provider)
    (execute : Update PublishRow → Table → ℕ × Table) (documented : Executes (in_order p) execute)
    (select : (PublishRow → Bool) → ℕ → Table → List PublishRow) where
  abbrev event : PublishRow → PublishEvent
  event = map_publish_row parse parse_headers

  length-map :
      (f : PublishRow → PublishEvent) (rows : List PublishRow) → length (map f rows) ≡ length rows
  length-map f [] = refl
  length-map f (r ∷ rows) = omega (arith, length-map f rows)

  -- An UPDATE by ids writes to the rows of those ids.
  get-claimed :
      (o : ClaimUnpublishedOptions) (rows : List PublishRow) (k : String) (t : Table)
      → get k (to_store parse parse_headers (updated (in_order p) (claim_update o rows) t))
        ≡ elim (find_row k t) [
          | none ↦ none
          | some r ↦ some (if has_row_id rows k then Outbox.lock o (event r) else event r)
        ]
  unfolding claim_update map_publish_row
  get-claimed o rows k [] = refl
  get-claimed o rows k (r ∷ t) = ground (arith, eq_iff r.id k, get-claimed o rows k t)

  has_row_id-has_id :
      (o : ClaimUnpublishedOptions) (k : String) (rows : List PublishRow)
      → has_row_id rows k ≡ has_id k (map (λ r. event (claimed_row o r)) rows)
  unfolding map_publish_row
  has_row_id-has_id o k [] = refl
  has_row_id-has_id o k (r ∷ rows) = ground (arith, has_row_id-has_id o k rows)

  get-claim :
      (o : ClaimUnpublishedOptions) (rows : List PublishRow) (k : String) (t : Table)
      → get k (to_store parse parse_headers (affects p execute (claim_update o rows) t).1)
        ≡ elim (find_row k t) [
          | none ↦ none
          | some r ↦ some (if has_row_id rows k then Outbox.lock o (event r) else event r)
        ]
  get-claim o rows k t = rw (documented (claim_update o rows) t) (get-claimed o rows k t)

  selected-IsTaken :
      (o : ClaimUnpublishedOptions) (rows sub : List PublishRow) (t : Table)
      → ((k : String) → has_row_id sub k ≡ true → has_row_id rows k ≡ true)
      → All (λ r. (find_row r.id t ≡ some r) × (claimable_where o.now r ≡ true)) sub
      → All
          (IsTaken parse parse_headers o t (affects p execute (claim_update o rows) t).1)
          (map (λ r. event (claimed_row o r)) sub)
  unfolding map_publish_row
  selected-IsTaken o rows [] t within h = tt
  selected-IsTaken o rows (r ∷ sub) t within ((found, due), h) = (
    (
      event r,
      ground (arith, get-find_row parse parse_headers r.id t, found),
      sym (claimable_where_lem parse parse_headers o.now r) ∙ due,
      refl,
      ground
          (arith, get-claim o rows r.id t, found, within r.id (ground (arith, eq_iff r.id r.id))),
    ),
    selected-IsTaken o rows sub t (λ k there. within k (ground (arith, there))) h,
  )

  -- The store after the statement, at each id
  get-claim-all :
      (o : ClaimUnpublishedOptions) (rows : List PublishRow) (t : Table) (k : String)
      → get k (to_store parse parse_headers (affects p execute (claim_update o rows) t).1)
        ≡ Option.map
            (λ e. if has_id k (map (λ r. event (claimed_row o r)) rows) then Outbox.lock o e else e)
            (get k (to_store parse parse_headers t))
  get-claim-all o rows t k = ground (
    arith,
    get-claim o rows k t,
    get-find_row parse parse_headers k t,
    has_row_id-has_id o k rows,
  )

  rows-Takes :
      (o : ClaimUnpublishedOptions) (t : Table) (rows : List PublishRow)
      → length rows ≤ o.limit
      → All (λ r. (find_row r.id t ≡ some r) × (claimable_where o.now r ≡ true)) rows
      → let result : List PublishEvent × Table = elim rows [
        | [] ↦ ([], t)
        | r ∷ rs ↦ (
          map (λ x. event (claimed_row o x)) (r ∷ rs),
          (affects p execute (claim_update o (r ∷ rs)) t).1,
        )
      ] in
        Takes parse parse_headers o t result.0 result.1
  rows-Takes o t [] within h = (omega arith, tt, λ k. ground arith)
  rows-Takes o t (r ∷ rs) within h = (
    rw (length-map (λ x. event (claimed_row o x)) (r ∷ rs)) within,
    selected-IsTaken o (r ∷ rs) (r ∷ rs) t (λ k there. there) h,
    get-claim-all o (r ∷ rs) t,
  )

  -- A claim of the Prisma storage, on a database that executes UPDATE and SELECT as documented, returns at most
  -- `limit` events. Each was claimable, is returned with the claimer's lock, and is stored so; every event that is
  -- not returned stays as it was.
  pub claim_unpublished-Takes :
      (o : ClaimUnpublishedOptions) (t : Table)
      → Selects (claimable_where o.now) o.limit t (select (claimable_where o.now) o.limit t)
      → Takes parse parse_headers o t
          (claim_unpublished p execute parse parse_headers select o t).0
          (claim_unpublished p execute parse parse_headers select o t).1
  unfolding claim_unpublished
  claim_unpublished-Takes o t (within, rows) =
      rows-Takes o t (select (claimable_where o.now) o.limit t) within rows
