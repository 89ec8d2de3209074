-- ===== src/Mikro/Claims.antt =====
-- What a claim of the MikroORM outbox storage takes.
use cap_nodejs.Prelude.{
  ℕ, String, Bool, true, none, some, List, [], ◌∷◌, ◌≡◌, refl, sym, ◌∙◌, eq_iff, arith,
  if◌then◌else◌, map, length-map, All, Option-cases, inl, inr,
}
use mathlib.Core.Option
use cap_nodejs.JsValue.{Value, Headers}
use cap_nodejs.JsMap.{get}
use cap_nodejs.Model.{PublishEvent, ClaimUnpublishedOptions}
use cap_nodejs.Outbox
use cap_nodejs.Outbox.Admin.{is_status_pending, is_status_failed}
use cap_nodejs.Outbox.Claims.{has_id}
use cap_nodejs.Prisma.{PublishRow, Table, map_publish_row, find_row, claimed_row}
use cap_nodejs.Prisma.Refines.{to_store, get-find_row}
use cap_nodejs.Prisma.Claims.{Selects, IsTaken, Takes}
use cap_nodejs.Mikro.{claimable_where, map_publish_entity, claim_unpublished}

-- What a flush writes: the row of each changed entity, and no other
abbrev pub Flushes : List PublishRow → Table → Table → Type 0
Flushes entities t t' =
    (k : String)
    → find_row k t' ≡ elim (find_row k t) [
      | none ↦ none
      | some r ↦ elim (find_row k entities) [ none ↦ some r | some e ↦ some e ]
    ]

module _ (parse : String → Value) (parse_headers : String → Headers)
    (find : (PublishRow → Bool) → ℕ → Table → List PublishRow)
    (flush : List PublishRow → Table → Table) where
  abbrev event : PublishRow → PublishEvent
  event = map_publish_row parse parse_headers

  abbrev returned : ClaimUnpublishedOptions → List PublishRow → List PublishEvent
  returned o rows = map (map_publish_entity parse parse_headers) (map (claimed_row o) rows)

  -- The filter of a claim is the test of the in-memory storage.
  claimable_where_lem :
      (now : ℕ) (r : PublishRow) → claimable_where now r ≡ Outbox.is_claimable (event r) now
  unfolding claimable_where map_publish_row Outbox.is_claimable is_status_pending is_status_failed
  claimable_where_lem now r = ground arith

  -- The entity of an id is the row of the table that it was read from, locked.
  find-claimed :
      (o : ClaimUnpublishedOptions) (k : String) (t : Table) (rows : List PublishRow)
      → All (λ r. (find_row r.id t ≡ some r) × (claimable_where o.now r ≡ true)) rows
      → (r : PublishRow) → find_row k t ≡ some r
      → find_row k (map (claimed_row o) rows)
        ≡ (if has_id k (returned o rows) then some (claimed_row o r) else none)
  unfolding map_publish_entity
  find-claimed o k t [] h r e = refl
  find-claimed o k t (x ∷ rows) ((found, due), h) r e =
      ground (arith, eq_iff x.id k, found, e, find-claimed o k t rows h r e)

  module _ (o : ClaimUnpublishedOptions) (t : Table) (rows : List PublishRow)
      (read : All (λ r. (find_row r.id t ≡ some r) × (claimable_where o.now r ≡ true)) rows)
      (written : Flushes (map (claimed_row o) rows) t (flush (map (claimed_row o) rows) t)) where
    get-flushed :
        (k : String)
        → get k (to_store parse parse_headers (flush (map (claimed_row o) rows) t))
          ≡ Option.map
              (λ e. if has_id k (returned o rows) then Outbox.lock o e else e)
              (get k (to_store parse parse_headers t))
    unfolding map_publish_row
    get-flushed k = elim (Option-cases (find_row k t)) [
      | inl absent ↦ ground (
        arith,
        written k,
        absent,
        get-find_row parse parse_headers k t,
        get-find_row parse parse_headers k (flush (map (claimed_row o) rows) t),
      )
      | inr (r, there) ↦ ground (
        arith,
        written k,
        there,
        find-claimed o k t rows read r there,
        get-find_row parse parse_headers k t,
        get-find_row parse parse_headers k (flush (map (claimed_row o) rows) t),
      )
    ]

    taken :
        (sub : List PublishRow)
        → ((k : String) → has_id k (returned o sub) ≡ true → has_id k (returned o rows) ≡ true)
        → All (λ r. (find_row r.id t ≡ some r) × (claimable_where o.now r ≡ true)) sub
        → All
            (IsTaken parse parse_headers o t (flush (map (claimed_row o) rows) t))
            (returned o sub)
    unfolding map_publish_entity map_publish_row
    taken [] within h = tt
    taken (r ∷ sub) within ((found, due), h) = (
      (
        event r,
        ground (arith, get-find_row parse parse_headers r.id t, found),
        sym (claimable_where_lem o.now r) ∙ due,
        refl,
        ground (
          arith,
          get-flushed r.id,
          get-find_row parse parse_headers r.id t,
          found,
          within r.id (ground (arith, eq_iff r.id r.id)),
        ),
      ),
      taken sub (λ k there. within k (ground (arith, there))) h,
    )

  -- A claim of the MikroORM storage returns at most `limit` events, when its query returns rows that match and its
  -- flush writes the changed entities. Each was claimable, is returned with the claimer's lock, and is stored so;
  -- every event that is not returned stays as it was.
  pub mikro_claim_unpublished-Takes :
      (o : ClaimUnpublishedOptions) (t : Table)
      → let rows = find (claimable_where o.now) o.limit t in
        Selects (claimable_where o.now) o.limit t rows
        → Flushes (map (claimed_row o) rows) t (flush (map (claimed_row o) rows) t)
        → let (events, t') = claim_unpublished parse parse_headers find flush o t in
          Takes parse parse_headers o t events t'
  unfolding claim_unpublished
  mikro_claim_unpublished-Takes o t (within, read) written =
      let rows = find (claimable_where o.now) o.limit t in
      (
        omega (
          arith,
          within,
          length-map (map_publish_entity parse parse_headers) (map (claimed_row o) rows),
          length-map (claimed_row o) rows,
        ),
        taken o t rows read written rows (λ k there. there) read,
        get-flushed o t rows read written,
      )
