-- ===== src/Prisma/Refines.antt =====
-- The outbox storage on Prisma against the in-memory one, whatever sequence of methods runs.
use cap_nodejs.Prelude.{
  ℕ, String, Bool, ◌&&◌, Option, none, some, [], ◌∷◌, ◌≡◌, refl, ap, str_eq, arith,
}
use cap_nodejs.JsValue.{Value, Headers, Thrown}
use cap_nodejs.JsMap.{get}
use cap_nodejs.Model.{PublishEvent, MarkPublishFailedOptions, RenewPublishClaimOptions}
use cap_nodejs.Outbox
use cap_nodejs.Sql.{Update, assign, Executes}
use cap_nodejs.Sql.Rows.{
  to_map, HasKeys, write_if, updated-write_if, updated-update_all, updated-HasKeys,
}
use cap_nodejs.Prisma.{
  Provider, affects, in_order, PublishRow, Table, map_publish_row, find_row, published_update,
  failed_update, renew_update, release_update, requeue_update, threshold_retry_count,
  mark_published, mark_publish_failed, renew_publish_claim, release_expired_claims, requeue_publish,
}

abbrev pub row_id : PublishRow → String
row_id r = r.id

module _ (parse : String → Value) (parse_headers : String → Headers) where
  -- The events of the rows under their ids, the store that the table stands for
  abbrev pub to_store : Table → Outbox.Store
  to_store = to_map row_id (map_publish_row parse parse_headers)

  abbrev pub IsTable : Table → Type 0
  IsTable = HasKeys row_id (map_publish_row parse parse_headers)

  pub get-find_row :
      (id : String) (t : Table)
      → get id (to_store t) ≡ elim (find_row id t) [
        | none ↦ none
        | some r ↦ some (map_publish_row parse parse_headers r)
      ]
  get-find_row id [] = refl
  get-find_row id (r ∷ t) = ground (arith, get-find_row id t)

module _ (parse : String → Value) (parse_headers : String → Headers) (p : Provider)
    (execute : Update PublishRow → Table → ℕ × Table)
    (documented : Executes (in_order p) execute) where
  -- A statement that names a row by its key is a guarded write to the store.
  module _ (u : Update PublishRow) (k : String) (q : PublishEvent → Bool)
      (g : PublishEvent → PublishEvent)
      (tests : (r : PublishRow)
        → u.condition r ≡ (str_eq r.id k && q (map_publish_row parse parse_headers r)))
      (writes : (r : PublishRow)
        → map_publish_row parse parse_headers (assign (in_order p) u.assignments r r)
          ≡ g (map_publish_row parse parse_headers r))
      (keeps : (r : PublishRow) → (assign (in_order p) u.assignments r r).id ≡ r.id) where
    affects_refines :
        (t : Table)
        → IsTable parse parse_headers t
        → write_if row_id
            (map_publish_row parse parse_headers)
            k
            q
            g
            (to_store parse parse_headers t)
          ≡ ((affects p execute u t).0, to_store parse parse_headers (affects p execute u t).1)
    affects_refines t keys = rw (documented u t) (
        updated-write_if row_id (map_publish_row parse parse_headers) (in_order p) u k q g tests
          writes keeps t keys)

  pub affects-IsTable :
      (u : Update PublishRow)
      → ((r : PublishRow) → (assign (in_order p) u.assignments r r).id ≡ r.id)
      → (t : Table) → IsTable parse parse_headers t
      → IsTable parse parse_headers (affects p execute u t).1
  affects-IsTable u keeps t keys =
      rw (documented u t)
        (updated-HasKeys row_id (map_publish_row parse parse_headers) (in_order p) u keeps t keys)

  pub mark_published_refines :
      (id : String) (at now : ℕ) (expected : Option String) (t : Table)
      → IsTable parse parse_headers t
      → let (b, t') = mark_published p execute id at now expected t in
        Outbox.mark_published id at expected (to_store parse parse_headers t)
        ≡ (b, to_store parse parse_headers t')
  unfolding mark_published published_update map_publish_row Outbox.mark_published Outbox.owns_claim
  mark_published_refines id at now expected t keys =
      affects_refines (published_update id at now expected) id (λ e. Outbox.owns_claim e expected)
        (Outbox.published_at_time at) (λ r. ground arith) (λ r. ground arith) (λ r. refl) t keys

  pub mark_publish_failed_refines :
      (id : String) (err : Thrown) (o : MarkPublishFailedOptions) (t : Table)
      → IsTable parse parse_headers t
      → let (b, t') = mark_publish_failed p execute id err o t in
        Outbox.mark_publish_failed id err o (to_store parse parse_headers t)
        ≡ (b, to_store parse parse_headers t')
  unfolding mark_publish_failed failed_update map_publish_row threshold_retry_count
      Outbox.mark_publish_failed Outbox.owns_claim
  mark_publish_failed_refines id err o t keys =
      affects_refines (failed_update p id err o) id (λ e. Outbox.owns_claim e o.expected_locked_by)
        (Outbox.failed_once err o) (λ r. ground arith) (λ r. ground arith) (λ r. ground arith) t
        keys

  pub renew_publish_claim_refines :
      (o : RenewPublishClaimOptions) (t : Table)
      → IsTable parse parse_headers t
      → let (b, t') = renew_publish_claim p execute o t in
        Outbox.renew_publish_claim o (to_store parse parse_headers t)
        ≡ (b, to_store parse parse_headers t')
  unfolding renew_publish_claim renew_update map_publish_row Outbox.renew_publish_claim
      Outbox.can_renew
  renew_publish_claim_refines o t keys =
      affects_refines (renew_update o) o.id (Outbox.can_renew o)
        (λ e. record e { locked_until = some o.lock_until }) (λ r. ground arith) (λ r. ground arith)
        (λ r. refl) t keys

  pub release_expired_claims_refines :
      (now : ℕ) (t : Table)
      → to_store parse parse_headers (release_expired_claims p execute now t)
        ≡ Outbox.release_expired_claims now (to_store parse parse_headers t)
  unfolding release_expired_claims release_update map_publish_row Outbox.release_expired_claims
      Outbox.release_expired
  release_expired_claims_refines now t = rw (documented (release_update now) t) (
      updated-update_all row_id (map_publish_row parse parse_headers) (in_order p)
        (release_update now) (Outbox.release_expired now) (λ r. ground arith) (λ r. refl) t)

  -- The outcome and the store of a requeue; the previous status of a message that is requeued is not reported.
  pub requeue_publish_refines :
      (id : String) (now : ℕ) (t : Table)
      → IsTable parse parse_headers t
      → let (r, t') = requeue_publish p execute id now t in
        let (r', s) = Outbox.requeue_publish id now (to_store parse parse_headers t) in
        (r'.outcome ≡ r.outcome) × (s ≡ to_store parse parse_headers t')
  unfolding requeue_publish requeue_update map_publish_row Outbox.requeue_publish
  requeue_publish_refines id now t keys =
      let same =
        affects_refines (requeue_update id now) id (λ e. Outbox.is_requeueable e.status)
          (Outbox.requeued_at now) (λ r. ground arith) (λ r. ground arith) (λ r. refl) t keys in
      let after = (affects p execute (requeue_update id now) t).1 in
      ground
        (arith, ap (λ x. x.0) same, ap (λ x. x.1) same, get-find_row parse parse_headers id after)
