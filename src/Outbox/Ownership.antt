-- ===== src/Outbox/Ownership.antt =====
-- Claim ownership: who may complete, fail or renew a claimed event, and for how long a claim holds.
use cap_nodejs.Prelude.{
  ℕ, ◌<◌, String, true, false, Option, some, ◌≡◌, ◌≢◌, ◌⊎◌, inl, inr, str_eq, eq_iff, arith,
  Bool-cases, Option-cases,
}
use cap_nodejs.JsValue.{Thrown}
use cap_nodejs.JsMap.{get}
use cap_nodejs.JsMap.Laws.{get-set, get-update, get-update_all}
use cap_nodejs.Model.{
  PublishEvent, PublishStatus, ClaimUnpublishedOptions, MarkPublishFailedOptions,
  RenewPublishClaimOptions,
}
use cap_nodejs.Outbox.{
  Store, save_publish, lock, is_claimable, claim_unpublished, mark_published, mark_publish_failed,
  renew_publish_claim, release_expired, release_expired_claims, requeue_publish, published_at_time,
  failed_once, requeued_at,
}
use cap_nodejs.Outbox.Valid.{IsStore, IsValid, Step, valid_step-IsStore}
use cap_nodejs.Outbox.Claims.{
  has_id, get-claim_unpublished, has_id-claim_unpublished-false, has_id-claim_unpublished-none,
}

-- The lease of a worker on an event: it is being processed, locked by `owner` until `until`.
pub record IsLeased (owner : String) (until : ℕ) (e : PublishEvent) : Type 0 where
  pub active : e.status ≡ PublishStatus.processing
  pub holder : e.locked_by ≡ some owner
  pub deadline : e.locked_until ≡ some until

-- What an owner asks of the three fenced methods.
abbrev pub fenced : String → MarkPublishFailedOptions → MarkPublishFailedOptions
fenced owner o = record o { expected_locked_by = some owner }

-- A worker that does not hold a stored event, because it is not being processed or is locked by another,
-- can neither complete it, nor fail it, nor renew it: each of the three calls returns false and leaves the
-- store as it was.
pub stale_owner_refused :
    (id owner : String) (at lock_until now : ℕ) (err : Thrown) (o : MarkPublishFailedOptions)
    (e : PublishEvent) (s : Store)
    → get id s ≡ some e
    → (e.status ≢ PublishStatus.processing) ⊎ (e.locked_by ≢ some owner)
    → (mark_published id at (some owner) s ≡ (false, s))
      × (mark_publish_failed id err (fenced owner o) s ≡ (false, s))
      × (renew_publish_claim
            (record { id = id; expected_locked_by = owner; lock_until = lock_until; now = now })
            s
          ≡ (false, s))
unfolding mark_published mark_publish_failed renew_publish_claim
stale_owner_refused id owner at lock_until now err o e s found (inl idle) =
    (ground arith, ground arith, ground arith)
stale_owner_refused id owner at lock_until now err o e s found (inr lost) =
    elim (Option-cases e.locked_by) [
      | inl nobody ↦ (ground arith, ground arith, ground arith)
      | inr (w, held) ↦ (
        ground (arith, eq_iff w owner),
        ground (arith, eq_iff w owner),
        ground (arith, eq_iff w owner),
      )
    ]

-- The worker that holds an event completes it, fails it, or renews it while the lease runs; each call
-- returns true, writes what it is for, and gives the lease up except when it renews it.
pub owner_completes :
    (id owner : String) (until at lock_until now : ℕ) (err : Thrown) (o : MarkPublishFailedOptions)
    (e : PublishEvent) (s : Store)
    → get id s ≡ some e
    → IsLeased owner until e
    → now < until
    → let (completed, p) = mark_published id at (some owner) s in
      let (failed, f) = mark_publish_failed id err (fenced owner o) s in
      let (renewed, r) =
        renew_publish_claim
          (record { id = id; expected_locked_by = owner; lock_until = lock_until; now = now })
          s in
      (completed ≡ true)
      × (get id p ≡ some (published_at_time at e))
      × (failed ≡ true)
      × (get id f ≡ some (failed_once err (fenced owner o) e))
      × (renewed ≡ true)
      × (get id r ≡ some (record e { locked_until = some lock_until }))
unfolding mark_published mark_publish_failed renew_publish_claim
owner_completes id owner until at lock_until now err o e s found l before = (
  ground (arith, eq_iff owner owner),
  ground (arith, eq_iff owner owner, eq_iff id id, get-update id id (published_at_time at) s),
  ground (arith, eq_iff owner owner),
  ground (
    arith,
    eq_iff owner owner,
    eq_iff id id,
    get-update id id (failed_once err (fenced owner o)) s,
  ),
  ground (arith, eq_iff owner owner),
  ground (
    arith,
    eq_iff owner owner,
    eq_iff id id,
    get-update id id (λ (w : PublishEvent). record w { locked_until = some lock_until }) s,
  ),
)

-- A call that another worker, or the clock before `until`, may make while `owner` holds event `k`.
pub data Foreign (k owner : String) (until : ℕ) : Store → Store → Type 0 where
  save :
      (e : PublishEvent) (s : Store)
      → IsValid e
      → e.id ≢ k
      → Foreign k owner until s (save_publish e s).1
  claim :
      (o : ClaimUnpublishedOptions) (s : Store)
      → o.now < until
      → Foreign k owner until s (claim_unpublished o s).1
  publish :
      (id : String) (at : ℕ) (caller : Option String) (s : Store)
      → (id ≢ k) ⊎ ((w : String) × (caller ≡ some w) × (w ≢ owner))
      → Foreign k owner until s (mark_published id at caller s).1
  fail :
      (id : String) (err : Thrown) (o : MarkPublishFailedOptions) (s : Store)
      → (id ≢ k) ⊎ ((w : String) × (o.expected_locked_by ≡ some w) × (w ≢ owner))
      → Foreign k owner until s (mark_publish_failed id err o s).1
  renew :
      (o : RenewPublishClaimOptions) (s : Store)
      → (o.id ≢ k) ⊎ (o.expected_locked_by ≢ owner)
      → Foreign k owner until s (renew_publish_claim o s).1
  release :
      (now : ℕ) (s : Store) → now < until → Foreign k owner until s (release_expired_claims now s)
  requeue :
      (id : String) (now : ℕ) (s : Store) → Foreign k owner until s (requeue_publish id now s).1

pub data Foreigns (k owner : String) (until : ℕ) (s : Store) : Store → Type 0 where
  here : Foreigns k owner until s s
  next :
      {t u : Store}
      → Foreigns k owner until s t
      → Foreign k owner until t u
      → Foreigns k owner until s u

leased-not-claimable :
    (owner : String) (until now : ℕ) (e : PublishEvent)
    → IsLeased owner until e
    → now < until
    → is_claimable e now ≡ false
unfolding is_claimable
leased-not-claimable owner until now e l before = ground arith

module _ (k owner : String) (until : ℕ) (e : PublishEvent) (l : IsLeased owner until e) where
  get-claim_leased :
      (o : ClaimUnpublishedOptions) (s : Store)
      → IsStore s
      → get k s ≡ some e
      → o.now < until
      → get k (claim_unpublished o s).1 ≡ some e
  get-claim_leased o s h found before = ground (
    arith,
    get-claim_unpublished k o s h,
    has_id-claim_unpublished-false k o e s h found
        (leased-not-claimable owner until o.now e l before),
  )

  get-publish_foreign :
      (id : String) (at : ℕ) (caller : Option String) (s : Store)
      → get k s ≡ some e
      → (id ≢ k) ⊎ ((w : String) × (caller ≡ some w) × (w ≢ owner))
      → get k (mark_published id at caller s).1 ≡ some e
  unfolding mark_published
  get-publish_foreign id at caller s found (inl other) =
      ground (arith, get-update id k (published_at_time at) s, eq_iff id k)
  get-publish_foreign id at caller s found (inr (w, asks, differs)) =
      elim (Bool-cases (str_eq id k)) [
        | inl same ↦ ground (arith, eq_iff id k, eq_iff owner w)
        | inr other ↦ ground (arith, get-update id k (published_at_time at) s, eq_iff id k)
      ]

  get-fail_foreign :
      (id : String) (err : Thrown) (o : MarkPublishFailedOptions) (s : Store)
      → get k s ≡ some e
      → (id ≢ k) ⊎ ((w : String) × (o.expected_locked_by ≡ some w) × (w ≢ owner))
      → get k (mark_publish_failed id err o s).1 ≡ some e
  unfolding mark_publish_failed
  get-fail_foreign id err o s found (inl other) =
      ground (arith, get-update id k (failed_once err o) s, eq_iff id k)
  get-fail_foreign id err o s found (inr (w, asks, differs)) = elim (Bool-cases (str_eq id k)) [
    | inl same ↦ ground (arith, eq_iff id k, eq_iff owner w)
    | inr other ↦ ground (arith, get-update id k (failed_once err o) s, eq_iff id k)
  ]

  get-renew_foreign :
      (o : RenewPublishClaimOptions) (s : Store)
      → get k s ≡ some e
      → (o.id ≢ k) ⊎ (o.expected_locked_by ≢ owner)
      → get k (renew_publish_claim o s).1 ≡ some e
  unfolding renew_publish_claim
  get-renew_foreign o s found who = ground (
    arith,
    get-update o.id k (λ (w : PublishEvent). record w { locked_until = some o.lock_until }) s,
    eq_iff o.id k,
    eq_iff owner o.expected_locked_by,
  )

  get-requeue_leased :
      (id : String) (now : ℕ) (s : Store)
      → get k s ≡ some e
      → get k (requeue_publish id now s).1 ≡ some e
  unfolding requeue_publish
  get-requeue_leased id now s found =
      ground (arith, get-update id k (requeued_at now) s, eq_iff id k)

  get-release_leased :
      (now : ℕ) (s : Store)
      → get k s ≡ some e
      → now < until
      → get k (release_expired_claims now s) ≡ some e
  unfolding release_expired_claims
  get-release_leased now s found before = ground (arith, get-update_all k (release_expired now) s)

  get-Foreign :
      {s t : Store} → Foreign k owner until s t → IsStore s → get k s ≡ some e → get k t ≡ some e
  unfolding save_publish
  get-Foreign (Foreign.save e' s v other) h found =
      ground (arith, get-set e'.id k e' s, eq_iff e'.id k)
  get-Foreign (Foreign.claim o s before) h found = get-claim_leased o s h found before
  get-Foreign (Foreign.publish id at caller s who) h found =
      get-publish_foreign id at caller s found who
  get-Foreign (Foreign.fail id err o s who) h found = get-fail_foreign id err o s found who
  get-Foreign (Foreign.renew o s who) h found = get-renew_foreign o s found who
  get-Foreign (Foreign.release now s before) h found = get-release_leased now s found before
  get-Foreign (Foreign.requeue id now s) h found = get-requeue_leased id now s found

pub Foreign-Step :
    {k owner : String} {until : ℕ} {s t : Store} → Foreign k owner until s t → Step IsValid s t
Foreign-Step (Foreign.save e s v other) = Step.save e s v
Foreign-Step (Foreign.claim o s before) = Step.claim o s
Foreign-Step (Foreign.publish id at caller s who) = Step.publish id at caller s
Foreign-Step (Foreign.fail id err o s who) = Step.fail id err o s
Foreign-Step (Foreign.renew o s who) = Step.renew o s
Foreign-Step (Foreign.release now s before) = Step.release now s
Foreign-Step (Foreign.requeue id now s) = Step.requeue id now s

pub Foreigns-IsStore :
    {k owner : String} {until : ℕ} {s t : Store}
    → Foreigns k owner until s t
    → IsStore s
    → IsStore t
Foreigns-IsStore here h = h
Foreigns-IsStore (next r f) h = valid_step-IsStore (Foreign-Step f) (Foreigns-IsStore r h)

-- In a valid store, while a worker's lease on an event runs, nothing that the others do touches the event:
-- not their claims and releases before the lease ends, not their completions, failures and renewals,
-- fenced by another owner or on another event, not a requeue, and not the saving of other events.
pub get-Foreigns :
    (k owner : String) (until : ℕ) (e : PublishEvent) {s t : Store}
    → IsLeased owner until e
    → IsStore s
    → get k s ≡ some e
    → Foreigns k owner until s t
    → get k t ≡ some e
get-Foreigns k owner until e l h found here = found
get-Foreigns k owner until e l h found (next r f) =
    get-Foreign k owner until e l f (Foreigns-IsStore r h)
      (get-Foreigns k owner until e l h found r)

-- From a valid store no event is claimed twice: an event that a claim returned is not in the claim that
-- follows, if that one is made before the lease of the first ends.
pub claim_unpublished-exclusive :
    (k : String) (o o' : ClaimUnpublishedOptions) (s : Store)
    → IsStore s
    → has_id k (claim_unpublished o s).0 ≡ true
    → o'.now < o.lock_until
    → has_id k (claim_unpublished o' (claim_unpublished o s).1).0 ≡ false
claim_unpublished-exclusive k o o' s h taken before = elim (Option-cases (get k s)) [
  | inl missing ↦ ground (arith, has_id-claim_unpublished-none k o s missing h)
  | inr (e, found) ↦
      has_id-claim_unpublished-false k o' (lock o e) (claim_unpublished o s).1
        (valid_step-IsStore (Step.claim o s) h) (ground (arith, get-claim_unpublished k o s h))
        (leased-not-claimable o.locked_by o.lock_until o'.now (lock o e) (ground arith) before)
]
