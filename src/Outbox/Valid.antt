-- ===== src/Outbox/Valid.antt =====
-- The invariant of the outbox storage, and that every method keeps it.
use cap_nodejs.Prelude.{
  ℕ, ◌+◌, String, true, Option, none, some, [], ◌∷◌, ◌≡◌, refl, ◌≢◌, ◌⊎◌, inl, inr, str_eq, eq_iff,
  arith, is_some, Bool-cases, Option-cases,
}
use cap_nodejs.JsValue.{Thrown}
use cap_nodejs.JsMap.{get, set, update, update_all}
use cap_nodejs.JsMap.Laws.{get-set, get-update, get-update_all}
use cap_nodejs.Model.{
  PublishEvent, PublishStatus, ClaimUnpublishedOptions, MarkPublishFailedOptions,
  RenewPublishClaimOptions,
}
use cap_nodejs.Outbox.{
  Store, save_publish, lock, claim_from, claim_unpublished, mark_published, mark_publish_failed,
  renew_publish_claim, release_expired, release_expired_claims, requeue_publish, can_renew,
  published_at_time, failed_once, requeued_at,
}

-- An event is locked exactly while it is processed, a published one has its time, and a terminal one
-- waits for no retry.
pub record IsValid (e : PublishEvent) : Type 0 where
  pub locked :
      e.status ≡ PublishStatus.processing
      → (is_some e.locked_by ≡ true) × (is_some e.locked_until ≡ true)
  pub unlocked :
      e.status ≢ PublishStatus.processing → (e.locked_by ≡ none) × (e.locked_until ≡ none)
  pub published : e.status ≡ PublishStatus.published → is_some e.published_at ≡ true
  pub terminal :
      (e.status ≡ PublishStatus.published) ⊎ (e.status ≡ PublishStatus.dead_letter)
      → e.next_retry_at ≡ none

-- Every event stands under its own id, no id is there twice, and every event is valid.
abbrev pub IsStore : Store → Type 0
IsStore [] = Unit
IsStore ((k, e) ∷ s) = (k ≡ e.id) × (get k s ≡ none) × IsValid e × IsStore s

pub update-IsStore :
    (k : String) (f : PublishEvent → PublishEvent) (e : PublishEvent) (s : Store)
    → get k s ≡ some e
    → IsValid (f e)
    → (f e).id ≡ e.id
    → IsStore s
    → IsStore (update k f s)
update-IsStore k f e [] found v same h = tt
update-IsStore k f e ((j, w) ∷ s) found v same h = elim (Bool-cases (str_eq j k)) [
  | inl hit ↦ ground (arith, eq_iff j k)
  | inr miss ↦ ground (arith, update-IsStore k f e s, get-update k j f s, eq_iff k j, eq_iff j k)
]

lock-IsValid : (o : ClaimUnpublishedOptions) (e : PublishEvent) → IsValid (lock o e)
lock-IsValid o e = ground arith

release_expired-IsValid : (now : ℕ) (e : PublishEvent) → IsValid e → IsValid (release_expired now e)
unfolding release_expired
release_expired-IsValid now e v = ground arith

save-IsStore :
    (k : String) (e : PublishEvent) (s : Store)
    → k ≡ e.id
    → IsValid e
    → IsStore s
    → IsStore (set k e s)
save-IsStore k e [] same v h = (same, refl, v, tt)
save-IsStore k e ((j, w) ∷ s) same v h = elim (Bool-cases (str_eq j k)) [
  | inl hit ↦ ground (arith, eq_iff j k)
  | inr miss ↦ ground (arith, save-IsStore k e s, get-set k j e s, eq_iff k j, eq_iff j k)
]

pub save_publish-IsStore :
    (e : PublishEvent) (s : Store) → IsValid e → IsStore s → IsStore (save_publish e s).1
unfolding save_publish
save_publish-IsStore e s v h = save-IsStore e.id e s refl v h

-- A claim moves no key.
get-claim_from-none :
    (k : String) (o : ClaimUnpublishedOptions) (n : ℕ) (s : Store)
    → get k s ≡ none
    → get k (claim_from o n s).1 ≡ none
unfolding claim_from
get-claim_from-none k o n [] h = refl
get-claim_from-none k o n ((j, e) ∷ s) h =
    ground (arith, get-claim_from-none k o (n + 1) s, get-claim_from-none k o n s)

claim_from-IsStore :
    (o : ClaimUnpublishedOptions) (n : ℕ) (s : Store) → IsStore s → IsStore (claim_from o n s).1
unfolding claim_from
claim_from-IsStore o n [] h = tt
claim_from-IsStore o n ((j, e) ∷ s) h = ground (
  arith,
  lock-IsValid o e,
  claim_from-IsStore o (n + 1) s,
  claim_from-IsStore o n s,
  get-claim_from-none j o (n + 1) s,
  get-claim_from-none j o n s,
)

release_all-IsStore :
    (now : ℕ) (s : Store) → IsStore s → IsStore (update_all (release_expired now) s)
unfolding release_expired
release_all-IsStore now [] h = tt
release_all-IsStore now ((j, e) ∷ s) h = (
  ground arith,
  ground (arith, get-update_all j (release_expired now) s),
  release_expired-IsValid now e h.2,
  release_all-IsStore now s h.3,
)

mark_published-IsStore :
    (id : String) (at : ℕ) (owner : Option String) (s : Store)
    → IsStore s
    → IsStore (mark_published id at owner s).1
unfolding mark_published
mark_published-IsStore id at owner s h = elim (Option-cases (get id s)) [
  | inl missing ↦ ground arith
  | inr (e, found) ↦
      ground (arith, update-IsStore id (published_at_time at) e s found (ground arith) refl h)
]

mark_publish_failed-IsStore :
    (id : String) (err : Thrown) (o : MarkPublishFailedOptions) (s : Store)
    → IsStore s
    → IsStore (mark_publish_failed id err o s).1
unfolding mark_publish_failed
mark_publish_failed-IsStore id err o s h = elim (Option-cases (get id s)) [
  | inl missing ↦ ground arith
  | inr (e, found) ↦
      ground (arith, update-IsStore id (failed_once err o) e s found (ground arith) refl h)
]

requeue_publish-IsStore :
    (id : String) (now : ℕ) (s : Store) → IsStore s → IsStore (requeue_publish id now s).1
unfolding requeue_publish
requeue_publish-IsStore id now s h = elim (Option-cases (get id s)) [
  | inl missing ↦ ground arith
  | inr (e, found) ↦
      ground (arith, update-IsStore id (requeued_at now) e s found (ground arith) refl h)
]

pub get-IsValid :
    (k : String) (e : PublishEvent) (s : Store) → IsStore s → get k s ≡ some e → IsValid e
get-IsValid k e [] h found = cc
get-IsValid k e ((j, w) ∷ s) h found = ground (arith, get-IsValid k e s h.3)

renew_publish_claim-IsStore :
    (o : RenewPublishClaimOptions) (s : Store) → IsStore s → IsStore (renew_publish_claim o s).1
unfolding renew_publish_claim can_renew
renew_publish_claim-IsStore o s h = elim (Option-cases (get o.id s)) [
  | inl missing ↦ ground arith
  | inr (e, found) ↦ ground (
    arith,
    get-IsValid o.id e s h found,
    update-IsStore o.id (λ (w : PublishEvent). record w { locked_until = some o.lock_until }) e s
        found,
  )
]

-- An event that is pending, and that nobody has locked
abbrev pub IsNew : PublishEvent → Type 0
IsNew e = (e.status ≡ PublishStatus.pending) × (e.locked_by ≡ none) × (e.locked_until ≡ none)

IsNew-IsValid : (e : PublishEvent) → IsNew e → IsValid e
IsNew-IsValid e new = ground (arith, new)

-- One call of a method that writes; the events that are saved fulfil a condition.
pub data Step (Saved : PublishEvent → Type 0) : Store → Store → Type 0 where
  save : (e : PublishEvent) (s : Store) → Saved e → Step Saved s (save_publish e s).1
  claim : (o : ClaimUnpublishedOptions) (s : Store) → Step Saved s (claim_unpublished o s).1
  publish :
      (id : String) (at : ℕ) (owner : Option String) (s : Store)
      → Step Saved s (mark_published id at owner s).1
  fail :
      (id : String) (err : Thrown) (o : MarkPublishFailedOptions) (s : Store)
      → Step Saved s (mark_publish_failed id err o s).1
  renew : (o : RenewPublishClaimOptions) (s : Store) → Step Saved s (renew_publish_claim o s).1
  release : (now : ℕ) (s : Store) → Step Saved s (release_expired_claims now s)
  requeue : (id : String) (now : ℕ) (s : Store) → Step Saved s (requeue_publish id now s).1

-- Calls since a store, where each event that is saved is new
pub data Reach (s : Store) : Store → Type 0 where
  here : Reach s s
  next : {t u : Store} → Reach s t → Step IsNew t u → Reach s u

pub Step-IsStore :
    (Saved : PublishEvent → Type 0)
    → ((e : PublishEvent) → Saved e → IsValid e)
    → {s t : Store} → Step Saved s t
    → IsStore s
    → IsStore t
unfolding claim_unpublished release_expired_claims
Step-IsStore Saved sound (save e s v) h = save_publish-IsStore e s (sound e v) h
Step-IsStore Saved sound (claim o s) h = claim_from-IsStore o 0 s h
Step-IsStore Saved sound (publish id at owner s) h = mark_published-IsStore id at owner s h
Step-IsStore Saved sound (fail id err o s) h = mark_publish_failed-IsStore id err o s h
Step-IsStore Saved sound (renew o s) h = renew_publish_claim-IsStore o s h
Step-IsStore Saved sound (release now s) h = release_all-IsStore now s h
Step-IsStore Saved sound (requeue id now s) h = requeue_publish-IsStore id now s h

pub valid_step-IsStore : {s t : Store} → Step IsValid s t → IsStore s → IsStore t
valid_step-IsStore st h = Step-IsStore IsValid (λ e v. v) st h

-- Whatever calls were made since a valid store, such as an empty one, in whatever order, when each event that is saved
-- is new, that is pending and without a lock as `publish` makes it, the store is valid: each event stands once and
-- under its own id, is locked by an owner until an instant exactly while its status is `processing`, has its time of
-- publication if it is published, and waits for no retry if it is published or dead.
pub Reach-IsStore : {s t : Store} → Reach s t → IsStore s → IsStore t
Reach-IsStore here h = h
Reach-IsStore (next r st) h = Step-IsStore IsNew IsNew-IsValid st (Reach-IsStore r h)
