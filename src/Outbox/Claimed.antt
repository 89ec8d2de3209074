-- ===== src/Outbox/Claimed.antt =====
-- The batch that a claim returns, against the store that it leaves.
use cap_nodejs.Prelude.{
  ℕ, ◌+◌, String, false, some, List, [], ◌∷◌, ◌≡◌, refl, ◌⊎◌, subst, arith, eq_iff, All, Bool-cases,
  inl, inr, leb,
}
use cap_nodejs.JsMap.{get}
use cap_nodejs.Model.{PublishEvent, ClaimUnpublishedOptions}
use cap_nodejs.Outbox.{Store, is_claimable, lock, claim_from, claim_unpublished}
use cap_nodejs.Outbox.Valid.{IsStore}
use cap_nodejs.Outbox.Claims.{has_id, has_id-claim_from-none}
use cap_nodejs.Outbox.Ownership.{IsLeased}

abbrev pub DistinctIds : List PublishEvent → Type 0
DistinctIds [] = Unit
DistinctIds (e ∷ es) = (has_id e.id es ≡ false) × DistinctIds es

-- The event is in the store as it is, leased to the claim's owner until the claim's end.
abbrev pub IsClaimed : ClaimUnpublishedOptions → Store → PublishEvent → Type 0
IsClaimed o s e = (get e.id s ≡ some e) × IsLeased o.locked_by o.lock_until e

AllClaimed-cons :
    (o : ClaimUnpublishedOptions) (k : String) (e : PublishEvent) (s : Store)
    (es : List PublishEvent)
    → has_id k es ≡ false
    → All (IsClaimed o s) es
    → All (IsClaimed o ((k, e) ∷ s)) es
AllClaimed-cons o k e s [] m h = tt
AllClaimed-cons o k e s (x ∷ xs) m h = (
  (ground (arith, eq_iff k x.id, eq_iff x.id k), h.0.1),
  AllClaimed-cons o k e s xs (ground arith) h.1,
)

lock-IsLeased :
    (o : ClaimUnpublishedOptions) (e : PublishEvent) → IsLeased o.locked_by o.lock_until (lock o e)
lock-IsLeased o e = record { active = refl; holder = refl; deadline = refl }

claim_from_cases :
    (o : ClaimUnpublishedOptions) (n : ℕ) (k : String) (e : PublishEvent) (s : Store)
    → (claim_from o n ((k, e) ∷ s) ≡ ([], (k, e) ∷ s))
      ⊎ (claim_from o n ((k, e) ∷ s)
          ≡ (lock o e ∷ (claim_from o (n + 1) s).0, (k, lock o e) ∷ (claim_from o (n + 1) s).1))
      ⊎ (claim_from o n ((k, e) ∷ s) ≡ ((claim_from o n s).0, (k, e) ∷ (claim_from o n s).1))
unfolding claim_from
claim_from_cases o n k e s = elim (Bool-cases (leb o.limit n)) [
  | inl full ↦ inl (ground arith)
  | inr room ↦ elim (Bool-cases (is_claimable e o.now)) [
    | inl free ↦ inr (inl (ground arith))
    | inr held ↦ inr (inr (ground arith))
  ]
]

claim_from_batch :
    (o : ClaimUnpublishedOptions) (n : ℕ) (s : Store)
    → IsStore s
    → DistinctIds (claim_from o n s).0 × All (IsClaimed o (claim_from o n s).1) (claim_from o n s).0
unfolding claim_from
claim_from_batch o n [] h = (tt, tt)
claim_from_batch o n ((k, e) ∷ s) h = elim (claim_from_cases o n k e s) [
  | inl stop ↦ rw (stop) (tt, tt)
  | inr (inl taken) ↦
      let (distinct, held) = claim_from_batch o (n + 1) s h.3 in
      let fresh = has_id-claim_from-none k o (n + 1) s h.1 h.3 in
      rw (taken) (
        (subst (λ j. has_id j (claim_from o (n + 1) s).0 ≡ false) h.0 fresh, distinct),
        (
          (ground (arith, eq_iff k e.id), lock-IsLeased o e),
          AllClaimed-cons o k (lock o e) _ _ fresh held,
        ),
      )
  | inr (inr skipped) ↦
      let (distinct, held) = claim_from_batch o n s h.3 in
      rw (skipped)
        (distinct, AllClaimed-cons o k e _ _ (has_id-claim_from-none k o n s h.1 h.3) held)
]

-- The events of a batch have distinct ids; each is in the store exactly as it was returned, and leased to the
-- owner of the claim until the claim's end.
pub claim_unpublished_batch :
    (o : ClaimUnpublishedOptions) (s : Store)
    → IsStore s
    → DistinctIds (claim_unpublished o s).0
      × All (IsClaimed o (claim_unpublished o s).1) (claim_unpublished o s).0
unfolding claim_unpublished
claim_unpublished_batch o s h = claim_from_batch o 0 s h
