-- ===== src/Outbox/Claims.antt =====
-- What `claimUnpublished` returns and writes.
use cap_nodejs.Prelude.{
  ℕ, ◌+◌, String, Bool, true, false, none, some, List, [], ◌∷◌, ◌≡◌, refl, str_eq, length, eq_iff,
  arith, if◌then◌else◌, take, keep, map, min, length-take, Bool-cases, zero, suc, inl, inr,
}
use mathlib.Core.Option
use cap_nodejs.JsMap.{get, values}
use cap_nodejs.Model.{PublishEvent, ClaimUnpublishedOptions}
use cap_nodejs.Outbox.{Store, is_claimable, lock, claim_from, claim_unpublished}
use cap_nodejs.Outbox.Valid.{IsStore}

-- Whether an event of this id is in the list.
abbrev pub has_id : String → List PublishEvent → Bool
has_id k [] = false
has_id k (e ∷ es) = if str_eq e.id k then true else has_id k es

abbrev pub claimable : ℕ → Store → List PublishEvent
claimable now s = keep (λ e. is_claimable e now) (values s)

take_room :
    (r : ℕ) (o : ClaimUnpublishedOptions) (n : ℕ) (s : Store)
    → o.limit ≡ n + r
    → (claim_from o n s).0 ≡ map (lock o) (take r (claimable o.now s))
unfolding claim_from
take_room zero o n [] room = refl
take_room zero o n ((k, e) ∷ s) room = ground arith
take_room (suc r) o n [] room = refl
take_room (suc r) o n ((k, e) ∷ s) room =
    ground (arith, take_room r o (n + 1) s, take_room (suc r) o n s)

-- A claim returns, in the order of the store, the first `limit` of the events that are claimable at
-- `now`, each with the lock of this claim on it.
pub claim_unpublished-eq-take :
    (o : ClaimUnpublishedOptions) (s : Store)
    → (claim_unpublished o s).0 ≡ map (lock o) (take o.limit (claimable o.now s))
unfolding claim_unpublished
claim_unpublished-eq-take o s = take_room o.limit o 0 s (omega arith)

length-map :
    (f : PublishEvent → PublishEvent) (es : List PublishEvent) → length (map f es) ≡ length es
length-map f [] = refl
length-map f (e ∷ es) = omega (arith, length-map f es)

-- A claim returns as many events as are claimable at `now`, but no more than `limit`.
pub length-claim_unpublished :
    (o : ClaimUnpublishedOptions) (s : Store)
    → length (claim_unpublished o s).0 ≡ min o.limit (length (claimable o.now s))
length-claim_unpublished o s =
    rw (claim_unpublished-eq-take o s, length-map (lock o) (take o.limit (claimable o.now s)))
      (length-take o.limit (claimable o.now s))

pub has_id-claim_from-none :
    (k : String) (o : ClaimUnpublishedOptions) (n : ℕ) (s : Store)
    → get k s ≡ none
    → IsStore s
    → has_id k (claim_from o n s).0 ≡ false
unfolding claim_from
has_id-claim_from-none k o n [] missing h = refl
has_id-claim_from-none k o n ((j, e) ∷ s) missing h = ground (
  arith,
  has_id-claim_from-none k o (n + 1) s,
  has_id-claim_from-none k o n s,
  eq_iff j k,
  eq_iff e.id k,
)

get-claim_from :
    (k : String) (o : ClaimUnpublishedOptions) (n : ℕ) (s : Store)
    → IsStore s
    → get k (claim_from o n s).1
      ≡ (if has_id k (claim_from o n s).0 then Option.map (lock o) (get k s) else get k s)
unfolding claim_from
get-claim_from k o n [] h = refl
get-claim_from k o n ((j, e) ∷ s) h = ground (
  arith,
  get-claim_from k o (n + 1) s,
  get-claim_from k o n s,
  has_id-claim_from-none k o n s,
  eq_iff j k,
  eq_iff e.id k,
)

-- In a valid store, a claim locks the events that it returns and leaves every other one as it was.
pub get-claim_unpublished :
    (k : String) (o : ClaimUnpublishedOptions) (s : Store)
    → IsStore s
    → get k (claim_unpublished o s).1
      ≡ (if has_id k (claim_unpublished o s).0 then Option.map (lock o) (get k s) else get k s)
unfolding claim_unpublished
get-claim_unpublished k o s h = get-claim_from k o 0 s h

claim_from-is_claimable :
    (k : String) (o : ClaimUnpublishedOptions) (n : ℕ) (e : PublishEvent) (s : Store)
    → IsStore s
    → get k s ≡ some e
    → has_id k (claim_from o n s).0 ≡ true
    → is_claimable e o.now ≡ true
unfolding claim_from
claim_from-is_claimable k o n e [] h found m = cc
claim_from-is_claimable k o n e ((j, w) ∷ s) h found m = ground (
  arith,
  claim_from-is_claimable k o (n + 1) e s h.3,
  claim_from-is_claimable k o n e s h.3,
  has_id-claim_from-none k o n s,
  has_id-claim_from-none k o (n + 1) s,
  eq_iff j k,
  eq_iff w.id k,
)

-- An event that is not claimable is not claimed.
pub has_id-claim_unpublished-false :
    (k : String) (o : ClaimUnpublishedOptions) (e : PublishEvent) (s : Store)
    → IsStore s
    → get k s ≡ some e
    → is_claimable e o.now ≡ false
    → has_id k (claim_unpublished o s).0 ≡ false
unfolding claim_unpublished
has_id-claim_unpublished-false k o e s h found n =
    elim (Bool-cases (has_id k (claim_from o 0 s).0)) [
      | inl m ↦ ground (arith, claim_from-is_claimable k o 0 e s h found m)
      | inr m ↦ m
    ]

-- An id that is not in the store is not claimed.
pub has_id-claim_unpublished-none :
    (k : String) (o : ClaimUnpublishedOptions) (s : Store)
    → get k s ≡ none
    → IsStore s
    → has_id k (claim_unpublished o s).0 ≡ false
unfolding claim_unpublished
has_id-claim_unpublished-none k o s missing h = has_id-claim_from-none k o 0 s missing h
