-- ===== src/Tests/Publishing.antt =====
-- The in-memory outbox with a few events.
use cap_nodejs.Prelude.{String, true, false, none, some, [], ◌∷◌, ◌≡◌, refl, ◌⊎◌, arith, leb}
use cap_nodejs.JsValue.{Value, Thrown, error}
use cap_nodejs.JsMap.{get}
use cap_nodejs.Model.{
  PublishEvent, PublishStatus, ClaimUnpublishedOptions, MarkPublishFailedOptions, requeued,
  not_found, not_eligible,
}
use cap_nodejs.Outbox.{
  Store, save_publish, lock, claim_from, claim_unpublished, mark_published, is_claimable,
  is_requeueable, requeue_publish,
}
use cap_nodejs.Outbox.Valid.{IsValid, IsStore, Step, Reach, Reach-IsStore}
use cap_nodejs.Outbox.Claims.{has_id}
use cap_nodejs.Outbox.Ownership.{
  IsLeased, Foreign, Foreigns, get-Foreigns, claim_unpublished-exclusive,
}

abbrev pub waiting : String → PublishEvent
waiting id = record {
  id = id;
  topic = "orders";
  occurred_at = 10;
  payload = Value.null;
  headers = none;
  retry_count = 0;
  status = PublishStatus.pending;
  next_retry_at = none;
  last_error = none;
  locked_by = none;
  locked_until = none;
  published_at = none;
}

abbrev pub two_events : Store
two_events = ("1", waiting "1") ∷ ("2", waiting "2") ∷ []

abbrev pub claim_one : ClaimUnpublishedOptions
claim_one = record { limit = 1; locked_by = "a"; lock_until = 130; now = 100 }

abbrev leased : PublishEvent
leased = lock claim_one (waiting "1")

abbrev one_leased : Store
one_leased = ("1", leased) ∷ ("2", waiting "2") ∷ []

abbrev failing : MarkPublishFailedOptions
failing = record { max_retries = 3; next_retry_at = 200; now = 110; expected_locked_by = none }

abbrev boom : Thrown
boom = error "boom"

pub waiting-IsValid : (id : String) → IsValid (waiting id)
waiting-IsValid id = ground arith

leased-IsValid : IsValid leased
leased-IsValid = ground arith

leased-IsLeased : IsLeased "a" 130 leased
leased-IsLeased = record { active = refl; holder = refl; deadline = refl }

pub two_events-IsStore : IsStore two_events
two_events-IsStore = (refl, refl, waiting-IsValid "1", (refl, refl, waiting-IsValid "2", tt))

one_leased-IsStore : IsStore one_leased
one_leased-IsStore = (refl, refl, leased-IsValid, (refl, refl, waiting-IsValid "2", tt))

other_claim :
    Foreigns "1" "a" 130 one_leased
      (claim_unpublished
        (record { limit = 5; locked_by = "b"; lock_until = 150; now = 120 })
        one_leased).1
other_claim = Foreigns.next Foreigns.here (
    Foreign.claim (record { limit = 5; locked_by = "b"; lock_until = 150; now = 120 }) one_leased
      (omega arith))

get-Foreigns_example :
    get "1"
      (claim_unpublished
        (record { limit = 5; locked_by = "b"; lock_until = 150; now = 120 })
        one_leased).1
    ≡ some leased
get-Foreigns_example =
    get-Foreigns "1" "a" 130 leased leased-IsLeased one_leased-IsStore refl other_claim

claim_unpublished-exclusive_example :
    has_id "1"
      (claim_unpublished
        (record { limit = 5; locked_by = "b"; lock_until = 150; now = 120 })
        (claim_unpublished claim_one two_events).1).0
    ≡ false
claim_unpublished-exclusive_example =
    claim_unpublished-exclusive "1" claim_one
      (record { limit = 5; locked_by = "b"; lock_until = 150; now = 120 }) two_events
      two_events-IsStore (unfold claim_unpublished claim_from is_claimable in refl) (omega arith)

abbrev one_saved : Store
one_saved = (save_publish (waiting "1") []).1

abbrev some_calls : Store
some_calls = (mark_published "1" 120 (some "a") (claim_unpublished claim_one one_saved).1).1

Reach-IsStore_example : IsStore some_calls
Reach-IsStore_example =
    Reach-IsStore
      (Reach.next
        (Reach.next
          (Reach.next (let r : Reach [] [] = Reach.here in r)
            (Step.save (waiting "1") [] (refl, refl, refl)))
          (Step.claim claim_one one_saved))
        (Step.publish "1" 120 (some "a") (claim_unpublished claim_one one_saved).1))
      tt

abbrev RequeueAnswer : Type 0
RequeueAnswer =
    let (r, s') = requeue_publish "1" 300 two_events in
    ((get "1" two_events ≡ none) × (r.outcome ≡ not_found) × (s' ≡ two_events))
    ⊎ ((e : PublishEvent) × (get "1" two_events ≡ some e)
        × (is_requeueable e.status ≡ false)
        × (r.outcome ≡ not_eligible)
        × (r.previous_status ≡ some e.status)
        × (s' ≡ two_events))
    ⊎ ((e e' : PublishEvent) × (get "1" two_events ≡ some e)
        × (is_requeueable e.status ≡ true)
        × (r.outcome ≡ requeued)
        × (r.previous_status ≡ some e.status)
        × (get "1" s' ≡ some e')
        × (e'.retry_count ≡ 0)
        × (e'.last_error ≡ none)
        × (e'.locked_by ≡ none)
        × (is_claimable e' 300 ≡ leb 300 300))
