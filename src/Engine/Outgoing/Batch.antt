-- ===== src/Engine/Outgoing/Batch.antt =====
-- A whole run of `dispatchOutboxBatch`.
use mathlib.Core.List.{append_assoc, append-nil}
use cap_nodejs.Prelude.{
  ℕ, suc, ◌+◌, ◌<◌, String, false, none, some, List, [], ◌∷◌, ◌++◌, ◌≡◌, refl, sym, ap, subst, ◌∙◌,
  arith, eq_iff, map, All, join, length,
}
use cap_nodejs.JsMap.{get}
use cap_nodejs.Model.{PublishEvent, PublishStatus, ClaimUnpublishedOptions}
use cap_nodejs.Outbox.{Store, claim_unpublished, release_expired_claims}
use cap_nodejs.Outbox.Valid.{IsStore, Step, valid_step-IsStore}
use cap_nodejs.Outbox.Claims.{has_id}
use cap_nodejs.Outbox.Claimed.{DistinctIds, IsClaimed, claim_unpublished_batch}
use cap_nodejs.Engine.{Environment, Config, World, ok, Result}
use cap_nodejs.Engine.Outgoing.{emit_claimed_outbox_event, emit_batch, dispatch_outbox_batch}
use cap_nodejs.Engine.Outgoing.Frame.{emit_claimed_outbox_event-Keeps}
use cap_nodejs.Engine.Outgoing.Delivery.{
  IsCalm, Held, emission_of, emit_claimed_outbox_event_delivers,
}

-- The event of this id is published in the store.
abbrev pub IsDone : Store → PublishEvent → Type 0
IsDone s e = (e' : PublishEvent) × (get e.id s ≡ some e') × (e'.status ≡ PublishStatus.published)

module _ (env : Environment) (c : Config) (calm : IsCalm env)
    (in_time : (m n : ℕ) → env.clock m < env.clock n + c.lease_ms)
    (accepts : (n : ℕ) → env.broker n ≡ none) (owner : String) where
  abbrev IsHeld : World → PublishEvent → Type 0
  IsHeld w e = Held env c calm in_time e.id owner w × (e.locked_by ≡ some owner)

  alone_keeps : (k : String) (n : ℕ) (s : Store) → get k (env.others_outbox n s) ≡ get k s
  alone_keeps k n s = ap (get k) (calm.alone n s)

  IsHeld-after :
      (e : PublishEvent) (es : List PublishEvent) (w : World)
      → has_id e.id es ≡ false
      → All (IsHeld w) es
      → All (IsHeld (emit_claimed_outbox_event env c e owner w).1) es
  IsHeld-after e [] w m h = tt
  IsHeld-after e (x ∷ xs) w m h =
      let ((e0, n, found, leased), locked) = h.0 in
      let kept =
        emit_claimed_outbox_event-Keeps env c x.id (alone_keeps x.id) e owner
          (ground (arith, eq_iff x.id e.id, eq_iff e.id x.id)) w in
      (((e0, n, kept ∙ found, leased), locked), IsHeld-after e xs w (ground arith) h.1)

  emit_batch_goes_on :
      (e : PublishEvent) (es : List PublishEvent) (w : World)
      → e.locked_by ≡ some owner
      → (emit_claimed_outbox_event env c e owner w).0 ≡ ok tt
      → emit_batch env c owner (e ∷ es) w
        ≡ emit_batch env c owner es (emit_claimed_outbox_event env c e owner w).1
  unfolding emit_batch
  emit_batch_goes_on e es w locked good = ground (arith, eq_iff owner owner)

  -- Events of other ids than those of the batch stay as they are.
  emit_batch-Keeps :
      (k : String) (es : List PublishEvent) (w : World)
      → has_id k es ≡ false
      → DistinctIds es
      → All (IsHeld w) es
      → get k (emit_batch env c owner es w).1.outbox ≡ get k w.outbox
  emit_batch-Keeps k [] w m d h = unfold emit_batch in refl
  emit_batch-Keeps k (e ∷ es) w m d h =
      let v = (emit_claimed_outbox_event env c e owner w).1 in
      let run = emit_claimed_outbox_event_delivers env c calm in_time e owner w accepts h.0.0 in
      rw (emit_batch_goes_on e es w h.0.1 run.0) (
        emit_batch-Keeps k es v (ground arith) d.1 (IsHeld-after e es w d.0 h.1)
        ∙ emit_claimed_outbox_event-Keeps env c k (alone_keeps k) e owner
            (ground (arith, eq_iff e.id k)) w)

  -- The action ended well: every event is published, and what was sent are the events in their order.
  abbrev Delivers : List PublishEvent → World → Result (Unit {0}) × World → Type 0
  Delivers es w p =
      (p.0 ≡ ok tt)
      × All (IsDone p.1.outbox) es
      × (p.1.emissions ≡ w.emissions ++ map emission_of es)

  emit_batch-Delivers :
      (es : List PublishEvent) (w : World)
      → DistinctIds es
      → All (IsHeld w) es
      → Delivers es w (emit_batch env c owner es w)
  emit_batch-Delivers [] w d h = unfold emit_batch in (refl, tt, sym (append-nil w.emissions))
  emit_batch-Delivers (e ∷ es) w d h =
      let v = (emit_claimed_outbox_event env c e owner w).1 in
      let (good, (e', stored, published), sent) =
        emit_claimed_outbox_event_delivers env c calm in_time e owner w accepts h.0.0 in
      let still = IsHeld-after e es w d.0 h.1 in
      let (rest_good, rest_done, rest_sent) = emit_batch-Delivers es v d.1 still in
      let kept = emit_batch-Keeps e.id es v d.0 d.1 still in
      subst (Delivers (e ∷ es) w) (sym (emit_batch_goes_on e es w h.0.1 good)) (
        rest_good,
        ((e', kept ∙ stored, published), rest_done),
        rest_sent
            ∙ ap (λ l. l ++ map emission_of es) sent
            ∙ append_assoc w.emissions (emission_of e ∷ []) (map emission_of es),
      )

-- The claim that a dispatch makes, from the moment when it begins.
abbrev pub claim_of : Environment → Config → World → ClaimUnpublishedOptions
claim_of env c w = record {
  limit = c.batch_size;
  locked_by = join c.instance_id (join ":" (env.uuid (suc (suc w.moment))));
  lock_until = env.clock w.moment + c.lease_ms;
  now = env.clock w.moment;
}

-- The claim's batch and the store after it.
abbrev pub claimed_of : Environment → Config → World → List PublishEvent × Store
claimed_of env c w =
    claim_unpublished (claim_of env c w) (release_expired_claims (env.clock w.moment) w.outbox)

abbrev after_claim : Environment → Config → World → World
after_claim env c w = record w {
  moment = suc (suc (suc (suc w.moment)));
  outbox = (claimed_of env c w).1;
}

dispatch_goes_on :
    (env : Environment) (c : Config) (w : World)
    → IsCalm env
    → c.disabled ≡ false
    → let owner = (claim_of env c w).locked_by in
      let p = emit_batch env c owner (claimed_of env c w).0 (after_claim env c w) in
      p.0 ≡ ok tt → dispatch_outbox_batch env c w ≡ (ok (length (claimed_of env c w).0), p.1)
unfolding dispatch_outbox_batch
dispatch_goes_on env c w calm on good = ground (
  arith,
  calm.no_fault (suc w.moment),
  calm.alone (suc w.moment) w.outbox,
  calm.no_fault (suc (suc (suc w.moment))),
  calm.alone (suc (suc (suc w.moment))) (release_expired_claims (env.clock w.moment) w.outbox),
)

All-IsHeld :
    (env : Environment) (c : Config) (calm : IsCalm env)
    (in_time : (m n : ℕ) → env.clock m < env.clock n + c.lease_ms)
    (accepts : (n : ℕ) → env.broker n ≡ none) (w v : World) (es : List PublishEvent)
    → All (IsClaimed (claim_of env c w) v.outbox) es
    → All (IsHeld env c calm in_time accepts (claim_of env c w).locked_by v) es
All-IsHeld env c calm in_time accepts w v [] h = tt
All-IsHeld env c calm in_time accepts w v (e ∷ es) h =
    (((e, w.moment, h.0.0, h.0.1), h.0.1.holder), All-IsHeld env c calm in_time accepts w v es h.1)

-- With a broker that accepts, a storage that does not fail and that no other process writes to, and a run that is
-- shorter than a lease, a dispatch publishes every event that it claims: it returns their number, sends each of
-- them once, in the order of the claim and under its own message id, and leaves each `published` in the store.
pub dispatch_outbox_batch_delivers :
    (env : Environment) (c : Config) (w : World)
    → IsCalm env
    → ((m n : ℕ) → env.clock m < env.clock n + c.lease_ms)
    → ((n : ℕ) → env.broker n ≡ none)
    → c.disabled ≡ false
    → IsStore w.outbox
    → let (r, v) = dispatch_outbox_batch env c w in
      let batch = (claimed_of env c w).0 in
      (r ≡ ok (length batch))
      × All (IsDone v.outbox) batch
      × (v.emissions ≡ w.emissions ++ map emission_of batch)
dispatch_outbox_batch_delivers env c w calm in_time accepts on valid =
    let o = claim_of env c w in
    let batch = (claimed_of env c w).0 in
    let released = valid_step-IsStore (Step.release (env.clock w.moment) w.outbox) valid in
    let (distinct, claimed) =
      claim_unpublished_batch o (release_expired_claims (env.clock w.moment) w.outbox) released in
    let v = after_claim env c w in
    let (good, all_done, sent) =
      emit_batch-Delivers env c calm in_time accepts o.locked_by batch v distinct
        (All-IsHeld env c calm in_time accepts w v batch claimed) in
    rw (dispatch_goes_on env c w calm on good) (refl, all_done, sent)
