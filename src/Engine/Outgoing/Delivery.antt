-- ===== src/Engine/Outgoing/Delivery.antt =====
-- What a dispatch achieves when no storage call rejects, no other process writes, and the batch takes less than
-- a lease.
use cap_nodejs.Prelude.{
  ℕ, zero, suc, ◌+◌, ◌<◌, String, true, false, none, some, [], ◌∷◌, ◌++◌, ◌≡◌, refl, ap, ◌∙◌, arith,
  Bool-cases, inl, inr, eq_iff, if◌then◌else◌,
}
use cap_nodejs.JsMap.{get}
use cap_nodejs.JsMap.Laws.{get-update}
use cap_nodejs.Model.{PublishEvent, PublishStatus}
use cap_nodejs.Outbox.{Store, mark_published, renew_publish_claim, published_at_time}
use cap_nodejs.Outbox.Ownership.{IsLeased}
use cap_nodejs.Engine.{Environment, Config, World, ok, Emission, with_cap_message_id}
use cap_nodejs.Engine.Outgoing.{
  emit, emit_succeeded, renew_claim, heartbeat, emit_with_heartbeat, settle_claimed, report_retry,
  emit_claimed_outbox_event,
}

-- No storage call rejects, and no other process writes to the outbox.
pub record IsCalm (env : Environment) : Type 0 where
  pub no_fault : (n : ℕ) → env.fault n ≡ none
  pub alone : (n : ℕ) (s : Store) → env.others_outbox n s ≡ s

-- What the broker is given for an event.
abbrev pub emission_of : PublishEvent → Emission
emission_of e = record {
  topic = e.topic;
  payload = e.payload;
  headers = with_cap_message_id e.headers e.id;
  message_id = e.id;
}

module _ (env : Environment) (c : Config) (calm : IsCalm env)
    (in_time : (m n : ℕ) → env.clock m < env.clock n + c.lease_ms) where
  -- The event of this id is leased to the owner, from some reading of the clock on.
  abbrev pub Held : String → String → World → Type 0
  Held id owner w =
      (e : PublishEvent) × (m : ℕ) × (get id w.outbox ≡ some e)
      × IsLeased owner (env.clock m + c.lease_ms) e

  renew_holds :
      (e : PublishEvent) (owner : String) (w : World)
      → Held e.id owner w
      → let (r, v) = renew_claim env c e owner w in
        (r ≡ ok true) × Held e.id owner v × (v.emissions ≡ w.emissions)
  unfolding renew_claim renew_publish_claim
  renew_holds e owner w (e0, m, found, leased) = elim (Bool-cases c.has_renew) [
    | inr off ↦ (ground arith, (e0, m, ground arith, leased), ground arith)
    | inl on ↦
        let at = env.clock w.moment in
        let e1 : PublishEvent = record e0 { locked_until = some (at + c.lease_ms) } in
        let quiet = calm.no_fault (suc w.moment) in
        let same = calm.alone (suc w.moment) w.outbox in
        let early = in_time w.moment m in
        (
          ground (arith, quiet, same, early, eq_iff owner owner),
          (
            e1,
            w.moment,
            ground (
              arith,
              quiet,
              same,
              early,
              eq_iff owner owner,
              eq_iff e.id e.id,
              get-update e.id e.id
                  (λ (x : PublishEvent). record x { locked_until = some (at + c.lease_ms) })
                  w.outbox,
            ),
            ground arith,
          ),
          ground (arith, quiet, same, early, eq_iff owner owner),
        )
  ]

  heartbeat_goes_on :
      (n : ℕ) (e : PublishEvent) (owner : String) (w : World)
      → (renew_claim env c e owner w).0 ≡ ok true
      → heartbeat env c (suc n) e owner w
        ≡ heartbeat env c n e owner (renew_claim env c e owner w).1
  unfolding heartbeat
  heartbeat_goes_on n e owner w good = ground arith

  heartbeat_holds :
      (n : ℕ) (e : PublishEvent) (owner : String) (w : World)
      → Held e.id owner w
      → let (r, v) = heartbeat env c n e owner w in
        (r ≡ ok false) × Held e.id owner v × (v.emissions ≡ w.emissions)
  unfolding heartbeat
  heartbeat_holds zero e owner w h = (refl, h, refl)
  heartbeat_holds (suc n) e owner w h =
      let (good, still, sent) = renew_holds e owner w h in
      let rest = heartbeat_holds n e owner (renew_claim env c e owner w).1 still in
      rw (heartbeat_goes_on n e owner w good) (rest.0, rest.1, rest.2 ∙ sent)

  succeed_publishes :
      (e : PublishEvent) (owner : String) (w : World)
      → Held e.id owner w
      → let (r, v) = emit_succeeded env c e (some owner) w in
        (r ≡ ok tt)
        × ((e' : PublishEvent) × (get e.id v.outbox ≡ some e')
            × (e'.status ≡ PublishStatus.published))
        × (v.emissions ≡ w.emissions)
  unfolding emit_succeeded mark_published
  succeed_publishes e owner w (e0, m, found, leased) =
      let at = env.clock w.moment in
      let quiet = calm.no_fault (suc w.moment) in
      let same = calm.alone (suc w.moment) w.outbox in
      (
        ground (arith, quiet, same, eq_iff owner owner),
        (
          published_at_time at e0,
          ground (
            arith,
            quiet,
            same,
            eq_iff owner owner,
            eq_iff e.id e.id,
            get-update e.id e.id (published_at_time at) w.outbox,
          ),
          refl,
        ),
        ground (arith, quiet, same, eq_iff owner owner),
      )

  report_holds :
      (e : PublishEvent) (owner : String) (w : World)
      → Held e.id owner w
      → let (r, v) = report_retry env c e w in
        (r ≡ ok tt) × Held e.id owner v × (v.emissions ≡ w.emissions)
  unfolding report_retry
  report_holds e owner w (e0, m, found, leased) =
      (ground arith, (e0, m, ground arith, leased), ground arith)

  emit_with_heartbeat_holds :
      (e : PublishEvent) (owner : String) (w : World)
      → ((n : ℕ) → env.broker n ≡ none)
      → Held e.id owner w
      → let (r, v) = emit_with_heartbeat env c e owner w in
        (r ≡ ok (none, false))
        × Held e.id owner v
        × (v.emissions ≡ w.emissions ++ emission_of e ∷ [])
  unfolding emit_with_heartbeat emit
  emit_with_heartbeat_holds e owner w accepts (e0, m, found, leased) =
      let u : World = record w {
        moment = suc (suc w.moment);
        emissions = w.emissions ++ emission_of e ∷ [];
      } in
      let n = if c.has_renew then env.heartbeats (suc w.moment) else 0 in
      let (good, (e1, m1, found1, leased1), sent) =
        heartbeat_holds n e owner u (e0, m, found, leased) in
      let yes_broker = accepts w.moment in
      (
        ground (arith, yes_broker, good),
        (e1, m1, ground (arith, yes_broker, good, found1), leased1),
        ground (arith, yes_broker, good, sent),
      )

  claimed_goes_on :
      (e : PublishEvent) (owner : String) (w : World)
      → let u = renew_claim env c e owner w in
        let v = report_retry env c e u.1 in
        let x = emit_with_heartbeat env c e owner v.1 in
        u.0 ≡ ok true
        → v.0 ≡ ok tt
        → x.0 ≡ ok (none, false)
        → emit_claimed_outbox_event env c e owner w ≡ emit_succeeded env c e (some owner) x.1
  unfolding emit_claimed_outbox_event settle_claimed
  claimed_goes_on e owner w p q r = ground arith

  -- A claimed event that is dispatched while its lease runs is sent once, with its id in the headers, and is
  -- `published` in the store.
  pub emit_claimed_outbox_event_delivers :
      (e : PublishEvent) (owner : String) (w : World)
      → ((n : ℕ) → env.broker n ≡ none)
      → Held e.id owner w
      → let (r, v) = emit_claimed_outbox_event env c e owner w in
        (r ≡ ok tt)
        × ((e' : PublishEvent) × (get e.id v.outbox ≡ some e')
            × (e'.status ≡ PublishStatus.published))
        × (v.emissions ≡ w.emissions ++ emission_of e ∷ [])
  emit_claimed_outbox_event_delivers e owner w accepts h =
      let (p, hu, su) = renew_holds e owner w h in
      let (q, hv, sv) = report_holds e owner (renew_claim env c e owner w).1 hu in
      let v = (report_retry env c e (renew_claim env c e owner w).1).1 in
      let (r, hx, sx) = emit_with_heartbeat_holds e owner v accepts hv in
      let (good, stored, sent) =
        succeed_publishes e owner (emit_with_heartbeat env c e owner v).1 hx in
      rw (claimed_goes_on e owner w p q r)
        (good, stored, sent ∙ sx ∙ ap (λ l. l ++ emission_of e ∷ []) (sv ∙ su))
