-- ===== src/Rabbit/Session/Restore.antt =====
-- What a restored connection has.
use cap_nodejs.Prelude.{
  ℕ, suc, String, true, Option, none, List, [], ◌∷◌, ◌≡◌, sym, subst, ◌∙◌, inl, inr, arith, eq_iff,
  All, is_some, ◌++◌,
}
use cap_nodejs.JsValue.{Thrown}
use cap_nodejs.JsMap.{get}
use cap_nodejs.JsMap.Laws.{get-set, get-update}
use cap_nodejs.Effect.{ok, thrown, Result-cases}
use cap_nodejs.Rabbit.{ResolvedOptions, queue_name}
use cap_nodejs.Rabbit.Delivery.{Subscription}
use cap_nodejs.Rabbit.Session.{
  Session, BrokerCall, ensure_group, ensure_consumer, has_consumer, set_tag, restore_subscription,
  restore_all,
}

module _ (o : ResolvedOptions) (broker : ℕ → Option Thrown) (tag : ℕ → String) where
  -- What a restoration leaves alone
  pub record SameLink (s t : Session) : Type 0 where
    pub same_subscriptions : t.subscriptions ≡ s.subscriptions
    pub same_channel : t.channel ≡ s.channel
    pub same_connection : t.connection ≡ s.connection
    pub same_disposed : t.disposed ≡ s.disposed
    pub same_recovering : t.recovering ≡ s.recovering

  SameLink-trans : {s t u : Session} → SameLink s t → SameLink t u → SameLink s u
  SameLink-trans a b = record {
    same_subscriptions = b.same_subscriptions ∙ a.same_subscriptions;
    same_channel = b.same_channel ∙ a.same_channel;
    same_connection = b.same_connection ∙ a.same_connection;
    same_disposed = b.same_disposed ∙ a.same_disposed;
    same_recovering = b.same_recovering ∙ a.same_recovering;
  }

  ensure_group-SameLink :
      (group queue : String) (s : Session) → SameLink s (ensure_group o broker tag group queue s).1
  unfolding ensure_group
  ensure_group-SameLink group queue s = ground arith

  ensure_consumer-SameLink :
      (group queue : String) (s : Session)
      → SameLink s (ensure_consumer o broker tag group queue s).1
  unfolding ensure_consumer
  ensure_consumer-SameLink group queue s = ground arith

  -- A group keeps its consumer.
  ensure_group_keeps :
      (group queue g : String) (s : Session)
      → has_consumer o broker tag g s ≡ true
      → has_consumer o broker tag g (ensure_group o broker tag group queue s).1 ≡ true
  unfolding ensure_group
  ensure_group_keeps group queue g s h = ground (
    arith,
    get-set group g (record { queue = queue; consumer_tag = none }) s.groups,
    eq_iff group g,
  )

  ensure_consumer_keeps :
      (group queue g : String) (s : Session)
      → has_consumer o broker tag g s ≡ true
      → has_consumer o broker tag g (ensure_consumer o broker tag group queue s).1 ≡ true
  unfolding ensure_consumer
  ensure_consumer_keeps group queue g s h =
      ground (arith, get-update group g (set_tag o broker tag (tag s.moment)) s.groups)

  ensure_group_makes :
      (group queue : String) (s : Session)
      → (ensure_group o broker tag group queue s).0 ≡ ok tt
      → is_some (get group (ensure_group o broker tag group queue s).1.groups) ≡ true
  unfolding ensure_group
  ensure_group_makes group queue s h = ground (
    arith,
    get-set group group (record { queue = queue; consumer_tag = none }) s.groups,
    eq_iff group group,
  )

  ensure_consumer_makes :
      (group queue : String) (s : Session)
      → is_some (get group s.groups) ≡ true
      → (ensure_consumer o broker tag group queue s).0 ≡ ok tt
      → has_consumer o broker tag group (ensure_consumer o broker tag group queue s).1 ≡ true
  unfolding ensure_consumer
  ensure_consumer_makes group queue s there h = ground (
    arith,
    get-update group group (set_tag o broker tag (tag s.moment)) s.groups,
    eq_iff group group,
  )

  pub restore_subscription-SameLink :
      (sub : Subscription) (s : Session) → SameLink s (restore_subscription o broker tag sub s).1
  unfolding restore_subscription
  restore_subscription-SameLink sub s = elim (Result-cases (queue_name o sub.group)) [
    | inr (e, bad) ↦ ground (arith, bad)
    | inl (queue, good) ↦
        let t = (ensure_group o broker tag sub.group queue s).1 in
        let u : Session = record t {
          moment = suc t.moment;
          calls = t.calls ++ BrokerCall.binds_queue queue sub.topic ∷ [];
        } in
        ground (
          arith,
          good,
          ensure_group-SameLink sub.group queue s,
          ensure_consumer-SameLink sub.group queue t,
          ensure_consumer-SameLink sub.group queue u,
        )
  ]

  restore_subscription_keeps :
      (sub : Subscription) (g : String) (s : Session)
      → has_consumer o broker tag g s ≡ true
      → has_consumer o broker tag g (restore_subscription o broker tag sub s).1 ≡ true
  unfolding restore_subscription
  restore_subscription_keeps sub g s h = elim (Result-cases (queue_name o sub.group)) [
    | inr (e, bad) ↦ ground (arith, bad)
    | inl (queue, good) ↦
        let t = (ensure_group o broker tag sub.group queue s).1 in
        let u : Session = record t {
          moment = suc t.moment;
          calls = t.calls ++ BrokerCall.binds_queue queue sub.topic ∷ [];
        } in
        let kept = ensure_group_keeps sub.group queue g s h in
        ground (
          arith,
          good,
          kept,
          ensure_consumer_keeps sub.group queue g t kept,
          ensure_consumer_keeps sub.group queue g u kept,
        )
  ]

  restore_subscription_makes :
      (sub : Subscription) (s : Session)
      → (restore_subscription o broker tag sub s).0 ≡ ok tt
      → has_consumer o broker tag sub.group (restore_subscription o broker tag sub s).1 ≡ true
  unfolding restore_subscription
  restore_subscription_makes sub s h = elim (Result-cases (queue_name o sub.group)) [
    | inr (e, bad) ↦ absurd (ground (arith, bad, h))
    | inl (queue, good) ↦
        let t = (ensure_group o broker tag sub.group queue s).1 in
        let u : Session = record t {
          moment = suc t.moment;
          calls = t.calls ++ BrokerCall.binds_queue queue sub.topic ∷ [];
        } in
        ground (
          arith,
          good,
          h,
          ensure_group_makes sub.group queue s,
          ensure_consumer_makes sub.group queue t,
          ensure_consumer_makes sub.group queue u,
        )
  ]

  restore_all_goes_on :
      (sub : Subscription) (subs : List Subscription) (s : Session)
      → (restore_subscription o broker tag sub s).0 ≡ ok tt
      → restore_all o broker tag (sub ∷ subs) s
        ≡ restore_all o broker tag subs (restore_subscription o broker tag sub s).1
  unfolding restore_all
  restore_all_goes_on sub subs s good = ground (arith, good)

  restore_all_stops :
      (sub : Subscription) (subs : List Subscription) (s : Session) (e : Thrown)
      → (restore_subscription o broker tag sub s).0 ≡ thrown e
      → restore_all o broker tag (sub ∷ subs) s
        ≡ (thrown e, (restore_subscription o broker tag sub s).1)
  unfolding restore_all
  restore_all_stops sub subs s e bad = ground (arith, bad)

  pub restore_all-SameLink :
      (subs : List Subscription) (s : Session) → SameLink s (restore_all o broker tag subs s).1
  unfolding restore_all
  restore_all-SameLink [] s = ground arith
  restore_all-SameLink (sub ∷ subs) s =
      let t = (restore_subscription o broker tag sub s).1 in
      let first = restore_subscription-SameLink sub s in
      let rest = SameLink-trans first (restore_all-SameLink subs t) in
      elim (Result-cases (restore_subscription o broker tag sub s).0) [
        | inl (x, good) ↦
            subst (λ r. SameLink s r.1) (sym (restore_all_goes_on sub subs s good)) rest
        | inr (e, bad) ↦
            subst (λ r. SameLink s r.1) (sym (restore_all_stops sub subs s e bad)) first
      ]

  restore_all_keeps :
      (subs : List Subscription) (g : String) (s : Session)
      → has_consumer o broker tag g s ≡ true
      → has_consumer o broker tag g (restore_all o broker tag subs s).1 ≡ true
  unfolding restore_all
  restore_all_keeps [] g s h = h
  restore_all_keeps (sub ∷ subs) g s h =
      let kept = restore_subscription_keeps sub g s h in
      ground
        (arith, kept, restore_all_keeps subs g (restore_subscription o broker tag sub s).1 kept)

  -- The group of the subscription has a consumer in the `groups` of the session.
  abbrev pub HasConsumer : Session → Subscription → Type 0
  HasConsumer s sub = has_consumer o broker tag sub.group s ≡ true

  pub restore_all_serves :
      (subs : List Subscription) (s : Session)
      → (restore_all o broker tag subs s).0 ≡ ok tt
      → All (HasConsumer (restore_all o broker tag subs s).1) subs
  unfolding restore_all
  restore_all_serves [] s h = tt
  restore_all_serves (sub ∷ subs) s h =
      let t = (restore_subscription o broker tag sub s).1 in
      elim (Result-cases (restore_subscription o broker tag sub s).0) [
        | inl (x, good) ↦
            let made = restore_subscription_makes sub s good in
            let on = restore_all_goes_on sub subs s good in
            subst (λ r. All (HasConsumer r.1) (sub ∷ subs)) (sym on)
              (
                restore_all_keeps subs sub.group t made,
                restore_all_serves subs t (subst (λ r. r.0 ≡ ok tt) on h),
              )
        | inr (e, bad) ↦ absurd (ground (arith, h, restore_all_stops sub subs s e bad))
      ]
