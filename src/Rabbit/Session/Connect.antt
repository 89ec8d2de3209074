-- ===== src/Rabbit/Session/Connect.antt =====
-- What a connection that is made has.
use cap_nodejs.Prelude.{
  ℕ, suc, String, true, false, Option, List, [], ◌∷◌, ◌≡◌, refl, sym, ap, subst, ◌∙◌, inl, inr,
  arith, All, Bool-cases, ◌++◌,
}
use cap_nodejs.JsValue.{Thrown}
use cap_nodejs.JsMap.{values}
use cap_nodejs.Effect.{ok}
use cap_nodejs.Rabbit.{ResolvedOptions}
use cap_nodejs.Rabbit.Delivery.{Subscription}
use cap_nodejs.Rabbit.Session.{
  Session, BrokerCall, restore_all, take_channel, open_channel, connect_and_restore,
}
use cap_nodejs.Rabbit.Session.Restore.{restore_all-SameLink, restore_all_serves, HasConsumer}
use cap_nodejs.Rabbit.Session.Called.{Called-further, Consumed, IsOpened, restore_all-IsOpened}
use mathlib.Core.List.{append_assoc, append-nil}

module _ (o : ResolvedOptions) (broker : ℕ → Option Thrown) (tag : ℕ → String) where
  -- The calls with which a connection and its channel are made
  abbrev pub opening : List BrokerCall
  opening = BrokerCall.connects ∷ BrokerCall.creates_channel ∷ []

  -- The subscription's group has a consumer, for which `consume` was called on the queue of the group after some calls.
  abbrev pub IsServed : List BrokerCall → Session → Subscription → Type 0
  IsServed base t sub =
      HasConsumer o broker tag t sub × Consumed o broker tag base t.calls sub.group

  -- A channel, and for each subscription's group a consumer on it; the subscriptions as they were
  abbrev pub Serves : Session → Session → Type 0
  Serves s t =
      (t.channel ≡ true)
      × (t.subscriptions ≡ s.subscriptions)
      × All (IsServed (s.calls ++ opening) t) (values s.subscriptions)

  -- What holds of a channel that is taken
  abbrev Takes : List BrokerCall → Session → Session → Type 0
  Takes base s t =
      (t.channel ≡ true)
      × (t.subscriptions ≡ s.subscriptions)
      × All (IsServed base t) (values s.subscriptions)

  served :
      (base : List BrokerCall) (t : Session) (subs : List Subscription)
      → IsOpened o broker tag base t
      → All (HasConsumer o broker tag t) subs
      → All (IsServed base t) subs
  served base t [] h all = tt
  served base t (sub ∷ subs) h (there, all) =
      ((there, h.consumed sub.group there), served base t subs h all)

  IsServed-further :
      (base more : List BrokerCall) (t : Session) (subs : List Subscription)
      → All (IsServed (base ++ more) t) subs
      → All (IsServed base t) subs
  IsServed-further base more t [] all = tt
  IsServed-further base more t (sub ∷ subs) ((there, (queue, named, called)), all) = (
    (there, (queue, named, Called-further (BrokerCall.consumes queue) base more t.calls called)),
    IsServed-further base more t subs all,
  )

  -- No group is known to a session that has just taken its channel.
  IsOpened-anew :
      (s : Session)
      → IsOpened o broker tag s.calls (record s { connection = true; channel = true; groups = [] })
  IsOpened-anew s = record {
    grown = ([], sym (append-nil s.calls));
    consumed = λ g has. absurd (ground (arith, has));
  }

  take_channel_live :
      (s : Session)
      → s.disposed ≡ false
      → take_channel o broker tag s
        ≡ restore_all o broker tag
            (values s.subscriptions)
            (record s { connection = true; channel = true; groups = [] })
  unfolding take_channel
  take_channel_live s live = ground (arith, live)

  take_channel-Takes :
      (s : Session)
      → s.disposed ≡ false
      → (take_channel o broker tag s).0 ≡ ok tt
      → Takes s.calls s (take_channel o broker tag s).1
  take_channel-Takes s live h =
      let u : Session = record s { connection = true; channel = true; groups = [] } in
      let same = restore_all-SameLink o broker tag (values s.subscriptions) u in
      let on = take_channel_live s live in
      let t = (restore_all o broker tag (values s.subscriptions) u).1 in
      subst (λ r. Takes s.calls s r.1) (sym on)
        (
          same.same_channel,
          same.same_subscriptions,
          served s.calls t (values s.subscriptions)
              (restore_all-IsOpened o broker tag s.calls (values s.subscriptions) u
                (IsOpened-anew s))
              (restore_all_serves o broker tag (values s.subscriptions) u
                (subst (λ r. r.0 ≡ ok tt) on h)),
        )

  longer :
      (calls : List BrokerCall) (a b c : BrokerCall) (rest : List BrokerCall)
      → ((calls ++ a ∷ []) ++ b ∷ []) ++ c ∷ [] ++ rest ≡ (calls ++ a ∷ b ∷ []) ++ c ∷ rest
  longer calls a b c rest =
      append_assoc ((calls ++ a ∷ []) ++ b ∷ []) (c ∷ []) rest
      ∙ ap (λ l. l ++ c ∷ rest) (append_assoc calls (a ∷ []) (b ∷ []))

  -- A connection that is made is a channel that is taken, after calls that leave the subscriptions alone.
  connect_and_restore_takes :
      (s : Session)
      → (connect_and_restore o broker tag s).0 ≡ ok tt
      → (u : Session) × (u.subscriptions ≡ s.subscriptions)
        × (u.disposed ≡ s.disposed)
        × ((more : List BrokerCall) × (u.calls ≡ (s.calls ++ opening) ++ more))
        × (connect_and_restore o broker tag s ≡ take_channel o broker tag u)
  unfolding connect_and_restore open_channel
  connect_and_restore_takes s h = elim (Bool-cases o.auto_create_topology) [
    | inl topology ↦ (
      record s {
        moment = suc (suc (suc (suc s.moment)));
        calls =
            (((s.calls ++ BrokerCall.connects ∷ []) ++ BrokerCall.creates_channel ∷ [])
              ++ BrokerCall.prefetches o.prefetch ∷ [])
            ++ BrokerCall.asserts_exchange o.exchange_name ∷ [];
      },
      refl,
      refl,
      (
        BrokerCall.prefetches o.prefetch ∷ BrokerCall.asserts_exchange o.exchange_name ∷ [],
        longer s.calls BrokerCall.connects BrokerCall.creates_channel
            (BrokerCall.prefetches o.prefetch) (BrokerCall.asserts_exchange o.exchange_name ∷ []),
      ),
      ground (arith, topology, h),
    )
    | inr bare ↦ (
      record s {
        moment = suc (suc (suc s.moment));
        calls =
            ((s.calls ++ BrokerCall.connects ∷ []) ++ BrokerCall.creates_channel ∷ [])
            ++ BrokerCall.prefetches o.prefetch ∷ [];
      },
      refl,
      refl,
      (
        BrokerCall.prefetches o.prefetch ∷ [],
        sym (
              append-nil (
                ((s.calls ++ BrokerCall.connects ∷ []) ++ BrokerCall.creates_channel ∷ [])
                ++ BrokerCall.prefetches o.prefetch ∷ []))
            ∙ longer s.calls BrokerCall.connects BrokerCall.creates_channel
                (BrokerCall.prefetches o.prefetch) [],
      ),
      ground (arith, bare, h),
    )
  ]

  -- Of a subscriber that is not disposed, a connection that is made has a channel, and each subscription's group
  -- has a consumer on it, for which `consume` was called on the group's queue after the channel was made; the
  -- subscriptions are as they were.
  pub connect_and_restore-Serves :
      (s : Session)
      → s.disposed ≡ false
      → (connect_and_restore o broker tag s).0 ≡ ok tt
      → Serves s (connect_and_restore o broker tag s).1
  connect_and_restore-Serves s live h =
      let (u, subscriptions, disposed, (more, longer_by), on) = connect_and_restore_takes s h in
      let t = (take_channel o broker tag u).1 in
      let (channel, same, all) =
        take_channel-Takes u (disposed ∙ live) (subst (λ r. r.0 ≡ ok tt) on h) in
      subst (λ r. Serves s r.1) (sym on)
        (
          channel,
          same ∙ subscriptions,
          IsServed-further (s.calls ++ opening) more t (values s.subscriptions) (
              subst (λ base. All (IsServed base t) (values s.subscriptions)) longer_by
                (subst (λ x. All (IsServed u.calls t) (values x)) subscriptions all)),
        )
