-- ===== src/Rabbit/Session/Called.antt =====
-- Where the consumers of a connection come from: since it was made, `consume` was called for each.
use mathlib.Core.List.{append_assoc}
use cap_nodejs.Prelude.{
  ℕ, suc, String, true, Option, none, List, [], ◌∷◌, ◌++◌, ◌≡◌, sym, ap, ◌∙◌, inl, inr, arith,
  eq_iff, Bool-cases, Option-cases, str_eq, subst,
}
use cap_nodejs.JsValue.{Thrown}
use cap_nodejs.JsMap.{has, set, update}
use cap_nodejs.JsMap.Laws.{get-set, get-update}
use cap_nodejs.Effect.{ok, Result-cases}
use cap_nodejs.Rabbit.{ResolvedOptions, queue_name}
use cap_nodejs.Rabbit.Delivery.{Subscription}
use cap_nodejs.Rabbit.Session.{
  Session, BrokerCall, ensure_group, ensure_consumer, has_consumer, set_tag, restore_subscription,
  restore_all,
}

-- The call is among those that follow the first ones.
abbrev pub Called : BrokerCall → List BrokerCall → List BrokerCall → Type 0
Called c base calls = (l r : List BrokerCall) × (calls ≡ (base ++ l) ++ c ∷ r)

Called-append :
    (c d : BrokerCall) (base calls : List BrokerCall)
    → Called c base calls
    → Called c base (calls ++ d ∷ [])
Called-append c d base calls (l, r, e) =
    (l, r ++ d ∷ [], ap (λ x. x ++ d ∷ []) e ∙ append_assoc (base ++ l) (c ∷ r) (d ∷ []))

pub Called-further :
    (c : BrokerCall) (base more calls : List BrokerCall)
    → Called c (base ++ more) calls
    → Called c base calls
Called-further c base more calls (l, r, e) =
    (more ++ l, r, e ∙ ap (λ x. x ++ c ∷ r) (append_assoc base more l))

module _ (o : ResolvedOptions) (broker : ℕ → Option Thrown) (tag : ℕ → String)
    (base : List BrokerCall) where
  -- `consume` was called for the queue of a group.
  abbrev pub Consumed : List BrokerCall → String → Type 0
  Consumed calls group =
      (queue : String) × (queue_name o group ≡ ok queue)
      × Called (BrokerCall.consumes queue) base calls

  -- Every consumer of a session comes from a call since the first ones.
  pub record IsOpened (s : Session) : Type 0 where
    pub grown : (l : List BrokerCall) × (s.calls ≡ base ++ l)
    pub consumed : (g : String) → has_consumer o broker tag g s ≡ true → Consumed s.calls g

  abbrev calling : BrokerCall → Session → Session
  calling c s = record s { moment = suc s.moment; calls = s.calls ++ c ∷ [] }

  abbrev with_group : String → String → Session → Session
  with_group group queue s = record s {
    groups = set group (record { queue = queue; consumer_tag = none }) s.groups;
  }

  abbrev with_consumer : String → String → String → Session → Session
  with_consumer group queue t s = record s {
    moment = suc s.moment;
    calls = s.calls ++ BrokerCall.consumes queue ∷ [];
    groups = update group (set_tag o broker tag t) s.groups;
  }

  calling-IsOpened : (c : BrokerCall) (s : Session) → IsOpened s → IsOpened (calling c s)
  calling-IsOpened c s h = record {
    grown = (
      h.grown.0 ++ c ∷ [],
      ap (λ x. x ++ c ∷ []) h.grown.1 ∙ append_assoc base h.grown.0 (c ∷ []),
    );
    consumed = λ g has.
        let (queue, named, called) = h.consumed g has in
        (queue, named, Called-append (BrokerCall.consumes queue) c base s.calls called);
  }

  -- A group without a consumer is added.
  adding-IsOpened :
      (group queue : String) (s : Session) → IsOpened s → IsOpened (with_group group queue s)
  adding-IsOpened group queue s h = record {
    grown = h.grown;
    consumed = λ g has. h.consumed g (
        ground
          (arith, has, get-set group g (record { queue = queue; consumer_tag = none }) s.groups));
  }

  -- A consumer is recorded for a group after the call for its queue.
  consuming-IsOpened :
      (group queue t : String) (s : Session)
      → queue_name o group ≡ ok queue
      → IsOpened s
      → IsOpened (with_consumer group queue t s)
  consuming-IsOpened group queue t s named h =
      let after = calling-IsOpened (BrokerCall.consumes queue) s h in
      record {
        grown = after.grown;
        consumed = λ g has. elim (Bool-cases (str_eq group g)) [
          | inl same ↦
              subst (Consumed (s.calls ++ BrokerCall.consumes queue ∷ [])) ((eq_iff group g).0 same)
                (
                  queue,
                  named,
                  (h.grown.0, [], ap (λ x. x ++ BrokerCall.consumes queue ∷ []) h.grown.1),
                )
          | inr other ↦
              after.consumed g
                (ground (arith, has, other, get-update group g (set_tag o broker tag t) s.groups))
        ];
      }

  IsOpened-as : (s t : Session) → t ≡ s → IsOpened s → IsOpened t
  IsOpened-as s t same h = subst IsOpened (sym same) h

  ensure_group-IsOpened :
      (group queue : String) (s : Session)
      → IsOpened s
      → IsOpened (ensure_group o broker tag group queue s).1
  unfolding ensure_group
  ensure_group-IsOpened group queue s h =
      let asserted = calling (BrokerCall.asserts_queue queue) s in
      let called = calling-IsOpened (BrokerCall.asserts_queue queue) s h in
      let after = (ensure_group o broker tag group queue s).1 in
      elim (Bool-cases (has group s.groups)) [
        | inl there ↦ IsOpened-as s after (ground (arith, there)) h
        | inr new ↦ elim (Bool-cases o.auto_create_topology) [
          | inr bare ↦
              IsOpened-as (with_group group queue s) after (ground (arith, new, bare))
                (adding-IsOpened group queue s h)
          | inl topology ↦ elim (Option-cases (broker s.moment)) [
            | inl good ↦
                IsOpened-as (with_group group queue asserted) after
                  (ground (arith, new, topology, good))
                  (adding-IsOpened group queue asserted called)
            | inr (e, bad) ↦ IsOpened-as asserted after (ground (arith, new, topology, bad)) called
          ]
        ]
      ]

  ensure_consumer-IsOpened :
      (group queue : String) (s : Session)
      → queue_name o group ≡ ok queue
      → IsOpened s
      → IsOpened (ensure_consumer o broker tag group queue s).1
  unfolding ensure_consumer
  ensure_consumer-IsOpened group queue s named h =
      let after = (ensure_consumer o broker tag group queue s).1 in
      elim (Bool-cases (has_consumer o broker tag group s)) [
        | inl there ↦ IsOpened-as s after (ground (arith, there)) h
        | inr new ↦ elim (Option-cases (broker s.moment)) [
          | inl good ↦
              IsOpened-as (with_consumer group queue (tag s.moment) s) after
                (ground (arith, new, good))
                (consuming-IsOpened group queue (tag s.moment) s named h)
          | inr (e, bad) ↦
              IsOpened-as (calling (BrokerCall.consumes queue) s) after (ground (arith, new, bad))
                (calling-IsOpened (BrokerCall.consumes queue) s h)
        ]
      ]

  restore_subscription-IsOpened :
      (sub : Subscription) (s : Session)
      → IsOpened s
      → IsOpened (restore_subscription o broker tag sub s).1
  unfolding restore_subscription
  restore_subscription-IsOpened sub s h =
      let after = (restore_subscription o broker tag sub s).1 in
      elim (Result-cases (queue_name o sub.group)) [
        | inr (e, bad) ↦ IsOpened-as s after (ground (arith, bad)) h
        | inl (queue, named) ↦
            let grouped = (ensure_group o broker tag sub.group queue s).1 in
            let there = ensure_group-IsOpened sub.group queue s h in
            let bind = BrokerCall.binds_queue queue sub.topic in
            let bound = calling-IsOpened bind grouped there in
            elim (Result-cases (ensure_group o broker tag sub.group queue s).0) [
              | inr (e, bad) ↦ IsOpened-as grouped after (ground (arith, named, bad)) there
              | inl (x, good) ↦ elim (Bool-cases o.auto_create_topology) [
                | inr bare ↦
                    IsOpened-as (ensure_consumer o broker tag sub.group queue grouped).1 after
                      (ground (arith, named, good, bare))
                      (ensure_consumer-IsOpened sub.group queue grouped named there)
                | inl topology ↦ elim (Option-cases (broker grouped.moment)) [
                  | inl fine ↦
                      IsOpened-as
                        (ensure_consumer o broker tag sub.group queue (calling bind grouped)).1
                        after (ground (arith, named, good, topology, fine))
                        (ensure_consumer-IsOpened sub.group queue (calling bind grouped) named
                          bound)
                  | inr (e, bad) ↦
                      IsOpened-as (calling bind grouped) after
                        (ground (arith, named, good, topology, bad)) bound
                ]
              ]
            ]
      ]

  pub restore_all-IsOpened :
      (subs : List Subscription) (s : Session)
      → IsOpened s
      → IsOpened (restore_all o broker tag subs s).1
  unfolding restore_all
  restore_all-IsOpened [] s h = h
  restore_all-IsOpened (sub ∷ subs) s h =
      let t = (restore_subscription o broker tag sub s).1 in
      let first = restore_subscription-IsOpened sub s h in
      let after = (restore_all o broker tag (sub ∷ subs) s).1 in
      elim (Result-cases (restore_subscription o broker tag sub s).0) [
        | inl (x, good) ↦
            IsOpened-as (restore_all o broker tag subs t).1 after (ground (arith, good))
              (restore_all-IsOpened subs t first)
        | inr (e, bad) ↦ IsOpened-as t after (ground (arith, bad)) first
      ]
