-- ===== src/Subscriptions/Startup.antt =====
-- Startups that nothing interferes with: how they end, and where they take up again after a failure.
use cap_nodejs.Prelude.{
  ℕ, zero, suc, String, true, false, none, some, List, [], ◌∷◌, ◌++◌, ◌≡◌, refl, ◌≢◌, inl, inr, ◌∙◌,
  arith, length, Option-cases, eq_iff,
}
use cap_nodejs.JsValue.{Thrown}
use cap_nodejs.JsMap.{JsMap, get, update}
use cap_nodejs.JsMap.Laws.{get-update}
use cap_nodejs.Subscriptions.{
  Engine, Lifecycle, StartTask, Subscription, attaching, is_registrable, unattached_keys,
  set_attached, start_subscriptions, attached, attach_failed, start_settles, failure_of, message_of,
}

-- No key is there twice.
abbrev pub Distinct : JsMap Subscription → Type 0
Distinct [] = Unit
Distinct ((k, sub) ∷ m) = (get k m ≡ none) × Distinct m

pub update-Distinct :
    (k : String) (f : Subscription → Subscription) (m : JsMap Subscription)
    → Distinct m
    → Distinct (update k f m)
update-Distinct k f [] d = tt
update-Distinct k f ((j, w) ∷ m) d = ground (arith, update-Distinct k f m, get-update k j f m)

unattached_keys-get :
    (k : String) (ks : List String) (m : JsMap Subscription)
    → unattached_keys m ≡ k ∷ ks
    → get k m ≢ none
unattached_keys-get k ks [] e = λ g. cc
unattached_keys-get k ks ((j, w) ∷ m) e = ground (arith, unattached_keys-get k ks m, eq_iff j k)

unattached_keys-update :
    (k : String) (ks : List String) (m : JsMap Subscription)
    → Distinct m
    → unattached_keys m ≡ k ∷ ks
    → unattached_keys (update k (set_attached true) m) ≡ ks
unattached_keys-update k ks [] d e = cc
unattached_keys-update k ks ((j, w) ∷ m) d e =
    ground (arith, unattached_keys-update k ks m, unattached_keys-get k ks m, eq_iff j k)

-- `consume` resolves `n` times.
abbrev pub attach_times : ℕ → Engine → Engine
attach_times zero s = s
attach_times (suc n) s = attach_times n (attached s)

-- A startup that waits for the attachment of `k`, with `ks` to follow; no others are unattached.
pub record IsAttaching (k : String) (ks : List String) (s : Engine) : Type 0 where
  pub distinct : Distinct s.subscriptions
  pub keys : unattached_keys s.subscriptions ≡ k ∷ ks
  pub unasked : s.stop_requested ≡ false
  pub active : s.lifecycle ≡ Lifecycle.starting
  pub cleared : s.failure ≡ none
  pub waits : s.start ≡ some (attaching k ks)

pub record IsReady (s : Engine) : Type 0 where
  pub ready : s.lifecycle ≡ Lifecycle.ready
  pub all_attached : unattached_keys s.subscriptions ≡ []
  pub no_failure : s.failure ≡ none
  pub resolves : s.start ≡ some (StartTask.settled none)

attached-IsAttaching :
    (k l : String) (ks : List String) (s : Engine)
    → IsAttaching k (l ∷ ks) s
    → IsAttaching l ks (attached s)
unfolding attached
attached-IsAttaching k l ks s h = ground (
  arith,
  unattached_keys-update k (l ∷ ks) s.subscriptions,
  update-Distinct k (set_attached true) s.subscriptions,
)

attached-IsReady : (k : String) (s : Engine) → IsAttaching k [] s → IsReady (attached s)
unfolding attached
attached-IsReady k s h = ground (
  arith,
  unattached_keys-update k [] s.subscriptions,
  update-Distinct k (set_attached true) s.subscriptions,
)

attach_times-IsReady :
    (k : String) (ks : List String) (s : Engine)
    → IsAttaching k ks s
    → IsReady (attach_times (suc (length ks)) s)
attach_times-IsReady k [] s h = attached-IsReady k s h
attach_times-IsReady k (l ∷ ks) s h =
    attach_times-IsReady l ks (attached s) (attached-IsAttaching k l ks s h)

attach_times-IsAttaching :
    (k l : String) (pre ks : List String) (s : Engine)
    → IsAttaching k (pre ++ l ∷ ks) s
    → IsAttaching l ks (attach_times (suc (length pre)) s)
attach_times-IsAttaching k l [] ks s h = attached-IsAttaching k l ks s h
attach_times-IsAttaching k l (p ∷ pre) ks s h =
    attach_times-IsAttaching p l pre ks (attached s) (attached-IsAttaching k p (pre ++ l ∷ ks) s h)

-- An engine at rest: its lifecycle admits a start, and nothing is in flight.
pub record IsIdle (s : Engine) : Type 0 where
  pub distinct : Distinct s.subscriptions
  pub startable : is_registrable s.lifecycle ≡ true
  pub no_start : s.start ≡ none
  pub complete : s.shutdown_incomplete ≡ false

start-IsAttaching :
    (k : String) (ks : List String) (s : Engine)
    → IsIdle s
    → unattached_keys s.subscriptions ≡ k ∷ ks
    → IsAttaching k ks (start_subscriptions s).1
unfolding start_subscriptions
start-IsAttaching k ks s h e = ground arith

start-IsReady :
    (s : Engine)
    → IsIdle s
    → unattached_keys s.subscriptions ≡ []
    → IsReady (start_subscriptions s).1
unfolding start_subscriptions
start-IsReady s h e = ground arith

start-IsReady_from :
    (ks : List String) (s : Engine)
    → IsIdle s
    → unattached_keys s.subscriptions ≡ ks
    → IsReady (attach_times (length ks) (start_subscriptions s).1)
start-IsReady_from [] s h e = start-IsReady s h e
start-IsReady_from (k ∷ ks) s h e =
    attach_times-IsReady k ks (start_subscriptions s).1 (start-IsAttaching k ks s h e)

-- From rest, a startup whose attachments all succeed takes one attachment for each subscription that is
-- not attached, and ends in the state `ready`, without a failure, with every subscription attached.
pub start_subscriptions-IsReady :
    (s : Engine)
    → IsIdle s
    → IsReady (attach_times (length (unattached_keys s.subscriptions)) (start_subscriptions s).1)
start_subscriptions-IsReady s h = start-IsReady_from (unattached_keys s.subscriptions) s h refl

start_at :
    (pre : List String) (k : String) (ks : List String) (s : Engine)
    → IsIdle s
    → unattached_keys s.subscriptions ≡ pre ++ k ∷ ks
    → IsAttaching k ks (attach_times (length pre) (start_subscriptions s).1)
start_at [] k ks s h e = start-IsAttaching k ks s h e
start_at (p ∷ pre) k ks s h e =
    attach_times-IsAttaching p k pre ks (start_subscriptions s).1
      (start-IsAttaching p (pre ++ k ∷ ks) s h e)

attach_failed-Restart :
    (k : String) (ks : List String) (err : Thrown) (s : Engine)
    → IsAttaching k ks s
    → let f = attach_failed err s in
      (f.lifecycle ≡ Lifecycle.failed)
      × (f.failure
          ≡ some (failure_of k s.subscriptions (message_of "Subscriber attachment failed" err)))
      × (unattached_keys f.subscriptions ≡ k ∷ ks)
      × (s.shutdown_incomplete ≡ false → IsAttaching k ks (start_subscriptions (start_settles f)).1)
unfolding attach_failed start_settles start_subscriptions
attach_failed-Restart k ks err s h = (ground arith, ground arith, ground arith, λ c. ground arith)

attached_complete : (s : Engine) → (attached s).shutdown_incomplete ≡ s.shutdown_incomplete
unfolding attached
attached_complete s = elim (Option-cases s.start) [
  | inl e ↦ ground arith
  | inr (t, e) ↦ ground arith
]

attach_times_complete :
    (n : ℕ) (s : Engine) → (attach_times n s).shutdown_incomplete ≡ s.shutdown_incomplete
attach_times_complete zero s = refl
attach_times_complete (suc n) s = attach_times_complete n (attached s) ∙ attached_complete s

start_complete :
    (s : Engine) → (start_subscriptions s).1.shutdown_incomplete ≡ s.shutdown_incomplete
unfolding start_subscriptions
start_complete s = ground arith

-- From rest, a startup whose attachments succeed for the first unattached subscriptions and then fail
-- ends in the state `failed`, with the failure that names the subscription and the message, and with those
-- before it attached and it and those after it not. The next startup takes up with the one that failed.
pub startup_failure :
    (pre : List String) (k : String) (ks : List String) (err : Thrown) (s : Engine)
    → IsIdle s
    → unattached_keys s.subscriptions ≡ pre ++ k ∷ ks
    → let t = attach_times (length pre) (start_subscriptions s).1 in
      let f = attach_failed err t in
      (f.lifecycle ≡ Lifecycle.failed)
      × (f.failure
          ≡ some (failure_of k t.subscriptions (message_of "Subscriber attachment failed" err)))
      × (unattached_keys f.subscriptions ≡ k ∷ ks)
      × IsAttaching k ks (start_subscriptions (start_settles f)).1
startup_failure pre k ks err s h e =
    let t = attach_times (length pre) (start_subscriptions s).1 in
    let r = attach_failed-Restart k ks err t (start_at pre k ks s h e) in
    (
      r.0,
      r.1,
      r.2,
      r.3 (
          attach_times_complete (length pre) (start_subscriptions s).1
          ∙ start_complete s
          ∙ h.complete),
    )
