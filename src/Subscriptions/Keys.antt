-- ===== src/Subscriptions/Keys.antt =====
-- The registry of subscriptions: who gets in, and which pairs of topic and group share a key.
use Prim.Native.Char.{Char, code}
use text.Mathlib.TextLemmas.{
  append_assoc, append_cancel_left, append-nil, append-eq-nil_iff, cons≢nil, cons-append,
  nil-append, cons-eq-cons,
}
use cap_nodejs.Prelude.{
  String, Bool, subst, true, false, Option, none, some, List, [], ◌∷◌, ◌≡◌, refl, ◌≢◌, ◌⊎◌, inl,
  inr, sym, ap, ◌∙◌, arith, Bool-cases, Option-cases, str_eq, eq_iff, if◌then◌else◌, join, ◌==◌,
}
use mathlib.Core.Option
use cap_nodejs.JsMap.{get, has}
use cap_nodejs.JsMap.Laws.{get-set, get-update, get-update_all}
use cap_nodejs.Subscriptions.{
  Engine, Subscription, refused, resolved, invalid_topic, duplicate, not_registrable,
  is_registrable, subscription_key, unattached_entry, register_subscription, subscribe,
  set_attached, attached, subscribed, StartTask, attaching, closed,
}
use cap_nodejs.Subscriptions.Events.{Event, step, run}

-- A registration is let in exactly if the topic is not empty, the lifecycle is none of `starting`,
-- `stopping` and `ready`, and the key is new; then the pair stands in the registry, not attached, and
-- every other entry is as it was. Otherwise the engine is as it was.
pub register_subscription_lem :
    (topic group j : String) (s : Engine)
    → let (reply, s') = register_subscription topic group s in
      let key = subscription_key topic group in
      ((reply ≡ resolved)
        × (topic ≢ "")
        × (is_registrable s.lifecycle ≡ true)
        × (get key s.subscriptions ≡ none)
        × (get j s'.subscriptions ≡ (
            if str_eq key j then some (unattached_entry topic group) else get j s.subscriptions)))
      ⊎ ((s' ≡ s)
          × (((reply ≡ refused invalid_topic) × (topic ≡ ""))
              ⊎ ((reply ≡ refused not_registrable) × (is_registrable s.lifecycle ≡ false))
              ⊎ ((reply ≡ refused duplicate) × (has key s.subscriptions ≡ true))))
unfolding register_subscription
register_subscription_lem topic group j s = elim (Bool-cases (str_eq topic "")) [
  | inl blank ↦ inr (ground arith, inl (ground arith, (eq_iff topic "").0 blank))
  | inr named ↦ elim (Bool-cases (is_registrable s.lifecycle)) [
    | inr closed ↦ inr (ground arith, inr (inl (ground arith, closed)))
    | inl free ↦ elim (Bool-cases (has (subscription_key topic group) s.subscriptions)) [
      | inl known ↦ inr (ground arith, inr (inr (ground arith, known)))
      | inr fresh ↦ inl (
        ground arith,
        ground (arith, eq_iff topic ""),
        free,
        ground arith,
        ground (
          arith,
          get-set (subscription_key topic group) j (unattached_entry topic group) s.subscriptions,
        ),
      )
    ]
  ]
]

-- The pair that is registered under a key.
abbrev pub pair_at : String → Engine → Option (String × String)
pair_at k s = Option.map (λ (sub : Subscription). (sub.topic, sub.group)) (get k s.subscriptions)

pair_at-register :
    (k topic group : String) (p : String × String) (s : Engine)
    → pair_at k s ≡ some p
    → pair_at k (register_subscription topic group s).1 ≡ some p
unfolding register_subscription
pair_at-register k topic group p s h =
    let key = subscription_key topic group in
    ground (arith, get-set key k (unattached_entry topic group) s.subscriptions, eq_iff key k)

pair_at-subscribe :
    (k topic group : String) (p : String × String) (s : Engine)
    → pair_at k s ≡ some p
    → pair_at k (subscribe topic group s).1 ≡ some p
unfolding subscribe
pair_at-subscribe k topic group p s h =
    let key = subscription_key topic group in
    ground (arith, get-set key k (unattached_entry topic group) s.subscriptions, eq_iff key k)

pair_at-attached :
    (k : String) (p : String × String) (s : Engine)
    → pair_at k s ≡ some p
    → pair_at k (attached s) ≡ some p
unfolding attached
pair_at-attached k p s h = elim (Option-cases s.start) [
  | inl e ↦ ground arith
  | inr (StartTask.settled r, e) ↦ ground arith
  | inr (attaching j [], e) ↦ ground (arith, get-update j k (set_attached true) s.subscriptions)
  | inr (attaching j (l ∷ ks), e) ↦
      ground (arith, get-update j k (set_attached true) s.subscriptions)
]

pair_at-subscribed :
    (k j : String) (p : String × String) (s : Engine)
    → pair_at k s ≡ some p
    → pair_at k (subscribed j s) ≡ some p
unfolding subscribed
pair_at-subscribed k j p s h = ground (arith, get-update j k (set_attached true) s.subscriptions)

step_keeps_pair :
    (has_close : Bool) (e : Event) (k : String) (p : String × String) (s : Engine)
    → pair_at k s ≡ some p
    → pair_at k (step has_close e s) ≡ some p
unfolding step
step_keeps_pair has_close (Event.registers topic group) k p s h =
    pair_at-register k topic group p s h
step_keeps_pair has_close (Event.subscribes topic group) k p s h =
    pair_at-subscribe k topic group p s h
step_keeps_pair has_close Event.attach_done k p s h = pair_at-attached k p s h
step_keeps_pair has_close (Event.subscribe_done j) k p s h = pair_at-subscribed k j p s h
step_keeps_pair has_close _ k p s h =
    ground (arith, get-update_all k (set_attached false) s.subscriptions)

-- A pair of topic and group that is registered under a key stays registered under it through all later
-- events: no call takes it out, and none puts another pair in its place.
pub run_keeps_pair :
    (has_close : Bool) (es : List Event) (k : String) (p : String × String) (s : Engine)
    → pair_at k s ≡ some p
    → pair_at k (run has_close es s) ≡ some p
unfolding run
run_keeps_pair has_close [] k p s h = h
run_keeps_pair has_close (e ∷ es) k p s h =
    run_keeps_pair has_close es k p (step has_close e s) (step_keeps_pair has_close e k p s h)

-- Whether a text has no `|`.
abbrev pub has_no_pipe : String → Bool
has_no_pipe String.[] = true
has_no_pipe (String.◌∷◌ c s) = if code c == b'|' then false else has_no_pipe s

abbrev bar : Char
bar = "|"

join-bar : (g : String) → join "|" g ≡ String.◌∷◌ bar g
join-bar g = cons-append bar String.[] g ∙ ap (String.◌∷◌ bar) (nil-append g)

join-nil : (g : String) → join String.[] (join "|" g) ≡ String.◌∷◌ bar g
join-nil g = nil-append (join "|" g) ∙ join-bar g

not_bar : (c : Char) (u : String) → has_no_pipe (String.◌∷◌ c u) ≡ true → bar ≡ c → ⊥
not_bar c u q e = let r = subst (λ d. has_no_pipe (String.◌∷◌ d u) ≡ true) (sym e) q in cc r

split_key :
    (t u g h : String)
    → has_no_pipe t ≡ true
    → has_no_pipe u ≡ true
    → join t (join "|" g) ≡ join u (join "|" h)
    → (t ≡ u) × (g ≡ h)
split_key String.[] String.[] g h p q e =
    (refl, (cons-eq-cons.0 (sym (join-nil g) ∙ e ∙ join-nil h)).1)
split_key String.[] (String.◌∷◌ c u) g h p q e =
    absurd (not_bar c u q (cons-eq-cons.0 (sym (join-nil g) ∙ e ∙ cons-append c u (join "|" h))).0)
split_key (String.◌∷◌ c t) String.[] g h p q e =
    absurd
      (not_bar c t p (cons-eq-cons.0 (sym (join-nil h) ∙ sym e ∙ cons-append c t (join "|" g))).0)
split_key (String.◌∷◌ c t) (String.◌∷◌ d u) g h p q e =
    let (same, rest) =
      cons-eq-cons.0 (sym (cons-append c t (join "|" g)) ∙ e ∙ cons-append d u (join "|" h)) in
    let (ends, groups) = split_key t u g h (ground arith) (ground arith) rest in
    (cc (same, ends), groups)

-- Topics without a `|` have the key to themselves: two pairs with such topics share a key only if they are
-- the same pair.
pub subscription_key-injective :
    (t u g h : String)
    → has_no_pipe t ≡ true
    → has_no_pipe u ≡ true
    → subscription_key t g ≡ subscription_key u h
    → (t ≡ u) × (g ≡ h)
unfolding subscription_key
subscription_key-injective t u g h p q e = split_key t u g h p q e

key_collides :
    (topic a b : String)
    → subscription_key topic (join a (join "|" b)) ≡ subscription_key (join topic (join "|" a)) b
unfolding subscription_key
key_collides topic a b =
    ap (join topic) (sym (append_assoc "|" a (join "|" b)))
    ∙ sym (append_assoc topic (join "|" a) (join "|" b))

longer : (s t : String) → t ≢ "" → s ≢ join s t
longer s t h e = h (sym (append_cancel_left s String.[] t (append-nil s ∙ e)))

register_again :
    (t g u h : String) (s : Engine)
    → (register_subscription t g s).0 ≡ resolved
    → u ≢ ""
    → subscription_key t g ≡ subscription_key u h
    → let s' = (register_subscription t g s).1 in
      register_subscription u h s' ≡ (refused duplicate, s')
unfolding register_subscription
register_again t g u h s first named same = ground (
  arith,
  eq_iff u "",
  get-set (subscription_key t g) (subscription_key u h) (unattached_entry t g) s.subscriptions,
  eq_iff (subscription_key t g) (subscription_key u h),
)

-- A `|` in a topic or a group makes pairs collide: wherever the subscription of `topic` by the group
-- `a|b` is let in, the one of `topic|a` by `b` is then refused as a duplicate, though it is another pair.
pub subscription_key-collision :
    (topic a b : String) (s : Engine)
    → (register_subscription topic (join a (join "|" b)) s).0 ≡ resolved
    → let s' = (register_subscription topic (join a (join "|" b)) s).1 in
      (register_subscription (join topic (join "|" a)) b s' ≡ (refused duplicate, s'))
      × (topic ≢ join topic (join "|" a))
subscription_key-collision topic a b s first =
    let long : topic ≢ join topic (join "|" a) =
      λ e. longer topic (join "|" a) (λ n. cons≢nil (sym (join-bar a) ∙ n)) e in
    (
      register_again topic (join a (join "|" b)) (join topic (join "|" a)) b s first
          (λ e. cons≢nil (sym (join-bar a) ∙ (append-eq-nil_iff.0 e).1)) (key_collides topic a b),
      long,
    )
