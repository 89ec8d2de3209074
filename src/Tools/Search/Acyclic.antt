-- ===== src/Tools/Search/Acyclic.antt =====
-- A search through names that have ranks, each above those of its dependencies, meets no cycle.
use cap_nodejs.Prelude.{
  ℕ, zero, suc, ◌≤◌, ◌<◌, String, Bool, true, false, none, some, List, [], ◌∷◌, ◌≡◌, refl, arith,
  inl, inr, eq_iff, str_eq, subst, Option-cases, Bool-cases,
}
use cap_nodejs.JsMap.{JsMap, get}
use cap_nodejs.JsMap.Laws.{get-set}
use cap_nodejs.Tools.Names.{sort, count, count-sort, count-head, count-tail}
use cap_nodejs.Tools.Search.{
  entry, Mark, visiting, finished, Search, Visit, and_then, visit_each, entered, left, visit,
}

abbrev pub is_visiting : String → JsMap Mark → Bool
is_visiting n m = elim (get n m) [ none ↦ false | some visiting ↦ true | some finished ↦ false ]

-- An outcome that is no cycle, and leaves no more names being visited
abbrev pub NoCycle : Visit → Search → Type 0
NoCycle (Visit.visited t) s =
    (n : String) → is_visiting n t.state ≡ true → is_visiting n s.state ≡ true
NoCycle (Visit.cycle path) s = ⊥
NoCycle Visit.exhausted s = Unit

and_then-NoCycle :
    (r : Visit) (next : Search → Visit) (s : Search)
    → NoCycle r s
    → ((t : Search) → NoCycle (Visit.visited t) s → NoCycle (next t) s)
    → NoCycle (and_then r next) s
and_then-NoCycle (Visit.visited t) next s h k = k t h
and_then-NoCycle (Visit.cycle path) next s h k = h
and_then-NoCycle Visit.exhausted next s h k = tt

NoCycle-trans : (r : Visit) (t s : Search) → NoCycle (Visit.visited t) s → NoCycle r t → NoCycle r s
NoCycle-trans (Visit.visited u) t s h k = λ n v. h n (k n v)
NoCycle-trans (Visit.cycle path) t s h k = k
NoCycle-trans Visit.exhausted t s h k = tt

module _ (dependencies : JsMap (List String)) (rank : String → ℕ)
    (falls : (n m : String) → 1 ≤ count m (entry n dependencies) → rank m < rank n) where
  -- The names that are being visited have ranks of at least a bound.
  abbrev Above : ℕ → Search → Type 0
  Above bound s = (n : String) → is_visiting n s.state ≡ true → bound ≤ rank n

  module _ (visit_one : String → Search → Visit) (bound : ℕ)
      (one : (n : String) (s : Search)
        → rank n < bound
        → Above bound s
        → NoCycle (visit_one n s) s) where
    pub visit_each-NoCycle :
        (ns : List String) (s : Search)
        → ((n : String) → 1 ≤ count n ns → rank n < bound)
        → Above bound s
        → NoCycle (visit_each visit_one ns s) s
    unfolding visit_each
    visit_each-NoCycle [] s low above = λ n v. v
    visit_each-NoCycle (n ∷ ns) s low above =
        and_then-NoCycle (visit_one n s) (visit_each visit_one ns) s
          (one n s (low n (count-head n ns)) above)
          (λ t kept. NoCycle-trans (visit_each visit_one ns t) t s kept (
            visit_each-NoCycle ns t (λ m c. low m (count-tail m n ns c))
              (λ m v. above m (kept m v))))

  enter-NoCycle :
      (n : String) (s : Search) (r : Visit)
      → NoCycle r (entered n s)
      → NoCycle (and_then r (λ t. Visit.visited (left n t))) s
  enter-NoCycle n s (Visit.visited t) kept = λ m v. elim (Bool-cases (str_eq n m)) [
    | inl same ↦ absurd (ground (arith, get-set n m finished t.state, same, v))
    | inr other ↦
        ground (arith, other, v, kept m, get-set n m finished t.state, get-set n m visiting s.state)
  ]
  enter-NoCycle n s (Visit.cycle path) h = h
  enter-NoCycle n s Visit.exhausted h = tt

  entered-Above :
      (n m : String) (s : Search) (bound : ℕ)
      → rank n < bound
      → Above bound s
      → is_visiting m (entered n s).state ≡ true
      → rank n ≤ rank m
  entered-Above n m s bound low above v = elim (Bool-cases (str_eq n m)) [
    | inl same ↦ subst (λ k. rank n ≤ rank k) ((eq_iff n m).0 same) (omega arith)
    | inr other ↦
        omega (arith, above m (ground (arith, get-set n m visiting s.state, other, v)), low)
  ]

  pub visit-NoCycle :
      (depth : ℕ) (n : String) (s : Search) (bound : ℕ)
      → rank n < bound
      → Above bound s
      → NoCycle (visit dependencies depth n s) s
  unfolding visit
  visit-NoCycle zero n s bound low above = tt
  visit-NoCycle (suc depth) n s bound low above = elim (Option-cases (get n s.state)) [
    | inl new ↦
        rw (new, NoCycle)
          (enter-NoCycle n s
            (visit_each (visit dependencies depth) (sort (entry n dependencies)) (entered n s))
            (visit_each-NoCycle (visit dependencies depth) (rank n)
              (λ m t low_m above_m. visit-NoCycle depth m t (rank n) low_m above_m)
              (sort (entry n dependencies)) (entered n s)
              (λ m c. falls n m (omega (arith, count-sort m (entry n dependencies))))
              (λ m v. entered-Above n m s bound low above v)))
    | inr (visiting, old) ↦ absurd (omega (arith, above n (rw (old, is_visiting) refl)))
    | inr (finished, old) ↦ rw (old, NoCycle) (λ m v. v)
  ]
