-- ===== src/Tools/Search/Finished.antt =====
-- What a search that met no cycle has found: an order of the names in which each comes after its dependencies.
use cap_nodejs.Prelude.{
  ℕ, zero, suc, ◌≤◌, String, Bool, true, false, none, some, List, [], ◌∷◌, ◌≡◌, str_eq, arith, inl,
  inr, eq_iff, refl, subst, Option-cases, Bool-cases,
}
use cap_nodejs.JsMap.{JsMap, get}
use cap_nodejs.JsMap.Laws.{get-set}
use cap_nodejs.Tools.Names.{
  sort, count, count-sort, count-head, count-tail, count-cons_cases, count_other,
}
use cap_nodejs.Tools.Search.{
  entry, Mark, visiting, finished, Search, Visit, and_then, visit_each, entered, left, visit,
}

-- Each name comes after its dependencies; the last name first
abbrev pub Ordered : JsMap (List String) → List String → Type 0
Ordered dependencies [] = Unit
Ordered dependencies (n ∷ ns) =
    ((m : String) → 1 ≤ count m (entry n dependencies) → 1 ≤ count m ns) × Ordered dependencies ns

abbrev pub is_finished : String → JsMap Mark → Bool
is_finished n m = elim (get n m) [ none ↦ false | some visiting ↦ false | some finished ↦ true ]

-- The finished names of a search are among those of a list.
abbrev pub Lists : Search → List String → Type 0
Lists s order = (n : String) → is_finished n s.state ≡ true → 1 ≤ count n order

abbrev pub Within : List String → List String → Type 0
Within ns order = (n : String) → 1 ≤ count n ns → 1 ≤ count n order

module _ (dependencies : JsMap (List String)) where
  -- If it did not stop, a search has extended an order by some names.
  abbrev pub Extends : List String → List String → Visit → Type 0
  Extends ns order (Visit.visited t) =
      (longer : List String) × Lists t longer
      × Ordered dependencies longer
      × Within order longer
      × Within ns longer
  Extends ns order (Visit.cycle path) = Unit
  Extends ns order Visit.exhausted = Unit

  Extends-widen :
      (n : String) (ns order longer : List String) (r : Visit)
      → Within order longer
      → Within (n ∷ []) longer
      → Extends ns longer r
      → Extends (n ∷ ns) order r
  Extends-widen n ns order longer (Visit.visited t) grows has_n (longest, l, o, more, all) = (
    longest,
    l,
    o,
    λ m c. more m (grows m c),
    λ m c. elim (count-cons_cases m n ns c) [
      | inl first ↦ more m (has_n m first)
      | inr later ↦ all m later
    ],
  )
  Extends-widen n ns order longer (Visit.cycle path) grows has_n e = tt
  Extends-widen n ns order longer Visit.exhausted grows has_n e = tt

  and_then-Extends :
      (n : String) (ns order : List String) (r : Visit) (next : Search → Visit)
      → Extends (n ∷ []) order r
      → ((t : Search) (longer : List String)
          → Lists t longer
          → Ordered dependencies longer
          → Extends ns longer (next t))
      → Extends (n ∷ ns) order (and_then r next)
  and_then-Extends n ns order (Visit.visited t) next (longer, l, o, grows, has_n) k =
      Extends-widen n ns order longer (next t) grows has_n (k t longer l o)
  and_then-Extends n ns order (Visit.cycle path) next e k = tt
  and_then-Extends n ns order Visit.exhausted next e k = tt

  module _ (visit_one : String → Search → Visit)
      (one : (n : String) (s : Search) (order : List String)
        → Lists s order
        → Ordered dependencies order
        → Extends (n ∷ []) order (visit_one n s)) where
    pub visit_each-Extends :
        (ns : List String) (s : Search) (order : List String)
        → Lists s order
        → Ordered dependencies order
        → Extends ns order (visit_each visit_one ns s)
    unfolding visit_each
    visit_each-Extends [] s order listed ordered =
        (order, listed, ordered, λ n c. c, λ n c. absurd (unfold count in omega arith))
    visit_each-Extends (n ∷ ns) s order listed ordered =
        and_then-Extends n ns order (visit_one n s) (visit_each visit_one ns)
          (one n s order listed ordered) (visit_each-Extends ns)

  left-Extends :
      (n : String) (order : List String) (r : Visit)
      → Extends (sort (entry n dependencies)) order r
      → Extends (n ∷ []) order (and_then r (λ t. Visit.visited (left n t)))
  left-Extends n order (Visit.visited t) (longer, l, o, grows, all) = (
    n ∷ longer,
    λ m f. elim (Bool-cases (str_eq n m)) [
      | inl same ↦ subst (λ k. 1 ≤ count k (n ∷ longer)) ((eq_iff n m).0 same) (count-head n longer)
      | inr other ↦
          count-tail m n longer (l m (ground (arith, get-set n m finished t.state, other, f)))
    ],
    (λ m c. all m (omega (arith, count-sort m (entry n dependencies))), o),
    λ m c. count-tail m n longer (grows m c),
    λ m c. unfold count in ground (arith, c),
  )
  left-Extends n order (Visit.cycle path) e = tt
  left-Extends n order Visit.exhausted e = tt

  pub visit-Extends :
      (depth : ℕ) (n : String) (s : Search) (order : List String)
      → Lists s order
      → Ordered dependencies order
      → Extends (n ∷ []) order (visit dependencies depth n s)
  unfolding visit
  visit-Extends zero n s order listed ordered = tt
  visit-Extends (suc depth) n s order listed ordered = elim (Option-cases (get n s.state)) [
    | inl new ↦
        rw (new, Extends)
          (left-Extends n order
            (visit_each (visit dependencies depth) (sort (entry n dependencies)) (entered n s))
            (visit_each-Extends (visit dependencies depth) (visit-Extends depth)
              (sort (entry n dependencies)) (entered n s) order
              (λ m f. listed m (ground (arith, get-set n m visiting s.state, f))) ordered))
    | inr (visiting, old) ↦ rw (old, Extends) tt
    | inr (finished, old) ↦
        rw (old, Extends)
          (
            order,
            listed,
            ordered,
            λ m c. c,
            λ m c. elim (Bool-cases (str_eq n m)) [
              | inl same ↦
                  subst (λ k. 1 ≤ count k order) ((eq_iff n m).0 same)
                    (listed n (rw (old, is_finished) refl))
              | inr other ↦ absurd (omega (arith, count_other m n other))
            ],
          )
  ]
