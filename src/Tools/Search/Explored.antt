-- ===== src/Tools/Search/Explored.antt =====
-- The search ends within its fuel: each call that does not stop gives one more name its state.
use cap_nodejs.Prelude.{
  ℕ, zero, suc, ◌≤◌, ◌<◌, String, none, List, [], ◌∷◌, ◌≡◌, if◌then◌else◌, arith, inl, inr, eq_iff,
  Option-cases, is_some,
}
use cap_nodejs.JsMap.{JsMap, get, set}
use cap_nodejs.JsMap.Laws.{get-set}
use cap_nodejs.Tools.Names.{sort, count, count-sort, count-head, count-tail}
use cap_nodejs.Tools.Search.{
  entry, Mark, visiting, finished, Search, Visit, and_then, visit_each, entered, left, visit,
}

-- The names of a list that have no state
abbrev pub free : JsMap Mark → List String → ℕ
free m [] = 0
free m (n ∷ ns) = if is_some (get n m) then free m ns else suc (free m ns)

free-set :
    (k : String) (v : Mark) (m : JsMap Mark) (ns : List String) → free (set k v m) ns ≤ free m ns
free-set k v m [] = omega arith
free-set k v m (n ∷ ns) = ground (arith, get-set k n v m, free-set k v m ns)

free-set_new :
    (k : String) (v : Mark) (m : JsMap Mark) (ns : List String)
    → get k m ≡ none
    → 1 ≤ count k ns
    → free (set k v m) ns < free m ns
unfolding count
free-set_new k v m [] new h = absurd (omega arith)
free-set_new k v m (n ∷ ns) new h =
    ground
      (arith, get-set k n v m, free-set k v m ns, free-set_new k v m ns new, eq_iff n k, eq_iff k n)

module _ (names : List String) where
  -- An outcome that is not for want of fuel, and leaves no more names without a state
  abbrev pub Fine : Visit → Search → Type 0
  Fine (Visit.visited t) s = free t.state names ≤ free s.state names
  Fine (Visit.cycle path) s = Unit
  Fine Visit.exhausted s = ⊥

  and_then-Fine :
      (r : Visit) (next : Search → Visit) (s : Search)
      → Fine r s
      → ((t : Search) → free t.state names ≤ free s.state names → Fine (next t) s)
      → Fine (and_then r next) s
  and_then-Fine (Visit.visited t) next s h k = k t h
  and_then-Fine (Visit.cycle path) next s h k = tt
  and_then-Fine Visit.exhausted next s h k = h

  Fine-le :
      (r : Visit) (t s : Search) → free t.state names ≤ free s.state names → Fine r t → Fine r s
  Fine-le (Visit.visited u) t s le h = omega arith
  Fine-le (Visit.cycle path) t s le h = tt
  Fine-le Visit.exhausted t s le h = h

  module _ (visit_one : String → Search → Visit) (bound : ℕ)
      (one : (n : String) (s : Search)
        → 1 ≤ count n names
        → free s.state names < bound
        → Fine (visit_one n s) s) where
    pub visit_each-Fine :
        (ns : List String) (s : Search)
        → ((n : String) → 1 ≤ count n ns → 1 ≤ count n names)
        → free s.state names < bound
        → Fine (visit_each visit_one ns s) s
    unfolding visit_each
    visit_each-Fine [] s all h = omega arith
    visit_each-Fine (n ∷ ns) s all h =
        and_then-Fine (visit_one n s) (visit_each visit_one ns) s
          (one n s (all n (count-head n ns)) h)
          (λ t le.
            Fine-le (visit_each visit_one ns t) t s le
              (visit_each-Fine ns t (λ m c. all m (count-tail m n ns c)) (omega arith)))

module _ (dependencies : JsMap (List String)) (names : List String)
    (closed : (n m : String) → 1 ≤ count m (entry n dependencies) → 1 ≤ count m names) where
  pub visit-Fine :
      (depth : ℕ) (n : String) (s : Search)
      → 1 ≤ count n names
      → free s.state names < depth
      → Fine names (visit dependencies depth n s) s
  unfolding visit
  visit-Fine zero n s known h = absurd (omega arith)
  visit-Fine (suc depth) n s known h = elim (Option-cases (get n s.state)) [
    | inl new ↦
        let fewer = free-set_new n visiting s.state names new known in
        rw (new, Fine)
          (and_then-Fine names
            (visit_each (visit dependencies depth) (sort (entry n dependencies)) (entered n s))
            (λ t. Visit.visited (left n t)) s
            (Fine-le names
              (visit_each (visit dependencies depth) (sort (entry n dependencies)) (entered n s))
              (entered n s) s (omega arith)
              (visit_each-Fine names (visit dependencies depth) depth (visit-Fine depth)
                (sort (entry n dependencies)) (entered n s)
                (λ m c. closed n m (omega (arith, count-sort m (entry n dependencies))))
                (omega arith)))
            (λ t le. omega (arith, free-set n finished t.state names)))
    | inr (visiting, old) ↦ rw (old, Fine) tt
    | inr (finished, old) ↦ rw (old, Fine) (omega arith)
  ]
