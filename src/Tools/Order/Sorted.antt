-- ===== src/Tools/Order/Sorted.antt =====
-- `sortWorkspacePackages` of a graph whose names have an order: it returns all the packages, each once and after its
-- dependencies.
use cap_nodejs.Prelude.{
  ℕ, zero, suc, ◌+◌, ◌≤◌, String, Bool, none, some, List, [], ◌∷◌, ◌++◌, ◌≡◌, refl, inl, inr, arith,
  length, length-map, map, keep, if◌then◌else◌, length-append, str_eq, eq_iff, sym, Bool-cases,
  subst,
}
use cap_nodejs.JsMap.{JsMap, get, set}
use cap_nodejs.JsMap.Laws.{get-set}
use cap_nodejs.Tools.Names.{
  sort, contains, count, count-sort, count-append, contains-count, count-cons_cases, count_other,
  length-le_of_count, Distinct,
}
use cap_nodejs.Tools.Search.{entry}
use cap_nodejs.Tools.Search.Finished.{Ordered}
use cap_nodejs.Tools.Graph.{Package, Host, Links, Graph, ok, build_workspace_graph}
use cap_nodejs.Tools.Graph.Built.{build_workspace_graph-ok}
use cap_nodejs.Tools.Graph.Linked.{IsGraph, names_of}
use cap_nodejs.Tools.Order.{
  indegrees, is_free, round, order, all_ordered, order_packages, sort_workspace_packages,
}
use cap_nodejs.Tools.Order.Counts.{waiting, waiting-all}
use cap_nodejs.Tools.Order.Loop.{Follows, IsOrdering, next-IsOrdering, zero-cases}

waiting-nil : (ds : List String) → waiting [] ds ≡ length ds
unfolding waiting contains
waiting-nil [] = refl
waiting-nil (d ∷ ds) = rw (waiting-nil ds) refl

get-indegrees :
    (l : Links) (pkgs : List Package) (n : String) (m : JsMap ℕ)
    → get n (indegrees l pkgs m)
      ≡ (if contains n (names_of pkgs) then some (length (entry n l.dependencies)) else get n m)
unfolding indegrees contains
get-indegrees l [] n m = refl
get-indegrees l (pkg ∷ pkgs) n m = ground (
  arith,
  get-indegrees l pkgs n (set pkg.name (length (entry pkg.name l.dependencies)) m),
  get-set pkg.name n (length (entry pkg.name l.dependencies)) m,
  eq_iff pkg.name n,
)

count-keep :
    (p : String → Bool) (n : String) (pkgs : List Package)
    → count n (names_of (keep (λ pkg. p pkg.name) pkgs))
      ≡ (if p n then count n (names_of pkgs) else 0)
unfolding count
count-keep p n [] = ground arith
count-keep p n (pkg ∷ pkgs) = ground (arith, eq_iff pkg.name n, count-keep p n pkgs)

module _ (names : List String) (l : Links) (g : IsGraph names l) where
  order_lem :
      (fuel : ℕ) (indegree : JsMap ℕ) (ready ordered : List String)
      → IsOrdering names l g (record { indegree = indegree; ready = ready }) ordered
      → length names ≤ fuel + length ordered
      → (final : List String) × (last : JsMap ℕ) × (order l fuel indegree ready ordered
          ≡ some final)
        × IsOrdering names l g (record { indegree = last; ready = [] }) final
  unfolding order
  order_lem zero indegree [] ordered inv h = (ordered, indegree, refl, inv)
  order_lem (suc fuel) indegree [] ordered inv h = (ordered, indegree, refl, inv)
  order_lem zero indegree (name ∷ rest) ordered inv h = absurd (
      omega (
        arith,
        length-le_of_count (ordered ++ name ∷ rest) names
            (λ n. omega (arith, count-append n ordered (name ∷ rest), inv.within n)),
        length-append ordered (name ∷ rest),
      ))
  order_lem (suc fuel) indegree (name ∷ rest) ordered inv h =
      let w = round l name rest indegree in
      order_lem fuel w.indegree w.ready (ordered ++ name ∷ [])
        (next-IsOrdering names l g indegree name rest ordered inv)
        (omega (arith, length-append ordered (name ∷ [])))

  -- All names of an order are placed at the end.
  all_placed :
      (last : JsMap ℕ) (final : List String)
      → IsOrdering names l g (record { indegree = last; ready = [] }) final
      → (os : List String) → Ordered l.dependencies os
      → (n : String) → 1 ≤ count n os
      → 1 ≤ count n names
      → 1 ≤ count n final
  all_placed last final inv [] o n c known = absurd (unfold count in omega arith)
  all_placed last final inv (k ∷ os) o n c known = elim (count-cons_cases n k os c) [
    | inr later ↦ all_placed last final inv os o.1 n later known
    | inl first ↦ elim (Bool-cases (str_eq k n)) [
      | inr other ↦ absurd (omega (arith, count_other n k other, first))
      | inl same ↦
          let h = inv.placed n known (
            waiting-all final (entry n l.dependencies) (λ m d.
              all_placed last final inv os o.1 m
                (o.0 m
                  (subst (λ j. 1 ≤ count m (entry j l.dependencies)) (sym ((eq_iff k n).0 same)) d))
                ((g.known n m d).1))) in
          let empty : count n [] ≡ 0 = unfold count in refl in omega arith
    ]
  ]

module _ (packages : List Package) (graph : Graph)
    (g : IsGraph (names_of packages) graph.links) where
  abbrev first_indegree : JsMap ℕ
  first_indegree = indegrees graph.links packages []

  abbrev first_ready : List String
  first_ready = sort (names_of (keep (λ pkg. is_free first_indegree pkg.name) packages))

  abbrev needs : String → List String
  needs n = entry n graph.links.dependencies

  first_known :
      (n : String)
      → 1 ≤ count n (names_of packages)
      → get n first_indegree ≡ some (waiting [] (needs n))
  first_known n c = ground (
    arith,
    get-indegrees graph.links packages n [],
    contains-count n (names_of packages),
    waiting-nil (needs n),
  )

  first_unknown : (n : String) → count n (names_of packages) ≡ 0 → get n first_indegree ≡ none
  first_unknown n c =
      ground (arith, get-indegrees graph.links packages n [], contains-count n (names_of packages))

  first_ready_count :
      (n : String)
      → count n first_ready ≡ (if is_free first_indegree n then count n (names_of packages) else 0)
  first_ready_count n = rw count-sort (count-keep (is_free first_indegree) n packages)

  start-IsOrdering :
      IsOrdering
        (names_of packages)
        graph.links
        g
        (record { indegree = first_indegree; ready = first_ready })
        []
  unfolding count
  start-IsOrdering = record {
    within = λ n. ground (arith, first_ready_count n);
    counts = first_known;
    unknown = first_unknown;
    placed = λ n c z. ground (arith, first_ready_count n, first_known n c);
    free = λ n c. ground (arith, first_ready_count n, first_known n);
    follows = tt;
  }

  same_count :
      (n : String) (final : List String) (last : JsMap ℕ)
      → IsOrdering (names_of packages) graph.links g (record { indegree = last; ready = [] }) final
      → (1 ≤ count n (names_of packages) → 1 ≤ count n final)
      → count n final ≡ count n (names_of packages)
  same_count n final last inv placed = elim (zero-cases (count n (names_of packages))) [
    | inl absent ↦ omega (arith, inv.within n, absent)
    | inr there ↦ omega (arith, inv.within n, g.distinct n, placed there)
  ]

  -- If the names stand in some order in which each comes after its dependencies, the packages are returned in such
  -- an order, each once.
  pub order_packages_lem :
      (os : List String)
      → Ordered graph.links.dependencies os
      → ((n : String) → 1 ≤ count n (names_of packages) → 1 ≤ count n os)
      → (final : List String) × (order_packages packages graph
          ≡ ok (map (λ name. get name graph.by_name) final))
        × Follows graph.links.dependencies [] final
        × ((n : String) → count n final ≡ count n (names_of packages))
  unfolding order_packages all_ordered
  order_packages_lem os o all =
      let (final, last, returns, inv) =
        order_lem (names_of packages) graph.links g (length packages) first_indegree first_ready []
          start-IsOrdering (omega (arith, length-map (λ (pkg : Package). pkg.name) packages)) in
      let same : (n : String) → count n final ≡ count n (names_of packages) = (λ n.
        same_count n final last inv
          (λ c. all_placed (names_of packages) graph.links g last final inv os o n (all n c) c)) in
      let lengths : length final ≡ length packages = omega (
        arith,
        length-le_of_count final (names_of packages) (λ n. omega (arith, same n)),
        length-le_of_count (names_of packages) final (λ n. omega (arith, same n)),
        length-map (λ (pkg : Package). pkg.name) packages,
      ) in
      (final, rw returns (ground (arith, lengths)), inv.follows, same)

module _ (host : Host) (validate_ranges : Bool) (packages : List Package)
    (distinct : Distinct (names_of packages)) where
  -- Of packages with distinct names whose graph is built, the sort never fails: it returns each package once, in an
  -- order in which each comes after its dependencies.
  pub sort_workspace_packages_lem :
      (linked : List Package) (graph : Graph)
      → build_workspace_graph host validate_ranges packages ≡ ok (linked, graph)
      → (final : List String) × (sort_workspace_packages host validate_ranges packages
          ≡ ok (map (λ name. get name graph.by_name) final))
        × Follows graph.links.dependencies [] final
        × ((n : String) → count n final ≡ count n (names_of packages))
  unfolding sort_workspace_packages
  sort_workspace_packages_lem linked graph e =
      let (g, same, (os, ordered, all)) =
        build_workspace_graph-ok packages distinct host validate_ranges linked graph e in
      let (final, returns, follows, counts) =
        order_packages_lem linked graph (subst (λ ns. IsGraph ns graph.links) (sym same) g) os
          ordered (λ n c. all n (subst (λ ns. 1 ≤ count n ns) same c)) in
      (final, rw e returns, follows, λ n. subst (λ ns. count n final ≡ count n ns) same (counts n))
