-- ===== src/Tools/Graph/Built.antt =====
-- When `buildWorkspaceGraph` succeeds, and what it returns.
use cap_nodejs.Prelude.{
  ℕ, suc, ◌≤◌, ◌<◌, String, true, Bool, some, List, [], ◌∷◌, ◌≡◌, refl, arith, ap, ◌↔◌,
  if◌then◌else◌, subst, length, is_some,
}
use cap_nodejs.JsMap.{JsMap, get, set}
use cap_nodejs.JsMap.Laws.{get-set}
use cap_nodejs.Tools.Names.{sort, contains, count, count-sort, contains-count, Distinct}
use cap_nodejs.Tools.Search.{entry, Visit, visit, visit_each, unvisited}
use cap_nodejs.Tools.Search.Explored.{Fine, visit-Fine, visit_each-Fine}
use cap_nodejs.Tools.Search.Finished.{Ordered, Extends, visit-Extends, visit_each-Extends}
use cap_nodejs.Tools.Search.Acyclic.{NoCycle, visit-NoCycle, visit_each-NoCycle}
use cap_nodejs.Tools.Graph.Ranks.{
  keys, count-keys, free-le, highest, highest-above, rank_in, rank_in-falls,
}
use cap_nodejs.Tools.Graph.{
  Package, Host, Links, Graph, Checked, ok, ◌>>=◌, link_packages, index_packages, no_links, verdict,
  check_cycles, build_workspace_graph,
}
use cap_nodejs.Tools.Graph.Linked.{
  names_of, IsGraph, IsLinking, >>=-eq-ok, ok-injective, link_packages-IsLinking,
}

get-index_packages :
    (n : String) (pkgs : List Package) (m : JsMap Package)
    → is_some (get n (index_packages pkgs m))
      ≡ (if contains n (names_of pkgs) then true else is_some (get n m))
unfolding index_packages contains
get-index_packages n [] m = refl
get-index_packages n (pkg ∷ pkgs) m =
    ground (arith, get-index_packages n pkgs (set pkg.name pkg m), get-set pkg.name n pkg m)

get-no_links :
    (n : String) (pkgs : List Package) (m : JsMap (List String))
    → get n (no_links pkgs m) ≡ (if contains n (names_of pkgs) then some [] else get n m)
unfolding no_links contains
get-no_links n [] m = refl
get-no_links n (pkg ∷ pkgs) m =
    ground (arith, get-no_links n pkgs (set pkg.name [] m), get-set pkg.name n [] m)

abbrev pub built : List Package → Links → Graph
built linked l = record { by_name = index_packages linked []; links = l }

abbrev pub blank : List Package → Links
blank packages = record { dependencies = no_links packages []; dependents = no_links packages [] }

module _ (packages : List Package) (distinct : Distinct (names_of packages)) where
  abbrev by_name : JsMap Package
  by_name = index_packages packages []

  -- The keys of the map are the names.
  key-name : (n : String) → 1 ≤ count n (keys by_name) → 1 ≤ count n (names_of packages)
  key-name n c = ground (
    arith,
    count-keys n by_name,
    get-index_packages n packages [],
    contains-count n (names_of packages),
  )

  name-key : (n : String) → 1 ≤ count n (names_of packages) → 1 ≤ count n (keys by_name)
  name-key n c = ground (
    arith,
    count-keys n by_name,
    get-index_packages n packages [],
    contains-count n (names_of packages),
  )

  indexed : (n : String) → is_some (get n by_name) ≡ true → 1 ≤ count n (names_of packages)
  indexed n h =
      ground (arith, get-index_packages n packages [], contains-count n (names_of packages), h)

  blank_entry : (n : String) → entry n (no_links packages []) ≡ []
  blank_entry n = ground (arith, get-no_links n packages [])

  blank-IsLinking : IsLinking (names_of packages) (blank packages)
  unfolding count
  blank-IsLinking = record {
    graph = record {
      distinct = distinct;
      mutual_links = λ n m. rw (blank_entry n, blank_entry m) refl;
      distinct_links = λ n m. rw (blank_entry n) (omega arith);
      known = λ n m c. absurd (omega (arith, rw (blank_entry n) at c));
    };
    has_dependencies =
        λ n c. ground (arith, get-no_links n packages [], contains-count n (names_of packages), c);
    has_dependents =
        λ n c. ground (arith, get-no_links n packages [], contains-count n (names_of packages), c);
  }

  module _ (l : Links) (g : IsGraph (names_of packages) l) where
    abbrev search : Visit
    search =
        visit_each (visit l.dependencies (suc (length (keys by_name)))) (sort (keys by_name))
          unvisited

    search-Fine : Fine (keys by_name) search unvisited
    search-Fine =
        visit_each-Fine (keys by_name) (visit l.dependencies (suc (length (keys by_name))))
          (suc (length (keys by_name)))
          (visit-Fine l.dependencies (keys by_name) (λ n m c. name-key m ((g.known n m c).1))
            (suc (length (keys by_name))))
          (sort (keys by_name)) unvisited (λ n c. omega (arith, count-sort n (keys by_name)))
          (omega (arith, free-le (keys by_name)))

    search-Extends : Extends l.dependencies (sort (keys by_name)) [] search
    search-Extends =
        visit_each-Extends l.dependencies (visit l.dependencies (suc (length (keys by_name))))
          (visit-Extends l.dependencies (suc (length (keys by_name)))) (sort (keys by_name))
          unvisited [] (λ n f. absurd (cc f)) tt

    -- An order that an accepted search has found holds all the names.
    check_cycles_sound :
        check_cycles (keys by_name) l ≡ ok tt
        → (os : List String) × Ordered l.dependencies os
          × ((n : String) → 1 ≤ count n (names_of packages) → 1 ≤ count n os)
    unfolding check_cycles
    check_cycles_sound e = found search search-Extends e
      where
        found :
            (r : Visit)
            → Extends l.dependencies (sort (keys by_name)) [] r
            → verdict r ≡ ok tt
            → (os : List String) × Ordered l.dependencies os
              × ((n : String) → 1 ≤ count n (names_of packages) → 1 ≤ count n os)
        found (Visit.visited t) (os, listed, ordered, more, all) e =
            (os, ordered, λ n c. all n (omega (arith, count-sort n (keys by_name), name-key n c)))
        found (Visit.cycle path) x e = absurd (cc e)
        found Visit.exhausted x e = absurd (cc e)

    check_cycles-accepts :
        (rank : String → ℕ)
        → ((n m : String) → 1 ≤ count m (entry n l.dependencies) → rank m < rank n)
        → check_cycles (keys by_name) l ≡ ok tt
    unfolding check_cycles
    check_cycles-accepts rank falls = fine search search-Fine (
        visit_each-NoCycle l.dependencies rank falls
          (visit l.dependencies (suc (length (keys by_name))))
          (suc (highest rank (sort (keys by_name))))
          (λ n s low above.
            visit-NoCycle l.dependencies rank falls (suc (length (keys by_name))) n s
              (suc (highest rank (sort (keys by_name)))) low above)
          (sort (keys by_name)) unvisited (λ n c. highest-above rank n (sort (keys by_name)) c)
          (λ n v. absurd (cc v)))
      where
        fine :
            (r : Visit) → Fine (keys by_name) r unvisited → NoCycle r unvisited → verdict r ≡ ok tt
        fine (Visit.visited t) f n = refl
        fine (Visit.cycle path) f n = absurd n
        fine Visit.exhausted f n = absurd f

  module _ (host : Host) (validate_ranges : Bool) where
    abbrev linking : Checked (List Package × Links)
    linking = link_packages host validate_ranges by_name packages (blank packages)

    linking-IsGraph :
        (linked : List Package) (l : Links)
        → linking ≡ ok (linked, l)
        → IsGraph (names_of packages) l × (names_of linked ≡ names_of packages)
    linking-IsGraph linked l e =
        let (kept, same) =
          link_packages-IsLinking host validate_ranges (names_of packages) by_name indexed packages
            linked (blank packages) l (λ n c. c) blank-IsLinking e in
        (kept.graph, same)

    -- What a success returns, and an order of the names
    pub build_workspace_graph-ok :
        (linked : List Package) (graph : Graph)
        → build_workspace_graph host validate_ranges packages ≡ ok (linked, graph)
        → IsGraph (names_of packages) graph.links
          × (names_of linked ≡ names_of packages)
          × ((os : List String) × Ordered graph.links.dependencies os
              × ((n : String) → 1 ≤ count n (names_of packages) → 1 ≤ count n os))
    unfolding build_workspace_graph
    build_workspace_graph-ok linked graph e =
        let ((linked', l), linking_ok, rest) =
          >>=-eq-ok linking
            (λ (linked', l). check_cycles (keys by_name) l >>= λ _. ok (linked', built linked' l))
            (linked, graph) e in
        let (_, checked, end) =
          >>=-eq-ok (check_cycles (keys by_name) l) (λ _. ok (linked', built linked' l))
            (linked, graph) rest in
        let same_links : l ≡ graph.links = ap (λ p. p.1.links) (ok-injective end) in
        let same_packages : linked' ≡ linked = ap (λ p. p.0) (ok-injective end) in
        let (g, names_same) = linking-IsGraph linked' l linking_ok in
        let (os, ordered, all) = check_cycles_sound l g checked in
        (
          subst (IsGraph (names_of packages)) same_links g,
          subst (λ p. names_of p ≡ names_of packages) same_packages names_same,
          (os, subst (λ k. Ordered k.dependencies os) same_links ordered, all),
        )

    -- An acyclic graph is accepted.
    pub build_workspace_graph-accepts :
        (linked : List Package) (l : Links) (rank : String → ℕ)
        → linking ≡ ok (linked, l)
        → ((n m : String) → 1 ≤ count m (entry n l.dependencies) → rank m < rank n)
        → build_workspace_graph host validate_ranges packages ≡ ok (linked, built linked l)
    unfolding build_workspace_graph
    build_workspace_graph-accepts linked l rank e falls =
        rw (e, check_cycles-accepts l (linking-IsGraph linked l e).0 rank falls) refl

    -- Of packages with distinct names, where the internal dependencies can be linked, the graph is built exactly if it
    -- has no cycle: if ranks can be given to the names, each above those of its dependencies. The search never runs
    -- out of depth.
    pub build_workspace_graph-iff-acyclic :
        (linked : List Package) (l : Links)
        → linking ≡ ok (linked, l)
        → (build_workspace_graph host validate_ranges packages ≡ ok (linked, built linked l)) ↔ (
            (rank : String → ℕ) × ((n m : String)
              → 1 ≤ count m (entry n l.dependencies)
              → rank m < rank n))
    build_workspace_graph-iff-acyclic linked l e = (
      λ accepted.
          let (g, names_same, (os, ordered, all)) =
            build_workspace_graph-ok linked (built linked l) accepted in
          (
            rank_in os,
            λ n m c. (rank_in-falls l.dependencies os ordered n m (all n ((g.known n m c).0)) c).1,
          ),
      λ (rank, falls). build_workspace_graph-accepts linked l rank e falls,
    )
