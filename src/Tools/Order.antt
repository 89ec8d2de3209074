-- ===== src/Tools/Order.antt =====
-- `sortWorkspacePackages` of tools/workspace-packages.js: the packages in an order in which each comes after its
-- dependencies. The loop runs at most once for each package, which is its fuel.
pub mod Counts
pub mod Loop
pub mod Sorted
use cap_nodejs.Prelude.{
  ℕ, zero, suc, ◌-◌, String, Bool, false, Option, none, some, List, [], ◌∷◌, ◌++◌, map,
  if◌then◌else◌, ◌==◌, keep, length,
}
use cap_nodejs.JsMap.{JsMap, get, set}
use cap_nodejs.Tools.Names.{sort}
use cap_nodejs.Tools.Search.{entry}
use cap_nodejs.Tools.Graph.{
  Package, Host, Links, Graph, Checked, ok, fail, out_of_fuel, not_ordered, build_workspace_graph,
  ◌>>=◌,
}

-- The `indegree` and the queue `ready`
pub record Waiting : Type 0 where
  pub indegree : JsMap ℕ
  pub ready : List String

-- `new Map(packages.map((pkg) => [pkg.name, graph.dependencies.get(pkg.name).size]))`
unfoldable pub indegrees : Links → List Package → JsMap ℕ → JsMap ℕ
indegrees l [] m = m
indegrees l (pkg ∷ pkgs) m =
    indegrees l pkgs (set pkg.name (length (entry pkg.name l.dependencies)) m)

-- `indegree.get(name) === 0`
abbrev pub is_free : JsMap ℕ → String → Bool
is_free m name = elim (get name m) [ none ↦ false | some n ↦ n == 0 ]

-- One dependent of a name that was ordered. Its count is 0 afterwards exactly if it was 1: the source's counts go
-- below 0, and those here stay at 0.
unfoldable pub settle : String → Waiting → Waiting
settle dependent w = elim (get dependent w.indegree) [
  | none ↦ w
  | some n ↦ record {
    indegree = set dependent (n - 1) w.indegree;
    ready = if n == 1 then sort (w.ready ++ dependent ∷ []) else w.ready;
  }
]

unfoldable pub settle_all : List String → Waiting → Waiting
settle_all [] w = w
settle_all (d ∷ ds) w = settle_all ds (settle d w)

-- One round of the loop, after the first ready name was ordered; `rest` are the others.
unfoldable pub round : Links → String → List String → JsMap ℕ → Waiting
round l name rest indegree =
    settle_all (sort (entry name l.dependents)) (record { indegree = indegree; ready = rest })

-- The loop, with the names ordered so far
unfoldable pub order : Links → ℕ → JsMap ℕ → List String → List String → Option (List String)
order l fuel indegree [] ordered = some ordered
order l zero indegree (name ∷ rest) ordered = none
order l (suc fuel) indegree (name ∷ rest) ordered =
    let w = round l name rest indegree in order l fuel w.indegree w.ready (ordered ++ name ∷ [])

-- The last check
unfoldable pub all_ordered : ℕ → Graph → Option (List String) → Checked (List (Option Package))
all_ordered total graph none = fail out_of_fuel
all_ordered total graph (some names) =
    if length names == total
    then ok (map (λ name. get name graph.by_name) names)
    else fail not_ordered

-- `sortWorkspacePackages`, of a graph
unfoldable pub order_packages : List Package → Graph → Checked (List (Option Package))
order_packages packages graph =
    let indegree = indegrees graph.links packages [] in
    let ready = sort (map (λ pkg. pkg.name) (keep (λ pkg. is_free indegree pkg.name) packages)) in
    all_ordered (length packages) graph (order graph.links (length packages) indegree ready [])

-- `sortWorkspacePackages` without one
unfoldable pub sort_workspace_packages :
    Host → Bool → List Package → Checked (List (Option Package))
sort_workspace_packages host validate_ranges packages =
    build_workspace_graph host validate_ranges packages >>= λ (linked, graph).
    order_packages linked graph
