-- ===== src/Tools/Closure.antt =====
-- `transitiveClosure`, `packageForPath` and `orderedNames` of tools/affected-validation.js: which packages a change
-- affects.
pub mod Reached
use cap_nodejs.Prelude.{
  ℕ, zero, suc, String, Bool, true, false, ◌||◌, Option, none, some, List, [], ◌∷◌, ◌++◌, map, keep,
  length, join, if◌then◌else◌, str_eq,
}
use cap_nodejs.Text.{starts_with}
use cap_nodejs.JsMap.{JsMap}
use cap_nodejs.Tools.Names.{sort, contains, add}
use cap_nodejs.Tools.Search.{entry}
use cap_nodejs.Tools.Graph.{Package}

-- The `result` and the `queue` of the loop
pub record Frontier : Type 0 where
  pub result : List String
  pub queue : List String

-- The inner loop's body
unfoldable pub offer : String → Frontier → Frontier
offer next f =
    if contains next f.result
    then f
    else record { result = add next f.result; queue = sort (f.queue ++ next ∷ []) }

unfoldable pub offer_all : List String → Frontier → Frontier
offer_all [] f = f
offer_all (n ∷ ns) f = offer_all ns (offer n f)

-- `new Set(names)`
unfoldable pub set_of : List String → List String → List String
set_of [] set = set
set_of (n ∷ ns) set = set_of ns (add n set)

module _ (edges : JsMap (List String)) where
  -- The outer loop; none if the fuel runs out
  unfoldable pub expand : ℕ → List String → List String → Option (List String)
  expand fuel result [] = some result
  expand zero result (name ∷ rest) = none
  expand (suc fuel) result (name ∷ rest) =
      let f = offer_all (sort (entry name edges)) (record { result = result; queue = rest }) in
      expand fuel f.result f.queue

-- All the names that stand in some sets
unfoldable pub all_names : JsMap (List String) → List String
all_names [] = []
all_names ((k, names) ∷ m) = names ++ all_names m

-- `transitiveClosure`; each round takes out a name that no other round does, a seed or one of the sets'.
unfoldable pub transitive_closure : List String → JsMap (List String) → Option (List String)
transitive_closure seeds edges =
    expand edges (length (seeds ++ all_names edges)) (set_of seeds []) (sort seeds)

-- `packageForPath`, by the packages with their `relativeDir`
unfoldable pub package_for_path : String → List (Package × String) → Option Package
package_for_path file [] = none
package_for_path file ((pkg, dir) ∷ pkgs) =
    if str_eq file dir || starts_with (join dir "/") file
    then some pkg
    else package_for_path file pkgs

-- `orderedNames`, of the packages in their order
unfoldable pub ordered_names : List Package → List String → List String
ordered_names ordered_packages names =
    map (λ pkg. pkg.name) (keep (λ pkg. contains pkg.name names) ordered_packages)
