-- ===== src/Tools/Workspace/Validated.antt =====
-- A workspace whose checks pass: its packages are ordered.
use cap_nodejs.Prelude.{String, none, List, [], ◌∷◌, ◌≡◌, refl, sym, ◌∙◌, map, if◌then◌else◌}
use cap_nodejs.JsMap.{JsMap, get}
use cap_nodejs.Tools.Names.{count}
use cap_nodejs.Tools.Graph.{Package, Host, Graph, ok, build_workspace_graph}
use cap_nodejs.Tools.Graph.Linked.{names_of}
use cap_nodejs.Tools.Order.{sort_workspace_packages, order_packages}
use cap_nodejs.Tools.Order.Loop.{Follows}
use cap_nodejs.Tools.Order.Sorted.{sort_workspace_packages_lem}
use cap_nodejs.Tools.Identities.{Declared, Paths, packages_of, validate_package_identities}
use cap_nodejs.Tools.Identities.Accepted.{validate_package_identities_iff}
use cap_nodejs.Tools.Workspace.{
  Locked, Options, valid, missing_build, validate_lockfile, finish, validate_workspace_packages,
}

module _ (host : Host) (paths : Paths) (cwd : String) (o : Options) (lockfile : JsMap Locked) where
  order_packages_same :
      (pkgs linked : List Package) (g : Graph)
      → build_workspace_graph host o.validate_ranges pkgs ≡ ok (linked, g)
      → sort_workspace_packages host o.validate_ranges pkgs ≡ order_packages linked g
  unfolding sort_workspace_packages
  order_packages_same pkgs linked g e = rw e refl

  -- A workspace of at least one package is validated if its identities are valid, its graph is built, and the checks
  -- of build scripts and of the lockfile, where they are asked for, pass. The result has the packages of the graph, and
  -- all of them in an order: each package once, after its dependencies.
  pub validate_workspace_packages_lem :
      (d : Declared) (ds : List Declared) (linked : List Package) (g : Graph)
      → validate_package_identities paths cwd o.fixture (d ∷ ds) ≡ none
      → build_workspace_graph host o.validate_ranges (packages_of (d ∷ ds)) ≡ ok (linked, g)
      → (if o.require_build then missing_build (d ∷ ds) else none) ≡ none
      → (if o.checks_lockfile
          then validate_lockfile host o.dependencies_only lockfile (d ∷ ds)
          else none)
        ≡ none
      → (final : List String) × (validate_workspace_packages host paths cwd o lockfile (d ∷ ds)
          ≡ valid linked g (map (λ name. get name g.by_name) final))
        × Follows g.links.dependencies [] final
        × ((n : String) → count n final ≡ count n (names_of (packages_of (d ∷ ds))))
  unfolding validate_workspace_packages finish
  validate_workspace_packages_lem d ds linked g identities built builds lock =
      let (_, distinct, _) =
        (validate_package_identities_iff paths cwd o.fixture (d ∷ ds)).0 identities in
      let (final, sorted, follows, same) =
        sort_workspace_packages_lem host o.validate_ranges (packages_of (d ∷ ds)) distinct linked g
          built in
      let ordered = sym (order_packages_same (packages_of (d ∷ ds)) linked g built) ∙ sorted in
      (
        final,
        rw (identities, validate_workspace_packages, built, builds, finish, lock, ordered) refl,
        follows,
        same,
      )
