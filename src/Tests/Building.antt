-- ===== src/Tests/Building.antt =====
-- The workspace tools at concrete packages.
use cap_nodejs.Prelude.{
  ℕ, String, true, false, none, some, All, List, [], ◌∷◌, ◌≡◌, ◌≤◌, ◌<◌, ◌↔◌, refl, arith, map,
}
use cap_nodejs.JsMap.{JsMap, get}
use cap_nodejs.Tools.Names.{sort, count, contains, add, Distinct, Distinct-cons}
use cap_nodejs.Tools.Search.{entry, visit, visit_each, cycle_from}
use cap_nodejs.Tools.Graph.{
  Package, text, Host, Links, ok, fail, dependency_cycle, link_packages, link_sections,
  link_section, link_entry, link, no_links, validate_file_reference, range_includes_version,
  check_cycles, index_packages, build_workspace_graph,
}
use cap_nodejs.Tools.Graph.Linked.{names_of}
use cap_nodejs.Tools.Graph.Built.{blank, built, build_workspace_graph-iff-acyclic}
use cap_nodejs.Tools.Order.Loop.{Follows}
use cap_nodejs.Tools.Identities.{
  Declared, Paths, normalize_path, check_identity, check_duplicate, validate_from,
  validate_package_identities,
}
use cap_nodejs.Tools.Identities.Accepted.{check, directories_of, validate_package_identities_iff}
use cap_nodejs.Tools.Workspace.{
  Locked, Options, valid, check_entry, check_section, check_sections, check_locked,
  validate_lockfile, missing_build, validate_workspace_packages,
}
use cap_nodejs.Tools.Workspace.Validated.{validate_workspace_packages_lem}
use cap_nodejs.Tools.Closure.{transitive_closure, expand, offer, offer_all, all_names, set_of}
use cap_nodejs.Tools.Closure.Reached.{Reaches, transitive_closure_lem}

-- A host whose paths are texts as they are, whose files all exist and whose versions fit every range
abbrev host : Host
host = record {
  resolve = λ parts. elim parts [ [] ↦ "" | d ∷ _ ↦ d ];
  manifest_in = λ d. d;
  exists_sync = λ f. true;
  valid_range = λ r. true;
  satisfies = λ v r. true;
}

abbrev publishable : String → List String → Package
publishable name needs = record {
  name = name;
  version = "1.0.0";
  dir = name;
  sections = map (λ n. (n, text "^1.0.0")) needs ∷ [];
  internal_dependencies = [];
}

abbrev workspace : List Package
workspace =
    publishable "app" ("core" ∷ "nest" ∷ [])
    ∷ publishable "core" []
    ∷ publishable "nest" ("core" ∷ [])
    ∷ []

abbrev circular : List Package
circular = publishable "a" ("b" ∷ []) ∷ publishable "b" ("a" ∷ []) ∷ []

circular_refused :
    build_workspace_graph host true circular ≡ fail (dependency_cycle ("a" ∷ "b" ∷ "a" ∷ []))
unfolding build_workspace_graph link_packages link_sections link_section link_entry
    validate_file_reference index_packages range_includes_version check_cycles visit_each sort visit
    link no_links add cycle_from
circular_refused = refl

abbrev linked_workspace : List Package
linked_workspace =
    record (publishable "app" ("core" ∷ "nest" ∷ [])) {
      internal_dependencies = "core" ∷ "nest" ∷ [];
    }
    ∷ publishable "core" []
    ∷ record (publishable "nest" ("core" ∷ [])) { internal_dependencies = "core" ∷ [] }
    ∷ []

abbrev workspace_links : Links
workspace_links = record {
  dependencies = ("app", "core" ∷ "nest" ∷ []) ∷ ("core", []) ∷ ("nest", "core" ∷ []) ∷ [];
  dependents = ("app", []) ∷ ("core", "app" ∷ "nest" ∷ []) ∷ ("nest", "app" ∷ []) ∷ [];
}

workspace_links_lem :
    link_packages host true (index_packages workspace []) workspace (blank workspace)
    ≡ ok (linked_workspace, workspace_links)
unfolding link_packages link_sections link_section link_entry validate_file_reference index_packages
    range_includes_version sort link no_links add
workspace_links_lem = refl

workspace-built :
    build_workspace_graph host true workspace
    ≡ ok (linked_workspace, built linked_workspace workspace_links)
unfolding build_workspace_graph link_packages link_sections link_section link_entry
    validate_file_reference index_packages range_includes_version check_cycles visit_each sort visit
    link no_links add
workspace-built = refl

workspace-Distinct : Distinct (names_of workspace)
unfolding count
workspace-Distinct =
    Distinct-cons "app" ("core" ∷ "nest" ∷ []) refl
      (Distinct-cons "core" ("nest" ∷ []) refl (Distinct-cons "nest" [] refl (λ n. omega arith)))

build_workspace_graph-iff-acyclic_example :
    (build_workspace_graph host true workspace
      ≡ ok (linked_workspace, built linked_workspace workspace_links))
    ↔ ((rank : String → ℕ) × ((n m : String)
          → 1 ≤ count m (entry n workspace_links.dependencies)
          → rank m < rank n))
build_workspace_graph-iff-acyclic_example =
    build_workspace_graph-iff-acyclic workspace workspace-Distinct host true linked_workspace
      workspace_links workspace_links_lem

-- Paths as they are
abbrev paths : Paths
paths = record {
  resolve = λ parts. elim parts [ [] ↦ "" | d ∷ (ds → rest) ↦ elim ds [ [] ↦ d | e ∷ es ↦ rest ] ];
  relative = λ start end_at. end_at;
  is_absolute = λ p. false;
  sep = "/";
  manifest_in = λ d. d;
  valid = λ v. true;
}

abbrev found : Package → Declared
found pkg = record {
  pkg = pkg;
  private = false;
  manifest_private = false;
  relative_dir = some pkg.dir;
  manifest_path = pkg.dir;
  build = some "tsc";
}

abbrev rest_found : List Declared
rest_found = found (publishable "core" []) ∷ found (publishable "nest" ("core" ∷ [])) ∷ []

abbrev app : Declared
app = found (publishable "app" ("core" ∷ "nest" ∷ []))

abbrev lockfile : JsMap Locked
lockfile =
    (
      "app",
      record {
        version = some "1.0.0";
        sections = (("core", text "^1.0.0") ∷ ("nest", text "^1.0.0") ∷ []) ∷ [];
      },
    )
    ∷ ("core", record { version = some "1.0.0"; sections = [] })
    ∷ ("nest", record { version = some "1.0.0"; sections = (("core", text "^1.0.0") ∷ []) ∷ [] })
    ∷ []

abbrev all_checks : Options
all_checks = record {
  fixture = true;
  validate_ranges = true;
  require_build = true;
  checks_lockfile = true;
  dependencies_only = true;
}

workspace-accepted : validate_package_identities paths "/" true (app ∷ rest_found) ≡ none
unfolding validate_package_identities validate_from check_identity check_duplicate normalize_path
workspace-accepted = refl

workspace-locked : validate_lockfile host true lockfile (app ∷ rest_found) ≡ none
unfolding validate_lockfile check_locked check_sections check_section check_entry index_packages
    range_includes_version
workspace-locked = refl

validate_package_identities_iff_example :
    (validate_package_identities paths "/" true (app ∷ rest_found) ≡ none) ↔ (
      All (λ d. check paths "/" true d ≡ none) (app ∷ rest_found)
      × Distinct (names_of workspace)
      × Distinct (directories_of paths "/" true (app ∷ rest_found)))
validate_package_identities_iff_example =
    validate_package_identities_iff paths "/" true (app ∷ rest_found)

validate_workspace_packages_lem_example :
    (final : List String) × (validate_workspace_packages host paths "/" all_checks lockfile
        (app ∷ rest_found)
      ≡ valid linked_workspace
          (built linked_workspace workspace_links)
          (map (λ name. get name (built linked_workspace workspace_links).by_name) final))
    × Follows workspace_links.dependencies [] final
    × ((n : String) → count n final ≡ count n (names_of workspace))
unfolding missing_build
validate_workspace_packages_lem_example =
    validate_workspace_packages_lem host paths "/" all_checks lockfile app rest_found
      linked_workspace (built linked_workspace workspace_links) workspace-accepted workspace-built
      refl workspace-locked

seeds-Distinct : Distinct ("core" ∷ [])
unfolding count
seeds-Distinct = Distinct-cons "core" [] refl (λ n. omega arith)

-- What a change of the core affects
transitive_closure_lem_example :
    (final : List String) × (transitive_closure ("core" ∷ []) workspace_links.dependents
      ≡ some final)
    × Distinct final
    × ((n : String)
        → (contains n final ≡ true) ↔ Reaches workspace_links.dependents ("core" ∷ []) n)
transitive_closure_lem_example =
    transitive_closure_lem workspace_links.dependents ("core" ∷ []) seeds-Distinct

affected_by_core :
    transitive_closure ("core" ∷ []) workspace_links.dependents
    ≡ some ("core" ∷ "app" ∷ "nest" ∷ [])
unfolding transitive_closure expand offer_all offer all_names set_of sort add contains
affected_by_core = refl
