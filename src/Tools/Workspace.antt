-- ===== src/Tools/Workspace.antt =====
-- `validateWorkspacePackages` of tools/workspace-packages.js, with `validateLockfile`, of
-- packages that are discovered.
pub mod Validated
use cap_nodejs.Prelude.{
  String, Bool, true, false, not, ◌&&◌, Option, none, some, List, [], ◌∷◌, if◌then◌else◌, str_eq,
  or_default, opt_eq,
}
use cap_nodejs.Text.{is_blank}
use cap_nodejs.JsMap.{JsMap, get}
use cap_nodejs.Tools.Graph.{
  Range, text, other, Package, Host, Failure, Graph, ok, fail, is_file_reference,
  range_includes_version, index_packages, build_workspace_graph,
}
use cap_nodejs.Tools.Order.{order_packages}
use cap_nodejs.Tools.Identities.{Declared, Paths, Refusal, packages_of, validate_package_identities}

-- An entry of the lockfile, with its four sections in the order of `dependencySections`
pub record Locked : Type 0 where
  pub version : Option String
  pub sections : List (JsMap Range)

-- Why the lockfile is refused
pub data LockFailure : Type 0 where
  mismatch not_in_dependencies range_excluded range_differs : LockFailure

-- `locked[section]?.[name] !== range`, of a range that is a text
abbrev pub is_range : Option Range → Range → Bool
is_range (some (text a)) (text b) = str_eq a b
is_range _ _ = false

abbrev pub head_of : List (JsMap Range) → JsMap Range
head_of [] = []
head_of (m ∷ ms) = m

abbrev pub tail_of : List (JsMap Range) → List (JsMap Range)
tail_of [] = []
tail_of (m ∷ ms) = ms

module _ (host : Host) (by_name : JsMap Package) (dependencies_only : Bool) where
  -- An entry of a section, against those of the section in the lockfile
  unfoldable pub check_entry : Bool → JsMap Range → String → Range → Option LockFailure
  check_entry is_dependencies locked name range = elim (get name by_name) [
    | none ↦ none
    | some target ↦
        if dependencies_only && not is_dependencies
        then some not_in_dependencies
        else if not (is_file_reference host range)
            && not (range_includes_version host range target.version)
        then some range_excluded
        else if not (is_range (get name locked) range)
        then some range_differs
        else none
  ]

  unfoldable pub check_section : Bool → JsMap Range → List (String × Range) → Option LockFailure
  unfolding check_entry
  check_section is_dependencies locked [] = none
  check_section is_dependencies locked ((name, range) ∷ entries) =
      let rest = check_section is_dependencies locked entries in
      elim (check_entry is_dependencies locked name range) [
        | some failure ↦ some failure
        | none ↦ rest
      ]

  -- The sections of a package; the first is `dependencies`.
  unfoldable pub check_sections :
      Bool → List (JsMap Range) → List (List (String × Range)) → Option LockFailure
  unfolding check_section
  check_sections first locked [] = none
  check_sections first locked (section ∷ sections) =
      let rest = check_sections false (tail_of locked) sections in
      elim (check_section first (head_of locked) section) [
        | some failure ↦ some failure
        | none ↦ rest
      ]

  -- The loop of `validateLockfile`
  unfoldable pub check_locked : JsMap Locked → List Declared → Option LockFailure
  unfolding check_sections
  check_locked lockfile [] = none
  check_locked lockfile (d ∷ ds) =
      let rest = check_locked lockfile ds in
      elim (get (or_default d.relative_dir "undefined") lockfile) [
        | none ↦ some mismatch
        | some locked ↦
            if not (opt_eq locked.version d.pkg.version)
            then some mismatch
            else elim (check_sections true locked.sections d.pkg.sections) [
              | some failure ↦ some failure
              | none ↦ rest
            ]
      ]

-- `validateLockfile`
unfoldable pub validate_lockfile : Host → Bool → JsMap Locked → List Declared → Option LockFailure
validate_lockfile host dependencies_only lockfile ds =
    check_locked host (index_packages (packages_of ds) []) dependencies_only lockfile ds

-- The check of `scripts.build`: the first package without one
unfoldable pub missing_build : List Declared → Option Declared
missing_build [] = none
missing_build (d ∷ ds) =
    let rest = missing_build ds in
    elim d.build [ none ↦ some d | some script ↦ if is_blank script then some d else rest ]

pub record Options : Type 0 where
  pub fixture : Bool
  pub validate_ranges : Bool
  pub require_build : Bool
  pub checks_lockfile : Bool
  pub dependencies_only : Bool

-- Why a workspace is refused
pub data Problem : Type 0 where
  refused : Refusal → Problem
  no_packages : Problem
  graph_failed : Failure → Problem
  no_build : String → Problem
  lock_failed : LockFailure → Problem

-- The result: the packages with their internal dependencies, the graph, and `orderedPackages`
pub data Validation : Type 0 where
  valid : List Package → Graph → List (Option Package) → Validation
  invalid : Problem → Validation

module _ (host : Host) (paths : Paths) (cwd : String) (o : Options) (lockfile : JsMap Locked) where
  -- The checks after the graph is built, and the order
  unfoldable pub finish : List Declared → List Package → Graph → Validation
  unfolding missing_build validate_lockfile
  finish ds linked g = elim (if o.require_build then missing_build ds else none) [
    | some d ↦ invalid (no_build d.pkg.name)
    | none ↦
        elim (if o.checks_lockfile
          then validate_lockfile host o.dependencies_only lockfile ds
          else none) [
            | some failure ↦ invalid (lock_failed failure)
            | none ↦ elim (order_packages linked g) [
              | fail failure ↦ invalid (graph_failed failure)
              | ok ordered ↦ valid linked g ordered
            ]
          ]
  ]

  -- `validateWorkspacePackages`
  unfoldable pub validate_workspace_packages : List Declared → Validation
  unfolding finish
  validate_workspace_packages ds = elim (validate_package_identities paths cwd o.fixture ds) [
    | some refusal ↦ invalid (refused refusal)
    | none ↦ elim ds [
      | [] ↦ invalid no_packages
      | d ∷ rest ↦ elim (build_workspace_graph host o.validate_ranges (packages_of (d ∷ rest))) [
        | fail failure ↦ invalid (graph_failed failure)
        | ok (linked, g) ↦ finish (d ∷ rest) linked g
      ]
    ]
  ]
