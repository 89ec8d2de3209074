-- ===== src/Tools/Identities.antt =====
-- `validatePackageIdentities` of tools/workspace-packages.js: what a package must be to take part in the workspace,
-- and that no two packages share a name or a directory.
pub mod Accepted
use cap_nodejs.Prelude.{
  String, Bool, not, ◌&&◌, ◌||◌, Option, none, some, List, [], ◌∷◌, if◌then◌else◌, str_eq,
  or_default, map,
}
use cap_nodejs.Text.{is_blank, starts_with, includes}
use cap_nodejs.JsMap.{JsMap, get, set}
use cap_nodejs.Tools.Graph.{Package}

-- A package as it was found; a name that is no text is the empty one.
pub record Declared : Type 0 where
  pub pkg : Package
  pub private : Bool
  pub manifest_private : Bool
  pub relative_dir : Option String
  pub manifest_path : String
  -- `manifest.scripts.build`, if it is a text
  pub build : Option String

-- `path.resolve`, `path.relative`, `path.isAbsolute`, `path.sep`, `path.join(dir, 'package.json')`, and
-- `semver.valid` as a test
pub record Paths : Type 0 where
  pub resolve : List String → String
  pub relative : String → String → String
  pub is_absolute : String → Bool
  pub sep : String
  pub manifest_in : String → String
  pub valid : String → Bool

-- Why a package is refused
pub data Refusal : Type 0 where
  blank_name unexpected_name invalid_version private_package outside_boundary : Refusal
  dir_conflict misplaced_manifest duplicate_name duplicate_dir : Refusal

-- `normalizePath`
unfoldable pub normalize_path : String → String
normalize_path String.[] = String.[]
normalize_path (String.◌∷◌ c s) =
    let rest = normalize_path s in
    if str_eq (String.◌∷◌ c String.[]) "\\" then String.◌∷◌ "/" rest else String.◌∷◌ c rest

abbrev given_dir : Option String → Option String
given_dir none = none
given_dir (some dir) = if str_eq dir "" then none else some dir

module _ (paths : Paths) (cwd : String) (fixture : Bool) where
  abbrev pub resolved_dir : Declared → String
  resolved_dir d = paths.resolve (
      cwd
      ∷ normalize_path (or_default (given_dir d.relative_dir) (paths.relative cwd d.pkg.dir))
      ∷ [])

  abbrev pub relative_dir_of : Declared → String
  relative_dir_of d = normalize_path (paths.relative cwd (resolved_dir d))

  -- `relativeToBoundary` is outside `libs/*`.
  abbrev pub is_outside : String → Bool
  is_outside within =
      starts_with ".." within
      || (paths.is_absolute within || (str_eq within "" || includes paths.sep within))

  -- The checks of a package by itself
  unfoldable pub check_identity : Declared → Option Refusal
  check_identity d =
      if is_blank d.pkg.name
      then some blank_name
      else if not fixture && not (starts_with "@mikara89/cap-" d.pkg.name)
      then some unexpected_name
      else if not (paths.valid d.pkg.version)
      then some invalid_version
      else if d.private || d.manifest_private
      then some private_package
      else if is_outside (paths.relative (paths.resolve (cwd ∷ "libs" ∷ [])) (resolved_dir d))
      then some outside_boundary
      else if not (str_eq (paths.resolve (d.pkg.dir ∷ [])) (resolved_dir d))
      then some dir_conflict
      else if not
          (str_eq (paths.resolve (d.manifest_path ∷ [])) (paths.manifest_in (resolved_dir d)))
      then some misplaced_manifest
      else none

  -- The checks against the packages before
  unfoldable pub check_duplicate : Declared → JsMap Declared → JsMap Declared → Option Refusal
  check_duplicate d names directories = elim (get d.pkg.name names) [
    | some other ↦ some duplicate_name
    | none ↦ elim (get (relative_dir_of d) directories) [
      | some other ↦ some duplicate_dir
      | none ↦ none
    ]
  ]

  -- The loop, with its `names` and `directories`; none if it ends without a failure
  unfoldable pub validate_from : List Declared → JsMap Declared → JsMap Declared → Option Refusal
  unfolding check_identity check_duplicate
  validate_from [] names directories = none
  validate_from (d ∷ ds) names directories =
      let rest =
        validate_from ds (set d.pkg.name d names) (set (relative_dir_of d) d directories) in
      elim (check_identity d) [
        | some refusal ↦ some refusal
        | none ↦ elim (check_duplicate d names directories) [
          | some refusal ↦ some refusal
          | none ↦ rest
        ]
      ]

  -- `validatePackageIdentities`
  unfoldable pub validate_package_identities : List Declared → Option Refusal
  unfolding validate_from
  validate_package_identities ds = validate_from ds [] []

-- The packages of a workspace
abbrev pub packages_of : List Declared → List Package
packages_of ds = map (λ d. d.pkg) ds
