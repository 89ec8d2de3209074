-- ===== src/Tools/Graph.antt =====
-- `buildWorkspaceGraph` of tools/workspace-packages.js: the dependencies among the packages, and the depth-first
-- search that refuses a cycle. Paths, files and semantic versions are those of libraries: a `Host` answers for them.
pub mod Ranks
pub mod Linked
pub mod Built
use cap_nodejs.Prelude.{
  suc, String, Bool, true, false, not, ◌&&◌, ◌||◌, none, some, List, [], ◌∷◌, map, if◌then◌else◌,
  str_eq, join, length,
}
use cap_nodejs.Text.{starts_with}
use cap_nodejs.JsMap.{JsMap, get, set, update}
use cap_nodejs.Tools.Names.{sort, add}
use cap_nodejs.Tools.Search.{entry, Visit, visit_each, visit, unvisited}

-- A version range of a manifest; what is no text is no range.
pub data Range : Type 0 where
  text : String → Range
  other : Range

pub record Package : Type 0 where
  pub name : String
  pub version : String
  pub dir : String
  -- The entries of the four sections of `dependencySections`, in their order
  pub sections : List (List (String × Range))
  pub internal_dependencies : List String

-- `path.resolve`, `path.join(dir, 'package.json')`, `fs.existsSync`, `semver.validRange` as a test, and
-- `semver.satisfies`
pub record Host : Type 0 where
  pub resolve : List String → String
  pub manifest_in : String → String
  pub exists_sync : String → Bool
  pub valid_range : String → Bool
  pub satisfies : String → String → Bool

pub data Failure : Type 0 where
  missing_target : String → String → Failure
  range_excludes : String → String → Failure
  dependency_cycle : List String → Failure
  out_of_fuel : Failure
  not_ordered : Failure

pub data Checked (A : Type 0) : Type 0 where
  ok : A → Checked A
  fail : Failure → Checked A

infixl 5 ◌>>=◌
abbrev pub ◌>>=◌ : {A B : Type 0} → Checked A → (A → Checked B) → Checked B
ok a >>= f = f a
fail e >>= f = fail e

-- `text.slice(prefix.length)` of a text that starts with the prefix
abbrev pub after : String → String → String
after String.[] s = s
after (String.◌∷◌ c p) String.[] = String.[]
after (String.◌∷◌ c p) (String.◌∷◌ d s) = after p s

pub record Links : Type 0 where
  pub dependencies : JsMap (List String)
  pub dependents : JsMap (List String)

-- `dependencies.get(pkg.name).add(name); dependents.get(name).add(pkg.name);`
unfoldable pub link : String → String → Links → Links
link pkg name l = record {
  dependencies = update pkg (add name) l.dependencies;
  dependents = update name (add pkg) l.dependents;
}

-- `pkg.internalDependencies = [...dependencies.get(pkg.name)].sort(compareStrings)`
abbrev pub with_dependencies : Package → Links → Package
with_dependencies pkg l = record pkg {
  internal_dependencies = sort (entry pkg.name l.dependencies);
}

-- `new Map(packages.map((pkg) => [pkg.name, pkg]))`
unfoldable pub index_packages : List Package → JsMap Package → JsMap Package
index_packages [] m = m
index_packages (pkg ∷ pkgs) m = index_packages pkgs (set pkg.name pkg m)

-- `new Map(packages.map((pkg) => [pkg.name, new Set()]))`
unfoldable pub no_links : List Package → JsMap (List String) → JsMap (List String)
no_links [] m = m
no_links (pkg ∷ pkgs) m = no_links pkgs (set pkg.name [] m)

pub record Graph : Type 0 where
  pub by_name : JsMap Package
  pub links : Links

-- What the search throws
abbrev pub verdict : Visit → Checked (Unit {0})
verdict (Visit.visited s) = ok tt
verdict (Visit.cycle path) = fail (dependency_cycle path)
verdict Visit.exhausted = fail out_of_fuel

-- The search over all names, whose depth is at most their number
unfoldable pub check_cycles : List String → Links → Checked (Unit {0})
check_cycles names l =
    verdict (visit_each (visit l.dependencies (suc (length names))) (sort names) unvisited)

module _ (host : Host) where
  -- `rangeIncludesVersion`
  unfoldable pub range_includes_version : Range → String → Bool
  range_includes_version other version = false
  range_includes_version (text range) version =
      if starts_with "workspace:" range
      then (let workspace_range = after "workspace:" range in
          if str_eq workspace_range "*" || str_eq workspace_range ""
          then true
          else if str_eq workspace_range "^"
          then host.satisfies version (join "^" version)
          else if str_eq workspace_range "~"
          then host.satisfies version (join "~" version)
          else host.valid_range workspace_range && host.satisfies version workspace_range)
      else host.valid_range range && host.satisfies version range

  abbrev pub is_file_reference : Range → Bool
  is_file_reference other = false
  is_file_reference (text range) = starts_with "file:" range

  -- `validateFileReference`
  unfoldable pub validate_file_reference :
      Package → String → Range → JsMap Package → Checked (Unit {0})
  validate_file_reference pkg name other by_name = ok tt
  validate_file_reference pkg name (text range) by_name =
      if not (starts_with "file:" range)
      then ok tt
      else (let referenced = host.resolve (pkg.dir ∷ after "file:" range ∷ []) in
          elim (get name by_name) [
            | none ↦ fail (missing_target pkg.name name)
            | some target ↦
                if not (host.exists_sync (host.manifest_in referenced))
                  || not (str_eq (host.resolve (target.dir ∷ [])) referenced)
                then fail (missing_target pkg.name name)
                else ok tt
          ])

  module _ (validate_ranges : Bool) (by_name : JsMap Package) (pkg : Package) where
    -- The loop's body for one entry of a section
    unfoldable pub link_entry : String → Range → Links → Checked Links
    link_entry name range l = do
      _ ← validate_file_reference pkg name range by_name
      elim (get name by_name) [
        | none ↦ ok l
        | some target ↦
            if validate_ranges
              && (not (is_file_reference range)
                  && not (range_includes_version range target.version))
            then fail (range_excludes pkg.name name)
            else ok (link pkg.name name l)
      ]

    -- The loop over the entries of a section
    unfoldable pub link_section : List (String × Range) → Links → Checked Links
    link_section [] l = ok l
    link_section ((name, range) ∷ entries) l = link_entry name range l >>= link_section entries

    -- The loop over the sections
    unfoldable pub link_sections : List (List (String × Range)) → Links → Checked Links
    link_sections [] l = ok l
    link_sections (section ∷ sections) l = link_section section l >>= link_sections sections

  -- The loop over the packages, with what it writes to `internalDependencies`
  unfoldable pub link_packages :
      Bool → JsMap Package → List Package → Links → Checked (List Package × Links)
  link_packages validate_ranges by_name [] l = ok ([], l)
  link_packages validate_ranges by_name (pkg ∷ pkgs) l = do
    l' ← link_sections validate_ranges by_name pkg pkg.sections l
    (linked, last) ← link_packages validate_ranges by_name pkgs l'
    ok (with_dependencies pkg l' ∷ linked, last)

  -- `buildWorkspaceGraph`: the packages with their `internalDependencies`, and the graph
  unfoldable pub build_workspace_graph : Bool → List Package → Checked (List Package × Graph)
  build_workspace_graph validate_ranges packages = do
    let by_name = index_packages packages []
    let blank = no_links packages []
    (linked, links) ←
        link_packages validate_ranges by_name packages
          (record { dependencies = blank; dependents = blank })
    _ ← check_cycles (map (λ e. e.0) by_name) links
    ok (linked, record { by_name = index_packages linked []; links = links })
