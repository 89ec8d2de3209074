-- ===== src/Tools/Identities/Accepted.antt =====
-- Which packages are accepted: those that pass their own checks, where no two share a name or a directory.
use cap_nodejs.Prelude.{
  ℕ, ◌+◌, ◌≤◌, String, Bool, none, some, List, [], ◌∷◌, ◌≡◌, ◌↔◌, refl, arith, map, All, eq_iff,
  Option, Option-cases, inl, inr,
}
use cap_nodejs.JsMap.{JsMap, get, set}
use cap_nodejs.JsMap.Laws.{get-set}
use cap_nodejs.Tools.Names.{count, Distinct}
use cap_nodejs.Tools.Graph.Linked.{names_of}
use cap_nodejs.Tools.Identities.{
  Declared, Paths, Refusal, relative_dir_of, check_identity, check_duplicate, validate_from,
  validate_package_identities, packages_of,
}

-- How often a name is a key: once or not at all
abbrev held : String → JsMap Declared → ℕ
held n m = elim (get n m) [ none ↦ 0 | some d ↦ 1 ]

-- Some names are distinct, and none of them is a key.
abbrev Fresh : List String → JsMap Declared → Type 0
Fresh ns m = (n : String) → count n ns + held n m ≤ 1

Fresh-head :
    (n : String) (ns : List String) (m : JsMap Declared) → Fresh (n ∷ ns) m → get n m ≡ none
unfolding count
Fresh-head n ns m fresh = ground (arith, fresh n, eq_iff n n)

Fresh-tail :
    (n : String) (ns : List String) (m : JsMap Declared) (d : Declared)
    → Fresh (n ∷ ns) m
    → Fresh ns (set n d m)
unfolding count
Fresh-tail n ns m d fresh k = ground (arith, fresh k, eq_iff n k, get-set n k d m)

Fresh-cons :
    (n : String) (ns : List String) (m : JsMap Declared) (d : Declared)
    → get n m ≡ none
    → Fresh ns (set n d m)
    → Fresh (n ∷ ns) m
unfolding count
Fresh-cons n ns m d absent fresh k = ground (arith, absent, fresh k, eq_iff n k, get-set n k d m)

Fresh-nil : (m : JsMap Declared) → Fresh [] m
unfolding count
Fresh-nil m n = elim (Option-cases (get n m)) [
  | inl absent ↦ ground (arith, absent)
  | inr (d, there) ↦ ground (arith, there)
]

module _ (paths : Paths) (cwd : String) (fixture : Bool) where
  abbrev pub check : Declared → Option Refusal
  check = check_identity paths cwd fixture

  abbrev pub directories_of : List Declared → List String
  directories_of ds = map (relative_dir_of paths cwd fixture) ds

  abbrev Accepted : List Declared → JsMap Declared → JsMap Declared → Type 0
  Accepted ds names directories =
      All (λ d. check d ≡ none) ds
      × Fresh (names_of (packages_of ds)) names
      × Fresh (directories_of ds) directories

  check_duplicate-none :
      (d : Declared) (names directories : JsMap Declared)
      → check_duplicate paths cwd fixture d names directories ≡ none
      → (get d.pkg.name names ≡ none)
        × (get (relative_dir_of paths cwd fixture d) directories ≡ none)
  unfolding check_duplicate
  check_duplicate-none d names directories h = elim (Option-cases (get d.pkg.name names)) [
    | inr (other, taken) ↦ absurd (ground (arith, taken, h))
    | inl free ↦ elim (Option-cases (get (relative_dir_of paths cwd fixture d) directories)) [
      | inr (other, taken) ↦ absurd (ground (arith, free, taken, h))
      | inl empty ↦ (free, empty)
    ]
  ]

  validate_from-Accepted :
      (ds : List Declared) (names directories : JsMap Declared)
      → validate_from paths cwd fixture ds names directories ≡ none
      → Accepted ds names directories
  unfolding validate_from
  validate_from-Accepted [] names directories h = (tt, Fresh-nil names, Fresh-nil directories)
  validate_from-Accepted (d ∷ ds) names directories h = elim (Option-cases (check d)) [
    | inr (refusal, bad) ↦ absurd (ground (arith, bad, h))
    | inl good ↦ elim (Option-cases (check_duplicate paths cwd fixture d names directories)) [
      | inr (refusal, bad) ↦ absurd (ground (arith, good, bad, h))
      | inl new ↦
          let (free, empty) = check_duplicate-none d names directories new in
          let (all, named, placed) =
            validate_from-Accepted ds (set d.pkg.name d names)
              (set (relative_dir_of paths cwd fixture d) d directories)
              (ground (arith, good, new, h)) in
          (
            (good, all),
            Fresh-cons d.pkg.name (names_of (packages_of ds)) names d free named,
            Fresh-cons (relative_dir_of paths cwd fixture d) (directories_of ds) directories d empty
                placed,
          )
    ]
  ]

  accepts :
      (ds : List Declared) (names directories : JsMap Declared)
      → Accepted ds names directories
      → validate_from paths cwd fixture ds names directories ≡ none
  unfolding validate_from check_duplicate
  accepts [] names directories h = refl
  accepts (d ∷ ds) names directories ((good, all), named, placed) = ground (
    arith,
    good,
    Fresh-head d.pkg.name (names_of (packages_of ds)) names named,
    Fresh-head (relative_dir_of paths cwd fixture d) (directories_of ds) directories placed,
    accepts ds (set d.pkg.name d names) (set (relative_dir_of paths cwd fixture d) d directories) (
      all,
      Fresh-tail d.pkg.name (names_of (packages_of ds)) names d named,
      Fresh-tail (relative_dir_of paths cwd fixture d) (directories_of ds) directories d placed,
    ),
  )

  -- The identities of packages are valid exactly if each passes the checks of its name, version, privacy, directory and
  -- manifest, no two have the same name, and no two the same directory.
  pub validate_package_identities_iff :
      (ds : List Declared)
      → (validate_package_identities paths cwd fixture ds ≡ none) ↔ (
          All (λ d. check d ≡ none) ds
          × Distinct (names_of (packages_of ds))
          × Distinct (directories_of ds))
  unfolding validate_package_identities
  validate_package_identities_iff ds = (
    (λ h.
        let (all, named, placed) = validate_from-Accepted ds [] [] h in
        (all, λ n. omega (arith, named n), λ n. omega (arith, placed n))),
    λ (all, named, placed).
        accepts ds [] [] (all, λ n. omega (arith, named n), λ n. omega (arith, placed n)),
  )
