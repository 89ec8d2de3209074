-- ===== src/Tools/Graph/Linked.antt =====
-- What `buildWorkspaceGraph` links: the two maps of a graph say the same of the packages' names.
use cap_nodejs.Prelude.{
  ◌+◌, ◌≤◌, String, true, Bool, List, [], ◌∷◌, ◌≡◌, refl, inl, inr, arith, map, sym, ap, ◌⊎◌,
  if◌then◌else◌, str_eq, eq_iff, Bool-cases, subst, ◌∙◌, Option-cases, is_some,
}
use cap_nodejs.JsMap.{JsMap, get, update}
use cap_nodejs.JsMap.Laws.{get-update}
use cap_nodejs.Tools.Names.{
  add, contains, count, count-add, contains-count, count-head, count-tail, count_one, Distinct,
}
use cap_nodejs.Tools.Search.{entry}
use cap_nodejs.Tools.Graph.{
  Package, Range, Host, Links, Checked, Failure, ok, fail, ◌>>=◌, with_dependencies, link,
  link_entry, link_section, link_sections, link_packages, validate_file_reference,
}

abbrev pub names_of : List Package → List String
names_of packages = map (λ pkg. pkg.name) packages

-- The two maps of a graph say the same of the same distinct names.
pub record IsGraph (names : List String) (l : Links) : Type 0 where
  pub distinct : Distinct names
  pub mutual_links :
      (n m : String) → count m (entry n l.dependencies) ≡ count n (entry m l.dependents)
  pub distinct_links : (n : String) → Distinct (entry n l.dependencies)
  pub known :
      (n m : String)
      → 1 ≤ count m (entry n l.dependencies)
      → (1 ≤ count n names) × (1 ≤ count m names)

pub >>=-eq-ok :
    {A B : Type 0} (m : Checked A) (f : A → Checked B) (b : B)
    → (m >>= f) ≡ ok b
    → (a : A) × (m ≡ ok a) × (f a ≡ ok b)
>>=-eq-ok (ok a) f b h = (a, refl, h)
>>=-eq-ok (fail e) f b h = absurd (cc)

Checked-cases :
    {A : Type 0} (r : Checked A) → ((a : A) × (r ≡ ok a)) ⊎ ((e : Failure) × (r ≡ fail e))
Checked-cases (ok a) = inl (a, refl)
Checked-cases (fail e) = inr (e, refl)

pub ok-injective : {A : Type 0} {a b : A} → ok a ≡ ok b → a ≡ b
ok-injective e = cc

-- While links are added, each name keeps its two sets.
pub record IsLinking (names : List String) (l : Links) : Type 0 where
  pub graph : IsGraph names l
  pub has_dependencies : (n : String) → 1 ≤ count n names → is_some (get n l.dependencies) ≡ true
  pub has_dependents : (n : String) → 1 ≤ count n names → is_some (get n l.dependents) ≡ true

entry-update :
    (k n name : String) (m : JsMap (List String))
    → is_some (get k m) ≡ true
    → entry n (update k (add name) m) ≡ (if str_eq k n then add name (entry n m) else entry n m)
entry-update k n name m there = ground (arith, get-update k n (add name) m, eq_iff k n)

is_some-update :
    (k n : String) (f : List String → List String) (m : JsMap (List String))
    → is_some (get n m) ≡ true
    → is_some (get n (update k f m)) ≡ true
is_some-update k n f m h = ground (arith, get-update k n f m)

-- A name is added to the set of a key.
count_added :
    (k n m x : String) (t : JsMap (List String))
    → is_some (get k t) ≡ true
    → count m (entry n (update k (add x) t)) ≡ (
        if str_eq k n
        then (if contains x (entry n t)
            then count m (entry n t)
            else count m (entry n t) + (if str_eq x m then 1 else 0))
        else count m (entry n t))
count_added k n m x t h = elim (Bool-cases (str_eq k n)) [
  | inl same ↦ rw (entry-update k n x t h, same, sym (count_one m x)) (count-add m x (entry n t))
  | inr other ↦ rw (entry-update k n x t h, other) refl
]

module _ (names : List String) (pkg name : String) (l : Links) (lg : IsLinking names l)
    (here : 1 ≤ count pkg names) (there : 1 ≤ count name names) where
  link_mutual :
      (n m : String)
      → count m (entry n (link pkg name l).dependencies)
        ≡ count n (entry m (link pkg name l).dependents)
  unfolding link
  link_mutual n m =
      rw
        (
          count_added pkg n m name l.dependencies (lg.has_dependencies pkg here),
          count_added name m n pkg l.dependents (lg.has_dependents name there),
        )
        ground
        (
          arith,
          lg.graph.mutual_links n m,
          eq_iff pkg n,
          eq_iff name m,
          contains-count name (entry n l.dependencies),
          contains-count pkg (entry m l.dependents),
        )

  link-Distinct : (n : String) → Distinct (entry n (link pkg name l).dependencies)
  unfolding link
  link-Distinct n m =
      rw (count_added pkg n m name l.dependencies (lg.has_dependencies pkg here)) ground (
        arith,
        lg.graph.distinct_links n m,
        eq_iff name m,
        contains-count name (entry n l.dependencies),
      )

  link_known :
      (n m : String)
      → 1 ≤ count m (entry n (link pkg name l).dependencies)
      → (1 ≤ count n names) × (1 ≤ count m names)
  unfolding link
  link_known n m c =
      let c' = rw (count_added pkg n m name l.dependencies (lg.has_dependencies pkg here)) at c in
      ground (arith, c', lg.graph.known n m, eq_iff pkg n, eq_iff name m, here, there)

  link-IsLinking : IsLinking names (link pkg name l)
  unfolding link
  link-IsLinking = record {
    graph = record {
      distinct = lg.graph.distinct;
      mutual_links = link_mutual;
      distinct_links = link-Distinct;
      known = link_known;
    };
    has_dependencies =
        λ n c. is_some-update pkg n (add name) l.dependencies (lg.has_dependencies n c);
    has_dependents = λ n c. is_some-update name n (add pkg) l.dependents (lg.has_dependents n c);
  }

module _ (host : Host) (validate_ranges : Bool) (names : List String) (by_name : JsMap Package)
    (indexed : (n : String) → is_some (get n by_name) ≡ true → 1 ≤ count n names) where
  module _ (pkg : Package) (here : 1 ≤ count pkg.name names) where
    link_entry-cases :
        (name : String) (range : Range) (l l' : Links)
        → link_entry host validate_ranges by_name pkg name range l ≡ ok l'
        → (l' ≡ l) ⊎ ((is_some (get name by_name) ≡ true) × (l' ≡ link pkg.name name l))
    unfolding link_entry
    link_entry-cases name range l l' e =
        elim (Checked-cases (validate_file_reference host pkg name range by_name)) [
          | inr (why, invalid) ↦ absurd (ground (arith, invalid, e))
          | inl (_, valid) ↦ elim (Option-cases (get name by_name)) [
            | inl outside ↦ inl (ground (arith, valid, outside, e))
            | inr (target, inside) ↦ inr (rw inside refl, ground (arith, valid, inside, e))
          ]
        ]

    link_entry-IsLinking :
        (name : String) (range : Range) (l l' : Links)
        → IsLinking names l
        → link_entry host validate_ranges by_name pkg name range l ≡ ok l'
        → IsLinking names l'
    link_entry-IsLinking name range l l' lg e = elim (link_entry-cases name range l l' e) [
      | inl same ↦ subst (IsLinking names) (sym same) lg
      | inr (inside, linked) ↦
          subst (IsLinking names) (sym linked)
            (link-IsLinking names pkg.name name l lg here (indexed name inside))
    ]

    link_section-IsLinking :
        (entries : List (String × Range)) (l l' : Links)
        → IsLinking names l
        → link_section host validate_ranges by_name pkg entries l ≡ ok l'
        → IsLinking names l'
    unfolding link_section
    link_section-IsLinking [] l l' lg e = subst (IsLinking names) (ok-injective e) lg
    link_section-IsLinking ((name, range) ∷ entries) l l' lg e =
        let (next, first, rest) =
          >>=-eq-ok (link_entry host validate_ranges by_name pkg name range l)
            (link_section host validate_ranges by_name pkg entries) l' e in
        link_section-IsLinking entries next l' (link_entry-IsLinking name range l next lg first)
          rest

    link_sections-IsLinking :
        (sections : List (List (String × Range))) (l l' : Links)
        → IsLinking names l
        → link_sections host validate_ranges by_name pkg sections l ≡ ok l'
        → IsLinking names l'
    unfolding link_sections
    link_sections-IsLinking [] l l' lg e = subst (IsLinking names) (ok-injective e) lg
    link_sections-IsLinking (entries ∷ sections) l l' lg e =
        let (next, first, rest) =
          >>=-eq-ok (link_section host validate_ranges by_name pkg entries l)
            (link_sections host validate_ranges by_name pkg sections) l' e in
        link_sections-IsLinking sections next l' (link_section-IsLinking entries l next lg first)
          rest

  pub link_packages-IsLinking :
      (pkgs linked : List Package) (l l' : Links)
      → ((n : String) → 1 ≤ count n (names_of pkgs) → 1 ≤ count n names)
      → IsLinking names l
      → link_packages host validate_ranges by_name pkgs l ≡ ok (linked, l')
      → IsLinking names l' × (names_of linked ≡ names_of pkgs)
  unfolding link_packages
  link_packages-IsLinking [] linked l l' within lg e =
      let same = ok-injective e in
      (subst (IsLinking names) (ap (λ p. p.1) same) lg, ap (λ p. names_of p.0) (sym same))
  link_packages-IsLinking (pkg ∷ pkgs) linked l l' within lg e =
      let (next, first, rest) =
        >>=-eq-ok (link_sections host validate_ranges by_name pkg pkg.sections l)
          (λ (next : Links).
            link_packages host validate_ranges by_name pkgs next >>= λ (others, last).
            ok (with_dependencies pkg next ∷ others, last))
          (linked, l') e in
      let ((others, last), second, end) =
        >>=-eq-ok (link_packages host validate_ranges by_name pkgs next)
          (λ (others, last). ok (with_dependencies pkg next ∷ others, last)) (linked, l') rest in
      let same = ok-injective end in
      let (kept, names_same) =
        link_packages-IsLinking pkgs others next last
          (λ n c. within n (count-tail n pkg.name (names_of pkgs) c))
          (link_sections-IsLinking pkg (within pkg.name (count-head pkg.name (names_of pkgs)))
            pkg.sections l next lg first)
          second in
      (
        subst (IsLinking names) (ap (λ p. p.1) same) kept,
        ap (λ p. names_of p.0) (sym same) ∙ ap (◌∷◌ pkg.name) names_same,
      )
