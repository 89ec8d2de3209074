-- ===== src/Tools/Closure/Reached.antt =====
-- A closure holds exactly the names that are reached from the seeds.
use cap_nodejs.Prelude.{
  ℕ, zero, suc, ◌+◌, ◌≤◌, String, true, false, some, List, [], ◌∷◌, ◌++◌, ◌≡◌, ◌↔◌, refl, sym, inl,
  inr, arith, length, length-append, if◌then◌else◌, str_eq, eq_iff, Bool-cases, subst,
}
use cap_nodejs.JsMap.{JsMap}
use cap_nodejs.Tools.Names.{
  sort, contains, add, count, count-sort, count-append, count-add, contains-count, count_one,
  count-head, count_other, Distinct, length-le_of_count,
}
use cap_nodejs.Tools.Search.{entry}
use cap_nodejs.Tools.Closure.{
  Frontier, offer, offer_all, set_of, expand, all_names, transitive_closure,
}

-- The names that are reached from some seeds
pub data Reaches (edges : JsMap (List String)) (seeds : List String) : String → Type 0 where
  seed : {n : String} → 1 ≤ count n seeds → Reaches edges seeds n
  edge :
      {n m : String} → Reaches edges seeds n → 1 ≤ count m (entry n edges) → Reaches edges seeds m

-- Whether names that are offered are new
abbrev new_name : String → List String → List String → ℕ
new_name n ns result = if contains n result then 0 else if contains n ns then 1 else 0

offer_result :
    (n d : String) (f : Frontier)
    → count n (offer d f).result ≡ count n f.result + new_name n (d ∷ []) f.result
unfolding offer contains
offer_result n d f = ground (arith, eq_iff d n, count-add n d f.result, count_one n d)

offer_queue :
    (n d : String) (f : Frontier)
    → count n (offer d f).queue ≡ count n f.queue + new_name n (d ∷ []) f.result
unfolding offer contains
offer_queue n d f = ground (
  arith,
  eq_iff d n,
  count-sort n (f.queue ++ d ∷ []),
  count-append n f.queue (d ∷ []),
  count_one n d,
)

contains_one : (n d : String) → contains n (d ∷ []) ≡ str_eq d n
unfolding contains
contains_one n d = ground arith

contains-offer :
    (n d : String) (f : Frontier)
    → contains n (offer d f).result ≡ (if contains n f.result then true else str_eq d n)
contains-offer n d f = ground (
  arith,
  offer_result n d f,
  contains_one n d,
  contains-count n f.result,
  contains-count n (offer d f).result,
)

offer_all_result :
    (n : String) (ns : List String) (f : Frontier)
    → count n (offer_all ns f).result ≡ count n f.result + new_name n ns f.result
unfolding offer_all contains
offer_all_result n [] f = ground arith
offer_all_result n (d ∷ ns) f =
    ground (arith, offer_all_result n ns (offer d f), offer_result n d f, contains-offer n d f)

offer_all_queue :
    (n : String) (ns : List String) (f : Frontier)
    → count n (offer_all ns f).queue ≡ count n f.queue + new_name n ns f.result
unfolding offer_all contains
offer_all_queue n [] f = ground arith
offer_all_queue n (d ∷ ns) f =
    ground (arith, offer_all_queue n ns (offer d f), offer_queue n d f, contains-offer n d f)

count-set_of :
    (n : String) (ns set : List String)
    → count n ns ≤ 1
    → (1 ≤ count n ns → count n set ≡ 0)
    → count n (set_of ns set) ≡ count n set + count n ns
unfolding set_of
count-set_of n [] set once new = unfold count in omega arith
count-set_of n (k ∷ ns) set once new =
    let cons = count-append n (k ∷ []) ns in
    elim (Bool-cases (str_eq k n)) [
      | inl same ↦
          let one : count n (k ∷ []) ≡ 1 = rw (count_one n k, same) refl in
          ground (
            arith,
            (eq_iff k n).0 same,
            one,
            cons,
            new,
            count-add n k set,
            contains-count k set,
            count-set_of n ns (add k set),
          )
      | inr other ↦ ground (
        arith,
        count_other n k other,
        cons,
        new,
        once,
        count-add n k set,
        count-set_of n ns (add k set),
      )
    ]

count-all_names :
    (k n : String) (m : JsMap (List String)) → count n (entry k m) ≤ count n (all_names m)
unfolding all_names
count-all_names k n [] = unfold count in omega arith
count-all_names k n ((j, names) ∷ m) =
    ground (arith, count-append n names (all_names m), count-all_names k n m)

module _ (edges : JsMap (List String)) (seeds : List String) where
  -- The loop's invariant, with the names that were taken out
  record IsExpanding (result queue taken : List String) : Type 0 where
    distinct : Distinct result
    split : (n : String) → count n taken + count n queue ≡ count n result
    reached : (n : String) → 1 ≤ count n result → Reaches edges seeds n
    has_seeds : (n : String) → 1 ≤ count n seeds → 1 ≤ count n result
    closed_under :
        (n m : String) → 1 ≤ count n taken → 1 ≤ count m (entry n edges) → 1 ≤ count m result

  module _ (result rest taken : List String) (name : String)
      (inv : IsExpanding result (name ∷ rest) taken) where
    abbrev next : Frontier
    next = offer_all (sort (entry name edges)) (record { result = result; queue = rest })

    next_result :
        (n : String)
        → count n next.result ≡ count n result + new_name n (sort (entry name edges)) result
    next_result n =
        offer_all_result n (sort (entry name edges)) (record { result = result; queue = rest })

    next_queue :
        (n : String)
        → count n next.queue ≡ count n rest + new_name n (sort (entry name edges)) result
    next_queue n =
        offer_all_queue n (sort (entry name edges)) (record { result = result; queue = rest })

    grows : (n : String) → 1 ≤ count n result → 1 ≤ count n next.result
    grows n c = omega (arith, next_result n)

    offered : (n : String) → 1 ≤ count n (entry name edges) → 1 ≤ count n next.result
    offered n c = ground (
      arith,
      next_result n,
      contains-count n result,
      contains-count n (sort (entry name edges)),
      count-sort n (entry name edges),
    )

    next_reached : (n : String) → 1 ≤ count n next.result → Reaches edges seeds n
    next_reached n c = elim (contains-count n result) [
      | inl (_, old) ↦ inv.reached n old
      | inr (new, absent) ↦ elim (contains-count n (sort (entry name edges))) [
        | inl (_, linked) ↦
            edge (inv.reached name (omega (arith, inv.split name, count-head name rest)))
              (omega (arith, count-sort n (entry name edges), linked))
        | inr (other, _) ↦ absurd (ground (arith, next_result n, new, absent, other, c))
      ]
    ]

    next-IsExpanding : IsExpanding next.result next.queue (name ∷ taken)
    next-IsExpanding = record {
      distinct = λ n. ground (arith, next_result n, inv.distinct n, contains-count n result);
      split = λ n. omega (
        arith,
        next_result n,
        next_queue n,
        inv.split n,
        count-append n (name ∷ []) taken,
        count-append n (name ∷ []) rest,
      );
      reached = next_reached;
      has_seeds = λ n c. grows n (inv.has_seeds n c);
      closed_under = λ n m t c. elim (Bool-cases (str_eq name n)) [
        | inl same ↦
            offered m (subst (λ k. 1 ≤ count m (entry k edges)) (sym ((eq_iff name n).0 same)) c)
        | inr other ↦ grows m (inv.closed_under n m (rest_of n other t) c)
      ];
    }
      where
        rest_of :
            (n : String) → str_eq name n ≡ false → 1 ≤ count n (name ∷ taken) → 1 ≤ count n taken
        rest_of n other t =
            omega (arith, count-append n (name ∷ []) taken, count_other n name other)

  abbrev all_known : List String
  all_known = seeds ++ all_names edges

  Reaches-known : (n : String) → Reaches edges seeds n → 1 ≤ count n all_known
  Reaches-known n (seed c) = omega (arith, count-append n seeds (all_names edges))
  Reaches-known n (edge {n = k} r c) =
      omega (arith, count-append n seeds (all_names edges), count-all_names k n edges)

  count-le_known :
      (n : String) (result others : List String)
      → count n result ≤ 1
      → count n others ≡ count n result
      → (1 ≤ count n result → Reaches edges seeds n)
      → count n others ≤ count n all_known
  count-le_known n result others once same reached = elim (contains-count n result) [
    | inl (_, there) ↦ omega (arith, Reaches-known n (reached there))
    | inr (_, absent) ↦ omega arith
  ]

  all_taken :
      (result taken : List String) (k : String)
      → count k taken + count k [] ≡ count k result
      → 1 ≤ count k result
      → 1 ≤ count k taken
  unfolding count
  all_taken result taken k split c = omega arith

  start : Distinct seeds → IsExpanding (set_of seeds []) (sort seeds) []
  start distinct =
      let same : (n : String) → count n (set_of seeds []) ≡ count n seeds =
        (λ n. unfold count in omega (arith, count-set_of n seeds [] (distinct n) (λ c. refl))) in
      record {
        distinct = λ n. omega (arith, same n, distinct n);
        split = λ n. unfold count in omega (arith, same n, count-sort n seeds);
        reached = λ n c. seed (omega (arith, same n));
        has_seeds = λ n c. omega (arith, same n);
        closed_under = λ n m t c. absurd (unfold count in omega arith);
      }

  expand_lem :
      (fuel : ℕ) (result queue taken : List String)
      → IsExpanding result queue taken
      → length all_known ≤ fuel + length taken
      → (final taken' : List String) × (expand edges fuel result queue ≡ some final)
        × IsExpanding final [] taken'
  unfolding expand
  expand_lem fuel result [] taken inv h = (result, taken, refl, inv)
  expand_lem zero result (name ∷ rest) taken inv h = absurd (
      omega (
        arith,
        length-le_of_count (taken ++ name ∷ rest) all_known (λ n.
            count-le_known n result (taken ++ name ∷ rest) (inv.distinct n)
              (omega (arith, count-append n taken (name ∷ rest), inv.split n)) (inv.reached n)),
        length-append taken (name ∷ rest),
      ))
  expand_lem (suc fuel) result (name ∷ rest) taken inv h =
      expand_lem fuel (next result rest taken name inv).result
        (next result rest taken name inv).queue (name ∷ taken)
        (next-IsExpanding result rest taken name inv) (omega arith)

  Reaches-in :
      (result taken : List String)
      → IsExpanding result [] taken
      → (n : String) → Reaches edges seeds n
      → 1 ≤ count n result
  Reaches-in result taken inv n (seed c) = inv.has_seeds n c
  Reaches-in result taken inv n (edge {n = k} r c) =
      let before = Reaches-in result taken inv k r in
      inv.closed_under k n (all_taken result taken k (inv.split k) before) c

  -- Of distinct seeds, the closure ends within its fuel, and holds a name exactly if it is a seed or is reached from
  -- one by edges; each once.
  pub transitive_closure_lem :
      Distinct seeds
      → (final : List String) × (transitive_closure seeds edges ≡ some final)
        × Distinct final
        × ((n : String) → (contains n final ≡ true) ↔ Reaches edges seeds n)
  unfolding transitive_closure
  transitive_closure_lem distinct =
      let (final, taken, returns, inv) =
        expand_lem (length all_known) (set_of seeds []) (sort seeds) [] (start distinct)
          (omega arith) in
      (
        final,
        returns,
        inv.distinct,
        λ n. (
          λ c. inv.reached n (ground (arith, contains-count n final, c)),
          λ r. ground (arith, contains-count n final, Reaches-in final taken inv n r),
        ),
      )
