-- ===== src/Tools/Graph/Ranks.antt =====
-- Ranks of names: the place of a name in an order, and the highest rank in a list.
use cap_nodejs.Prelude.{
  ℕ, suc, max, ◌≤◌, ◌<◌, String, true, false, List, [], ◌∷◌, ◌≡◌, refl, inl, inr, arith, map, sym,
  ◌⊎◌, if◌then◌else◌, str_eq, eq_iff, Bool-cases, subst, length, is_some,
}
use cap_nodejs.JsMap.{JsMap, get}
use cap_nodejs.Tools.Names.{contains, count, count-tail, contains-count}
use cap_nodejs.Tools.Search.{entry}
use cap_nodejs.Tools.Search.Explored.{free}
use cap_nodejs.Tools.Search.Finished.{Ordered}

abbrev pub keys {ℓ} : {V : Type ℓ} → JsMap V → List String
keys m = map (λ e. e.0) m

pub count-keys {ℓ} :
    {V : Type ℓ} (n : String) (m : JsMap V)
    → ((is_some (get n m) ≡ true) × (1 ≤ count n (keys m)))
      ⊎ ((is_some (get n m) ≡ false) × (count n (keys m) ≡ 0))
unfolding count
count-keys n [] = inr (refl, refl)
count-keys n ((k, v) ∷ m) = elim (Bool-cases (str_eq k n)) [
  | inl same ↦ rw same (inl (refl, omega arith))
  | inr other ↦ rw other (count-keys n m)
]

pub free-le : (ns : List String) → free [] ns ≤ length ns
free-le [] = omega arith
free-le (n ∷ ns) = omega (arith, free-le ns)

unfoldable pub highest : (String → ℕ) → List String → ℕ
highest rank [] = 0
highest rank (n ∷ ns) = max (rank n) (highest rank ns)

pub highest-above :
    (rank : String → ℕ) (n : String) (ns : List String)
    → 1 ≤ count n ns
    → rank n < suc (highest rank ns)
unfolding highest count
highest-above rank n [] c = absurd (omega arith)
highest-above rank n (k ∷ ns) c = elim (Bool-cases (str_eq k n)) [
  | inl same ↦
      subst (λ j. rank j < suc (max (rank k) (highest rank ns))) ((eq_iff k n).0 same) (omega arith)
  | inr other ↦ omega (arith, highest-above rank n ns (rw other at c))
]

-- The place of a name's last occurrence, from the list's end
unfoldable pub rank_in : List String → String → ℕ
rank_in [] n = 0
rank_in (k ∷ ns) n = if contains n ns then rank_in ns n else suc (length ns)

pub rank_in-le : (ns : List String) (n : String) → rank_in ns n ≤ length ns
unfolding rank_in
rank_in-le [] n = omega arith
rank_in-le (k ∷ ns) n = ground (arith, rank_in-le ns n)

first_is : (k n : String) (ns : List String) → 1 ≤ count n (k ∷ ns) → count n ns ≡ 0 → k ≡ n
unfolding count
first_is k n ns c h = elim (Bool-cases (str_eq k n)) [
  | inl same ↦ (eq_iff k n).0 same
  | inr other ↦ absurd (omega (arith, h, rw other at c))
]

-- In an order, each name has a higher rank than its dependencies.
pub rank_in-falls :
    (dependencies : JsMap (List String)) (os : List String)
    → Ordered dependencies os
    → (n m : String) → 1 ≤ count n os
    → 1 ≤ count m (entry n dependencies)
    → (1 ≤ count m os) × (rank_in os m < rank_in os n)
unfolding rank_in
rank_in-falls dependencies [] o n m c d = absurd (unfold count in omega arith)
rank_in-falls dependencies (k ∷ os) o n m c d = elim (contains-count n os) [
  | inl (again, there) ↦
      let (within, lower) = rank_in-falls dependencies os o.1 n m there d in
      (count-tail m k os within, ground (arith, again, lower, contains-count m os, within))
  | inr (last, absent) ↦
      let same : k ≡ n = first_is k n os c absent in
      let within = o.0 m (subst (λ j. 1 ≤ count m (entry j dependencies)) (sym same) d) in
      (count-tail m k os within, ground (arith, last, contains-count m os, within, rank_in-le os m))
]
