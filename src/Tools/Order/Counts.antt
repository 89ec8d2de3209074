-- ===== src/Tools/Order/Counts.antt =====
-- What a round of the loop does to the counts and to the queue.
use cap_nodejs.Prelude.{
  ℕ, zero, suc, ◌+◌, ◌-◌, ◌≤◌, String, true, Option, none, some, List, [], ◌∷◌, ◌++◌, ◌≡◌, refl,
  inl, inr, if◌then◌else◌, leb, str_eq, eq_iff, arith, Bool-cases, Option-cases,
}
use mathlib.Core.Option
use cap_nodejs.JsMap.{get}
use cap_nodejs.JsMap.Laws.{get-set}
use cap_nodejs.Tools.Names.{
  sort, contains, count, count-sort, count-append, contains-count, count_self, count_other,
  count-head, count-tail,
}
use cap_nodejs.Tools.Order.{Waiting, settle, settle_all}

-- How many of some dependencies are not in a list
unfoldable pub waiting : List String → List String → ℕ
waiting done [] = 0
waiting done (d ∷ ds) = if contains d done then waiting done ds else suc (waiting done ds)

pub waiting-zero :
    (done ds : List String) (m : String) → waiting done ds ≡ 0 → 1 ≤ count m ds → 1 ≤ count m done
unfolding waiting count
waiting-zero done [] m h c = absurd (omega arith)
waiting-zero done (d ∷ ds) m h c =
    ground (arith, eq_iff d m, contains-count d done, waiting-zero done ds m)

pub waiting-all :
    (done ds : List String)
    → ((m : String) → 1 ≤ count m ds → 1 ≤ count m done)
    → waiting done ds ≡ 0
unfolding waiting
waiting-all done [] h = refl
waiting-all done (d ∷ ds) h = ground (
  arith,
  h d (count-head d ds),
  contains-count d done,
  waiting-all done ds (λ m c. h m (count-tail m d ds c)),
)

contains-append :
    (d name : String) (done : List String)
    → contains d (done ++ name ∷ []) ≡ (if contains d done then true else str_eq name d)
unfolding contains
contains-append d name [] = ground arith
contains-append d name (x ∷ done) = ground (arith, contains-append d name done)

-- One more name is done.
pub waiting-append :
    (done ds : List String) (name : String)
    → count name done ≡ 0
    → waiting (done ++ name ∷ []) ds + count name ds ≡ waiting done ds
unfolding waiting count
waiting-append done [] name new = omega arith
waiting-append done (d ∷ ds) name new = ground (
  arith,
  contains-append d name done,
  contains-count d done,
  eq_iff d name,
  eq_iff name d,
  new,
  waiting-append done ds name new,
)

-- Whether a count of `w` falls to 0 by `c`
abbrev pub falls : Option ℕ → ℕ → ℕ
falls none c = 0
falls (some zero) c = 0
falls (some (suc w)) c = if leb (suc w) c then 1 else 0

count-push :
    (n d : String) (r : List String) → count n (sort (r ++ d ∷ [])) ≡ count n r + count n (d ∷ [])
count-push n d r = rw count-sort (count-append n r (d ∷ []))

settle_indegree :
    (n d : String) (w : Waiting)
    → get n (settle d w).indegree ≡ Option.map (λ k. k - count n (d ∷ [])) (get n w.indegree)
unfolding settle count
settle_indegree n d w = elim (Option-cases (get d w.indegree)) [
  | inl absent ↦ ground (arith, absent, eq_iff d n)
  | inr (k, there) ↦ ground (arith, there, eq_iff d n, get-set d n (k - 1) w.indegree)
]

settle_ready :
    (n d : String) (w : Waiting)
    → count n (settle d w).ready ≡ count n w.ready + falls (get n w.indegree) (count n (d ∷ []))
unfolding settle
settle_ready n d w = elim (Bool-cases (str_eq d n)) [
  | inl same ↦ ground (arith, same, (eq_iff d n).0 same, count-push n d w.ready, count_self n)
  | inr other ↦ ground (arith, count-push n d w.ready, count_other n d other)
]

pub settle_all_indegree :
    (n : String) (ds : List String) (w : Waiting)
    → get n (settle_all ds w).indegree ≡ Option.map (λ k. k - count n ds) (get n w.indegree)
unfolding settle_all
settle_all_indegree n [] w = unfold count in ground arith
settle_all_indegree n (d ∷ ds) w = ground (
  arith,
  settle_all_indegree n ds (settle d w),
  settle_indegree n d w,
  count-append n (d ∷ []) ds,
)

pub settle_all_ready :
    (n : String) (ds : List String) (w : Waiting)
    → count n (settle_all ds w).ready ≡ count n w.ready + falls (get n w.indegree) (count n ds)
unfolding settle_all
settle_all_ready n [] w = unfold count in ground arith
settle_all_ready n (d ∷ ds) w = ground (
  arith,
  settle_all_ready n ds (settle d w),
  settle_ready n d w,
  settle_indegree n d w,
  count-append n (d ∷ []) ds,
)
