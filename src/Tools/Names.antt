-- ===== src/Tools/Names.antt =====
-- Lists of names as the tools use them: the order of texts and sorting by it (`compareStrings` of
-- tools/workspace-packages.js), a `Set`, and how often a name stands in a list.
use Prim.Native.Char.{Char, code}
use Prim.Native.Nat.{◌%◌}
use cap_nodejs.Prelude.{
  ℕ, suc, ◌+◌, ◌-◌, ◌/◌, ◌≤◌, String, Bool, true, false, List, [], ◌∷◌, ◌++◌, ◌≡◌, refl, ◌⊎◌, inl,
  inr, ltb, ◌==◌, str_eq, eq_iff, eq_refl, if◌then◌else◌, arith, length, Bool-cases,
}

-- The UTF-16 code units of a text
abbrev units_of : Char → List ℕ
units_of c =
    let n = code c in
    if ltb n 0x10000
    then n ∷ []
    else (0xD800 + (n - 0x10000) / 0x400) ∷ (0xDC00 + (n - 0x10000) % 0x400) ∷ []

abbrev units : String → List ℕ
units String.[] = []
units (String.◌∷◌ c s) = units_of c ++ units s

abbrev less_units : List ℕ → List ℕ → Bool
less_units [] [] = false
less_units [] (v ∷ vs) = true
less_units (u ∷ us) [] = false
less_units (u ∷ us) (v ∷ vs) = if u == v then less_units us vs else ltb u v

-- `compareStrings(left, right) < 0`
unfoldable pub before : String → String → Bool
before left right = less_units (units left) (units right)

insert_sorted : String → List String → List String
insert_sorted x [] = x ∷ []
insert_sorted x (y ∷ ys) = if before y x then y ∷ insert_sorted x ys else x ∷ y ∷ ys

-- `names.sort(compareStrings)`
unfoldable pub sort : List String → List String
unfolding insert_sorted before
sort [] = []
sort (x ∷ xs) = insert_sorted x (sort xs)

-- `set.has(n)`
unfoldable pub contains : String → List String → Bool
contains n [] = false
contains n (x ∷ xs) = if str_eq x n then true else contains n xs

-- `set.add(n)`
unfoldable pub add : String → List String → List String
unfolding contains
add n xs = if contains n xs then xs else xs ++ n ∷ []

-- How often a name stands in a list
unfoldable pub count : String → List String → ℕ
count n [] = 0
count n (x ∷ xs) = if str_eq x n then suc (count n xs) else count n xs

pub count-append : (n : String) (xs ys : List String) → count n (xs ++ ys) ≡ count n xs + count n ys
unfolding count
count-append n [] ys = omega arith
count-append n (x ∷ xs) ys = ground (arith, count-append n xs ys)

count-insert_sorted :
    (n x : String) (xs : List String) → count n (insert_sorted x xs) ≡ count n (x ∷ xs)
unfolding count insert_sorted
count-insert_sorted n x [] = refl
count-insert_sorted n x (y ∷ ys) = ground (arith, count-insert_sorted n x ys)

-- Sorting changes no count.
pub count-sort : (n : String) (xs : List String) → count n (sort xs) ≡ count n xs
unfolding count sort
count-sort n [] = refl
count-sort n (x ∷ xs) = ground (arith, count-insert_sorted n x (sort xs), count-sort n xs)

pub contains-count :
    (n : String) (xs : List String)
    → ((contains n xs ≡ true) × (1 ≤ count n xs)) ⊎ ((contains n xs ≡ false) × (count n xs ≡ 0))
unfolding contains count
contains-count n [] = inr (refl, refl)
contains-count n (x ∷ xs) = elim (Bool-cases (str_eq x n)) [
  | inl same ↦ rw same (inl (refl, omega arith))
  | inr other ↦ rw other (contains-count n xs)
]

pub count-add :
    (n m : String) (xs : List String)
    → count n (add m xs) ≡ (if contains m xs then count n xs else count n xs + count n (m ∷ []))
unfolding add
count-add n m xs = elim (Bool-cases (contains m xs)) [
  | inl there ↦ rw there refl
  | inr new ↦ rw new (count-append n xs (m ∷ []))
]

pub count_one : (n x : String) → count n (x ∷ []) ≡ (if str_eq x n then 1 else 0)
unfolding count
count_one n x = refl

pub count_self : (n : String) → count n (n ∷ []) ≡ 1
unfolding count
count_self n = rw (eq_refl n) refl

pub count_other : (n m : String) → str_eq m n ≡ false → count n (m ∷ []) ≡ 0
unfolding count
count_other n m h = rw h refl

pub count-head : (n : String) (ns : List String) → 1 ≤ count n (n ∷ ns)
unfolding count
count-head n ns = ground (arith, eq_refl n)

pub count-tail : (m n : String) (ns : List String) → 1 ≤ count m ns → 1 ≤ count m (n ∷ ns)
unfolding count
count-tail m n ns h = ground arith

pub count-cons_cases :
    (m n : String) (ns : List String)
    → 1 ≤ count m (n ∷ ns)
    → (1 ≤ count m (n ∷ [])) ⊎ (1 ≤ count m ns)
unfolding count
count-cons_cases m n ns h = elim (Bool-cases (str_eq n m)) [
  | inl same ↦ inl (rw same (omega arith))
  | inr other ↦ inr (ground (arith, other, h))
]

abbrev pub Distinct : List String → Type 0
Distinct xs = (n : String) → count n xs ≤ 1

pub Distinct-cons :
    (x : String) (xs : List String) → count x xs ≡ 0 → Distinct xs → Distinct (x ∷ xs)
unfolding count
Distinct-cons x xs absent distinct n = ground (arith, eq_iff x n, distinct n)

-- The first entry of a name is taken out.
remove : String → List String → List String
remove n [] = []
remove n (x ∷ xs) = if str_eq x n then xs else x ∷ remove n xs

length-remove :
    (n : String) (xs : List String) → 1 ≤ count n xs → suc (length (remove n xs)) ≡ length xs
unfolding remove count
length-remove n [] h = absurd (omega arith)
length-remove n (x ∷ xs) h = ground (arith, length-remove n xs)

count-remove :
    (n m : String) (xs : List String)
    → 1 ≤ count n xs
    → count m (remove n xs) + count m (n ∷ []) ≡ count m xs
unfolding remove count
count-remove n m [] h = absurd (omega arith)
count-remove n m (x ∷ xs) h =
    ground (arith, eq_iff x n, eq_iff x m, eq_iff n m, count-remove n m xs)

-- A list whose names all stand as often in another is no longer than that.
pub length-le_of_count :
    (xs ys : List String) → ((n : String) → count n xs ≤ count n ys) → length xs ≤ length ys
length-le_of_count [] ys h = omega arith
length-le_of_count (x ∷ xs) ys h =
    let there : 1 ≤ count x ys = unfold count in ground (arith, h x, eq_refl x) in
    let rest =
      length-le_of_count xs (remove x ys)
        (λ n. unfold count in ground (arith, h n, count-remove x n ys)) in
    omega (arith, length-remove x ys there)
