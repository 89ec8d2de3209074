-- ===== src/Sql/Rows.antt =====
-- The effect of an UPDATE that names one row by its key, seen as a map from keys to what the rows denote.
use cap_nodejs.Prelude.{
  String, Bool, true, false, ◌&&◌, none, some, List, [], ◌∷◌, ◌≡◌, refl, subst, inl, inr, str_eq,
  eq_iff, arith, leb, if◌then◌else◌, Bool-cases,
}
use cap_nodejs.JsMap.{JsMap, get, update, update_all}
use cap_nodejs.Sql.{Update, matched, updated, assign}

module _ {R E : Type 0} (key : R → String) (denotes : R → E) where
  abbrev pub to_map : List R → JsMap E
  to_map [] = []
  to_map (r ∷ t) = (key r, denotes r) ∷ to_map t

  -- The primary key: no two rows have the same.
  abbrev pub HasKeys : List R → Type 0
  HasKeys [] = Unit
  HasKeys (r ∷ t) = (get (key r) (to_map t) ≡ none) × HasKeys t

  -- A guarded write to the entry of one key: whether it took place, and the map after it
  abbrev pub write_if : String → (E → Bool) → (E → E) → JsMap E → Bool × JsMap E
  write_if k q g m = elim (get k m) [
    | none ↦ (false, m)
    | some e ↦ if q e then (true, update k g m) else (false, m)
  ]

  module _ (in_order : Bool) (u : Update R) where
    abbrev pub set : R → R
    set r = assign in_order u.assignments r r

    module _ (k : String) (q : E → Bool) (g : E → E)
        (tests : (r : R) → u.condition r ≡ (str_eq (key r) k && q (denotes r)))
        (writes : (r : R) → denotes (set r) ≡ g (denotes r))
        (keeps : (r : R) → key (set r) ≡ key r) where
      updated_absent :
          (t : List R)
          → get k (to_map t) ≡ none
          → (matched u t ≡ 0) × (to_map (updated in_order u t) ≡ to_map t)
      updated_absent [] h = (refl, refl)
      updated_absent (r ∷ t) h = ground (arith, tests r, updated_absent t)

      -- Where the condition names a row by its key, an UPDATE is a guarded write to that key's entry.
      pub updated-write_if :
          (t : List R)
          → HasKeys t
          → write_if k q g (to_map t) ≡ (leb 1 (matched u t), to_map (updated in_order u t))
      updated-write_if [] h = refl
      updated-write_if (r ∷ t) h = elim (Bool-cases (str_eq (key r) k)) [
        | inl hit ↦ ground (
          arith,
          hit,
          h,
          eq_iff (key r) k,
          tests r,
          writes r,
          keeps r,
          updated_absent t (subst (λ j. get j (to_map t) ≡ none) ((eq_iff (key r) k).0 hit) h.0),
        )
        | inr miss ↦ ground (arith, miss, h, tests r, updated-write_if t h.1)
      ]

    -- An UPDATE whose effect on each row is that of a function on what the row denotes
    pub updated-update_all :
        (g : E → E)
        → ((r : R) → denotes (if u.condition r then set r else r) ≡ g (denotes r))
        → ((r : R) → key (set r) ≡ key r)
        → (t : List R) → to_map (updated in_order u t) ≡ update_all g (to_map t)
    updated-update_all g writes keeps [] = refl
    updated-update_all g writes keeps (r ∷ t) =
        ground (arith, writes r, keeps r, updated-update_all g writes keeps t)

    updated-none :
        ((r : R) → key (set r) ≡ key r)
        → (k : String) (t : List R) → get k (to_map t) ≡ none
        → get k (to_map (updated in_order u t)) ≡ none
    updated-none keeps k [] h = refl
    updated-none keeps k (r ∷ t) h = ground (arith, h, keeps r, updated-none keeps k t)

    -- An UPDATE that writes no key keeps the primary key.
    pub updated-HasKeys :
        ((r : R) → key (set r) ≡ key r) → (t : List R) → HasKeys t → HasKeys (updated in_order u t)
    updated-HasKeys keeps [] h = tt
    updated-HasKeys keeps (r ∷ t) h =
        ground (arith, h, keeps r, updated-none keeps (key r) t h.0, updated-HasKeys keeps t h.1)
