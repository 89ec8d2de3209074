-- ===== src/Dashboard/Redaction/Hidden.antt =====
-- What redaction hides.
use cap_nodejs.Prelude.{
  ℕ, suc, String, Bool, true, false, not, ◌&&◌, Option, none, some, List, [], ◌∷◌, ◌≡◌, refl, sym,
  ap, subst, ◌∙◌, inl, inr, if◌then◌else◌, str_eq, eq_iff, arith, Bool-cases, Option-cases, All,
  eq_refl,
}
use mathlib.Core.Option
use cap_nodejs.JsValue.{Value, Items, Fields, nil, cons, end, field}
use cap_nodejs.Text.{split_dots}
use cap_nodejs.Dashboard.Redaction.{
  redacted, on_field, on_index, on_key, redact_path, redact_paths, redact_payload, is_object,
}

-- The own property of a name
abbrev pub get_field : String → Fields → Option Value
get_field key end = none
get_field key (field k v fs) = if str_eq k key then some v else get_field key fs

module _ (show_index : ℕ → String) where
  abbrev pub get_index : ℕ → String → Items → Option Value
  get_index i key nil = none
  get_index i key (cons v xs) =
      if str_eq (show_index i) key then some v else get_index (suc i) key xs

  abbrev pub get_key : String → Value → Option Value
  get_key key (Value.object plain fs) = get_field key fs
  get_key key (Value.array xs) = get_index 0 key xs
  get_key key v = none

  -- The value at a path
  abbrev pub at_path : List String → Value → Option Value
  at_path [] v = some v
  at_path (head ∷ tail) v = elim (get_key head v) [ none ↦ none | some w ↦ at_path tail w ]

  -- Nothing is at the path, or the mark of what was redacted.
  abbrev pub IsHidden : Option Value → Type 0
  IsHidden none = Unit
  IsHidden (some w) = w ≡ Value.string redacted

  -- A path has parts, and none is empty.
  abbrev pub is_plain : List String → Bool
  is_plain [] = false
  is_plain (head ∷ []) = not (str_eq head "")
  is_plain (head ∷ (next ∷ tail)) = not (str_eq head "") && is_plain (next ∷ tail)

  get_field-on_field :
      (key other : String) (f : Value → Value) (fs : Fields)
      → get_field other (on_field key f fs)
        ≡ (if str_eq key other then Option.map f (get_field other fs) else get_field other fs)
  unfolding on_field
  get_field-on_field key other f end = ground arith
  get_field-on_field key other f (field k v fs) =
      ground
        (arith, eq_iff k key, eq_iff k other, eq_iff key other, get_field-on_field key other f fs)

  get_index-on_index :
      (i : ℕ) (key other : String) (f : Value → Value) (xs : Items)
      → get_index i other (on_index show_index i key f xs)
        ≡ (if str_eq key other then Option.map f (get_index i other xs) else get_index i other xs)
  unfolding on_index
  get_index-on_index i key other f nil = ground arith
  get_index-on_index i key other f (cons v xs) = ground (
    arith,
    eq_iff (show_index i) key,
    eq_iff (show_index i) other,
    eq_iff key other,
    get_index-on_index (suc i) key other f xs,
  )

  get_key-on_key :
      (key other : String) (f : Value → Value) (v : Value)
      → str_eq key "" ≡ false
      → get_key other (on_key show_index key f v)
        ≡ (if str_eq key other then Option.map f (get_key other v) else get_key other v)
  unfolding on_key
  get_key-on_key key other f (Value.object plain fs) h =
      ground (arith, h, get_field-on_field key other f fs)
  get_key-on_key key other f (Value.array xs) h =
      ground (arith, h, get_index-on_index 0 key other f xs)
  get_key-on_key key other f Value.undefined h = ground arith
  get_key-on_key key other f Value.null h = ground arith
  get_key-on_key key other f (Value.boolean b) h = ground arith
  get_key-on_key key other f (Value.number n) h = ground arith
  get_key-on_key key other f (Value.string s) h = ground arith
  get_key-on_key key other f (Value.date d) h = ground arith
  get_key-on_key key other f Value.function h = ground arith

  -- A write to one property, and a path: what holds at the path after it
  on_key-at_path :
      (key head : String) (tail : List String) (f : Value → Value) (v : Value)
      → str_eq key "" ≡ false
      → IsHidden (at_path (head ∷ tail) v)
      → ((w : Value) → IsHidden (at_path tail w) → IsHidden (at_path tail (f w)))
      → IsHidden (at_path (head ∷ tail) (on_key show_index key f v))
  on_key-at_path key head tail f v named h keeps =
      let path : Option Value → Option Value =
        λ o. elim o [ none ↦ none | some w ↦ at_path tail w ] in
      subst (λ o. IsHidden (path o)) (sym (get_key-on_key key head f v named))
        (elim (Bool-cases (str_eq key head)) [
          | inr away ↦ rw (away) h
          | inl same ↦ elim (Option-cases (get_key head v)) [
            | inl absent ↦ rw (same, absent) tt
            | inr (w, there) ↦ rw (same, there) (keeps w (subst (λ o. IsHidden (path o)) there h))
          ]
        ])

  -- A write to a property, and a path through it
  on_key_own :
      (key : String) (tail : List String) (f : Value → Value) (v : Value)
      → str_eq key "" ≡ false
      → ((w : Value) → IsHidden (at_path tail (f w)))
      → IsHidden (at_path (key ∷ tail) (on_key show_index key f v))
  on_key_own key tail f v named hides =
      let path : Option Value → Option Value =
        λ o. elim o [ none ↦ none | some w ↦ at_path tail w ] in
      subst (λ o. IsHidden (path o)) (sym (get_key-on_key key key f v named))
        (elim (Option-cases (get_key key v)) [
          | inl absent ↦ rw (eq_refl key, absent) tt
          | inr (w, there) ↦ rw (eq_refl key, there) (hides w)
        ])

  mark_at_path : (parts : List String) → IsHidden (at_path parts (Value.string redacted))
  mark_at_path [] = refl
  mark_at_path (head ∷ tail) = tt

  redact_path_mark :
      (parts : List String) (s : String)
      → redact_path show_index parts (Value.string s) ≡ Value.string s
  unfolding redact_path on_key
  redact_path_mark [] s = refl
  redact_path_mark (head ∷ []) s = refl
  redact_path_mark (head ∷ (next ∷ tail)) s = refl

  -- What is hidden stays hidden when another path is redacted.
  redact_path_keeps :
      (parts path : List String) (v : Value)
      → is_plain parts ≡ true
      → IsHidden (at_path path v)
      → IsHidden (at_path path (redact_path show_index parts v))
  unfolding redact_path
  redact_path_keeps [] path v plain h = h
  redact_path_keeps (part ∷ []) [] v plain h =
      ap (on_key show_index part (λ _. Value.string redacted)) h
      ∙ redact_path_mark (part ∷ []) redacted
  redact_path_keeps (part ∷ (next ∷ rest)) [] v plain h =
      ap (on_key show_index part (redact_path show_index (next ∷ rest))) h
      ∙ redact_path_mark (part ∷ (next ∷ rest)) redacted
  redact_path_keeps (part ∷ []) (head ∷ tail) v plain h =
      on_key-at_path part head tail (λ _. Value.string redacted) v (ground (arith, plain)) h
        (λ w _. mark_at_path tail)
  redact_path_keeps (part ∷ (next ∷ rest)) (head ∷ tail) v plain h =
      on_key-at_path part head tail (redact_path show_index (next ∷ rest)) v (ground (arith, plain))
        h (λ w hidden. redact_path_keeps (next ∷ rest) tail w (ground (arith, plain)) hidden)

  redact_path_hides :
      (parts : List String) (v : Value)
      → is_plain parts ≡ true
      → IsHidden (at_path parts (redact_path show_index parts v))
  unfolding redact_path
  redact_path_hides [] v plain = absurd (ground (arith, plain))
  redact_path_hides (part ∷ []) v plain =
      on_key_own part [] (λ _. Value.string redacted) v (ground (arith, plain)) (λ w. refl)
  redact_path_hides (part ∷ (next ∷ rest)) v plain =
      on_key_own part (next ∷ rest) (redact_path show_index (next ∷ rest)) v (ground (arith, plain))
        (λ w. redact_path_hides (next ∷ rest) w (ground (arith, plain)))

  redact_paths_keeps :
      (paths path : List String) (v : Value)
      → All (λ p. is_plain (split_dots p) ≡ true) paths
      → IsHidden (at_path path v)
      → IsHidden (at_path path (redact_paths show_index paths v))
  unfolding redact_paths
  redact_paths_keeps [] path v plain h = h
  redact_paths_keeps (p ∷ paths) path v (plain, rest) h =
      redact_paths_keeps paths path (redact_path show_index (split_dots p) v) rest
        (redact_path_keeps (split_dots p) path v plain h)

  redact_paths_hides :
      (paths : List String) (v : Value)
      → All (λ p. is_plain (split_dots p) ≡ true) paths
      → All (λ p. IsHidden (at_path (split_dots p) (redact_paths show_index paths v))) paths
  unfolding redact_paths
  redact_paths_hides [] v plain = tt
  redact_paths_hides (p ∷ paths) v (plain, rest) =
      let w = redact_path show_index (split_dots p) v in
      (
        redact_paths_keeps paths (split_dots p) w rest (redact_path_hides (split_dots p) v plain),
        redact_paths_hides paths w rest,
      )

  bare_hides :
      (parts : List String) (v : Value)
      → is_object show_index v ≡ false
      → is_plain parts ≡ true
      → IsHidden (at_path parts v)
  bare_hides [] v bare plain = absurd (ground (arith, plain))
  bare_hides (head ∷ tail) (Value.object p fs) bare plain = absurd (ground (arith, bare))
  bare_hides (head ∷ tail) (Value.array xs) bare plain = absurd (ground (arith, bare))
  bare_hides (head ∷ tail) Value.undefined bare plain = tt
  bare_hides (head ∷ tail) Value.null bare plain = tt
  bare_hides (head ∷ tail) (Value.boolean b) bare plain = tt
  bare_hides (head ∷ tail) (Value.number n) bare plain = tt
  bare_hides (head ∷ tail) (Value.string s) bare plain = tt
  bare_hides (head ∷ tail) (Value.date d) bare plain = tt
  bare_hides (head ∷ tail) Value.function bare plain = tt

  All-bare_hides :
      (paths : List String) (v : Value)
      → is_object show_index v ≡ false
      → All (λ p. is_plain (split_dots p) ≡ true) paths
      → All (λ p. IsHidden (at_path (split_dots p) v)) paths
  All-bare_hides [] v bare plain = tt
  All-bare_hides (p ∷ paths) v bare (plain, rest) =
      (bare_hides (split_dots p) v bare plain, All-bare_hides paths v bare rest)

  -- In a redacted payload, there is nothing at any of the configured paths or the mark `[redacted]` is, in
  -- whatever order the paths come and however they overlap, when no path has an empty part.
  pub redact_payload_hides :
      (paths : List String) (v : Value)
      → All (λ p. is_plain (split_dots p) ≡ true) paths
      → All (λ p. IsHidden (at_path (split_dots p) (redact_payload show_index paths v))) paths
  unfolding redact_payload
  redact_payload_hides paths v plain = elim (Bool-cases (is_object show_index v)) [
    | inl object ↦ rw (object) (redact_paths_hides paths v plain)
    | inr bare ↦ rw (bare) (All-bare_hides paths v bare plain)
  ]
