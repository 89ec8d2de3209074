-- ===== src/JsMap/Entries.antt =====
-- Entries that are set one after the other.
use cap_nodejs.Prelude.{
  String, none, some, [], ◌∷◌, ◌++◌, ◌≡◌, refl, sym, arith, str_eq, eq_iff, All, inl, inr,
  Bool-cases,
}
use mathlib.Core.List.{append_assoc, append-nil}
use cap_nodejs.JsMap.{JsMap, get, set}

-- No two entries have the same key.
abbrev pub Keys : {V : Type 0} → JsMap V → Type 0
Keys [] = Unit
Keys ((k, v) ∷ m) = (get k m ≡ none) × Keys m

module _ {V : Type 0} where
  -- The entries of a list, set one after the other
  abbrev pub set_all : JsMap V → JsMap V → JsMap V
  set_all [] acc = acc
  set_all ((k, v) ∷ m) acc = set_all m (set k v acc)

  abbrev pub NewTo : JsMap V → JsMap V → Type 0
  NewTo acc m = All (λ e. get e.0 acc ≡ none) m

  pub set-append :
      (k : String) (v : V) (m : JsMap V) → get k m ≡ none → set k v m ≡ m ++ (k, v) ∷ []
  set-append k v [] h = refl
  set-append k v ((j, w) ∷ m) h = elim (Bool-cases (str_eq j k)) [
    | inl same ↦ absurd (ground (arith, same, h))
    | inr other ↦ rw (other, set-append k v m (rw other at h)) refl
  ]

  pub get-append :
      (k : String) (m n : JsMap V)
      → get k (m ++ n) ≡ elim (get k m) [ none ↦ get k n | some v ↦ some v ]
  get-append k [] n = refl
  get-append k ((j, w) ∷ m) n = ground (arith, get-append k m n)

  NewTo-append :
      (k : String) (v : V) (acc m : JsMap V)
      → get k m ≡ none
      → NewTo acc m
      → NewTo (acc ++ (k, v) ∷ []) m
  NewTo-append k v acc [] h new = tt
  NewTo-append k v acc ((j, w) ∷ m) h new = ground (
    arith,
    h,
    new,
    eq_iff j k,
    eq_iff k j,
    get-append j acc ((k, v) ∷ []),
    NewTo-append k v acc m,
  )

  pub set_all-append : (m acc : JsMap V) → Keys m → NewTo acc m → set_all m acc ≡ acc ++ m
  set_all-append [] acc keys new = sym (append-nil acc)
  set_all-append ((k, v) ∷ m) acc keys new =
      rw
        (
          set-append k v acc new.0,
          set_all-append m (acc ++ (k, v) ∷ []) keys.1 (NewTo-append k v acc m keys.0 new.1),
        )
        (append_assoc acc ((k, v) ∷ []) m)

  pub NewTo-nil : (m : JsMap V) → NewTo [] m
  NewTo-nil [] = tt
  NewTo-nil (e ∷ m) = (refl, NewTo-nil m)

  pub Keys-append :
      (k : String) (v : V) (m : JsMap V) → Keys m → get k m ≡ none → Keys (m ++ (k, v) ∷ [])
  Keys-append k v [] keys h = (refl, tt)
  Keys-append k v ((j, w) ∷ m) keys h = elim (Bool-cases (str_eq j k)) [
    | inl same ↦ absurd (ground (arith, same, h))
    | inr other ↦ (
      ground (arith, keys, other, eq_iff j k, eq_iff k j, get-append j m ((k, v) ∷ [])),
      Keys-append k v m keys.1 (ground (arith, other, h)),
    )
  ]
