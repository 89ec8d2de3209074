-- ===== src/JsMap/Laws.antt =====
-- The laws of maps: what each write does to each key, and that keys stay distinct.
use cap_nodejs.Prelude.{
  none, String, some, [], ◌∷◌, ◌≡◌, refl, str_eq, eq_iff, if◌then◌else◌, arith,
}
use mathlib.Core.Option
use cap_nodejs.JsMap.{JsMap, get, set, update, update_all, delete}

module _ {ℓ} {V : Type ℓ} where
  pub get-set :
      (k j : String) (v : V) (m : JsMap V)
      → get j (set k v m) ≡ (if str_eq k j then some v else get j m)
  get-set k j v [] = refl
  get-set k j v ((i, w) ∷ m) = ground (arith, eq_iff k j, eq_iff i k, eq_iff i j, get-set k j v m)

  pub get-update :
      (k j : String) (f : V → V) (m : JsMap V)
      → get j (update k f m) ≡ (if str_eq k j then Option.map f (get j m) else get j m)
  get-update k j f [] = ground arith
  get-update k j f ((i, w) ∷ m) =
      ground (arith, eq_iff k j, eq_iff i k, eq_iff i j, get-update k j f m)

  pub get-update_all :
      (j : String) (f : V → V) (m : JsMap V) → get j (update_all f m) ≡ Option.map f (get j m)
  get-update_all j f [] = refl
  get-update_all j f ((i, w) ∷ m) = ground (arith, get-update_all j f m)

  pub get-delete :
      (k j : String) (m : JsMap V) → get j (delete k m) ≡ (if str_eq k j then none else get j m)
  get-delete k j [] = ground arith
  get-delete k j ((i, w) ∷ m) = ground (arith, eq_iff k j, eq_iff i k, eq_iff i j, get-delete k j m)
