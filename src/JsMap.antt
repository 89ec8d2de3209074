-- ===== src/JsMap.antt =====
-- A JavaScript `Map` keyed by texts: an association list in insertion order.
pub mod Laws
pub mod Entries
use cap_nodejs.Prelude.{
  String, Bool, Option, none, some, List, [], ◌∷◌, str_eq, if◌then◌else◌, is_some, map,
}

abbrev pub JsMap {ℓ} : Type ℓ → Type ℓ
JsMap V = List (String × V)

module _ {ℓ} {V : Type ℓ} where
  -- `m.get(k)`
  abbrev pub get : String → JsMap V → Option V
  get k [] = none
  get k ((j, v) ∷ m) = if str_eq j k then some v else get k m

  -- `m.has(k)`
  abbrev pub has : String → JsMap V → Bool
  has k m = is_some (get k m)

  -- `m.set(k, v)`: an existing key keeps its place, a new one goes to the end.
  abbrev pub set : String → V → JsMap V → JsMap V
  set k v [] = (k, v) ∷ []
  set k v ((j, w) ∷ m) = if str_eq j k then (j, v) ∷ m else (j, w) ∷ set k v m

  -- A write through the object that `m.get(k)` returned.
  abbrev pub update : String → (V → V) → JsMap V → JsMap V
  update k f [] = []
  update k f ((j, w) ∷ m) = if str_eq j k then (j, f w) ∷ m else (j, w) ∷ update k f m

  -- A loop over `m.values()` that writes to each object.
  abbrev pub update_all : (V → V) → JsMap V → JsMap V
  update_all f [] = []
  update_all f ((j, w) ∷ m) = (j, f w) ∷ update_all f m

  -- `[...m.values()]`
  abbrev pub values : JsMap V → List V
  values = map λ e. e.1

  -- `m.delete(k)`
  abbrev pub delete : String → JsMap V → JsMap V
  delete k [] = []
  delete k ((j, w) ∷ m) = if str_eq j k then delete k m else (j, w) ∷ delete k m
