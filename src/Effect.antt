-- ===== src/Effect.antt =====
-- Asynchronous code as a state passing computation that ends with a value or with a thrown one.
use cap_nodejs.Prelude.{Option, none, some, ◌≡◌, refl, ◌⊎◌, inl, inr}
use cap_nodejs.JsValue.{Thrown}

pub data Result (A : Type 0) : Type 0 where
  ok : A → Result A
  thrown : Thrown → Result A

abbrev pub Effect : Type 0 → Type 0 → Type 0
Effect S A = S → Result A × S

module _ {S : Type 0} where
  abbrev pub pure : {A : Type 0} → A → Effect S A
  pure a s = (ok a, s)

  infixl 5 ◌>>=◌ ◌>>◌
  abbrev pub ◌>>=◌ : {A B : Type 0} → Effect S A → (A → Effect S B) → Effect S B
  ◌>>=◌ m f s = let (r, t) = m s in elim r [ ok a ↦ f a t | thrown e ↦ (thrown e, t) ]

  abbrev pub ◌>>◌ : {A B : Type 0} → Effect S A → Effect S B → Effect S B
  m >> k = m >>= λ _. k

  -- `try { m } catch (err) { h(err) }`
  abbrev pub catch : {A : Type 0} → Effect S A → (Thrown → Effect S A) → Effect S A
  catch m h s = let (r, t) = m s in elim r [ ok a ↦ (ok a, t) | thrown e ↦ h e t ]

  abbrev pub done : Effect S (Unit {0})
  done = pure tt

  -- How a computation settles: none if it is fulfilled, or the reason why it is rejected.
  abbrev pub attempt : Effect S (Unit {0}) → Effect S (Option Thrown)
  attempt m s = let (r, t) = m s in (ok (elim r [ ok _ ↦ none | thrown e ↦ some e ]), t)

pub Result-cases :
    {A : Type 0} (r : Result A) → ((a : A) × (r ≡ ok a)) ⊎ ((e : Thrown) × (r ≡ thrown e))
Result-cases (ok a) = inl (a, refl)
Result-cases (thrown e) = inr (e, refl)
