-- ===== src/Prelude/Chain.antt =====
-- Chains of steps that may give nothing, or may raise.
use mathlib.Core.Path.{◌≡◌, refl}
use mathlib.Core.Option.{Option, none, some}
use mathlib.Core.List.{List, [], ◌∷◌}
use pro_rag.Prelude.Lists.{All}

infixl 5 ◌>>=◌
abbrev pub ◌>>=◌ : {A B : Type 0} → Option A → (A → Option B) → Option B
none >>= f = none
some a >>= f = f a

-- The predicate holds of the value, if there is one.
abbrev pub OnSome : {A : Type 0} → (A → Type 0) → Option A → Type 0
OnSome P none = Unit
OnSome P (some a) = P a

-- `[await f(x) for x in xs]`, which the first exception leaves.
abbrev pub each : {A B : Type 0} → (A → Option B) → List A → Option (List B)
each f [] = some []
each f (x ∷ xs) = f x >>= λ y. each f xs >>= λ ys. some (y ∷ ys)

module _ {A B : Type 0} where
  pub OnSome-bind :
      (P : A → Type 0) (Q : B → Type 0) (m : Option A) (f : A → Option B)
      → OnSome P m
      → ((a : A) → P a → OnSome Q (f a))
      → OnSome Q (m >>= f)
  OnSome-bind P Q none f h k = tt
  OnSome-bind P Q (some a) f h k = k a h

module _ {A : Type 0} where
  pub OnSome-any : (m : Option A) → OnSome (λ _. Unit {0}) m
  OnSome-any none = tt
  OnSome-any (some a) = tt

  pub of_OnSome : (P : A → Type 0) {m : Option A} {a : A} → OnSome P m → m ≡ some a → P a
  of_OnSome P h e = rw e at h

module _ {A B : Type 0} where
  pub OnSome-each :
      (P : B → Type 0) (f : A → Option B) (xs : List A)
      → ((x : A) → OnSome P (f x))
      → OnSome (All P) (each f xs)
  OnSome-each P f [] h = tt
  OnSome-each P f (x ∷ xs) h = OnSome-bind P (All P) (f x) _ (h x) (λ y py.
      OnSome-bind (All P) (All P) (each f xs) _ (OnSome-each P f xs h) (λ ys pys. (py, pys)))

  pub each_total :
      (f : A → Option B) (xs : List A)
      → ((x : A) → (y : B) × (f x ≡ some y))
      → (ys : List B) × (each f xs ≡ some ys)
  each_total f [] h = ([], refl)
  each_total f (x ∷ xs) h =
      let (y, e) = h x in let (ys, es) = each_total f xs h in (y ∷ ys, rw (e, es) refl)
