-- ===== src/Prelude/Raise.antt =====
-- Python's exceptions: what a call comes to, and `except Exception`.
use pro_rag.Prelude.{◌≡◌, refl, ap, sym, ◌∙◌, map, List, [], ◌∷◌, Text}
use pro_rag.Prelude.Words.{codes}

pub record Exc : Type 0 where
  -- `type(exc).__name__`
  pub type_name : Text
  -- `str(exc)`
  pub message : Text

pub data Outcome (A : Type 0) : Type 0 where
  raised : Exc → Outcome A
  returned : A → Outcome A

infixl 5 ◌>>=◌
abbrev pub ◌>>=◌ : {A B : Type 0} → Outcome A → (A → Outcome B) → Outcome B
raised e >>= f = raised e
returned a >>= f = f a

-- `try: ... except Exception: return default`
abbrev pub or_else : {A : Type 0} → A → Outcome A → A
or_else default (raised e) = default
or_else default (returned a) = a

-- The results of a loop that calls `f` on each entry and stops at the first that raises.
abbrev pub for_each : {A B : Type 0} → (A → Outcome B) → List A → Outcome (List B)
for_each f [] = returned []
for_each f (x ∷ xs) = f x >>= λ y. for_each f xs >>= λ ys. returned (y ∷ ys)

abbrev pub value_error : Text → Exc
value_error message = record { type_name = codes "ValueError"; message = message }

-- `list(zip(xs, ys, strict=True))`
abbrev pub zip_strict : {A B : Type 0} → List A → List B → Outcome (List (A × B))
zip_strict [] [] = returned []
zip_strict (x ∷ xs) (y ∷ ys) = zip_strict xs ys >>= λ zs. returned ((x, y) ∷ zs)
zip_strict [] (y ∷ ys) = raised (value_error (codes "zip() argument 2 is longer than argument 1"))
zip_strict (x ∷ xs) [] = raised (value_error (codes "zip() argument 2 is shorter than argument 1"))

pub returned-injective : {A : Type 0} {a b : A} → returned a ≡ returned b → a ≡ b
returned-injective {a = a} h = ap (or_else a) h

module _ {A B : Type 0} where
  -- Inversion of a chain that returns.
  pub >>=-eq-returned :
      (m : Outcome A) (f : A → Outcome B) {b : B}
      → (m >>= f) ≡ returned b
      → (a : A) × (m ≡ returned a) × (f a ≡ returned b)
  >>=-eq-returned (raised e) f h = cc
  >>=-eq-returned (returned a) f h = (a, refl, h)

module _ {A B : Type 0} where
  pub zip_strict-eq-returned :
      (xs : List A) (ys : List B) {zs : List (A × B)}
      → zip_strict xs ys ≡ returned zs
      → (map (λ (z : A × B). z.0) zs ≡ xs) × (map (λ (z : A × B). z.1) zs ≡ ys)
  zip_strict-eq-returned [] [] h =
      let none_left = sym (returned-injective h) in
      (ap (map (λ (z : A × B). z.0)) none_left, ap (map (λ (z : A × B). z.1)) none_left)
  zip_strict-eq-returned (x ∷ xs) (y ∷ ys) h =
      let (rest, e, k) = >>=-eq-returned (zip_strict xs ys) (λ zs. returned ((x, y) ∷ zs)) h in
      let (firsts, seconds) = zip_strict-eq-returned xs ys e in
      let cons = sym (returned-injective k) in
      (
        ap (map (λ (z : A × B). z.0)) cons ∙ ap (λ t. x ∷ t) firsts,
        ap (map (λ (z : A × B). z.1)) cons ∙ ap (λ t. y ∷ t) seconds,
      )
  zip_strict-eq-returned (x ∷ xs) [] h = cc
  zip_strict-eq-returned [] (y ∷ ys) h = cc
