-- ===== src/Prelude/Reply.antt =====
-- What a route comes to: an HTTP error by its status, or an answer. An error leaves the tables as
-- they were: the request's transaction is rolled back.
use pro_rag.Prelude.{ℕ, ◌≡◌, refl, ap, Bool, true, false, Option, none, some}

pub data Reply (A : Type 0) : Type 0 where
  refused : ℕ → Reply A
  answer : A → Reply A

infixl 5 ◌>>=◌
abbrev pub ◌>>=◌ : {A B : Type 0} → Reply A → (A → Reply B) → Reply B
refused code >>= f = refused code
answer a >>= f = f a

-- The tables after the request.
abbrev pub after : {A : Type 0} → A → Reply A → A
after db (refused code) = db
after db (answer db') = db'

infixl 5 ◌>>◌
abbrev pub ◌>>◌ : {B : Type 0} → Reply (Unit {0}) → Reply B → Reply B
m >> k = m >>= λ _. k

-- `if not ok: raise HTTPException(code)`
abbrev pub guard : Bool → ℕ → Reply (Unit {0})
guard true code = answer tt
guard false code = refused code

-- `if row is None: raise HTTPException(404)`
abbrev pub or_404 : {A : Type 0} → Option A → Reply A
or_404 none = refused 404
or_404 (some a) = answer a

module _ {A B : Type 0} where
  -- Inversion of a chain that answers.
  pub >>=-eq-answer :
      (m : Reply A) (f : A → Reply B) {b : B}
      → (m >>= f) ≡ answer b
      → (a : A) × (m ≡ answer a) × (f a ≡ answer b)
  >>=-eq-answer (refused code) f h = cc
  >>=-eq-answer (answer a) f h = (a, refl, h)

pub guard-eq-answer : (ok : Bool) (code : ℕ) → guard ok code ≡ answer tt → ok ≡ true
guard-eq-answer true code h = refl
guard-eq-answer false code h = cc

pub answer-injective : {A : Type 0} {a b : A} → answer a ≡ answer b → a ≡ b
answer-injective {a = a} h = ap (after a) h
