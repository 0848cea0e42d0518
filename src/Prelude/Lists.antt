-- ===== src/Prelude/Lists.antt =====
-- Lists measured and indexed by native numbers, and filters by Boolean tests.
use Prim.Native.Nat.{ℕ, zero, suc, ◌+◌, ◌-◌, ◌≤◌, min}
use mathlib.Core.Path.{◌≡◌, refl, ap, sym, subst, ◌∙◌}
use mathlib.Core.Logic.{◌⊎◌, inl, inr}
use mathlib.Core.Bool.{Bool, true, false, ◌||◌}
use mathlib.Core.List.{List, [], ◌∷◌, ◌++◌, map, append-nil}
use mathlib.Core.Option.{Option, none, some}
use native.Mathlib.Omega.{arith}
use pro_rag.Prelude.Tests.{if◌then◌else◌, Bool-cases, if_true, if_false}

module _ {ℓ} {A : Type ℓ} where
  abbrev pub length : List A → ℕ
  length [] = 0
  length (x ∷ xs) = suc (length xs)

  -- `xs[:n]`
  abbrev pub take : ℕ → List A → List A
  take zero xs = []
  take (suc n) [] = []
  take (suc n) (x ∷ xs) = x ∷ take n xs

  -- `xs[n:]`
  abbrev pub drop : ℕ → List A → List A
  drop zero xs = xs
  drop (suc n) [] = []
  drop (suc n) (x ∷ xs) = drop n xs

  abbrev pub get_elem? : List A → ℕ → Option A
  get_elem? [] i = none
  get_elem? (x ∷ xs) zero = some x
  get_elem? (x ∷ xs) (suc i) = get_elem? xs i

  abbrev pub filter : (A → Bool) → List A → List A
  filter p [] = []
  filter p (x ∷ xs) = if p x then x ∷ filter p xs else filter p xs

  abbrev pub any : (A → Bool) → List A → Bool
  any p [] = false
  any p (x ∷ xs) = if p x then true else any p xs

  -- How many entries pass a test.
  abbrev pub count : (A → Bool) → List A → ℕ
  count p [] = 0
  count p (x ∷ xs) = if p x then suc (count p xs) else count p xs

  abbrev pub flatten : List (List A) → List A
  flatten [] = []
  flatten (x ∷ xs) = x ++ flatten xs

  abbrev pub All {κ} : (A → Type κ) → List A → Type κ
  All P [] = Unit
  All P (x ∷ xs) = P x × All P xs

-- Membership that is taken apart by cases.
abbrev pub Member : {A : Type 0} → A → List A → Type 0
Member a [] = ⊥
Member a (x ∷ xs) = (a ≡ x) ⊎ Member a xs

module _ {ℓ} {A : Type ℓ} where
  pub length-append : (xs ys : List A) → length (xs ++ ys) ≡ length xs + length ys
  length-append [] ys = omega arith
  length-append (x ∷ xs) ys = omega (arith, length-append xs ys)

  pub length-take : (n : ℕ) (xs : List A) → length (take n xs) ≡ min n (length xs)
  length-take zero xs = omega arith
  length-take (suc n) [] = omega arith
  length-take (suc n) (x ∷ xs) = omega (arith, length-take n xs)

  pub length-drop : (n : ℕ) (xs : List A) → length (drop n xs) ≡ length xs - n
  length-drop zero xs = omega arith
  length-drop (suc n) [] = omega arith
  length-drop (suc n) (x ∷ xs) = omega (arith, length-drop n xs)

  pub take-append-drop : (n : ℕ) (xs : List A) → take n xs ++ drop n xs ≡ xs
  take-append-drop zero xs = refl
  take-append-drop (suc n) [] = refl
  take-append-drop (suc n) (x ∷ xs) = ap (λ t. x ∷ t) (take-append-drop n xs)

  pub take_all : (n : ℕ) (xs : List A) → length xs ≤ n → take n xs ≡ xs
  take_all zero [] h = refl
  take_all zero (x ∷ xs) h = absurd (omega arith)
  take_all (suc n) [] h = refl
  take_all (suc n) (x ∷ xs) h = ap (λ t. x ∷ t) (take_all n xs (omega arith))

  pub All-map_imp {κ μ} :
      {P : A → Type κ} {Q : A → Type μ} (f : (x : A) → P x → Q x) (xs : List A)
      → All P xs
      → All Q xs
  All-map_imp f [] h = tt
  All-map_imp f (x ∷ xs) h = (f x h.0, All-map_imp f xs h.1)

  pub All-append {κ} : (P : A → Type κ) (xs ys : List A) → All P xs → All P ys → All P (xs ++ ys)
  All-append P [] ys hx hy = hy
  All-append P (x ∷ xs) ys hx hy = (hx.0, All-append P xs ys hx.1 hy)

  pub All-take {κ} : (P : A → Type κ) (n : ℕ) (xs : List A) → All P xs → All P (take n xs)
  All-take P zero xs h = tt
  All-take P (suc n) [] h = tt
  All-take P (suc n) (x ∷ xs) h = (h.0, All-take P n xs h.1)

module _ {A : Type 0} where
  pub All-of_Member : (P : A → Type 0) (xs : List A) → ((x : A) → Member x xs → P x) → All P xs
  All-of_Member P [] f = tt
  All-of_Member P (x ∷ xs) f = (f x (inl refl), All-of_Member P xs (λ y m. f y (inr m)))

  pub All-member : (P : A → Type 0) (xs : List A) → All P xs → (x : A) → Member x xs → P x
  All-member P [] h x m = absurd m
  All-member P (y ∷ xs) h x (inl e) = rw e h.0
  All-member P (y ∷ xs) h x (inr m) = All-member P xs h.1 x m

  pub Member-append : (x : A) (xs ys : List A) → Member x (xs ++ ys) → Member x xs ⊎ Member x ys
  Member-append x [] ys m = inr m
  Member-append x (y ∷ xs) ys (inl e) = inl (inl e)
  Member-append x (y ∷ xs) ys (inr m) = elim (Member-append x xs ys m) [
    | inl l ↦ inl (inr l)
    | inr r ↦ inr r
  ]

pub length-map {ℓ κ} :
    {A : Type ℓ} {B : Type κ} (f : A → B) (xs : List A) → length (map f xs) ≡ length xs
length-map f [] = refl
length-map f (x ∷ xs) = ap suc (length-map f xs)

module _ {ℓ} {A : Type ℓ} where
  pub filter-append :
      (p : A → Bool) (xs ys : List A) → filter p (xs ++ ys) ≡ filter p xs ++ filter p ys
  filter-append p [] ys = refl
  filter-append p (x ∷ xs) ys = ground (arith, filter-append p xs ys)

  pub filter-filter_within :
      (p q : A → Bool) (xs : List A)
      → ((x : A) → p x ≡ true → q x ≡ true)
      → filter p (filter q xs) ≡ filter p xs
  filter-filter_within p q [] h = refl
  filter-filter_within p q (x ∷ xs) h = ground (arith, h x, filter-filter_within p q xs h)

  pub filter-filter_apart :
      (p q : A → Bool) (xs : List A)
      → ((x : A) → p x ≡ true → q x ≡ false)
      → filter p (filter q xs) ≡ []
  filter-filter_apart p q [] h = refl
  filter-filter_apart p q (x ∷ xs) h = ground (arith, h x, filter-filter_apart p q xs h)

  pub All-snoc {κ} : (P : A → Type κ) (xs : List A) (x : A) → All P xs → P x → All P (xs ++ x ∷ [])
  All-snoc P xs x h k = All-append P xs (x ∷ []) h (k, tt)

  -- What holds of the entries that pass a test, as a fact about the whole list.
  pub All-filter {κ} :
      (P : A → Type κ) (p : A → Bool) (xs : List A)
      → All P (filter p xs)
      → All (λ x. p x ≡ true → P x) xs
  All-filter P p [] h = tt
  All-filter P p (x ∷ xs) h = elim (Bool-cases (p x)) [
    | inl e ↦ let k : All P (x ∷ filter p xs) = rw e at h in ((λ _. k.0), All-filter P p xs k.1)
    | inr e ↦ let k : All P (filter p xs) = rw e at h in ((λ t. cc), All-filter P p xs k)
  ]

  pub filter-snoc_in :
      (p : A → Bool) (xs : List A) (x : A)
      → p x ≡ true
      → filter p (xs ++ x ∷ []) ≡ filter p xs ++ x ∷ []
  filter-snoc_in p xs x e = filter-append p xs (x ∷ []) ∙ rw e refl

  pub filter-snoc_out :
      (p : A → Bool) (xs : List A) (x : A) → p x ≡ false → filter p (xs ++ x ∷ []) ≡ filter p xs
  filter-snoc_out p xs x e = filter-append p xs (x ∷ []) ∙ rw e (append-nil (filter p xs))

  pub count-eq-length : (p : A → Bool) (xs : List A) → count p xs ≡ length (filter p xs)
  count-eq-length p [] = refl
  count-eq-length p (x ∷ xs) = ground (arith, count-eq-length p xs)

pub All-filter_intro :
    {A : Type 0} (P Q : A → Type 0) (p : A → Bool) (xs : List A)
    → ((x : A) → P x → p x ≡ true → Q x)
    → All P xs
    → All Q (filter p xs)
All-filter_intro P Q p [] f h = tt
All-filter_intro P Q p (x ∷ xs) f h = elim (Bool-cases (p x)) [
  | inl e ↦
      rw (if_true (x ∷ filter p xs) (filter p xs) e) (f x h.0 e, All-filter_intro P Q p xs f h.1)
  | inr e ↦ rw (if_false (x ∷ filter p xs) (filter p xs) e) (All-filter_intro P Q p xs f h.1)
]

pub All-map :
    {A B : Type 0} (P : B → Type 0) (f : A → B) (xs : List A)
    → All (λ x. P (f x)) xs
    → All P (map f xs)
All-map P f [] h = tt
All-map P f (x ∷ xs) h = (h.0, All-map P f xs h.1)

pub any-append :
    {A : Type 0} (p : A → Bool) (xs ys : List A) → any p (xs ++ ys) ≡ any p xs || any p ys
any-append p [] ys = refl
any-append p (x ∷ xs) ys = ground (arith, any-append p xs ys)

pub map-append :
    {A B : Type 0} (f : A → B) (xs ys : List A) → map f (xs ++ ys) ≡ map f xs ++ map f ys
map-append f [] ys = refl
map-append f (x ∷ xs) ys = ap (λ t. f x ∷ t) (map-append f xs ys)

pub Member-of_filter :
    {A : Type 0} (p : A → Bool) (xs : List A) (x : A)
    → Member x (filter p xs)
    → Member x xs × (p x ≡ true)
Member-of_filter p [] x m = absurd m
Member-of_filter p (y ∷ xs) x m = elim (Bool-cases (p y)) [
  | inl t ↦
      let m1 : Member x (y ∷ filter p xs) = subst (Member x) (if_true _ _ t) m in
      elim m1 [
        | inl e ↦ (inl e, ap p e ∙ t)
        | inr n ↦ let (there, ok) = Member-of_filter p xs x n in (inr there, ok)
      ]
  | inr t ↦
      let (there, ok) = Member-of_filter p xs x (subst (Member x) (if_false _ _ t) m) in
      (inr there, ok)
]

pub Member-filter :
    {A : Type 0} (p : A → Bool) (xs : List A) (x : A)
    → Member x xs
    → p x ≡ true
    → Member x (filter p xs)
Member-filter p [] x m ok = absurd m
Member-filter p (y ∷ xs) x (inl e) ok =
    subst (Member x) (sym (if_true _ _ (ap p (sym e) ∙ ok))) (inl e)
Member-filter p (y ∷ xs) x (inr m) ok = elim (Bool-cases (p y)) [
  | inl t ↦
      let there : Member x (y ∷ filter p xs) = inr (Member-filter p xs x m ok) in
      subst (Member x) (sym (if_true _ _ t)) there
  | inr t ↦ subst (Member x) (sym (if_false _ _ t)) (Member-filter p xs x m ok)
]

pub Member-append_left : {A : Type 0} (x : A) (xs ys : List A) → Member x xs → Member x (xs ++ ys)
Member-append_left x [] ys m = absurd m
Member-append_left x (y ∷ xs) ys (inl e) = inl e
Member-append_left x (y ∷ xs) ys (inr m) = inr (Member-append_left x xs ys m)

pub Member-append_right : {A : Type 0} (x : A) (xs ys : List A) → Member x ys → Member x (xs ++ ys)
Member-append_right x [] ys m = m
Member-append_right x (y ∷ xs) ys m = inr (Member-append_right x xs ys m)

pub Member-map :
    {A B : Type 0} (f : A → B) (xs : List A) (x : A) → Member x xs → Member (f x) (map f xs)
Member-map f [] x m = absurd m
Member-map f (y ∷ xs) x (inl e) = inl (ap f e)
Member-map f (y ∷ xs) x (inr m) = inr (Member-map f xs x m)
