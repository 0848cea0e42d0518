-- ===== src/Prelude/Sub.antt =====
-- Subsequences: what is left of a list when entries are dropped and none is moved.
use pro_rag.Prelude.{
  ℕ, zero, suc, ◌≤◌, Bool, List, [], ◌∷◌, ◌++◌, arith, length, filter, count, take, All, Bool-cases,
  inl, inr, Member,
}

pub data Sub {A : Type 0} : List A → List A → Type 0 where
  nil : Sub [] []
  skip : {x : A} {xs ys : List A} → Sub xs ys → Sub xs (x ∷ ys)
  keep : {x : A} {xs ys : List A} → Sub xs ys → Sub (x ∷ xs) (x ∷ ys)

module _ {A : Type 0} where
  pub Sub-refl : (xs : List A) → Sub xs xs
  Sub-refl [] = nil
  Sub-refl (x ∷ xs) = keep (Sub-refl xs)

  pub Sub-nil : (xs : List A) → Sub [] xs
  Sub-nil [] = nil
  Sub-nil (x ∷ xs) = skip (Sub-nil xs)

  pub Sub-trans : {ys zs : List A} → Sub ys zs → {xs : List A} → Sub xs ys → Sub xs zs
  Sub-trans nil s = s
  Sub-trans (skip t) s = skip (Sub-trans t s)
  Sub-trans (keep t) (skip s) = skip (Sub-trans t s)
  Sub-trans (keep t) (keep s) = keep (Sub-trans t s)

  pub Sub-filter : (p : A → Bool) (xs : List A) → Sub (filter p xs) xs
  Sub-filter p [] = nil
  Sub-filter p (x ∷ xs) = elim (Bool-cases (p x)) [
    | inl e ↦ rw e (keep (Sub-filter p xs))
    | inr e ↦ rw e (skip (Sub-filter p xs))
  ]

  pub Sub-take : (n : ℕ) (xs : List A) → Sub (take n xs) xs
  Sub-take zero xs = Sub-nil xs
  Sub-take (suc n) [] = nil
  Sub-take (suc n) (x ∷ xs) = keep (Sub-take n xs)

  -- One more entry at the end of the longer list, kept or not.
  pub Sub-snoc_keep : {xs ys : List A} (x : A) → Sub xs ys → Sub (xs ++ x ∷ []) (ys ++ x ∷ [])
  Sub-snoc_keep x nil = keep nil
  Sub-snoc_keep x (skip s) = skip (Sub-snoc_keep x s)
  Sub-snoc_keep x (keep s) = keep (Sub-snoc_keep x s)

  pub Sub-snoc_skip : {xs ys : List A} (x : A) → Sub xs ys → Sub xs (ys ++ x ∷ [])
  Sub-snoc_skip x nil = skip nil
  Sub-snoc_skip x (skip s) = skip (Sub-snoc_skip x s)
  Sub-snoc_skip x (keep s) = keep (Sub-snoc_skip x s)

  pub Sub-All : (P : A → Type 0) {xs ys : List A} → Sub xs ys → All P ys → All P xs
  Sub-All P nil h = tt
  Sub-All P (skip s) h = Sub-All P s h.1
  Sub-All P (keep s) h = (h.0, Sub-All P s h.1)

  pub Sub-Member : {xs ys : List A} → Sub xs ys → (x : A) → Member x xs → Member x ys
  Sub-Member nil x m = m
  Sub-Member (skip s) x m = inr (Sub-Member s x m)
  Sub-Member (keep s) x (inl e) = inl e
  Sub-Member (keep s) x (inr m) = inr (Sub-Member s x m)

  pub Sub-length : {xs ys : List A} → Sub xs ys → length xs ≤ length ys
  Sub-length nil = omega arith
  Sub-length (skip s) = omega (arith, Sub-length s)
  Sub-length (keep s) = omega (arith, Sub-length s)

  pub Sub-count : (p : A → Bool) {xs ys : List A} → Sub xs ys → count p xs ≤ count p ys
  Sub-count p nil = omega arith
  Sub-count p (skip s) = ground (arith, Sub-count p s)
  Sub-count p (keep s) = ground (arith, Sub-count p s)
