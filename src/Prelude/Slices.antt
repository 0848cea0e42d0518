-- ===== src/Prelude/Slices.antt =====
-- `[xs[i : i + size] for i in range(0, len(xs), size)]`, for a size of at least one.
use pro_rag.Prelude.{
  ℕ, zero, suc, ◌≤◌, ◌≡◌, refl, ap, ◌∙◌, List, [], ◌∷◌, ◌++◌, take, drop, length, flatten,
  take-append-drop, length-drop, length-take, All, arith,
}

-- At most as many slices as the first argument says.
abbrev pub slices_of : {A : Type 0} → ℕ → ℕ → List A → List (List A)
slices_of zero size xs = []
slices_of (suc fuel) size [] = []
slices_of (suc fuel) size (x ∷ xs) = take size (x ∷ xs) ∷ slices_of fuel size (drop size (x ∷ xs))

-- Each slice takes at least one entry, so the length is enough.
abbrev pub slices : {A : Type 0} → ℕ → List A → List (List A)
slices size xs = slices_of (length xs) size xs

module _ {A : Type 0} where
  flatten-slices_of :
      (fuel size : ℕ) (xs : List A)
      → 1 ≤ size
      → length xs ≤ fuel
      → flatten (slices_of fuel size xs) ≡ xs
  flatten-slices_of zero size [] h k = refl
  flatten-slices_of zero size (x ∷ xs) h k = absurd (omega arith)
  flatten-slices_of (suc fuel) size [] h k = refl
  flatten-slices_of (suc fuel) size (x ∷ xs) h k =
      ap (λ t. take size (x ∷ xs) ++ t)
        (flatten-slices_of fuel size (drop size (x ∷ xs)) h
          (omega (arith, length-drop size (x ∷ xs))))
      ∙ take-append-drop size (x ∷ xs)

  pub flatten-slices : (size : ℕ) (xs : List A) → 1 ≤ size → flatten (slices size xs) ≡ xs
  flatten-slices size xs h = flatten-slices_of (length xs) size xs h (omega arith)

  slices_of-bound :
      (fuel size : ℕ) (xs : List A) → All (λ s. length s ≤ size) (slices_of fuel size xs)
  slices_of-bound zero size xs = tt
  slices_of-bound (suc fuel) size [] = tt
  slices_of-bound (suc fuel) size (x ∷ xs) =
      (omega (arith, length-take size (x ∷ xs)), slices_of-bound fuel size (drop size (x ∷ xs)))

  pub slices-bound : (size : ℕ) (xs : List A) → All (λ s. length s ≤ size) (slices size xs)
  slices-bound size xs = slices_of-bound (length xs) size xs
