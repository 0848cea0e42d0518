-- ===== src/Prelude/Sort.antt =====
-- Python's `sorted(xs, key=f, reverse=True)`: descending by key, and stable, so entries with the
-- same key stay in the order in which they came. Scores are any type with a total order.
use pro_rag.Prelude.{
  suc, length, Member, ◌≡◌, refl, ◌⊎◌, inl, inr, Bool, true, false, List, [], ◌∷◌, arith,
  if◌then◌else◌, Bool-cases, filter, count, All, All-map_imp, ap, sym, ◌∙◌,
}
use mathlib.Core.List.{Perm}
use mathlib.Core.List.Perm

-- What a program that compares scores relies on: the order of the floats that are no NaN.
pub record Order : Type 1 where
  pub Score : Type 0
  pub le : Score → Score → Bool
  pub total : (a b : Score) → (le a b ≡ true) ⊎ (le b a ≡ true)
  pub trans : (a b c : Score) → le a b ≡ true → le b c ≡ true → le a c ≡ true

module _ (o : Order) {A : Type 0} (key : A → o.Score) where
  abbrev pub insert_desc : A → List A → List A
  insert_desc x [] = x ∷ []
  insert_desc x (y ∷ ys) = if o.le (key y) (key x) then x ∷ y ∷ ys else y ∷ insert_desc x ys

  unfoldable pub sort_desc : List A → List A
  sort_desc [] = []
  sort_desc (x ∷ xs) = insert_desc x (sort_desc xs)

  -- Best first: no entry is above one that stands before it.
  abbrev pub IsDescending : List A → Type 0
  IsDescending [] = Unit
  IsDescending (x ∷ xs) = All (λ y. o.le (key y) (key x) ≡ true) xs × IsDescending xs

  insert_desc-All :
      (P : A → Type 0) (x : A) (xs : List A) → P x → All P xs → All P (insert_desc x xs)
  insert_desc-All P x [] h k = (h, tt)
  insert_desc-All P x (y ∷ ys) h k = elim (Bool-cases (o.le (key y) (key x))) [
    | inl e ↦ rw e (h, k)
    | inr e ↦ rw e (k.0, insert_desc-All P x ys h k.1)
  ]

  pub sort_desc-All : (P : A → Type 0) (xs : List A) → All P xs → All P (sort_desc xs)
  unfolding sort_desc
  sort_desc-All P [] h = tt
  sort_desc-All P (x ∷ xs) h = insert_desc-All P x (sort_desc xs) h.0 (sort_desc-All P xs h.1)

  insert_desc-IsDescending :
      (x : A) (xs : List A) → IsDescending xs → IsDescending (insert_desc x xs)
  insert_desc-IsDescending x [] h = (tt, tt)
  insert_desc-IsDescending x (y ∷ ys) h = elim (Bool-cases (o.le (key y) (key x))) [
    | inl e ↦ rw e ((e, All-map_imp (λ z hz. o.trans (key z) (key y) (key x) hz e) ys h.0), h)
    | inr e ↦ rw e (
      insert_desc-All (λ z. o.le (key z) (key y) ≡ true) x ys (above x y e) h.0,
      insert_desc-IsDescending x ys h.1,
    )
  ]
    where
      above : (a b : A) → o.le (key b) (key a) ≡ false → o.le (key a) (key b) ≡ true
      above a b e' = elim (o.total (key a) (key b)) [ inl t ↦ t | inr t ↦ cc ]

  pub sort_desc-IsDescending : (xs : List A) → IsDescending (sort_desc xs)
  unfolding sort_desc
  sort_desc-IsDescending [] = tt
  sort_desc-IsDescending (x ∷ xs) =
      insert_desc-IsDescending x (sort_desc xs) (sort_desc-IsDescending xs)

  insert_desc-perm : (x : A) (xs : List A) → Perm (insert_desc x xs) (x ∷ xs)
  insert_desc-perm x [] = Perm.refl (x ∷ [])
  insert_desc-perm x (y ∷ ys) = elim (Bool-cases (o.le (key y) (key x))) [
    | inl e ↦ rw e (Perm.refl (x ∷ y ∷ ys))
    | inr e ↦ rw e (Perm.trans (Perm.cons y (insert_desc-perm x ys)) (Perm.swap x y ys))
  ]

  -- Nothing is lost, added or repeated.
  pub sort_desc-perm : (xs : List A) → Perm (sort_desc xs) xs
  unfolding sort_desc
  sort_desc-perm [] = Perm.refl []
  sort_desc-perm (x ∷ xs) =
      Perm.trans (insert_desc-perm x (sort_desc xs)) (Perm.cons x (sort_desc-perm xs))

  -- A list that is in order already stays as it is, ties included.
  pub sort_desc_id : (xs : List A) → IsDescending xs → sort_desc xs ≡ xs
  unfolding sort_desc
  sort_desc_id [] h = refl
  sort_desc_id (x ∷ []) h = refl
  sort_desc_id (x ∷ y ∷ ys) h = rw (sort_desc_id (y ∷ ys) h.1) (rw (h.0.0) refl)

  insert_desc_front :
      (x : A) (ys : List A) → All (λ z. o.le (key z) (key x) ≡ true) ys → insert_desc x ys ≡ x ∷ ys
  insert_desc_front x [] h = refl
  insert_desc_front x (y ∷ ys) h = rw h.0 refl

  module _ (p : A → Bool) where
    filter-All : (P : A → Type 0) (xs : List A) → All P xs → All P (filter p xs)
    filter-All P [] h = tt
    filter-All P (x ∷ xs) h = elim (Bool-cases (p x)) [
      | inl e ↦ rw e (h.0, filter-All P xs h.1)
      | inr e ↦ rw e (filter-All P xs h.1)
    ]

    filter-insert_desc_in :
        (x : A) (ys : List A)
        → p x ≡ true
        → IsDescending ys
        → filter p (insert_desc x ys) ≡ insert_desc x (filter p ys)
    filter-insert_desc_in x [] e h = rw e refl
    filter-insert_desc_in x (y ∷ ys) e h = elim (Bool-cases (o.le (key y) (key x))) [
      | inl l ↦ elim (Bool-cases (p y)) [
        | inl ey ↦ rw (l, e, ey, l) refl
        | inr ey ↦
            rw (l, e, ey)
              (sym (
                insert_desc_front x (filter p ys) (
                  filter-All (λ z. o.le (key z) (key x) ≡ true) ys
                    (All-map_imp (λ z hz. o.trans (key z) (key y) (key x) hz l) ys h.0))))
      ]
      | inr l ↦ elim (Bool-cases (p y)) [
        | inl ey ↦ rw (l, ey, l) (ap (λ t. y ∷ t) (filter-insert_desc_in x ys e h.1))
        | inr ey ↦ rw (l, ey) (filter-insert_desc_in x ys e h.1)
      ]
    ]

    filter-insert_desc_out :
        (x : A) (ys : List A) → p x ≡ false → filter p (insert_desc x ys) ≡ filter p ys
    filter-insert_desc_out x [] e = rw e refl
    filter-insert_desc_out x (y ∷ ys) e = elim (Bool-cases (o.le (key y) (key x))) [
      | inl l ↦ rw (l, e) refl
      | inr l ↦ rw l (ground (arith, filter-insert_desc_out x ys e))
    ]

    -- Stability: what a test picks stands in the sorted list as if it had been sorted alone.
    pub filter-sort_desc : (xs : List A) → filter p (sort_desc xs) ≡ sort_desc (filter p xs)
    unfolding sort_desc
    filter-sort_desc [] = refl
    filter-sort_desc (x ∷ xs) = elim (Bool-cases (p x)) [
      | inl e ↦ rw e (
          filter-insert_desc_in x (sort_desc xs) e (sort_desc-IsDescending xs)
          ∙ ap (insert_desc x) (filter-sort_desc xs))
      | inr e ↦ rw e (filter-insert_desc_out x (sort_desc xs) e ∙ filter-sort_desc xs)
    ]

  count-insert_desc :
      (p : A → Bool) (x : A) (ys : List A) → count p (insert_desc x ys) ≡ count p (x ∷ ys)
  count-insert_desc p x [] = refl
  count-insert_desc p x (y ∷ ys) = ground (arith, count-insert_desc p x ys)

  -- As many entries pass a test after sorting as before.
  pub count-sort_desc : (p : A → Bool) (xs : List A) → count p (sort_desc xs) ≡ count p xs
  unfolding sort_desc
  count-sort_desc p [] = refl
  count-sort_desc p (x ∷ xs) = count-insert_desc p x (sort_desc xs) ∙ rw (count-sort_desc p xs) refl

  length-insert_desc : (x : A) (ys : List A) → length (insert_desc x ys) ≡ suc (length ys)
  length-insert_desc x [] = refl
  length-insert_desc x (y ∷ ys) = ground (arith, length-insert_desc x ys)

  pub length-sort_desc : (xs : List A) → length (sort_desc xs) ≡ length xs
  unfolding sort_desc
  length-sort_desc [] = refl
  length-sort_desc (x ∷ xs) = length-insert_desc x (sort_desc xs) ∙ ap suc (length-sort_desc xs)

  Member-behind :
      (u x y : A) (ys zs : List A)
      → (Member u (x ∷ ys) → Member u zs)
      → Member u (x ∷ y ∷ ys)
      → Member u (y ∷ zs)
  Member-behind u x y ys zs f (inl a) = inr (f (inl a))
  Member-behind u x y ys zs f (inr (inl a)) = inl a
  Member-behind u x y ys zs f (inr (inr a)) = inr (f (inr a))

  Member-insert_desc :
      (x : A) (ys : List A) (z : A) → Member z (x ∷ ys) → Member z (insert_desc x ys)
  Member-insert_desc x [] z m = m
  Member-insert_desc x (y ∷ ys) z m = elim (Bool-cases (o.le (key y) (key x))) [
    | inl e ↦ rw e m
    | inr e ↦ rw e (Member-behind z x y ys (insert_desc x ys) (Member-insert_desc x ys z) m)
  ]

  pub Member-sort_desc : (xs : List A) (z : A) → Member z xs → Member z (sort_desc xs)
  unfolding sort_desc
  Member-sort_desc [] z m = absurd m
  Member-sort_desc (x ∷ xs) z (inl e) = Member-insert_desc x (sort_desc xs) z (inl e)
  Member-sort_desc (x ∷ xs) z (inr m) =
      Member-insert_desc x (sort_desc xs) z (inr (Member-sort_desc xs z m))
