-- ===== src/Prelude/Table.antt =====
-- A table by its primary key: what the lookup finds after a row is added, put or removed.
use pro_rag.Prelude.{
  ℕ, ◌≡◌, ◌≢◌, refl, sym, ap, ◌∙◌, true, false, not, Option, none, some, List, [], ◌∷◌, ◌++◌, map,
  arith, ◌==◌, ==_iff, filter, All, All-append, All-map_imp, All-filter_intro, All-map,
  if◌then◌else◌, inl, inr, Bool-cases, if_true, if_false,
}

==_apart : (a b : ℕ) → a ≢ b → (a == b) ≡ false
==_apart a b h = ground (arith, h)

-- `session.get(Model, id)`: the row of a primary key.
abbrev pub find_by : {A : Type 0} → (A → ℕ) → List A → ℕ → Option A
find_by key [] id = none
find_by key (r ∷ rows) id = if key r == id then some r else find_by key rows id

-- A row flushed in place.
abbrev pub put_by : {A : Type 0} → (A → ℕ) → A → List A → List A
put_by key row rows = map (λ r. if key r == key row then row else r) rows

-- A row deleted.
abbrev pub remove_by : {A : Type 0} → (A → ℕ) → ℕ → List A → List A
remove_by key gone rows = filter (λ r. not (key r == gone)) rows

module _ {A : Type 0} (key : A → ℕ) where
  pub find_by-key :
      (rows : List A) (id : ℕ) {row : A} → find_by key rows id ≡ some row → key row ≡ id
  find_by-key [] id h = cc
  find_by-key (r ∷ rows) id {row = row} h = elim (Bool-cases (key r == id)) [
    | inl e ↦
        let k : some r ≡ some row = sym (if_true _ _ e) ∙ h in
        ap (λ o. elim o [ none ↦ id | some q ↦ (key q) ]) (sym k) ∙ (==_iff (key r) id).0 e
    | inr e ↦ find_by-key rows id (sym (if_false _ _ e) ∙ h)
  ]

  pub find_by-put :
      (rows : List A) (id : ℕ) {row : A} (changed : A)
      → find_by key rows id ≡ some row
      → key changed ≡ id
      → find_by key (put_by key changed rows) id ≡ some changed
  find_by-put [] id changed h e = cc
  find_by-put (r ∷ rows) id {row = row} changed h e = elim (Bool-cases (key r == id)) [
    | inl t ↦
        let here : (key r == key changed) ≡ true = ap (λ n. key r == n) e ∙ t in
        let at : (if key r == key changed then changed else r) ≡ changed = if_true _ _ here in
        ap (λ q. find_by key (q ∷ put_by key changed rows) id) at
        ∙ if_true _ _ ((==_iff (key changed) id).1 e)
    | inr t ↦
        let away : (key r == key changed) ≡ false = ap (λ n. key r == n) e ∙ t in
        let at : (if key r == key changed then changed else r) ≡ r = if_false _ _ away in
        ap (λ q. find_by key (q ∷ put_by key changed rows) id) at
        ∙ if_false _ _ t
        ∙ find_by-put rows id changed (sym (if_false _ _ t) ∙ h) e
  ]

  pub find_by-removed : (rows : List A) (id : ℕ) → find_by key (remove_by key id rows) id ≡ none
  find_by-removed [] id = refl
  find_by-removed (r ∷ rows) id = ground (arith, find_by-removed rows id)

  -- The other rows stay where they are.
  pub find_by-put_other :
      (rows : List A) (id : ℕ) (changed : A)
      → key changed ≢ id
      → find_by key (put_by key changed rows) id ≡ find_by key rows id
  find_by-put_other [] id changed h = refl
  find_by-put_other (r ∷ rows) id changed h = elim (Bool-cases (key r == key changed)) [
    | inl t ↦
        let at : (if key r == key changed then changed else r) ≡ changed = if_true _ _ t in
        let same : (key r) ≡ key changed = (==_iff (key r) (key changed)).0 t in
        ap (λ q. find_by key (q ∷ put_by key changed rows) id) at
        ∙ if_false _ _ (==_apart (key changed) id h)
        ∙ find_by-put_other rows id changed h
        ∙ sym (if_false _ _ (ap (λ n. n == id) same ∙ ==_apart (key changed) id h))
    | inr t ↦
        let at : (if key r == key changed then changed else r) ≡ r = if_false _ _ t in
        ap (λ q. find_by key (q ∷ put_by key changed rows) id) at
        ∙ ap (λ o. if key r == id then some r else o) (find_by-put_other rows id changed h)
  ]

  pub find_by-remove_other :
      (rows : List A) (gone id : ℕ)
      → gone ≢ id
      → find_by key (remove_by key gone rows) id ≡ find_by key rows id
  find_by-remove_other [] gone id h = refl
  find_by-remove_other (r ∷ rows) gone id h = elim (Bool-cases (key r == gone)) [
    | inl t ↦
        let same : (key r) ≡ gone = (==_iff (key r) gone).0 t in
        ap (λ (o : List A). find_by key o id) (if_false _ _ (ap not t))
        ∙ find_by-remove_other rows gone id h
        ∙ sym (if_false _ _ (ap (λ n. n == id) same ∙ ==_apart gone id h))
    | inr t ↦
        ap (λ (o : List A). find_by key o id) (if_true _ _ (ap not t))
        ∙ ap (λ o. if key r == id then some r else o) (find_by-remove_other rows gone id h)
  ]

  pub find_by-append :
      (rows more : List A) (id : ℕ) {row : A}
      → find_by key rows id ≡ some row
      → find_by key (rows ++ more) id ≡ some row
  find_by-append [] more id h = cc
  find_by-append (r ∷ rows) more id h = elim (Bool-cases (key r == id)) [
    | inl t ↦ if_true _ _ t ∙ sym (if_true _ _ t) ∙ h
    | inr t ↦ if_false _ _ t ∙ find_by-append rows more id (sym (if_false _ _ t) ∙ h)
  ]

  pub find_by-snoc :
      (rows : List A) (new : A)
      → find_by key rows (key new) ≡ none
      → find_by key (rows ++ new ∷ []) (key new) ≡ some new
  find_by-snoc [] new h = if_true _ _ ((==_iff (key new) (key new)).1 refl)
  find_by-snoc (r ∷ rows) new h = elim (Bool-cases (key r == key new)) [
    | inl t ↦ let k : some r ≡ none = sym (if_true _ _ t) ∙ h in cc
    | inr t ↦ if_false _ _ t ∙ find_by-snoc rows new (sym (if_false _ _ t) ∙ h)
  ]

  -- The primary key: every row is what the lookup of its key finds.
  abbrev pub Keyed : List A → Type 0
  Keyed rows = All (λ (r : A). find_by key rows (key r) ≡ some r) rows

  pub Keyed-snoc :
      (rows : List A) (new : A)
      → find_by key rows (key new) ≡ none
      → Keyed rows
      → Keyed (rows ++ new ∷ [])
  Keyed-snoc rows new fresh h =
      All-append (λ (r : A). find_by key (rows ++ new ∷ []) (key r) ≡ some r) rows (new ∷ [])
        (All-map_imp (λ r e. find_by-append rows (new ∷ []) (key r) e) rows h)
        (find_by-snoc rows new fresh, tt)

  pub Keyed-put :
      (rows : List A) {row : A} (changed : A)
      → find_by key rows (key changed) ≡ some row
      → Keyed rows
      → Keyed (put_by key changed rows)
  Keyed-put rows changed there h =
      All-map (λ (q : A). find_by key (put_by key changed rows) (key q) ≡ some q)
        (λ (r : A). if key r == key changed then changed else r) rows (All-map_imp one rows h)
    where
      one :
          (r : A)
          → find_by key rows (key r) ≡ some r
          → find_by key
              (put_by key changed rows)
              (key (if key r == key changed then changed else r))
            ≡ some (if key r == key changed then changed else r)
      one r e = elim (Bool-cases (key r == key changed)) [
        | inl t ↦ rw (if_true changed r t) (find_by-put rows (key changed) changed there refl)
        | inr t ↦
            let apart : (key changed) ≢ key r = λ s. ground (arith, s, t) in
            rw (if_false changed r t) (find_by-put_other rows (key r) changed apart ∙ e)
      ]

  pub Keyed-remove : (rows : List A) (gone : ℕ) → Keyed rows → Keyed (remove_by key gone rows)
  Keyed-remove rows gone h =
      All-filter_intro (λ (r : A). find_by key rows (key r) ≡ some r)
        (λ (r : A). find_by key (remove_by key gone rows) (key r) ≡ some r)
        (λ (r : A). not (key r == gone)) rows
        (λ r e t. find_by-remove_other rows gone (key r) (λ s. ground (arith, s, t)) ∙ e) h
