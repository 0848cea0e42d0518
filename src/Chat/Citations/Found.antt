-- ===== src/Chat/Citations/Found.antt =====
-- `extract_cited_indices` finds every canonical citation.
use pro_rag.Prelude.{
  ℕ, zero, suc, ◌+◌, ◌-◌, ◌≤◌, ◌<◌, ◌≡◌, ◌≢◌, refl, sym, ap, ◌∙◌, subst, inl, inr, true, Option,
  none, some, Option-cases, Bool-cases, if_true, if_false, List, [], ◌∷◌, ◌++◌, ◌==◌, ==_iff, Text,
  length, drop, All, Member, any, count, arith,
}
use pro_rag.Chat.Citations.{
  is_digit, digits, int_from, closed_with, closed_by, canonical, found_from, set_default, seen_from,
  extract_cited_indices,
}

-- Digits, and the closing bracket behind them.
abbrev tail_of : Text → Text → Text
tail_of ds after = ds ++ b']' ∷ after

digits-tail : (ds after : Text) → All (λ c. is_digit c ≡ true) ds → digits (tail_of ds after) ≡ ds
digits-tail [] after h = refl
digits-tail (d ∷ ds) after h = if_true _ _ h.0 ∙ ap (λ t. d ∷ t) (digits-tail ds after h.1)

drop-tail : (ds after : Text) → drop (length ds) (tail_of ds after) ≡ b']' ∷ after
drop-tail [] after = refl
drop-tail (d ∷ ds) after = drop-tail ds after

closed-tail :
    (ds after : Text)
    → ds ≢ []
    → All (λ c. is_digit c ≡ true) ds
    → closed_by b']' 2 (tail_of ds after) ≡ some (ds, 2 + length ds + 1)
closed-tail [] after some_digit h = absurd (some_digit refl)
closed-tail (d ∷ ds) after some_digit h =
    ap (λ t. closed_with b']' 2 t (drop (length t) (tail_of (d ∷ ds) after)))
      (digits-tail (d ∷ ds) after h)
    ∙ ap (closed_with b']' 2 (d ∷ ds)) (drop-tail (d ∷ ds) after)

-- The digits of a text end before the next bracket, if something else closes them.
closed_before :
    (x t rest : Text) (c : ℕ)
    → drop (length (digits (x ++ b'[' ∷ t))) (x ++ b'[' ∷ t) ≡ c ∷ rest
    → c ≢ b'['
    → length (digits (x ++ b'[' ∷ t)) < length x
closed_before [] t rest c e apart = absurd (apart (sym (head_eq e)))
  where
    head_eq : {a b : ℕ} {xs ys : Text} → a ∷ xs ≡ b ∷ ys → a ≡ b
    head_eq {a = a} h = ap (λ l. elim l [ [] ↦ a | y ∷ ys ↦ y ]) h
closed_before (d ∷ x) t rest c e apart = elim (Bool-cases (is_digit d)) [
  | inl digit ↦
      let split : digits (d ∷ (x ++ b'[' ∷ t)) ≡ d ∷ digits (x ++ b'[' ∷ t) = if_true _ _ digit in
      let longer : length (digits (d ∷ (x ++ b'[' ∷ t))) ≡ suc (length (digits (x ++ b'[' ∷ t))) =
        ap length split in
      let shorter : length (digits (x ++ b'[' ∷ t)) < length x =
        closed_before x t rest c (ap (λ n. drop n (d ∷ (x ++ b'[' ∷ t))) (sym longer) ∙ e) apart in
      omega (arith, longer, shorter)
  | inr other ↦
      let empty : length (digits (d ∷ (x ++ b'[' ∷ t))) ≡ 0 = ap length (if_false _ _ other) in
      omega (arith, empty)
]

closed_within :
    (x t ds : Text) (n : ℕ) → closed_by b']' 2 (x ++ b'[' ∷ t) ≡ some (ds, n) → n ≤ length x + 2
closed_within x t ds n h =
    go (digits (x ++ b'[' ∷ t)) (drop (length (digits (x ++ b'[' ∷ t))) (x ++ b'[' ∷ t)) refl refl h
  where
    go :
        (es rest : Text)
        → digits (x ++ b'[' ∷ t) ≡ es
        → drop (length (digits (x ++ b'[' ∷ t))) (x ++ b'[' ∷ t) ≡ rest
        → closed_with b']' 2 es rest ≡ some (ds, n)
        → n ≤ length x + 2
    go [] rest e f k = absurd cc
    go (d ∷ es) [] e f k = absurd cc
    go (d ∷ es) (c ∷ rest) e f k = elim (Bool-cases (c == b']')) [
      | inl closes ↦
          let same : some (d ∷ es, 2 + length (d ∷ es) + 1) ≡ some (ds, n) =
            sym (if_true _ _ closes) ∙ k in
          let size : 2 + length (d ∷ es) + 1 ≡ n =
            ap (λ (o : Option (Text × ℕ)). elim o [ none ↦ 0 | some p ↦ p.1 ]) same in
          let apart : c ≢ b'[' = λ bracket.
            let both : b']' ≡ b'[' = sym ((==_iff c b']').0 closes) ∙ bracket in
            omega (arith, both) in
          let before = closed_before x t rest c f apart in omega (arith, size, before, ap length e)
      | inr bracket ↦ absurd (let k2 = sym (if_false _ _ bracket) ∙ k in cc)
    ]

-- A match ends before the next bracket.
canonical_within :
    (c : ℕ) (x t ds : Text) (n : ℕ)
    → canonical (c ∷ (x ++ b'[' ∷ t)) ≡ some (ds, n)
    → n ≤ suc (length x)
unfolding canonical
canonical_within c [] t ds n h = elim (Bool-cases (b'[' == c)) [
  | inl e ↦ absurd (let k = sym (if_true _ _ e) ∙ h in cc)
  | inr e ↦ absurd (let k = sym (if_false _ _ e) ∙ h in cc)
]
canonical_within c (d ∷ x) t ds n h = elim (Bool-cases (b'[' == c)) [
  | inl e ↦ elim (Bool-cases (b'S' == d)) [
    | inl f ↦
        let within = closed_within x t ds n (sym (if_true _ _ f) ∙ sym (if_true _ _ e) ∙ h) in
        omega (arith, within)
    | inr f ↦ absurd (let k = sym (if_false _ _ f) ∙ sym (if_true _ _ e) ∙ h in cc)
  ]
  | inr e ↦ absurd (let k = sym (if_false _ _ e) ∙ h in cc)
]

-- A citation in its canonical form, and what follows.
abbrev pub cite : Text → Text → Text
cite ds after = b'[' ∷ b'S' ∷ (ds ++ b']' ∷ after)

module _ (ds after : Text) (some_digit : ds ≢ [])
    (all_digits : All (λ c. is_digit c ≡ true) ds) where
  canonical-cite : canonical (cite ds after) ≡ some (ds, 2 + length ds + 1)
  unfolding canonical
  canonical-cite = closed-tail ds after some_digit all_digits

  -- One turn at a place where the matcher gives `o`.
  abbrev turn : Option (Text × ℕ) → Text → List ℕ
  turn o s = elim o [
    | none ↦ found_from zero s
    | some (es, n) ↦ int_from 0 es ∷ found_from (n - 1) s
  ]

  turned :
      (k c : ℕ) (s : Text) (o : Option (Text × ℕ))
      → canonical (c ∷ s) ≡ o
      → Member k (turn o s)
      → Member k (found_from zero (c ∷ s))
  unfolding found_from
  turned k c s o e m = subst (λ x. Member k (turn x s)) (sym e) m

  found-cite :
      (before : Text) (skip : ℕ)
      → skip ≤ length before
      → Member (int_from 0 ds) (found_from skip (before ++ cite ds after))
  unfolding found_from
  found-cite [] zero h =
      turned (int_from 0 ds) b'[' (b'S' ∷ (ds ++ b']' ∷ after)) (some (ds, 2 + length ds + 1))
        canonical-cite (inl refl)
  found-cite [] (suc skip) h = absurd (omega arith)
  found-cite (c ∷ before) (suc skip) h = found-cite before skip (omega arith)
  found-cite (c ∷ before) zero h = elim (Option-cases (canonical (c ∷ (before ++ cite ds after)))) [
    | inl e ↦
        turned (int_from 0 ds) c (before ++ cite ds after) none e
          (found-cite before zero (omega arith))
    | inr ((es, n), e) ↦
        let within : n ≤ suc (length before) =
          canonical_within c before (b'S' ∷ (ds ++ b']' ∷ after)) es n e in
        turned (int_from 0 ds) c (before ++ cite ds after) (some (es, n)) e
          (inr (found-cite before (n - 1) (omega arith)))
  ]

Member-snoc : (seen : List ℕ) (n : ℕ) → Member n (seen ++ n ∷ [])
Member-snoc [] n = inl refl
Member-snoc (x ∷ seen) n = inr (Member-snoc seen n)

Member-more : (k n : ℕ) (seen : List ℕ) → Member k seen → Member k (seen ++ n ∷ [])
Member-more k n [] m = absurd m
Member-more k n (x ∷ seen) (inl e) = inl e
Member-more k n (x ∷ seen) (inr m) = inr (Member-more k n seen m)

any-Member : (n : ℕ) (seen : List ℕ) → any (λ k. k == n) seen ≡ true → Member n seen
any-Member n [] h = absurd cc
any-Member n (k ∷ seen) h = elim (Bool-cases (k == n)) [
  | inl e ↦ inl (sym ((==_iff k n).0 e))
  | inr e ↦ inr (any-Member n seen (ground (arith, e, h)))
]

set_default-keeps : (k n : ℕ) (seen : List ℕ) → Member k seen → Member k (set_default seen n)
set_default-keeps k n seen m = elim (Bool-cases (any (λ x. x == n) seen)) [
  | inl e ↦ rw e m
  | inr e ↦ rw e (Member-more k n seen m)
]

set_default-own : (n : ℕ) (seen : List ℕ) → Member n (set_default seen n)
set_default-own n seen = elim (Bool-cases (any (λ x. x == n) seen)) [
  | inl e ↦ rw e (any-Member n seen e)
  | inr e ↦ rw e (Member-snoc seen n)
]

seen_from-keeps : (k : ℕ) (seen ns : List ℕ) → Member k seen → Member k (seen_from seen ns)
seen_from-keeps k seen [] m = m
seen_from-keeps k seen (n ∷ ns) m =
    seen_from-keeps k (set_default seen n) ns (set_default-keeps k n seen m)

seen_from-all : (k : ℕ) (seen ns : List ℕ) → Member k ns → Member k (seen_from seen ns)
seen_from-all k seen [] m = absurd m
seen_from-all k seen (n ∷ ns) (inl e) =
    seen_from-keeps k (set_default seen n) ns
      (subst (λ x. Member x (set_default seen n)) (sym e) (set_default-own n seen))
seen_from-all k seen (n ∷ ns) (inr m) = seen_from-all k (set_default seen n) ns m

Member-count : (k : ℕ) (xs : List ℕ) → Member k xs → 0 < count (λ x. x == k) xs
Member-count k [] m = absurd m
Member-count k (x ∷ xs) (inl e) =
    let same : (x == k) ≡ true = (==_iff x k).1 (sym e) in ground (arith, same)
Member-count k (x ∷ xs) (inr m) =
    let rest : 0 < count (λ y. y == k) xs = Member-count k xs m in ground (arith, rest)

-- A canonical citation is found, wherever it stands.
pub extract-cite :
    (before ds after : Text)
    → ds ≢ []
    → All (λ c. is_digit c ≡ true) ds
    → 0 < count (λ n. n == int_from 0 ds) (extract_cited_indices (before ++ cite ds after))
unfolding extract_cited_indices
extract-cite before ds after some_digit all_digits =
    Member-count (int_from 0 ds) (seen_from [] (found_from 0 (before ++ cite ds after))) (
      seen_from-all (int_from 0 ds) [] (found_from 0 (before ++ cite ds after))
        (found-cite ds after some_digit all_digits before 0 (omega arith)))
