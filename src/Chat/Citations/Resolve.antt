-- ===== src/Chat/Citations/Resolve.antt =====
-- Which sources an answer's citations resolve to.
use pro_rag.Prelude.{
  ℕ, zero, suc, ◌+◌, ◌-◌, ◌≤◌, ◌<◌, subst, true, length, get_elem?, All-map_imp, ◌≡◌, ◌≢◌, refl,
  sym, ap, ◌∙◌, inl, inr, Bool-cases, false, Option, none, some, List, [], ◌∷◌, ◌++◌, ◌==◌, ==_iff,
  if◌then◌else◌, Text, any, count, All, arith, if_cases,
}
use pro_rag.Chat.Citations.Found.{cite, extract-cite}
use pro_rag.Chat.Citations.{
  is_digit, int_from, extract_cited_indices, set_default, seen_from, found_from, source_of,
  source_then, sources_of, resolve_citations,
}

count-snoc :
    (k n : ℕ) (xs : List ℕ)
    → count (λ x. x == k) (xs ++ n ∷ []) ≡ count (λ x. x == k) xs + (if n == k then 1 else 0)
count-snoc k n [] = ground arith
count-snoc k n (x ∷ xs) = ground (arith, count-snoc k n xs)

count_absent : (k : ℕ) (xs : List ℕ) → any (λ x. x == k) xs ≡ false → count (λ x. x == k) xs ≡ 0
count_absent k [] h = refl
count_absent k (x ∷ xs) h = ground (arith, h, count_absent k xs)

-- No number twice.
abbrev pub IsUnique : List ℕ → Type 0
IsUnique xs = (k : ℕ) → count (λ x. x == k) xs ≤ 1

set_default-IsUnique : (seen : List ℕ) (n : ℕ) → IsUnique seen → IsUnique (set_default seen n)
set_default-IsUnique seen n u =
    if_cases IsUnique (any (λ k. k == n) seen) {x = seen} {y = seen ++ n ∷ []} (λ _. u)
      (λ e k. ground (arith, u k, count-snoc k n seen, count_absent n seen e))

seen_from-IsUnique : (seen ns : List ℕ) → IsUnique seen → IsUnique (seen_from seen ns)
seen_from-IsUnique seen [] u = u
seen_from-IsUnique seen (n ∷ ns) u =
    seen_from-IsUnique (set_default seen n) ns (set_default-IsUnique seen n u)

extract-IsUnique : (text : Text) → IsUnique (extract_cited_indices text)
unfolding extract_cited_indices
extract-IsUnique text = seen_from-IsUnique [] (found_from 0 text) (λ k. omega arith)

module _ {A : Type 0} where
  -- How often a number is cited among the sources.
  abbrev pub times : ℕ → List (ℕ × A) → ℕ
  times k = count (λ (s : ℕ × A). s.0 == k)

  sources_lem :
      (chunks : List A) (ns : List ℕ)
      → All (λ (s : ℕ × A). source_of chunks s.0 ≡ some s.1) (sources_of chunks ns)
        × ((k : ℕ) → times k (sources_of chunks ns) ≤ count (λ n. n == k) ns)
        × ((k : ℕ)
            → source_of chunks k ≢ none
            → times k (sources_of chunks ns) ≡ count (λ n. n == k) ns)
  sources_lem chunks [] = (tt, (λ k. omega arith), (λ k h. refl))
  sources_lem chunks (n ∷ ns) = step (source_of chunks n) refl (sources_lem chunks ns)
    where
      clash : source_of chunks n ≡ none → (k : ℕ) → source_of chunks k ≢ none → (n == k) ≡ false
      clash e k h = elim (Bool-cases (n == k)) [
        | inl t ↦ absurd (h (ap (source_of chunks) (sym ((==_iff n k).0 t)) ∙ e))
        | inr f ↦ f
      ]

      step :
          (o : Option A)
          → source_of chunks n ≡ o
          → (All (λ (s : ℕ × A). source_of chunks s.0 ≡ some s.1) (sources_of chunks ns)
              × ((k : ℕ) → times k (sources_of chunks ns) ≤ count (λ m. m == k) ns)
              × ((k : ℕ)
                  → source_of chunks k ≢ none
                  → times k (sources_of chunks ns) ≡ count (λ m. m == k) ns))
          → All
              (λ (s : ℕ × A). source_of chunks s.0 ≡ some s.1)
              (source_then n o (sources_of chunks ns))
            × ((k : ℕ)
                → times k (source_then n o (sources_of chunks ns)) ≤ count (λ m. m == k) (n ∷ ns))
            × ((k : ℕ)
                → source_of chunks k ≢ none
                → times k (source_then n o (sources_of chunks ns)) ≡ count (λ m. m == k) (n ∷ ns))
      step none e (sound, most, all) =
          (sound, (λ k. ground (arith, most k)), (λ k h. ground (arith, all k h, clash e k h)))
      step (some c) e (sound, most, all) =
          ((e, sound), (λ k. ground (arith, most k)), (λ k h. ground (arith, all k h)))

  -- The chunk of a number: chunks are numbered from 1.
  source_of-eq :
      (chunks : List A) (n : ℕ) (c : A)
      → source_of chunks n ≡ some c
      → (1 ≤ n) × (get_elem? chunks (n - 1) ≡ some c)
  source_of-eq chunks zero c e = absurd cc
  source_of-eq chunks (suc idx) c e =
      let back : suc idx - 1 ≡ idx = omega arith in (omega arith, ap (get_elem? chunks) back ∙ e)

  get_in_range : (chunks : List A) (i : ℕ) → i < length chunks → get_elem? chunks i ≢ none
  get_in_range [] i h e = absurd (omega arith)
  get_in_range (c ∷ chunks) zero h e = cc
  get_in_range (c ∷ chunks) (suc i) h e = get_in_range chunks i (omega arith) e

  source_in_range :
      (chunks : List A) (n : ℕ) → 1 ≤ n → n ≤ length chunks → source_of chunks n ≢ none
  source_in_range chunks zero h k = absurd (omega arith)
  source_in_range chunks (suc i) h k = get_in_range chunks i (omega arith)

  -- The sources are chunks of the context, each under its number, counted from 1, and no number twice;
  -- and wherever the answer has a bracket, S, digits and a bracket, and a chunk has that number, it is
  -- among them.
  pub resolve_citations_lem :
      (chunks : List A) (text : Text)
      → All
          (λ (s : ℕ × A). (1 ≤ s.0) × (get_elem? chunks (s.0 - 1) ≡ some s.1))
          (resolve_citations text chunks)
        × ((k : ℕ) → times k (resolve_citations text chunks) ≤ 1)
        × ((before ds after : Text)
            → text ≡ before ++ cite ds after
            → ds ≢ []
            → All (λ c. is_digit c ≡ true) ds
            → 1 ≤ int_from 0 ds
            → int_from 0 ds ≤ length chunks
            → times (int_from 0 ds) (resolve_citations text chunks) ≡ 1)
  unfolding resolve_citations
  resolve_citations_lem chunks text =
      let (sound, most, all) = sources_lem chunks (extract_cited_indices text) in
      (
        All-map_imp (λ (s : ℕ × A) e. source_of-eq chunks s.0 s.1 e)
            (sources_of chunks (extract_cited_indices text)) sound,
        (λ k. omega (arith, most k, extract-IsUnique text k)),
        (λ before ds after e some_digit all_digits low high.
            let k : ℕ = int_from 0 ds in
            let cited : 0 < count (λ n. n == k) (extract_cited_indices text) =
              subst (λ t. 0 < count (λ n. n == k) (extract_cited_indices t)) (sym e)
                (extract-cite before ds after some_digit all_digits) in
            let once = extract-IsUnique text k in
            let there = all k (source_in_range chunks k low high) in
            omega (arith, cited, once, there)),
      )
