-- ===== src/Retrieve/Crop/Bounds.antt =====
-- What the crop's limits guarantee.
use pro_rag.Prelude.{
  ℕ, suc, ◌+◌, ◌≤◌, ◌≡◌, refl, ◌⊎◌, inl, inr, true, false, Option, none, some, List, [], ◌∷◌, ◌++◌,
  arith, ltb, if_intro, if_cases, All-take, Bool-cases, length, filter, take, All, length-take, max,
  Text, append-nil, append_assoc, sym,
}
use pro_rag.Prelude.Sort.{Order, sort_desc}
use pro_rag.Prelude.Sub.{
  Sub, nil, keep, Sub-refl, Sub-nil, Sub-trans, Sub-filter, Sub-take, Sub-snoc_keep, Sub-snoc_skip,
  Sub-All, Sub-length,
}
use pro_rag.Retrieve.Hit.{Hit}
use pro_rag.Retrieve.Crop.{
  Limits, Dedup, start, title_of, is_newer, take_slot, first_of_title, join_slot, against,
  dedup_from, dedup, tokens_of, pool_of, kept_of, budgeted_from, crop_pool, crop_context,
}

module _ (o : Order) (normalize_title : Option Text → Text) where
  -- Every hit that survives the loop stands where it stood in the ranking.
  against-Sub :
      (n : ℕ) (w : Option (Hit o)) (h : Hit o) (s : Dedup o normalize_title) (done : List (Hit o))
      → Sub s.deduped done
      → Sub (against o normalize_title n w h s).deduped (done ++ h ∷ [])
  unfolding against take_slot first_of_title join_slot
  against-Sub n none h s done k = Sub-snoc_keep h k
  against-Sub n (some w) h s done k =
      if_intro (λ (s' : Dedup o normalize_title). Sub s'.deduped (done ++ h ∷ []))
        (is_newer o normalize_title h w) (Sub-snoc_keep h (Sub-trans k (Sub-filter _ s.deduped)))
        (if_intro (λ (s' : Dedup o normalize_title). Sub s'.deduped (done ++ h ∷ [])) _
          (Sub-snoc_keep h k) (Sub-snoc_skip h k))

  dedup_from-Sub :
      (n : ℕ) (s : Dedup o normalize_title) (done ranked : List (Hit o))
      → Sub s.deduped done
      → Sub (dedup_from o normalize_title n s ranked).deduped (done ++ ranked)
  unfolding dedup_from
  dedup_from-Sub n s done [] k = rw append-nil k
  dedup_from-Sub n s done (h ∷ ranked) k = rw (split_at done h ranked) (
      dedup_from-Sub n
        (against o normalize_title n (s.winner_by_title (title_of o normalize_title h)) h s)
        (done ++ h ∷ []) ranked
        (against-Sub n (s.winner_by_title (title_of o normalize_title h)) h s done k))
    where
      split_at :
          (xs : List (Hit o)) (x : Hit o) (ys : List (Hit o)) → xs ++ x ∷ ys ≡ (xs ++ x ∷ []) ++ ys
      split_at xs x ys = sym (append_assoc xs (x ∷ []) ys)

  pub dedup-Sub : (n : ℕ) (ranked : List (Hit o)) → Sub (dedup o normalize_title n ranked) ranked
  unfolding dedup
  dedup-Sub n ranked = dedup_from-Sub n (start o normalize_title) [] ranked nil

  module _ (lim : Limits o.Score) where
    pool_of-Sub : (deduped : List (Hit o)) → Sub (pool_of o normalize_title lim deduped) deduped
    unfolding pool_of
    pool_of-Sub deduped =
        if_intro (λ xs. Sub xs deduped) _ (Sub-filter _ deduped) (Sub-refl deduped)

    kept_of-Sub : (pool : List (Hit o)) → Sub (kept_of o normalize_title lim pool) pool
    unfolding kept_of
    kept_of-Sub pool =
        if_intro (λ xs. Sub xs pool) _ (Sub-take lim.min_docs pool)
          (if_intro (λ xs. Sub xs pool) _ (Sub-trans (Sub-filter _ pool) (Sub-take lim.max_docs _))
            (Sub-filter _ pool))

    budgeted_from-Sub :
        (i total : ℕ) (kept : List (Hit o))
        → Sub (budgeted_from o normalize_title lim i total kept) kept
    unfolding budgeted_from
    budgeted_from-Sub i total [] = nil
    budgeted_from-Sub i total (h ∷ kept) =
        if_intro (λ xs. Sub xs (h ∷ kept)) _ (Sub-nil (h ∷ kept))
          (keep (budgeted_from-Sub (suc i) _ kept))

    crop_pool-Sub : (pool : List (Hit o)) → Sub (crop_pool o normalize_title lim pool) pool
    unfolding crop_pool
    crop_pool-Sub [] = nil
    crop_pool-Sub (h ∷ pool) = Sub-trans (kept_of-Sub (h ∷ pool)) (budgeted_from-Sub 0 0 _)

    pub crop_context-Sub_dedup :
        (hits : List (Hit o))
        → Sub
            (crop_context o normalize_title lim hits)
            (dedup o normalize_title lim.max_chunks_per_doc (sort_desc o (λ h. h.score) hits))
    unfolding crop_context sort_desc
    crop_context-Sub_dedup [] = Sub-nil _
    crop_context-Sub_dedup (h ∷ hits) = Sub-trans (pool_of-Sub _) (crop_pool-Sub _)

    -- The cropped list is the ranking, best first, with hits left out: none is moved, repeated or
    -- made up.
    pub crop_context-Sub :
        (hits : List (Hit o))
        → Sub (crop_context o normalize_title lim hits) (sort_desc o (λ h. h.score) hits)
    crop_context-Sub hits = Sub-trans (dedup-Sub _ _) (crop_context-Sub_dedup hits)

    abbrev Above : Hit o → Type 0
    Above h = o.le lim.score_floor h.score ≡ true

    abbrev Fits : List (Hit o) → Type 0
    Fits xs =
        (length xs ≤ max lim.min_docs lim.max_docs) × ((length xs ≤ lim.min_docs) ⊎ All Above xs)

    abbrev above : List (Hit o) → List (Hit o)
    above pool = filter (λ h. o.le lim.score_floor h.score) pool

    filter-Above :
        (pool : List (Hit o)) → All Above (filter (λ h. o.le lim.score_floor h.score) pool)
    filter-Above [] = tt
    filter-Above (h ∷ pool) = elim (Bool-cases (o.le lim.score_floor h.score)) [
      | inl e ↦ rw e (e, filter-Above pool)
      | inr e ↦ rw e (filter-Above pool)
    ]

    take-Fits : (n : ℕ) (xs : List (Hit o)) → n ≤ lim.min_docs → Fits (take n xs)
    take-Fits n xs h = (omega (arith, length-take n xs), inl (omega (arith, length-take n xs)))

    kept_of-Fits : (pool : List (Hit o)) → Fits (kept_of o normalize_title lim pool)
    unfolding kept_of
    kept_of-Fits pool =
        if_cases Fits (ltb (length (above pool)) lim.min_docs)
          (λ few. take-Fits lim.min_docs pool (omega arith))
          (λ enough.
            if_cases Fits (ltb lim.max_docs (length (above pool)))
              (λ many. (
                omega (arith, length-take lim.max_docs (above pool)),
                inr (All-take Above lim.max_docs (above pool) (filter-Above pool)),
              ))
              (λ fine. (leq fine, inr (filter-Above pool))))
      where
        leq :
            ltb lim.max_docs (length (above pool)) ≡ false
            → length (above pool) ≤ max lim.min_docs lim.max_docs
        leq fine = ground arith

    Fits-Sub : {xs ys : List (Hit o)} → Sub xs ys → Fits ys → Fits xs
    Fits-Sub s (short, inl few) = (omega (arith, Sub-length s), inl (omega (arith, Sub-length s)))
    Fits-Sub s (short, inr above_floor) =
        (omega (arith, Sub-length s), inr (Sub-All Above s above_floor))

    crop_pool-Fits : (pool : List (Hit o)) → Fits (crop_pool o normalize_title lim pool)
    unfolding crop_pool
    crop_pool-Fits [] = (omega arith, inr tt)
    crop_pool-Fits (h ∷ pool) = Fits-Sub (budgeted_from-Sub 0 0 _) (kept_of-Fits (h ∷ pool))

    -- The crop returns at most `max_docs` hits (or `min_docs`, if that is larger), and all of them
    -- reach the score floor unless it returns `min_docs` hits or fewer.
    pub crop_context-Fits :
        (hits : List (Hit o))
        → (length (crop_context o normalize_title lim hits) ≤ max lim.min_docs lim.max_docs)
          × ((length (crop_context o normalize_title lim hits) ≤ lim.min_docs)
              ⊎ All Above (crop_context o normalize_title lim hits))
    unfolding crop_context
    crop_context-Fits [] = (omega arith, inr tt)
    crop_context-Fits (h ∷ hits) = crop_pool-Fits _

    -- The tokens of a list of hits, as the budget counts them.
    abbrev pub total_tokens : List (Hit o) → ℕ
    total_tokens [] = 0
    total_tokens (h ∷ hits) = tokens_of o normalize_title h + total_tokens hits

    total_tokens_none : (xs : List (Hit o)) → length xs ≤ 0 → total_tokens xs ≡ 0
    total_tokens_none [] h = refl
    total_tokens_none (x ∷ xs) h = absurd (omega arith)

    budgeted_from-tokens :
        (i total : ℕ) (kept : List (Hit o))
        → (i + length (budgeted_from o normalize_title lim i total kept) ≤ max i lim.min_docs)
          ⊎ (total + total_tokens (budgeted_from o normalize_title lim i total kept)
              ≤ lim.token_budget)
    unfolding budgeted_from
    budgeted_from-tokens i total [] = inl (omega arith)
    budgeted_from-tokens i total (h ∷ kept) =
        let next = total + tokens_of o normalize_title h in
        ground (
          arith,
          budgeted_from-tokens (suc i) next kept,
          total_tokens_none (budgeted_from o normalize_title lim (suc i) next kept),
        )

    crop_pool-tokens :
        (pool : List (Hit o))
        → (length (crop_pool o normalize_title lim pool) ≤ lim.min_docs)
          ⊎ (total_tokens (crop_pool o normalize_title lim pool) ≤ lim.token_budget)
    unfolding crop_pool
    crop_pool-tokens [] = inl (omega arith)
    crop_pool-tokens (h ∷ pool) =
        ground (arith, budgeted_from-tokens 0 0 (kept_of o normalize_title lim (h ∷ pool)))

    -- Unless the crop returns `min_docs` hits or fewer, the hits that it returns fit the token
    -- budget together.
    pub crop_context-tokens :
        (hits : List (Hit o))
        → (length (crop_context o normalize_title lim hits) ≤ lim.min_docs)
          ⊎ (total_tokens (crop_context o normalize_title lim hits) ≤ lim.token_budget)
    unfolding crop_context
    crop_context-tokens [] = inl (omega arith)
    crop_context-tokens (h ∷ hits) = crop_pool-tokens _
