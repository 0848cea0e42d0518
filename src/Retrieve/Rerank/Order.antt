-- ===== src/Retrieve/Rerank/Order.antt =====
-- The order that reranking leaves, and where its hits come from.
use pro_rag.Prelude.{
  ℕ, zero, suc, ◌≡◌, refl, ◌∙◌, ap, ◌⊎◌, inl, inr, true, Option, none, some, List, [], ◌∷◌, map,
  arith, length, filter, get_elem?, All, if_intro, not, length-map,
}
use pro_rag.Prelude.Sort.{
  sort_desc, sort_desc-All, IsDescending, sort_desc-IsDescending, sort_desc_id, length-sort_desc,
  sort_desc-perm,
}
use pro_rag.Retrieve.Hit.{Floats, Hit}
use pro_rag.Retrieve.Rerank.{
  Ranked, Reply, raised, results, Settings, attach, flat_guard, set_score, input_scores_from,
  scored_hits, kept_or_sorted, or_input, is_nil, in_range, use_valid, use_results, rerank_api,
  rerank,
}
use mathlib.Core.Option
use pro_rag.Prelude.Chain.{OnSome, OnSome-bind, OnSome-any}
use mathlib.Core.List.{Perm}

module _ (fl : Floats) where
  abbrev valid_of : List (Hit fl.order) → List (Ranked fl.Score) → List (Ranked fl.Score)
  valid_of hits ranked = filter (in_range fl (length hits)) ranked

  abbrev zeros_of : List (Hit fl.order) → List fl.Score
  zeros_of = map (λ _. fl.zero)

  abbrev score_of : Hit fl.order → fl.Score
  score_of h = h.score

  -- A hit with its score wiped out: all that reranking must not touch.
  abbrev pub wipe : Hit fl.order → Hit fl.order
  wipe h = record h { score = fl.zero }

  attach-wipe :
      (scores : List fl.Score) (hits : List (Hit fl.order))
      → map wipe (attach fl scores hits) ≡ map wipe hits
  unfolding attach
  attach-wipe scores [] = refl
  attach-wipe [] (h ∷ hits) = refl
  attach-wipe (s ∷ scores) (h ∷ hits) = ap (λ t. wipe h ∷ t) (attach-wipe scores hits)

  attach-scores :
      (scores : List fl.Score) (hits : List (Hit fl.order))
      → length scores ≡ length hits
      → map score_of (attach fl scores hits) ≡ scores
  unfolding attach
  attach-scores [] [] e = refl
  attach-scores (s ∷ scores) [] e = absurd (omega arith)
  attach-scores [] (h ∷ hits) e = absurd (omega arith)
  attach-scores (s ∷ scores) (h ∷ hits) e =
      ap (λ t. s ∷ t) (attach-scores scores hits (omega arith))

  All-of_map :
      {A : Type 0} (P : fl.Score → Type 0) (f : A → fl.Score) (xs : List A)
      → All P (map f xs)
      → All (λ x. P (f x)) xs
  All-of_map P f [] h = tt
  All-of_map P f (x ∷ xs) h = (h.0, All-of_map P f xs h.1)

  IsDescending-of_map :
      (hits : List (Hit fl.order))
      → IsDescending fl.order (λ s. s) (map score_of hits)
      → IsDescending fl.order score_of hits
  IsDescending-of_map [] h = tt
  IsDescending-of_map (x ∷ xs) h =
      (All-of_map (λ y. fl.le y (score_of x) ≡ true) score_of xs h.0, IsDescending-of_map xs h.1)

  length-set_score :
      (i : ℕ) (s : fl.Score) (xs : List fl.Score) → length (set_score fl i s xs) ≡ length xs
  unfolding set_score
  length-set_score i s [] = refl
  length-set_score zero s (x ∷ xs) = refl
  length-set_score (suc i) s (x ∷ xs) = ap suc (length-set_score i s xs)

  abbrev ordered : List fl.Score → List fl.Score
  ordered scores = sort_desc fl.order (λ s. s) scores

  flat_guard-eq :
      (spread : fl.Score) (hits : List (Hit fl.order)) (scores : List fl.Score)
      {kept : List (Hit fl.order)}
      → flat_guard fl spread hits scores ≡ some kept
      → kept ≡ attach fl (ordered scores) hits
  unfolding flat_guard
  flat_guard-eq spread hits scores g = ground arith

  attach-ordered :
      (scores : List fl.Score) (hits : List (Hit fl.order))
      → length scores ≡ length hits
      → map score_of (attach fl (ordered scores) hits) ≡ ordered scores
  attach-ordered scores hits e =
      attach-scores (ordered scores) hits (length-sort_desc fl.order (λ s. s) scores ∙ e)

  -- Where the guard fires, the hits keep their order and all but their scores, the scores are the
  -- given ones, and they fall along the list, so that a later stable sort by score leaves the
  -- list as it is.
  pub flat_guard_keeps :
      (spread : fl.Score) (hits : List (Hit fl.order)) (scores : List fl.Score)
      {kept : List (Hit fl.order)}
      → length scores ≡ length hits
      → flat_guard fl spread hits scores ≡ some kept
      → (map wipe kept ≡ map wipe hits)
        × Perm (map score_of kept) scores
        × (sort_desc fl.order score_of kept ≡ kept)
  flat_guard_keeps spread hits scores e g = rw (flat_guard-eq spread hits scores g) (
    attach-wipe (ordered scores) hits,
    rw (attach-ordered scores hits e) (sort_desc-perm fl.order (λ s. s) scores),
    sort_desc_id fl.order score_of (attach fl (ordered scores) hits) (
        IsDescending-of_map (attach fl (ordered scores) hits)
          (rw (attach-ordered scores hits e) (sort_desc-IsDescending fl.order (λ s. s) scores))),
  )

  length-input_scores :
      (acc : List fl.Score) (valid : List (Ranked fl.Score))
      → OnSome (λ scores. length scores ≡ length acc) (input_scores_from fl acc valid)
  unfolding input_scores_from
  length-input_scores acc [] = refl
  length-input_scores acc (r ∷ valid) =
      OnSome-bind (λ _. Unit {0}) (λ scores. length scores ≡ length acc) r.relevance_score _
        (OnSome-any r.relevance_score)
        (λ s _.
          OnSome-bind (λ _. Unit {0}) (λ scores. length scores ≡ length acc) r.index _
            (OnSome-any r.index)
            (λ i _.
              rw (← length-set_score i s acc) (length-input_scores (set_score fl i s acc) valid)))

  -- What holds of every hit, whatever its score, holds of every hit that comes back.
  module _ (P : Hit fl.order → Type 0)
      (any_score : (h : Hit fl.order) (s : fl.Score) → P h → P (record h { score = s })) where
    attach-All :
        (scores : List fl.Score) (hits : List (Hit fl.order))
        → All P hits
        → All P (attach fl scores hits)
    unfolding attach
    attach-All scores [] h = tt
    attach-All [] (x ∷ hits) h = h
    attach-All (s ∷ scores) (x ∷ hits) h = (any_score x s h.0, attach-All scores hits h.1)

    get-All : (hits : List (Hit fl.order)) (i : ℕ) → All P hits → OnSome P (get_elem? hits i)
    get-All [] i h = tt
    get-All (y ∷ hits) zero h = h.0
    get-All (y ∷ hits) (suc i) h = get-All hits i h.1

    scored_hits-All :
        (hits : List (Hit fl.order)) (valid : List (Ranked fl.Score))
        → All P hits
        → OnSome (All P) (scored_hits fl hits valid)
    unfolding scored_hits
    scored_hits-All hits [] h = tt
    scored_hits-All hits (r ∷ valid) h =
        OnSome-bind (All P) (All P) (scored_hits fl hits valid) _ (scored_hits-All hits valid h)
          (λ rest hr.
            OnSome-bind (λ _. Unit {0}) (All P) r.relevance_score _ (OnSome-any r.relevance_score)
              (λ s _.
                OnSome-bind (λ _. Unit {0}) (All P) r.index _ (OnSome-any r.index)
                  (λ i _.
                    OnSome-bind P (All P) (get_elem? hits i) _ (get-All hits i h)
                      (λ x hx. (any_score x s hx, hr)))))

    sorted-All :
        (o : Option (List (Hit fl.order)))
        → OnSome (All P) o
        → OnSome (All P) (Option.map (sort_desc fl.order score_of) o)
    sorted-All none h = tt
    sorted-All (some out) h = sort_desc-All fl.order score_of P out h

    flat_guard-All :
        (spread : fl.Score) (hits : List (Hit fl.order)) (scores : List fl.Score)
        → All P hits
        → (guarded : Option (List (Hit fl.order))) → flat_guard fl spread hits scores ≡ guarded
        → OnSome (All P) guarded
    flat_guard-All spread hits scores h none e = tt
    flat_guard-All spread hits scores h (some kept) e =
        rw (flat_guard-eq spread hits scores e) (attach-All (ordered scores) hits h)

    kept_or_sorted-All :
        (hits : List (Hit fl.order)) (valid : List (Ranked fl.Score))
        (guarded : Option (List (Hit fl.order)))
        → All P hits
        → OnSome (All P) guarded
        → OnSome (All P) (kept_or_sorted fl hits valid guarded)
    unfolding kept_or_sorted
    kept_or_sorted-All hits valid none h g =
        sorted-All (scored_hits fl hits valid) (scored_hits-All hits valid h)
    kept_or_sorted-All hits valid (some kept) h g = g

    use_valid-All :
        (spread : fl.Score) (hits : List (Hit fl.order)) (valid : List (Ranked fl.Score))
        → All P hits
        → OnSome (All P) (use_valid fl spread hits valid)
    unfolding use_valid
    use_valid-All spread hits valid h =
        OnSome-bind (λ _. Unit {0}) (All P) (input_scores_from fl _ valid) _ (OnSome-any _)
          (λ scores _.
            kept_or_sorted-All hits valid (flat_guard fl spread hits scores) h
              (flat_guard-All spread hits scores h (flat_guard fl spread hits scores) refl))

    or_input-All :
        (hits : List (Hit fl.order)) (o : Option (List (Hit fl.order)))
        → All P hits
        → OnSome (All P) o
        → All P (or_input hits o)
    or_input-All hits none h k = h
    or_input-All hits (some out) h k = k

    use_results-All :
        (spread : fl.Score) (hits : List (Hit fl.order)) (ranked : List (Ranked fl.Score))
        → All P hits
        → All P (use_results fl spread hits ranked)
    unfolding use_results
    use_results-All spread hits ranked h = if_intro (All P) (is_nil (valid_of hits ranked)) h (
        or_input-All hits (use_valid fl spread hits (valid_of hits ranked)) h
          (use_valid-All spread hits (valid_of hits ranked) h))

    pub rerank-All :
        (settings : Settings fl.Score) (reply : Reply fl.Score) (hits : List (Hit fl.order))
        → All P hits
        → All P (rerank fl settings reply hits)
    unfolding rerank rerank_api
    rerank-All settings reply [] h = tt
    rerank-All settings raised (x ∷ hits) h = if_intro (All P) (not settings.rerank_enabled) h h
    rerank-All settings (results ranked) (x ∷ hits) h =
        if_intro (All P) (not settings.rerank_enabled) h (
          if_intro (All P) (not settings.has_api_key) h
            (use_results-All settings.rerank_flat_spread (x ∷ hits) ranked h))

  -- A list that crop's sort by score leaves as it is.
  abbrev pub InOrder : List (Hit fl.order) → Type 0
  InOrder hits = sort_desc fl.order score_of hits ≡ hits

  sorted-InOrder :
      (o : Option (List (Hit fl.order)))
      → OnSome InOrder (Option.map (sort_desc fl.order score_of) o)
  sorted-InOrder none = tt
  sorted-InOrder (some out) =
      sort_desc_id fl.order score_of (sort_desc fl.order score_of out)
        (sort_desc-IsDescending fl.order score_of out)

  kept_or_sorted-InOrder :
      (spread : fl.Score) (hits : List (Hit fl.order)) (valid : List (Ranked fl.Score))
      (scores : List fl.Score)
      → length scores ≡ length hits
      → (guarded : Option (List (Hit fl.order))) → flat_guard fl spread hits scores ≡ guarded
      → OnSome InOrder (kept_or_sorted fl hits valid guarded)
  unfolding kept_or_sorted
  kept_or_sorted-InOrder spread hits valid scores l none e =
      sorted-InOrder (scored_hits fl hits valid)
  kept_or_sorted-InOrder spread hits valid scores l (some kept) e =
      (flat_guard_keeps spread hits scores l e).2

  use_valid-InOrder :
      (spread : fl.Score) (hits : List (Hit fl.order)) (valid : List (Ranked fl.Score))
      → OnSome InOrder (use_valid fl spread hits valid)
  unfolding use_valid
  use_valid-InOrder spread hits valid =
      OnSome-bind (λ scores. length scores ≡ length (zeros_of hits)) InOrder
        (input_scores_from fl (zeros_of hits) valid) _ (length-input_scores (zeros_of hits) valid)
        (λ scores l.
          kept_or_sorted-InOrder spread hits valid scores (l ∙ length-map (λ _. fl.zero) hits)
            (flat_guard fl spread hits scores) refl)

  or_input-InOrder :
      (hits : List (Hit fl.order)) (o : Option (List (Hit fl.order)))
      → OnSome InOrder o
      → (or_input hits o ≡ hits) ⊎ InOrder (or_input hits o)
  or_input-InOrder hits none h = inl refl
  or_input-InOrder hits (some out) h = inr h

  abbrev Settled : List (Hit fl.order) → List (Hit fl.order) → Type 0
  Settled hits out = (out ≡ hits) ⊎ InOrder out

  -- Whatever the provider answers, the reranked list is the fused list unchanged, or its scores
  -- fall along it, so that crop's stable sort by score keeps the order that reranking decided.
  pub rerank-Settled :
      (settings : Settings fl.Score) (reply : Reply fl.Score) (hits : List (Hit fl.order))
      → (rerank fl settings reply hits ≡ hits) ⊎ InOrder (rerank fl settings reply hits)
  unfolding rerank rerank_api use_results
  rerank-Settled settings reply [] = inl refl
  rerank-Settled settings raised (x ∷ hits) =
      if_intro (Settled (x ∷ hits)) (not settings.rerank_enabled) (inl refl) (inl refl)
  rerank-Settled settings (results ranked) (x ∷ hits) =
      if_intro (Settled (x ∷ hits)) (not settings.rerank_enabled) (inl refl) (
        if_intro (Settled (x ∷ hits)) (not settings.has_api_key) (inl refl) (
          if_intro (Settled (x ∷ hits)) (is_nil (valid_of (x ∷ hits) ranked)) (inl refl) (
            or_input-InOrder (x ∷ hits) _ (
              use_valid-InOrder settings.rerank_flat_spread (x ∷ hits)
                (valid_of (x ∷ hits) ranked)))))
