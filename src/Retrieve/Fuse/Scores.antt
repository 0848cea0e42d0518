-- ===== src/Retrieve/Fuse/Scores.antt =====
-- What fusion returns: one hit for each chunk, with the sum of its contributions, best first.
use pro_rag.Prelude.{
  ap, ℕ, suc, ◌+◌, length, map, Member, All-of_Member, Member-append_left, Member-append_right,
  subst, if_true, if_false, true, false, ==_iff, ◌++◌, ◌≤◌, ◌≡◌, refl, ◌≢◌, ◌<◌, sym, ◌∙◌, Bool,
  Option, none, some, List, [], ◌∷◌, arith, ◌==◌, if◌then◌else◌, filter, count, All, All-map_imp,
  Bool-cases, max, inl, inr,
}
use pro_rag.Prelude.Sort.{
  sort_desc, sort_desc-All, count-sort_desc, IsDescending, sort_desc-IsDescending,
}
use pro_rag.Retrieve.Hit.{Floats, Hit}
use pro_rag.Retrieve.Fuse.{
  contributions, add_hit, add_hits, all_contributions, weights_or_ones, rrf_fuse,
}
use pro_rag.Retrieve.Fuse.Origin.{rrf_fuse-All}
use pro_rag.Prelude.Chain.{of_OnSome}

module _ (fl : Floats) where
  abbrev has_id : ℕ → Hit fl.order → Bool
  has_id cid h = h.chunk_id == cid

  abbrev for_chunk : ℕ → Hit fl.order × fl.Score → Bool
  for_chunk cid c = (c.0).chunk_id == cid

  -- The hit that a chunk's contributions make: the fields of the first hit, the scores added up
  -- from the left.
  abbrev pub fold_contributions :
      Option (Hit fl.order) → List (Hit fl.order × fl.Score) → Option (Hit fl.order)
  fold_contributions found [] = found
  fold_contributions none ((h, c) ∷ cs) = fold_contributions (some (record h { score = c })) cs
  fold_contributions (some g) ((h, c) ∷ cs) =
      fold_contributions (some (record g { score = fl.add g.score c })) cs

  abbrev pub fused_hit : ℕ → List (Hit fl.order × fl.Score) → Option (Hit fl.order)
  fused_hit cid cs = fold_contributions none (filter (for_chunk cid) cs)

  abbrev find : ℕ → List (Hit fl.order) → Option (Hit fl.order)
  find cid [] = none
  find cid (g ∷ gs) = if g.chunk_id == cid then some g else find cid gs

  abbrev add_to : Option (Hit fl.order) → Hit fl.order × fl.Score → Option (Hit fl.order)
  add_to found c = fold_contributions found (c ∷ [])

  find-add_hit :
      (cid : ℕ) (h : Hit fl.order) (c : fl.Score) (f : List (Hit fl.order))
      → find cid (add_hit fl (h, c) f)
        ≡ (if h.chunk_id == cid then add_to (find cid f) (h, c) else find cid f)
  unfolding add_hit
  find-add_hit cid h c [] = ground arith
  find-add_hit cid h c (g ∷ f) = ground (arith, find-add_hit cid h c f)

  fold_step :
      (found : Option (Hit fl.order)) (h : Hit fl.order) (c : fl.Score)
      (cs : List (Hit fl.order × fl.Score))
      → fold_contributions (add_to found (h, c)) cs ≡ fold_contributions found ((h, c) ∷ cs)
  fold_step none h c cs = refl
  fold_step (some g) h c cs = refl

  find-add_hits :
      (cid : ℕ) (cs : List (Hit fl.order × fl.Score)) (f : List (Hit fl.order))
      → find cid (add_hits fl cs f) ≡ fold_contributions (find cid f) (filter (for_chunk cid) cs)
  unfolding add_hits
  find-add_hits cid [] f = refl
  find-add_hits cid ((h, c) ∷ cs) f = elim (Bool-cases (h.chunk_id == cid)) [
    | inl e ↦
        find-add_hits cid cs (add_hit fl (h, c) f)
        ∙ rw (find-add_hit cid h c f, e) (fold_step (find cid f) h c (filter (for_chunk cid) cs))
    | inr e ↦ find-add_hits cid cs (add_hit fl (h, c) f) ∙ rw (find-add_hit cid h c f, e) refl
  ]

  -- Each chunk id stands at most once.
  count-add_hit :
      (cid : ℕ) (h : Hit fl.order) (c : fl.Score) (f : List (Hit fl.order))
      → count (has_id cid) (add_hit fl (h, c) f)
        ≡ (if h.chunk_id == cid then max 1 (count (has_id cid) f) else count (has_id cid) f)
  unfolding add_hit
  count-add_hit cid h c [] = ground arith
  count-add_hit cid h c (g ∷ f) = ground (arith, count-add_hit cid h c f)

  count-add_hits :
      (cid : ℕ) (cs : List (Hit fl.order × fl.Score)) (f : List (Hit fl.order))
      → count (has_id cid) f ≤ 1
      → count (has_id cid) (add_hits fl cs f) ≤ 1
  unfolding add_hits
  count-add_hits cid [] f k = k
  count-add_hits cid ((h, c) ∷ cs) f k =
      count-add_hits cid cs (add_hit fl (h, c) f) (rw (count-add_hit cid h c f) (ground arith))

  -- What is found under an id stands in the list, and the other way round.
  count_pos_of_find :
      (cid : ℕ) (f : List (Hit fl.order)) → find cid f ≢ none → 0 < count (has_id cid) f
  count_pos_of_find cid [] k = absurd (k refl)
  count_pos_of_find cid (g ∷ f) k = ground (arith, count_pos_of_find cid f)

  find_own :
      (f : List (Hit fl.order))
      → ((cid : ℕ) → count (has_id cid) f ≤ 1)
      → All (λ h. find h.chunk_id f ≡ some h) f
  find_own [] u = tt
  find_own (g ∷ f) u = (
    ground arith,
    All-map_imp (λ h e. ground (arith, u h.chunk_id, count_pos_of_find h.chunk_id f)) f
        (find_own f (λ cid. ground (arith, u cid))),
  )

  -- What the hits of a list contribute, `place` of them standing before the first.
  abbrev pub shares : fl.Score → ℕ → List (Hit fl.order) → List (Hit fl.order × fl.Score)
  shares weight place [] = []
  shares weight place (h ∷ hits) =
      (h, fl.div weight (60 + (place + 1))) ∷ shares weight (place + 1) hits

  abbrev pub all_shares :
      List (List (Hit fl.order)) → List fl.Score → List (Hit fl.order × fl.Score)
  all_shares [] weights = []
  all_shares (hits ∷ lists) [] = []
  all_shares (hits ∷ lists) (w ∷ weights) = shares w 0 hits ++ all_shares lists weights

  -- The weights given, or 1.0 for each list.
  abbrev pub each_weight : List (List (Hit fl.order)) → Option (List fl.Score) → List fl.Score
  each_weight lists none = map (λ _. fl.one) lists
  each_weight lists (some weights) = weights

  each_weight_lem :
      (lists : List (List (Hit fl.order))) (weights : Option (List fl.Score))
      → weights_or_ones fl lists weights ≡ each_weight lists weights
  unfolding weights_or_ones
  each_weight_lem lists none = refl
  each_weight_lem lists (some weights) = refl

  contributions-eq :
      (w : fl.Score) (place rank : ℕ) (hits : List (Hit fl.order))
      → rank ≡ place + 1
      → contributions fl w rank hits ≡ shares w place hits
  unfolding contributions
  contributions-eq w place rank [] e = refl
  contributions-eq w place rank (h ∷ hits) e =
      ap (λ n. (h, fl.div w (60 + n)) ∷ contributions fl w (suc rank) hits) e
      ∙ ap (λ t. (h, fl.div w (60 + (place + 1))) ∷ t)
          (contributions-eq w (place + 1) (suc rank) hits (omega arith))

  all_contributions-eq :
      (lists : List (List (Hit fl.order))) (weights : List fl.Score)
      → length lists ≡ length weights
      → all_contributions fl lists weights ≡ some (all_shares lists weights)
  unfolding all_contributions
  all_contributions-eq [] [] e = refl
  all_contributions-eq [] (w ∷ weights) e = absurd (omega arith)
  all_contributions-eq (hits ∷ lists) [] e = absurd (omega arith)
  all_contributions-eq (hits ∷ lists) (w ∷ weights) e =
      rw (all_contributions-eq lists weights (omega arith))
        (ap (λ t. some (t ++ all_shares lists weights)) (contributions-eq w 0 1 hits refl))

  fold_found :
      (g : Hit fl.order) (cs : List (Hit fl.order × fl.Score))
      → fold_contributions (some g) cs ≢ none
  fold_found g [] e = cc
  fold_found g ((h, c) ∷ cs) e = fold_found (record g { score = fl.add g.score c }) cs e

  -- What a chunk contributes makes a hit of it.
  contributed :
      (h : Hit fl.order) (cs : List (Hit fl.order × fl.Score))
      → (c : fl.Score) × Member (h, c) cs
      → fused_hit h.chunk_id cs ≢ none
  contributed h [] (c, m) = absurd m
  contributed h ((x, d) ∷ cs) (c, m) = elim (Bool-cases (x.chunk_id == h.chunk_id)) [
    | inl t ↦ λ k.
        fold_found (record x { score = d }) (filter (for_chunk h.chunk_id) cs)
          (ap (fold_contributions none) (sym (if_true _ _ t)) ∙ k)
    | inr f ↦ elim m [
      | inl e ↦
          let same : h.chunk_id ≡ x.chunk_id =
            ap (λ (y : Hit fl.order × fl.Score). (y.0).chunk_id) e in
          absurd (
            let yes_too = (==_iff x.chunk_id h.chunk_id).1 (sym same) in
            let no : true ≡ false = sym yes_too ∙ f in cc)
      | inr n ↦
          λ k. contributed h cs (c, n) (ap (fold_contributions none) (sym (if_false _ _ f)) ∙ k)
    ]
  ]

  in_shares :
      (w : fl.Score) (place : ℕ) (hits : List (Hit fl.order)) (h : Hit fl.order)
      → Member h hits
      → (c : fl.Score) × Member (h, c) (shares w place hits)
  in_shares w place [] h m = absurd m
  in_shares w place (x ∷ hits) h (inl e) =
      (fl.div w (60 + (place + 1)), inl (ap (λ y. (y, fl.div w (60 + (place + 1)))) e))
  in_shares w place (x ∷ hits) h (inr m) =
      let (c, n) = in_shares w (place + 1) hits h m in (c, inr n)

  in_all_shares :
      (lists : List (List (Hit fl.order))) (weights : List fl.Score) (hits : List (Hit fl.order))
      (h : Hit fl.order)
      → length lists ≡ length weights
      → Member hits lists
      → Member h hits
      → (c : fl.Score) × Member (h, c) (all_shares lists weights)
  in_all_shares [] weights hits h e k m = absurd k
  in_all_shares (l ∷ lists) [] hits h e k m = absurd (omega arith)
  in_all_shares (l ∷ lists) (w ∷ weights) hits h e (inl same) m =
      let (c, n) = in_shares w 0 l h (subst (Member h) same m) in
      (c, Member-append_left (h, c) (shares w 0 l) (all_shares lists weights) n)
  in_all_shares (l ∷ lists) (w ∷ weights) hits h e (inr k) m =
      let (c, n) = in_all_shares lists weights hits h (omega arith) k m in
      (c, Member-append_right (h, c) (shares w 0 l) (all_shares lists weights) n)

  -- Some hit of a list is of the chunk.
  abbrev pub Ranked : List (List (Hit fl.order)) → Hit fl.order → Type 0
  Ranked lists h =
      (hits : List (Hit fl.order)) × (g : Hit fl.order) × Member hits lists
      × Member g hits
      × (g.chunk_id ≡ h.chunk_id)

  hits_of_lists : (lists : List (List (Hit fl.order))) → All (All (Ranked lists)) lists
  hits_of_lists lists =
      All-of_Member (All (Ranked lists)) lists
        (λ hits k. All-of_Member (Ranked lists) hits (λ h m. (hits, h, k, m, refl)))

  -- The fused list, when the weights fit the lists.
  module _ (lists : List (List (Hit fl.order))) (weights : Option (List fl.Score))
      (fits : length lists ≡ length (each_weight lists weights)) where
    cs : List (Hit fl.order × fl.Score)
    cs = all_shares lists (each_weight lists weights)

    paired : all_contributions fl lists (weights_or_ones fl lists weights) ≡ some cs
    unfolding cs
    paired =
        ap (all_contributions fl lists) (each_weight_lem lists weights)
        ∙ all_contributions-eq lists (each_weight lists weights) fits

    fused : List (Hit fl.order)
    fused = add_hits fl cs []

    fused_unique : (cid : ℕ) → count (has_id cid) fused ≤ 1
    unfolding fused
    fused_unique cid = count-add_hits cid cs [] (omega arith)

    fused-find : (cid : ℕ) → find cid fused ≡ fused_hit cid cs
    unfolding fused
    fused-find cid = find-add_hits cid cs []

    rrf_fuse-eq : rrf_fuse fl lists weights ≡ some (sort_desc fl.order (λ h. h.score) fused)
    unfolding rrf_fuse fused
    rrf_fuse-eq = rw (paired, rrf_fuse) refl

    -- With one weight for each list, or none given, fusion returns a list that is best first, holds
    -- each chunk at most once, holds a chunk exactly if some ranked list does, and holds it with the
    -- fields of its first hit and the sum of weight / (60 + rank) over its places, where ranks count
    -- from 1 and a weight that is not given is 1.
    pub rrf_fuse_lem :
        (out : List (Hit fl.order)) × (rrf_fuse fl lists weights ≡ some out)
        × IsDescending fl.order (λ h. h.score) out
        × ((cid : ℕ) → count (has_id cid) out ≤ 1)
        × All
            (λ h. fused_hit h.chunk_id (all_shares lists (each_weight lists weights)) ≡ some h)
            out
        × All (Ranked lists) out
        × ((hits : List (Hit fl.order)) (h : Hit fl.order)
            → Member hits lists
            → Member h hits
            → 0 < count (has_id h.chunk_id) out)
    unfolding cs
    rrf_fuse_lem = (
      sort_desc fl.order (λ h. h.score) fused,
      rrf_fuse-eq,
      sort_desc-IsDescending fl.order (λ h. h.score) fused,
      (λ cid. rw (count-sort_desc fl.order (λ h. h.score) (has_id cid) fused) (fused_unique cid)),
      sort_desc-All fl.order (λ h. h.score) (λ h. fused_hit h.chunk_id cs ≡ some h) fused
          (All-map_imp (λ h e. sym (fused-find h.chunk_id) ∙ e) fused
            (find_own fused fused_unique)),
      of_OnSome (All (Ranked lists))
          (rrf_fuse-All fl (Ranked lists) (λ h s k. k) lists weights (hits_of_lists lists))
          rrf_fuse-eq,
      (λ hits h k m.
          let found : fused_hit h.chunk_id cs ≢ none =
            contributed h cs (in_all_shares lists (each_weight lists weights) hits h fits k m) in
          rw (count-sort_desc fl.order (λ x. x.score) (has_id h.chunk_id) fused)
            (count_pos_of_find h.chunk_id fused (rw (fused-find h.chunk_id) found))),
    )
