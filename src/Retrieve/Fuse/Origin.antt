-- ===== src/Retrieve/Fuse/Origin.antt =====
-- Where fused hits come from, and when fusion raises.
use pro_rag.Prelude.{
  ℕ, suc, ◌≡◌, refl, Option, none, some, List, [], ◌∷◌, ◌++◌, arith, ◌==◌, if_intro, All,
  All-append, length,
}
use pro_rag.Prelude.Chain.{OnSome}
use pro_rag.Prelude.Sort.{sort_desc, sort_desc-All}
use pro_rag.Retrieve.Hit.{Floats, Hit}
use pro_rag.Retrieve.Fuse.{
  contributions, all_contributions, add_hit, add_hits, weights_or_ones, rrf_fuse,
}

module _ (fl : Floats) where
  module _ (P : Hit fl.order → Type 0)
      (any_score : (h : Hit fl.order) (s : fl.Score) → P h → P (record h { score = s })) where
    abbrev Given : Hit fl.order × fl.Score → Type 0
    Given c = P c.0

    contributions-All :
        (w : fl.Score) (r : ℕ) (hits : List (Hit fl.order))
        → All P hits
        → All Given (contributions fl w r hits)
    unfolding contributions
    contributions-All w r [] h = tt
    contributions-All w r (x ∷ hits) h = (h.0, contributions-All w (suc r) hits h.1)

    all_contributions-All :
        (lists : List (List (Hit fl.order))) (weights : List fl.Score)
        → All (All P) lists
        → OnSome (All Given) (all_contributions fl lists weights)
    unfolding all_contributions
    all_contributions-All [] [] h = tt
    all_contributions-All [] (w ∷ weights) h = tt
    all_contributions-All (hits ∷ lists) [] h = tt
    all_contributions-All (hits ∷ lists) (w ∷ weights) h =
        more (all_contributions fl lists weights) (all_contributions-All lists weights h.1)
      where
        more :
            (rest : Option (List (Hit fl.order × fl.Score)))
            → OnSome (All Given) rest
            → OnSome
                (All Given)
                (elim rest [ none ↦ none | some cs ↦ some (contributions fl w 1 hits ++ cs) ])
        more none k = tt
        more (some cs) k =
            All-append Given (contributions fl w 1 hits) cs (contributions-All w 1 hits h.0) k

    add_hit-All :
        (c : Hit fl.order × fl.Score) (f : List (Hit fl.order))
        → P c.0
        → All P f
        → All P (add_hit fl c f)
    unfolding add_hit
    add_hit-All (x, c) [] h k = (any_score x c h, tt)
    add_hit-All (x, c) (g ∷ f) h k =
        if_intro (All P) (g.chunk_id == x.chunk_id) (any_score g (fl.add g.score c) k.0, k.1)
          (k.0, add_hit-All (x, c) f h k.1)

    add_hits-All :
        (cs : List (Hit fl.order × fl.Score)) (f : List (Hit fl.order))
        → All Given cs
        → All P f
        → All P (add_hits fl cs f)
    unfolding add_hits
    add_hits-All [] f h k = k
    add_hits-All (c ∷ cs) f h k = add_hits-All cs (add_hit fl c f) h.1 (add_hit-All c f h.0 k)

    -- What holds of every ranked hit, whatever its score, holds of every fused hit.
    pub rrf_fuse-All :
        (lists : List (List (Hit fl.order))) (weights : Option (List fl.Score))
        → All (All P) lists
        → OnSome (All P) (rrf_fuse fl lists weights)
    unfolding rrf_fuse
    rrf_fuse-All lists weights h =
        sorted (all_contributions fl lists (weights_or_ones fl lists weights))
          (all_contributions-All lists (weights_or_ones fl lists weights) h)
      where
        sorted :
            (cs : Option (List (Hit fl.order × fl.Score)))
            → OnSome (All Given) cs
            → OnSome (All P) (elim cs [
              | none ↦ none
              | some c ↦ some (sort_desc fl.order (λ h. h.score) (add_hits fl c []))
            ])
        sorted none k = tt
        sorted (some c) k =
            sort_desc-All fl.order (λ x. x.score) P (add_hits fl c []) (add_hits-All c [] k tt)

  all_contributions_total :
      (lists : List (List (Hit fl.order))) (weights : List fl.Score)
      → length lists ≡ length weights
      → (cs : List (Hit fl.order × fl.Score)) × (all_contributions fl lists weights ≡ some cs)
  unfolding all_contributions
  all_contributions_total [] [] e = ([], refl)
  all_contributions_total [] (w ∷ weights) e = absurd (omega arith)
  all_contributions_total (hits ∷ lists) [] e = absurd (omega arith)
  all_contributions_total (hits ∷ lists) (w ∷ weights) e =
      let (cs, eq) = all_contributions_total lists weights (omega arith) in
      (contributions fl w 1 hits ++ cs, rw eq refl)

  -- With one weight for each list fusion does not raise.
  pub rrf_fuse_total :
      (lists : List (List (Hit fl.order))) (weights : List fl.Score)
      → length lists ≡ length weights
      → (out : List (Hit fl.order)) × (rrf_fuse fl lists (some weights) ≡ some out)
  unfolding rrf_fuse weights_or_ones
  rrf_fuse_total lists weights e =
      let (cs, eq) = all_contributions_total lists weights e in
      (
        sort_desc fl.order (λ h. h.score) (add_hits fl cs []),
        rw (eq, rrf_fuse, weights_or_ones) refl,
      )
