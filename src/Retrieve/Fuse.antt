-- ===== src/Retrieve/Fuse.antt =====
-- Reciprocal rank fusion: prorag/retrieve/fuse.py.
pub mod Scores
pub mod Origin
mod Tests
use pro_rag.Prelude.{
  ℕ, suc, ◌+◌, Bool, true, false, Option, none, some, List, [], ◌∷◌, ◌++◌, map, ◌==◌, if◌then◌else◌,
}
use pro_rag.Prelude.Sort.{sort_desc}
use pro_rag.Retrieve.Hit.{Floats, Hit}

abbrev pub rrf_k : ℕ
rrf_k = 60

module _ (fl : Floats) where
  -- One ranked list: each hit with `weight / (RRF_K + rank)`, the rank counted from `rank`.
  pub contributions : fl.Score → ℕ → List (Hit fl.order) → List (Hit fl.order × fl.Score)
  contributions weight rank [] = []
  contributions weight rank (hit ∷ hits) =
      (hit, fl.div weight (rrf_k + rank)) ∷ contributions weight (suc rank) hits

  -- `zip(ranked_lists, weights, strict=True)`: `none` is its ValueError.
  pub all_contributions :
      List (List (Hit fl.order)) → List fl.Score → Option (List (Hit fl.order × fl.Score))
  all_contributions [] [] = some []
  all_contributions (hits ∷ lists) (weight ∷ weights) = elim (all_contributions lists weights) [
    | none ↦ none
    | some rest ↦ some (contributions weight 1 hits ++ rest)
  ]
  all_contributions _ _ = none

  -- The body of the inner loop. The dict is kept in insertion order, and its key is the chunk id
  -- of the hit that it holds.
  pub add_hit : Hit fl.order × fl.Score → List (Hit fl.order) → List (Hit fl.order)
  add_hit (hit, contribution) [] = record hit { score = contribution } ∷ []
  add_hit (hit, contribution) (g ∷ fused) =
      if g.chunk_id == hit.chunk_id
      then record g { score = fl.add g.score contribution } ∷ fused
      else g ∷ add_hit (hit, contribution) fused

  pub add_hits : List (Hit fl.order × fl.Score) → List (Hit fl.order) → List (Hit fl.order)
  add_hits [] fused = fused
  add_hits (c ∷ cs) fused = add_hits cs (add_hit c fused)

  -- `weights=None` stands for 1.0 each.
  pub weights_or_ones : List (List (Hit fl.order)) → Option (List fl.Score) → List fl.Score
  weights_or_ones lists none = map (λ _. fl.one) lists
  weights_or_ones lists (some weights) = weights

  pub rrf_fuse : List (List (Hit fl.order)) → Option (List fl.Score) → Option (List (Hit fl.order))
  rrf_fuse lists weights = elim (all_contributions lists (weights_or_ones lists weights)) [
    | none ↦ none
    | some cs ↦ some (sort_desc fl.order (λ h. h.score) (add_hits cs []))
  ]
