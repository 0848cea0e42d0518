-- ===== src/Retrieve/Fuse/Tests.antt =====
-- Fusion at a concrete input.
use pro_rag.Prelude.{ℕ, ◌==◌, ◌≤◌, ◌<◌, ◌≡◌, refl, none, some, List, [], ◌∷◌, count, All, Member}
use pro_rag.Prelude.Sort.{IsDescending}
use pro_rag.Retrieve.Hit.{Hit}
use pro_rag.Retrieve.Fuse.{rrf_fuse}
use pro_rag.Retrieve.Fuse.Scores.{rrf_fuse_lem, fused_hit, all_shares, each_weight, Ranked}
use pro_rag.Retrieve.Samples.{scores, floats, old_report, memo}

abbrev lists : List (List (Hit scores))
lists = (old_report ∷ memo ∷ []) ∷ (memo ∷ []) ∷ []

rrf_fuse_lem_example :
    (out : List (Hit scores)) × (rrf_fuse floats lists none ≡ some out)
    × IsDescending scores (λ h. h.score) out
    × ((cid : ℕ) → count (λ (h : Hit scores). h.chunk_id == cid) out ≤ 1)
    × All
        (λ (h : Hit scores).
          fused_hit floats h.chunk_id (all_shares floats lists (each_weight floats lists none))
          ≡ some h)
        out
    × All (Ranked floats lists) out
    × ((hits : List (Hit scores)) (h : Hit scores)
        → Member hits lists
        → Member h hits
        → 0 < count (λ (g : Hit scores). g.chunk_id == h.chunk_id) out)
rrf_fuse_lem_example = rrf_fuse_lem floats lists none refl
