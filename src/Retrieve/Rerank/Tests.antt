-- ===== src/Retrieve/Rerank/Tests.antt =====
-- Reranking at a concrete input.
use pro_rag.Prelude.{ℕ, ◌≡◌, refl, ◌⊎◌, true, some, List, [], ◌∷◌}
use pro_rag.Prelude.Sort.{sort_desc}
use pro_rag.Retrieve.Hit.{Hit}
use pro_rag.Retrieve.Rerank.{Settings, Reply, results, flat_guard, is_flat, attach, rerank}
use pro_rag.Retrieve.Rerank.Order.{rerank-Settled, InOrder}
use pro_rag.Retrieve.Samples.{scores, floats, hits, old_report, new_report, memo}

abbrev kept : List (Hit scores)
kept =
    record memo { score = 50 }
    ∷ record old_report { score = 49 }
    ∷ record new_report { score = 48 }
    ∷ []

fires : flat_guard floats 10 hits (48 ∷ 50 ∷ 49 ∷ []) ≡ some kept
unfolding flat_guard is_flat attach sort_desc
fires = refl

abbrev settings : Settings ℕ
settings = record { rerank_enabled = true; has_api_key = true; rerank_flat_spread = 10 }

abbrev reply : Reply ℕ
reply = results (
    record { index = some 2; relevance_score = some 900 }
    ∷ record { index = some 0; relevance_score = some 100 }
    ∷ [])

rerank-Settled_example :
    (rerank floats settings reply hits ≡ hits) ⊎ InOrder floats (rerank floats settings reply hits)
rerank-Settled_example = rerank-Settled floats settings reply hits
