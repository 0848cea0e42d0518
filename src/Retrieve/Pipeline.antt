-- ===== src/Retrieve/Pipeline.antt =====
-- The retrieval pipeline: prorag/operations/retrieval.py and prorag/retrieve/router.py.
pub mod Legal
mod Tests
use pro_rag.Prelude.{
  ℕ, suc, ◌+◌, Bool, true, false, Option, none, some, List, [], ◌∷◌, ◌++◌, map, if◌then◌else◌, take,
  Text, length,
}
use pro_rag.Prelude.Chain.{◌>>=◌, each}
use pro_rag.Prelude.Words.{is_empty, codes}
use pro_rag.Models.{User}
use pro_rag.Retrieve.Hit.{Floats, Hit}
use pro_rag.Retrieve.Arms.{Engine, Corpus, vector_search, keyword_search, structured_search}
use pro_rag.Retrieve.Fuse.{rrf_fuse}
use pro_rag.Retrieve.Rerank
use pro_rag.Retrieve.Rerank.{Reply, rerank}
use pro_rag.Retrieve.Crop.{Limits, crop_context}
use pro_rag.Retrieve.Plan.{Json, Parsed, Completion, Mode, default, table, Plan, plan, prefill}

-- What the arms found, and the fused list.
pub record Gathered (fl : Floats) : Type 0 where
  pub queries : List Text
  pub vector_lists : List (List (Hit fl.order))
  pub fts_lists : List (List (Hit fl.order))
  pub structured_lists : List (List (Hit fl.order))
  pub fused : List (Hit fl.order)

pub record Settings (S : Type 0) : Type 0 where
  pub prefill_enabled : Bool
  pub rerank_top_n : ℕ
  pub structured_weight : S
  pub rerank : Rerank.Settings S
  pub crop : Limits S

-- What the pipeline calls and does not implement. `none` is an exception.
pub record Services (fl : Floats) (eng : Engine fl) : Type 0 where
  pub prefill_completion : Text → Completion
  pub plan_completion : Text → Completion
  pub str : Json → Text
  pub extract_json : Text → Parsed
  pub embed_texts : List Text → Option (List eng.Vector)
  pub bm25_available : Bool
  pub bm25_raises : Text → Bool
  pub rerank_reply : Text → List (Hit fl.order) → Reply fl.Score
  pub normalize_title : Option Text → Text

abbrev pub wants_table : Mode → Bool
wants_table default = false
wants_table table = true

module _ (fl : Floats) (eng : Engine fl) (sv : Services fl eng) (settings : Settings fl.Score) where
  -- Which user's view the arms take is `u`.
  module _ (db : Corpus fl eng) (u : Option User) where
    abbrev pub vector_lists_of : List eng.Vector → List (List (Hit fl.order))
    vector_lists_of embeddings =
        map (λ e. vector_search fl eng db e settings.rerank_top_n u) embeddings

    abbrev pub fts_lists_of : List Text → Option (List (List (Hit fl.order)))
    fts_lists_of queries =
        each
          (λ q. keyword_search fl eng sv.bm25_available sv.bm25_raises db q settings.rerank_top_n u)
          queries

    abbrev pub structured_lists_of : Mode → List Text → List (List (Hit fl.order))
    structured_lists_of mode queries =
        if wants_table mode
        then map (λ q. structured_search fl eng db q settings.rerank_top_n u) queries
        else []

    abbrev pub Lists : Type 0
    Lists = List (List (Hit fl.order))

    abbrev pub weights_of : Lists → Lists → Lists → List fl.Score
    weights_of vector_lists fts_lists structured_lists =
        map (λ _. fl.one) vector_lists
        ++ (map (λ _. fl.one) fts_lists ++ map (λ _. settings.structured_weight) structured_lists)

    pub gather_hits : Plan → List eng.Vector → Option (Gathered fl)
    gather_hits plan_result embeddings = do
      let vector_lists = vector_lists_of embeddings
      fts_lists ← fts_lists_of plan_result.queries
      let structured_lists = structured_lists_of plan_result.mode plan_result.queries
      fused ←
          rrf_fuse fl (vector_lists ++ (fts_lists ++ structured_lists))
            (some (weights_of vector_lists fts_lists structured_lists))
      some (record {
        queries = plan_result.queries;
        vector_lists = vector_lists;
        fts_lists = fts_lists;
        structured_lists = structured_lists;
        fused = fused;
      })

    -- `queries[0]`: `none` is an IndexError.
    abbrev pub first_query : List Text → Option Text
    first_query [] = none
    first_query (q ∷ _) = some q

    pub ranked_context : Gathered fl → Option (List (Hit fl.order))
    ranked_context g = do
      query ← first_query g.queries
      some (
          crop_context fl.order sv.normalize_title settings.crop (
            rerank fl settings.rerank (sv.rerank_reply query (take settings.rerank_top_n g.fused))
              (take settings.rerank_top_n g.fused)))

    abbrev pub refine : Text → Text
    refine message =
        if settings.prefill_enabled
        then prefill sv.str sv.extract_json message (sv.prefill_completion message)
        else message

    -- The hits for the answer, and the question that they were found for.
    pub retrieve : Text → Option (List (Hit fl.order) × Text)
    retrieve message = do
      plan_result ←
          plan sv.str sv.extract_json (refine message) (sv.plan_completion (refine message))
      embeddings ← sv.embed_texts plan_result.queries
      g ← gather_hits plan_result embeddings
      cropped ← ranked_context g
      some (cropped, refine message)
