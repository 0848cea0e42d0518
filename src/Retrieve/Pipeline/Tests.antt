-- ===== src/Retrieve/Pipeline/Tests.antt =====
-- The pipeline over a small corpus: one document that a user may see, and one that he may not.
use pro_rag.Prelude.{ℕ, ◌≡◌, refl, true, false, some, List, [], ◌∷◌, map, length, All, Text}
use pro_rag.Prelude.Chain.{OnSome}
use pro_rag.Prelude.Words.{codes}
use pro_rag.Models.{user, by_hand}
use pro_rag.Retrieve.Hit.{Hit}
use pro_rag.Retrieve.Arms.{Corpus}
use pro_rag.Retrieve.Arms.Legal.{Legal}
use pro_rag.Retrieve.Rerank.{raised}
use pro_rag.Retrieve.Plan
use pro_rag.Retrieve.Plan.{Plan, content, decode_error, default}
use pro_rag.Retrieve.Pipeline.{Services, Settings, gather_hits, retrieve, Gathered}
use pro_rag.Retrieve.Pipeline.Legal.{gather_hits-Legal, retrieve-Legal}
use pro_rag.Retrieve.Samples.{scores, floats, engine, laws, document, chunk, reader}

abbrev corpus : Corpus floats engine
corpus = record {
  documents = document 1 ∷ document 2 ∷ [];
  chunks = chunk 10 1 ∷ chunk 20 2 ∷ [];
  table_rows = [];
  acl = record {
    user_groups = [];
    document_acl =
        record { doc_id = 1; principal_type = user; principal_id = some 5; source = by_hand } ∷ [];
  };
}

abbrev services : Services floats engine
services = record {
  prefill_completion = λ q. Plan.raised;
  plan_completion = λ q. content (some (codes "no plan"));
  str = λ j. [];
  extract_json = λ s. decode_error;
  embed_texts = λ qs. some (map length qs);
  bm25_available = true;
  bm25_raises = λ q. false;
  rerank_reply = λ q hits. raised;
  normalize_title = λ t. [];
}

abbrev settings : Settings ℕ
settings = record {
  prefill_enabled = true;
  rerank_top_n = 20;
  structured_weight = 1;
  rerank = record { rerank_enabled = false; has_api_key = false; rerank_flat_spread = 1 };
  crop = record {
    min_docs = 1;
    max_docs = 5;
    max_chunks_per_doc = 2;
    score_floor = 0;
    token_budget = 6000;
    min_chars = 0;
  };
}

abbrev question : Text
question = codes "why?"

retrieve-Legal_example :
    (r : List (Hit scores) × Text) × (retrieve floats engine services settings corpus
        (some reader)
        question
      ≡ some r)
    × All (Legal floats engine corpus (some reader)) r.0
retrieve-Legal_example =
    retrieve-Legal floats engine services settings corpus (some reader) laws question (λ e. cc)
      (λ raw e. (λ k. cc)) (λ q. refl) (λ qs. (map length qs, refl))

abbrev asked : Plan
asked = record { search_needed = true; queries = question ∷ question ∷ []; mode = default }

gather_hits-Legal_example :
    OnSome
      (λ (g : Gathered floats). All (Legal floats engine corpus (some reader)) g.fused)
      (gather_hits floats engine services settings corpus (some reader) asked (7 ∷ 7 ∷ []))
gather_hits-Legal_example =
    gather_hits-Legal floats engine services settings corpus (some reader) laws asked (7 ∷ 7 ∷ [])
