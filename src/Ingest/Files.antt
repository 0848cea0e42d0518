-- ===== src/Ingest/Files.antt =====
-- From an uploaded file to what is to be stored: the `try` around the parsers in `ingest_bytes` of
-- prorag/ingest/core.py, with the services and the settings of an ingest.
use pro_rag.Prelude.{
  ℕ, Bool, true, false, not, ◌&&◌, ◌||◌, Option, none, some, List, [], ◌∷◌, map, if◌then◌else◌,
  length, Text,
}
use pro_rag.Prelude.Raise.{Exc, Outcome, raised, returned, ◌>>=◌}
use pro_rag.Prelude.Words.{codes}
use pro_rag.Retrieve.Hit.{Floats}
use pro_rag.Retrieve.Arms.{Engine}
use pro_rag.Ingest.Chunk.{Bbox, chunk_pages, chunk_elements, StructuredChunk}
use pro_rag.Ingest.Chunk
use pro_rag.Ingest.Mime.{Mime, pdf, same_mime, is_image, is_structured, is_docling}
use pro_rag.Ingest.Parse.{
  Bytes, Fitz, ParsedTable, ParsedDocument, DataFrame, DoclingDocument, parse_to_pages,
  pdf_page_count, pdf_has_text_layer, ocr_pages, try_docling_parse, parse_structured,
}

pub record Settings (S : Type 0) : Type 0 where
  pub chunk_target_tokens : ℕ
  pub chunk_overlap_tokens : ℕ
  pub max_chunks_per_document : ℕ
  pub embed_batch_size : ℕ
  pub rule_similarity_floor : S

-- What the ingest calls and does not own.
pub record Services (fl : Floats) (eng : Engine fl) (Value : Type 0) : Type 1 where
  pub fitz : Fitz
  pub decode : Bytes → Text
  pub transcribe : Bytes → Mime → ℕ → Outcome Text
  pub docling_available : Bool
  pub convert : Bytes → Text → Outcome (DoclingDocument fl.order Value)
  pub read_excel : Bytes → Outcome (List (Text × DataFrame fl.order Value))
  pub read_csv : ℕ → Bytes → Outcome (DataFrame fl.order Value)
  pub str_of : Value → Text
  pub sha256_hex : Bytes → ℕ
  pub path_suffix : Text → Text
  pub normalize_title : Text → Text
  pub row_data : List (Text × Value) → eng.RowData
  -- the provider's answer at each attempt, and which of several failures comes first in time
  pub embed_texts : ℕ → List Text → Outcome (List eng.Vector)
  pub first_in_time : Exc → List Exc → Exc
  -- whether `asyncio.wait_for` gives up
  pub timed_out : Bool
  pub components : eng.Vector → List fl.Score
  pub mul : fl.Score → fl.Score → fl.Score
  pub quotient : fl.Score → fl.Score → fl.Score
  pub sqrt : fl.Score → fl.Score

-- The ids that the new rows get.
pub record NewIds : Type 0 where
  pub doc : ℕ
  pub chunk : ℕ → ℕ
  pub table : ℕ → ℕ

module _ (fl : Floats) (eng : Engine fl) (Value : Type 0) where
  -- One prose chunk, of either chunker.
  pub record Prose : Type 0 where
    pub text : Text
    pub embed_text : Option Text
    pub page_start : ℕ
    pub page_end : ℕ
    pub bbox : Option (List fl.Score)
    pub token_count : ℕ

  -- What the parsers come to, and whether the chunks are structured.
  pub record Parsed : Type 0 where
    pub prose_chunks : List Prose
    pub parsed_tables : List (ParsedTable fl.order Value)
    pub page_count : Option ℕ
    pub used_structured_chunking : Bool

  abbrev pub box_list : Option (Bbox fl.order) → Option (List fl.Score)
  box_list none = none
  box_list (some b) = some (b.x0 ∷ b.y0 ∷ b.x1 ∷ b.y1 ∷ [])

  abbrev of_page_chunk : Chunk.Chunk → Prose
  of_page_chunk c = record {
    text = c.text;
    embed_text = none;
    page_start = c.page_start;
    page_end = c.page_end;
    bbox = none;
    token_count = c.token_count;
  }

  abbrev of_structured : StructuredChunk fl.order → Prose
  of_structured c = record {
    text = c.text;
    embed_text = some c.embed_text;
    page_start = c.page_start;
    page_end = c.page_end;
    bbox = box_list c.bbox;
    token_count = c.token_count;
  }

  -- An index that is out of range raises.
  abbrev or_index_error : {A : Type 0} → Option A → Outcome A
  or_index_error none =
      raised (record { type_name = codes "IndexError"; message = codes "list index out of range" })
  or_index_error (some a) = returned a

  module _ (services : Services fl eng Value) (settings : Settings fl.Score) where
    abbrev pub pages_chunked : List Text → Outcome Parsed
    pages_chunked pages =
        or_index_error
          (chunk_pages pages settings.chunk_target_tokens settings.chunk_overlap_tokens)
        >>= λ chunks. returned (record {
          prose_chunks = map of_page_chunk chunks;
          parsed_tables = [];
          page_count = some (length pages);
          used_structured_chunking = false;
        })

    abbrev pub elements_chunked : ParsedDocument fl.order Value → Outcome Parsed
    elements_chunked d =
        or_index_error (
          chunk_elements fl.order d.prose settings.chunk_target_tokens
            settings.chunk_overlap_tokens)
        >>= λ chunks. returned (record {
          prose_chunks = map of_structured chunks;
          parsed_tables = d.tables;
          page_count = d.page_count;
          used_structured_chunking = true;
        })

    abbrev text_path : Bytes → Mime → Outcome Parsed
    text_path content mime =
        parse_to_pages services.fitz services.decode content mime >>= pages_chunked

    abbrev needs_ocr : Bytes → Mime → Bool
    needs_ocr content mime =
        is_image mime
        || (same_mime mime pdf && not (pdf_has_text_layer services.fitz services.decode content))

    -- The `try` around the parsers. A picture never reaches docling's branch, so what that branch
    -- does with one is left out.
    unfoldable pub parse_file : Bytes → Mime → Text → Outcome Parsed
    parse_file content mime filename =
        if is_structured mime
        then (parse_structured fl.order Value services.read_excel services.read_csv content mime
            >>= λ tables. returned (record {
              prose_chunks = [];
              parsed_tables = tables;
              page_count = none;
              used_structured_chunking = false;
            }))
        else if needs_ocr content mime
        then (ocr_pages services.transcribe content mime
              (pdf_page_count services.fitz services.decode content mime)
            >>= pages_chunked)
        else if is_docling mime
        then elim (try_docling_parse fl.order Value services.docling_available services.convert
            content mime filename) [ some d ↦ elements_chunked d | none ↦ text_path content mime ]
        else text_path content mime
