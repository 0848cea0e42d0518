-- ===== src/Ingest/Rows.antt =====
-- The rows of a new document: its embeddings, chunks and table rows, as `ingest_bytes` and
-- `_store_table` of prorag/ingest/core.py make them.
use pro_rag.Prelude.{
  ℕ, zero, suc, ◌+◌, Bool, true, false, not, ◌&&◌, ◌||◌, Option, none, some, List, [], ◌∷◌, ◌++◌,
  map, ltb, ◌==◌, if◌then◌else◌, any, flatten, take, drop, length, Text, same_text,
}
use pro_rag.Prelude.Raise.{Exc, Outcome, raised, returned, ◌>>=◌, zip_strict}
use pro_rag.Prelude.Reply.{Reply, refused, answer}
use pro_rag.Prelude.Words.{codes, is_empty, split}
use pro_rag.Prelude.Table.{find_by}
use pro_rag.Models.{
  Document, Status, processing, ready, failed, Chunk, Kind, prose, TableRow, DocumentAcl,
}
use pro_rag.Retrieve.Hit.{Floats}
use pro_rag.Retrieve.Arms.{Engine, Corpus}
use pro_rag.Admin.Rules.{Rule, Tables, apply_confirmed_rules}
use pro_rag.Ingest.Chunk.{Bbox, chunk_pages, chunk_elements, StructuredChunk}
use pro_rag.Ingest.Chunk
use pro_rag.Ingest.Embed.{embed_with_retry}
use pro_rag.Ingest.Mime.{
  Mime, pdf, same_mime, is_image, is_structured, is_docling, guess_mime, sniff_mime,
}
use pro_rag.Ingest.Parse.{
  Bytes, Fitz, ParsedTable, ParsedDocument, DataFrame, DoclingDocument, parse_to_pages,
  pdf_page_count, pdf_has_text_layer, ocr_pages, try_docling_parse, parse_structured,
}
use pro_rag.Ingest.Store.{Blob, blob_path_for, write_blob, delete_blob}
use pro_rag.Ingest.TableText.{TableArtifact, build_table_artifacts}
use pro_rag.Ingest.Files.{Settings, Services, NewIds, Prose, Parsed, box_list}
pub mod Order
mod Tests

module _ (fl : Floats) (eng : Engine fl) (Value : Type 0) where
  module _ (services : Services fl eng Value) (settings : Settings fl.Score) where
    -- `getattr(c, "embed_text", None) or c.text`
    abbrev pub text_to_embed : Prose fl eng Value → Text
    text_to_embed c = elim c.embed_text [
      | none ↦ c.text
      | some t ↦ if is_empty t then c.text else t
    ]

    abbrev stored_embed_text : Bool → Prose fl eng Value → Text
    stored_embed_text structured c = elim c.embed_text [
      | none ↦ c.text
      | some t ↦ if structured then t else c.text
    ]

    -- The artifacts of each table, with the table and its number.
    abbrev artifacts_from :
        ℕ
        → List (ParsedTable fl.order Value)
        → List (ℕ × ParsedTable fl.order Value × TableArtifact)
    artifacts_from i [] = []
    artifacts_from i (t ∷ tables) =
        map (λ a. (i, t, a)) (build_table_artifacts services.str_of t.caption t.columns t.rows)
        ++ artifacts_from (suc i) tables

    abbrev pub artifacts_of :
        Parsed fl eng Value → List (ℕ × ParsedTable fl.order Value × TableArtifact)
    artifacts_of p = artifacts_from 0 p.parsed_tables

    abbrev pub texts_to_embed : Parsed fl eng Value → List Text
    texts_to_embed p = map text_to_embed p.prose_chunks ++ map (λ a. a.2.text) (artifacts_of p)

    abbrev pub timeout_error : Exc
    timeout_error = record { type_name = codes "TimeoutError"; message = [] }

    abbrev pub all_embeddings : Parsed fl eng Value → Outcome (List eng.Vector)
    all_embeddings p =
        if services.timed_out
        then raised timeout_error
        else embed_with_retry services.embed_texts services.first_in_time settings.embed_batch_size
            3 (texts_to_embed p)

    abbrev pub Row : Type 0
    Row = Chunk eng.Vector fl.Score

    abbrev pub prose_rows : NewIds → Bool → ℕ → List (Prose fl eng Value × eng.Vector) → List Row
    prose_rows ids structured ord [] = []
    prose_rows ids structured ord (c ∷ cs) =
        record {
          id = ids.chunk ord;
          doc_id = ids.doc;
          ord = ord;
          kind = prose;
          text = c.0.text;
          embed_text = stored_embed_text structured c.0;
          page_start = some c.0.page_start;
          page_end = some c.0.page_end;
          bbox = c.0.bbox;
          table_id = none;
          token_count = c.0.token_count;
          embedding = c.1;
        }
        ∷ prose_rows ids structured (suc ord) cs

    abbrev pub table_chunk_rows :
        NewIds → ℕ → List ((ℕ × ParsedTable fl.order Value × TableArtifact) × eng.Vector) → List Row
    table_chunk_rows ids ord [] = []
    table_chunk_rows ids ord (c ∷ cs) =
        let table = c.0.1 in
        let artifact = c.0.2 in
        record {
          id = ids.chunk ord;
          doc_id = ids.doc;
          ord = ord;
          kind = artifact.kind;
          text = artifact.text;
          embed_text = artifact.text;
          page_start = table.page_no;
          page_end = table.page_no;
          bbox = box_list fl eng Value table.bbox;
          table_id = some (ids.table c.0.0);
          token_count = length (split artifact.text);
          embedding = c.1;
        }
        ∷ table_chunk_rows ids (suc ord) cs

    -- `new_chunks`, or the exception on the way to them.
    unfoldable pub new_chunks : NewIds → Parsed fl eng Value → Outcome (List Row)
    new_chunks ids p =
        let n = length p.prose_chunks in
        all_embeddings p >>= λ vectors. zip_strict p.prose_chunks (take n vectors) >>= λ with_prose.
        zip_strict (artifacts_of p) (drop n vectors) >>= λ with_tables. returned (
          prose_rows ids p.used_structured_chunking 0 with_prose
          ++ table_chunk_rows ids n with_tables)

    abbrev row_records : ℕ → ℕ → List (List (Text × Value)) → List (TableRow eng.RowData)
    row_records table_id i [] = []
    row_records table_id i (r ∷ rows) =
        record { table_id = table_id; row_no = i; row_values = services.row_data r }
        ∷ row_records table_id (suc i) rows

    abbrev pub new_table_rows :
        NewIds → ℕ → List (ParsedTable fl.order Value) → List (TableRow eng.RowData)
    new_table_rows ids i [] = []
    new_table_rows ids i (t ∷ tables) =
        row_records (ids.table i) 0 t.rows ++ new_table_rows ids (suc i) tables
