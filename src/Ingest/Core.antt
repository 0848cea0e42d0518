-- ===== src/Ingest/Core.antt =====
-- `ingest_bytes` of prorag/ingest/core.py: from bytes to a document that retrieval finds. A session
-- that is rolled back leaves the tables as they were; the blobs on disk are outside of it.
use pro_rag.Prelude.{
  ℕ, zero, suc, ◌+◌, Bool, true, false, not, ◌&&◌, ◌||◌, Option, none, some, List, [], ◌∷◌, ◌++◌,
  map, ltb, ◌==◌, if◌then◌else◌, any, flatten, take, drop, length, Text, same_text,
}
use pro_rag.Prelude.Raise.{Exc, Outcome, raised, returned, ◌>>=◌, zip_strict}
use pro_rag.Prelude.Reply.{Reply, refused, answer}
use pro_rag.Prelude.Words.{codes, is_empty, split}
use pro_rag.Prelude.Table.{find_by}
use pro_rag.Models.{
  Document, Status, processing, ready, failed, Chunk, Kind, prose, TableRow, DocumentAcl,
}
use pro_rag.Retrieve.Hit.{Floats}
use pro_rag.Retrieve.Arms.{Engine, Corpus}
use pro_rag.Admin.Rules.{Rule, Tables, apply_confirmed_rules}
use pro_rag.Ingest.Chunk.{Bbox, chunk_pages, chunk_elements, StructuredChunk}
use pro_rag.Ingest.Chunk
use pro_rag.Ingest.Embed.{embed_with_retry}
use pro_rag.Ingest.Mime.{
  Mime, pdf, same_mime, is_image, is_structured, is_docling, guess_mime, sniff_mime,
}
use pro_rag.Ingest.Parse.{
  Bytes, Fitz, ParsedTable, ParsedDocument, DataFrame, DoclingDocument, parse_to_pages,
  pdf_page_count, pdf_has_text_layer, ocr_pages, try_docling_parse, parse_structured,
}
use pro_rag.Ingest.Store.{Blob, blob_path_for, write_blob, delete_blob}
use pro_rag.Ingest.TableText.{TableArtifact, build_table_artifacts}
use pro_rag.Ingest.Files.{Settings, Services, NewIds, Parsed, parse_file}
use pro_rag.Ingest.Rows.{timeout_error, new_chunks, new_table_rows}
pub mod Again
pub mod Outcomes
mod Tests

pub record IngestResponse : Type 0 where
  pub doc_id : ℕ
  pub status : Status
  pub duplicate_of : Option ℕ

-- What the flush of the new document comes to: it succeeds; it violates a constraint, and the lookup
-- after the rollback finds the row of the same bytes that another upload has committed, or finds
-- none; any other database error.
pub data Flush : Type 0 where
  flushes : Flush
  violates : Option Document → Flush
  fails : Flush

abbrev pub duplicate : Document → IngestResponse
duplicate d = record { doc_id = d.id; status = d.status; duplicate_of = some d.id }

module _ (fl : Floats) (eng : Engine fl) (Value : Type 0) where
  pub record World : Type 0 where
    pub db : Tables fl eng
    pub blobs : List Blob

  module _ (services : Services fl eng Value) (settings : Settings fl.Score) where
    -- `sum(...)`
    abbrev sum : List fl.Score → fl.Score
    sum [] = fl.zero
    sum (x ∷ xs) = fl.add x (sum xs)

    abbrev norm : List fl.Score → fl.Score
    norm a = services.sqrt (sum (map (λ x. services.mul x x) a))

    abbrev is_zero : fl.Score → Bool
    is_zero x = fl.le x fl.zero && fl.le fl.zero x

    abbrev quotient_of : List fl.Score → List fl.Score → fl.Score → fl.Score
    quotient_of a b dot =
        if is_zero (norm a) || is_zero (norm b)
        then fl.zero
        else services.quotient dot (services.mul (norm a) (norm b))

    -- Vectors of different lengths are the ValueError of the strict `zip`.
    pub cosine_similarity : eng.Vector → eng.Vector → Outcome fl.Score
    cosine_similarity v w =
        let a = services.components v in
        let b = services.components w in
        zip_strict a b >>= λ pairs.
        returned (
          quotient_of a b (sum (map (λ (z : fl.Score × fl.Score). services.mul (z.0) (z.1)) pairs)))

    abbrev pub digest_key : Document → ℕ
    digest_key d = d.sha256

    abbrev pub find_digest : List Document → ℕ → Option Document
    find_digest = find_by digest_key

    abbrev pub new_document : NewIds → ℕ → Text → Text → Option ℕ → Document
    new_document ids digest filename collection page_count = record {
      id = ids.doc;
      sha256 = digest;
      filename = filename;
      page_count = page_count;
      title = some filename;
      title_norm = some (services.normalize_title filename);
      collection = collection;
      status = ready;
      error = none;
    }

    -- The stored embedding of a rule, against the new chunks, up to the first that is near it.
    pub near : List (Chunk eng.Vector fl.Score) → eng.Vector → Outcome Bool
    near [] v = returned false
    near (c ∷ rows) v =
        let rest = near rows v in
        cosine_similarity c.embedding v >>= λ s.
        if fl.le settings.rule_similarity_floor s then returned true else rest

    -- The tables after the commit.
    abbrev pub committed :
        NewIds
        → Document
        → Parsed fl eng Value
        → List (Chunk eng.Vector fl.Score)
        → Tables fl eng
        → Tables fl eng
    committed ids doc p rows db = record db {
      corpus = record {
        documents = db.corpus.documents ++ doc ∷ [];
        chunks = db.corpus.chunks ++ rows;
        table_rows =
            db.corpus.table_rows
            ++ new_table_rows fl eng Value services settings ids 0 p.parsed_tables;
        acl = record db.corpus.acl {
          document_acl =
              apply_confirmed_rules fl eng (near rows) doc.id db.rules db.corpus.acl.document_acl;
        };
      };
    }

    abbrev drop_blob : World → Blob → World
    drop_blob w path = record w { blobs = delete_blob w.blobs path }

    -- `_safe_error`
    abbrev safe_error : Exc → Text
    safe_error exc = exc.type_name ++ codes ": " ++ take 200 exc.message

    abbrev failure_text : Exc → Text
    failure_text exc =
        if same_text exc.type_name (timeout_error fl eng Value services settings).type_name
        then codes "embedding timed out"
        else safe_error exc

    abbrev mark_failed : Exc → ℕ → Document → Document
    mark_failed exc digest d =
        if d.sha256 == digest
        then record d { status = failed; error = some (failure_text exc) }
        else d

    abbrev pub after_rollback :
        Exc → World → ℕ → Blob → Option Document → World × Reply IngestResponse
    after_rollback exc w digest path (some d) = (
      record w {
        db = record w.db {
          corpus = record w.db.corpus {
            documents = map (mark_failed exc digest) w.db.corpus.documents;
          };
        };
      },
      answer (record { doc_id = d.id; status = failed; duplicate_of = none }),
    )
    after_rollback exc w digest path none = (drop_blob w path, refused 500)

    -- The `except` at the end, with the tables as the rollback leaves them.
    pub ingestion_failed : Exc → World → ℕ → Blob → World × Reply IngestResponse
    ingestion_failed exc w digest path =
        after_rollback exc w digest path (find_digest w.db.corpus.documents digest)

    abbrev pub stored :
        NewIds
        → Document
        → Parsed fl eng Value
        → World
        → ℕ
        → Blob
        → Outcome (List (Chunk eng.Vector fl.Score))
        → World × Reply IngestResponse
    stored ids doc p w digest path (raised exc) = ingestion_failed exc w digest path
    stored ids doc p w digest path (returned rows) = (
      record w { db = committed ids doc p rows w.db },
      answer (record { doc_id = ids.doc; status = ready; duplicate_of = none }),
    )

    -- The flush of the document. Past an error that leaves it, the route rolls back, and the file
    -- stays where it was written.
    abbrev pub flushed :
        NewIds
        → Flush
        → Text
        → Text
        → World
        → ℕ
        → Blob
        → Parsed fl eng Value
        → World × Reply IngestResponse
    flushed ids (violates (some d)) filename collection w digest path p = (
      record w {
        db = record w.db {
          corpus = record w.db.corpus { documents = w.db.corpus.documents ++ d ∷ [] };
        };
      },
      answer (duplicate d),
    )
    flushed ids (violates none) filename collection w digest path p = (w, refused 500)
    flushed ids fails filename collection w digest path p = (w, refused 500)
    flushed ids flushes filename collection w digest path p =
        stored ids (new_document ids digest filename collection p.page_count) p w digest path
          (new_chunks fl eng Value services settings ids p)

    abbrev pub has_nothing : Parsed fl eng Value → Bool
    has_nothing p = (length p.prose_chunks == 0) && (length p.parsed_tables == 0)

    abbrev pub checked :
        NewIds
        → Flush
        → Text
        → Text
        → World
        → ℕ
        → Blob
        → Outcome (Parsed fl eng Value)
        → World × Reply IngestResponse
    checked ids flush filename collection w digest path (raised exc) =
        (drop_blob w path, refused 422)
    checked ids flush filename collection w digest path (returned p) =
        if has_nothing p
        then (drop_blob w path, refused 422)
        else if ltb settings.max_chunks_per_document (length p.prose_chunks)
        then (drop_blob w path, refused 413)
        else flushed ids flush filename collection w digest path p

    abbrev pub mismatch : Option Mime → Mime → Bool
    mismatch none mime = false
    mismatch (some sniffed) mime = not (same_mime sniffed mime)

    -- What follows the lookup of the digest.
    abbrev pub looked_up :
        World
        → NewIds
        → Flush
        → Bytes
        → Text
        → Text
        → ℕ
        → Blob
        → Option Document
        → World × Reply IngestResponse
    looked_up w ids flush content filename collection digest path (some d) =
        (w, answer (duplicate d))
    looked_up w ids flush content filename collection digest path none =
        if mismatch (sniff_mime content) (guess_mime filename)
        then (w, refused 400)
        else checked ids flush filename collection (record w { blobs = write_blob w.blobs path })
            digest path
            (parse_file fl eng Value services settings content (guess_mime filename) filename)

    pub ingest_bytes : World → NewIds → Flush → Bytes → Text → Text → World × Reply IngestResponse
    unfolding ingestion_failed
    ingest_bytes w ids flush content filename collection =
        let digest = services.sha256_hex content in
        looked_up w ids flush content filename collection digest
          (blob_path_for services.path_suffix digest filename)
          (find_digest w.db.corpus.documents digest)
