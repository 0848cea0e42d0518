-- ===== src/Ingest/Core/Again.antt =====
-- The same bytes again.
use pro_rag.Prelude.{◌≡◌, ◌≢◌, ap, sym, ◌∙◌, inl, inr, some, Text}
use pro_rag.Prelude.Reply.{Reply, refused, answer, answer-injective}
use pro_rag.Prelude.Table.{find_by-snoc}
use pro_rag.Models.{Document}
use pro_rag.Retrieve.Hit.{Floats}
use pro_rag.Retrieve.Arms.{Engine}
use pro_rag.Ingest.Parse.{Bytes}
use pro_rag.Ingest.Store.{blob_path_for}
use pro_rag.Ingest.Core.Outcomes.{digest_of, ingest_bytes-AllOrNothing}
use pro_rag.Ingest.Files.{Settings, Services, NewIds}
use pro_rag.Ingest.Core.{
  Flush, violates, IngestResponse, duplicate, World, find_digest, digest_key, new_document,
  looked_up, ingest_bytes,
}

module _ (fl : Floats) (eng : Engine fl) (Value : Type 0) (services : Services fl eng Value)
    (settings : Settings fl.Score) where
  abbrev W : Type 0
  W = World fl eng Value

  -- Every later ingest of the bytes, under any name, answers with this document and changes nothing.
  abbrev pub AnswersWith : W → Bytes → Document → Type 0
  AnswersWith w content d =
      (ids : NewIds) (flush : Flush) (filename collection : Text)
      → ingest_bytes fl eng Value services settings w ids flush content filename collection
        ≡ (w, answer (duplicate d))

  known :
      (w : W) (content : Bytes) (d : Document)
      → find_digest fl eng Value services settings w.db.corpus.documents
          (digest_of fl eng Value services settings content)
        ≡ some d
      → AnswersWith w content d
  unfolding ingest_bytes
  known w content d e ids flush filename collection =
      ap
        (looked_up fl eng Value services settings w ids flush content filename collection
          (services.sha256_hex content)
          (blob_path_for services.path_suffix (services.sha256_hex content) filename))
        e

  -- An ingest that answers, with no other upload of the bytes in between, leaves a document with the
  -- id of its answer, and every later ingest of the same bytes, under any name and collection, is
  -- answered with that document as a duplicate and changes neither the tables nor the disk.
  pub ingest_bytes-again :
      (w : World fl eng Value) (ids : NewIds) (content : Bytes) (filename collection : Text)
      (w1 : World fl eng Value) (response : IngestResponse) (flush : Flush)
      → ((d : Document) → flush ≢ violates (some d))
      → ingest_bytes fl eng Value services settings w ids flush content filename collection
        ≡ (w1, answer response)
      → (d : Document) × (d.id ≡ response.doc_id) × AnswersWith w1 content d
  ingest_bytes-again w ids content filename collection w1 response flush alone h =
      elim (ingest_bytes-AllOrNothing fl eng Value services settings w ids flush content filename
        collection alone) [
          | inl (d, e, same) ↦
              let both : (w1, answer response) ≡ (w, answer (duplicate d)) = sym h ∙ same in
              let world : w1 ≡ w = ap (λ (r : W × Reply IngestResponse). r.0) both in
              let says : response ≡ duplicate d =
                answer-injective (ap (λ (r : W × Reply IngestResponse). r.1) both) in
              (
                d,
                ap (λ (r : IngestResponse). r.doc_id) (sym says),
                known w1 content d (
                    ap
                      (λ (v : W).
                        find_digest fl eng Value services settings v.db.corpus.documents
                          (services.sha256_hex content))
                      world
                    ∙ e),
              )
          | inr (inl (p, rows, _, _, new, same)) ↦
              let doc : Document =
                new_document fl eng Value services settings ids (services.sha256_hex content)
                  filename collection p.page_count in
              let both = sym h ∙ same in
              let world = ap (λ (r : W × Reply IngestResponse). r.0) both in
              let says = answer-injective (ap (λ (r : W × Reply IngestResponse). r.1) both) in
              (
                doc,
                ap (λ (r : IngestResponse). r.doc_id) (sym says),
                known w1 content doc (
                    ap
                      (λ (v : W).
                        find_digest fl eng Value services settings v.db.corpus.documents
                          (services.sha256_hex content))
                      world
                    ∙ find_by-snoc (digest_key fl eng Value services settings) w.db.corpus.documents
                        doc new),
              )
          | inr (inr (code, error, _, _)) ↦
              let clash : answer response ≡ refused code =
                sym (ap (λ (r : W × Reply IngestResponse). r.1) h) ∙ error in
              absurd cc
        ]
