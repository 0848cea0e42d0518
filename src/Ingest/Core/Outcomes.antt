-- ===== src/Ingest/Core/Outcomes.antt =====
-- All that an ingest can come to: a duplicate, a stored document, or nothing.
use pro_rag.Prelude.{
  ℕ, ◌≡◌, ◌≢◌, ◌⊎◌, refl, ap, sym, subst, inl, inr, false, Option, none, some, List, ltb, if_cases,
  Option-cases, length, Text,
}
use pro_rag.Prelude.Raise.{Exc, Outcome, raised, returned}
use pro_rag.Prelude.Reply.{Reply, refused, answer}
use pro_rag.Models.{Document, ready}
use pro_rag.Retrieve.Hit.{Floats}
use pro_rag.Retrieve.Arms.{Engine}
use pro_rag.Ingest.Mime.{guess_mime, sniff_mime}
use pro_rag.Ingest.Parse.{Bytes}
use pro_rag.Ingest.Store.{
  Blob, blob_path_for, exists, write_blob, delete_blob, delete_blob-write_blob,
}
use pro_rag.Ingest.Files.{Settings, Services, NewIds, Parsed, parse_file}
use pro_rag.Ingest.Rows.{Row, new_chunks}
use pro_rag.Ingest.Core.{
  Flush, flushes, violates, fails, flushed, IngestResponse, duplicate, World, find_digest,
  new_document, committed, after_rollback, ingestion_failed, stored, has_nothing, checked, mismatch,
  looked_up, ingest_bytes,
}

module _ (fl : Floats) (eng : Engine fl) (Value : Type 0) (services : Services fl eng Value)
    (settings : Settings fl.Score) where
  abbrev pub digest_of : Bytes → ℕ
  digest_of content = services.sha256_hex content

  abbrev pub path_of : Bytes → Text → Blob
  path_of content filename = blob_path_for services.path_suffix (digest_of content) filename

  abbrev W : Type 0
  W = World fl eng Value

  abbrev Result : Type 0
  Result = W × Reply IngestResponse

  -- The bytes are on record, and nothing changes.
  abbrev pub IsDuplicate : W → Bytes → Result → Type 0
  IsDuplicate w content r =
      (d : Document) × (find_digest fl eng Value services settings w.db.corpus.documents
          (digest_of content)
        ≡ some d)
      × (r ≡ (w, answer (duplicate d)))

  -- The document, its chunks, its table rows and its grants are there together, and its file.
  abbrev pub IsStored : W → NewIds → Bytes → Text → Text → Result → Type 0
  IsStored w ids content filename collection r =
      (p : Parsed fl eng Value) × (rows : List (Row fl eng Value services settings)) × (parse_file
          fl eng Value services settings content (guess_mime filename) filename
        ≡ returned p)
      × (new_chunks fl eng Value services settings ids p ≡ returned rows)
      × (find_digest fl eng Value services settings w.db.corpus.documents (digest_of content)
          ≡ none)
      × (r ≡ (
        record {
          db =
              committed fl eng Value services settings ids
                (new_document fl eng Value services settings ids (digest_of content) filename
                  collection p.page_count)
                p rows w.db;
          blobs = write_blob w.blobs (path_of content filename);
        },
        answer (record { doc_id = ids.doc; status = ready; duplicate_of = none }),
      ))

  -- An error, with the tables as they were; and so the disk, where the flush of the document does not
  -- fail and no file stood at the path.
  abbrev pub LeavesNothing : W → Flush → Bytes → Text → Result → Type 0
  LeavesNothing w flush content filename r =
      (code : ℕ) × (r.1 ≡ refused code)
      × (r.0.db ≡ w.db)
      × (flush ≡ flushes → exists w.blobs (path_of content filename) ≡ false → r.0.blobs ≡ w.blobs)

  abbrev pub AllOrNothing : W → NewIds → Flush → Bytes → Text → Text → Result → Type 0
  AllOrNothing w ids flush content filename collection r =
      IsDuplicate w content r
      ⊎ (IsStored w ids content filename collection r ⊎ LeavesNothing w flush content filename r)

  -- The file is written, and deleted at the error.
  dropped :
      (w : W) (flush : Flush) (content : Bytes) (filename : Text) (code : ℕ)
      → LeavesNothing w flush content filename (
        record {
          db = w.db;
          blobs =
              delete_blob
                (write_blob w.blobs (path_of content filename))
                (path_of content filename);
        },
        refused code,
      )
  dropped w flush content filename code =
      (code, refl, refl, λ _ free. delete_blob-write_blob w.blobs (path_of content filename) free)

  module _ (w : W) (ids : NewIds) (flush : Flush)
      (alone : (d : Document) → flush ≢ violates (some d)) (content : Bytes)
      (filename collection : Text)
      (new : find_digest fl eng Value services settings w.db.corpus.documents (digest_of content)
        ≡ none) where
    abbrev written : W
    written = record w { blobs = write_blob w.blobs (path_of content filename) }

    abbrev Comes : Result → Type 0
    Comes r =
        IsStored w ids content filename collection r ⊎ LeavesNothing w flush content filename r

    failed_case :
        (exc : Exc)
        → Comes (
            ingestion_failed fl eng Value services settings exc written
              (digest_of content)
              (path_of content filename))
    unfolding ingestion_failed
    failed_case exc =
        subst
          (λ o. Comes (
            after_rollback fl eng Value services settings exc written (digest_of content)
              (path_of content filename) o))
          (sym new) (inr (dropped w flush content filename 500))

    stored_case :
        (p : Parsed fl eng Value) (o : Outcome (List (Row fl eng Value services settings)))
        → parse_file fl eng Value services settings content (guess_mime filename) filename
          ≡ returned p
        → new_chunks fl eng Value services settings ids p ≡ o
        → Comes (
            stored fl eng Value services settings ids
              (new_document fl eng Value services settings ids
                (digest_of content)
                filename
                collection
                p.page_count)
              p
              written
              (digest_of content)
              (path_of content filename)
              o)
    stored_case p (raised exc) parsed e = failed_case exc
    stored_case p (returned rows) parsed e = inl (p, rows, parsed, e, new, refl)

    -- A flush that fails leaves the file.
    left_behind :
        (e : flush ≡ flushes → ⊥) → LeavesNothing w flush content filename (written, refused 500)
    left_behind e = (500, refl, refl, λ k. absurd (e k))

    flushed_case :
        (p : Parsed fl eng Value) (f : Flush)
        → flush ≡ f
        → parse_file fl eng Value services settings content (guess_mime filename) filename
          ≡ returned p
        → Comes (
            flushed fl eng Value services settings ids f filename collection written
              (digest_of content)
              (path_of content filename)
              p)
    flushed_case p flushes e parsed =
        stored_case p (new_chunks fl eng Value services settings ids p) parsed refl
    flushed_case p (violates none) e parsed = inr (left_behind (λ k. cc))
    flushed_case p (violates (some d)) e parsed = absurd (alone d e)
    flushed_case p fails e parsed = inr (left_behind (λ k. cc))

    checked_case :
        (o : Outcome (Parsed fl eng Value))
        → parse_file fl eng Value services settings content (guess_mime filename) filename ≡ o
        → Comes (
            checked fl eng Value services settings ids flush filename collection written
              (digest_of content)
              (path_of content filename)
              o)
    checked_case (raised exc) parsed = inr (dropped w flush content filename 422)
    checked_case (returned p) parsed =
        if_cases Comes (has_nothing fl eng Value services settings p)
          (λ _. inr (dropped w flush content filename 422))
          (λ _.
            if_cases Comes (ltb settings.max_chunks_per_document (length p.prose_chunks))
              (λ _. inr (dropped w flush content filename 413))
              (λ _. flushed_case p flush refl parsed))

  pub ingest_bytes-AllOrNothing :
      (w : World fl eng Value) (ids : NewIds) (flush : Flush) (content : Bytes)
      (filename collection : Text)
      → ((d : Document) → flush ≢ violates (some d))
      → AllOrNothing w ids flush content filename collection
          (ingest_bytes fl eng Value services settings w ids flush content filename collection)
  unfolding ingest_bytes
  ingest_bytes-AllOrNothing w ids flush content filename collection alone =
      elim (Option-cases
        (find_digest fl eng Value services settings w.db.corpus.documents (digest_of content))) [
          | inr (d, e) ↦ inl (d, e, ap after_lookup e)
          | inl new ↦ inr (
              subst (λ o. Comes w ids flush alone content filename collection new (after_lookup o))
                (sym new)
                (if_cases (Comes w ids flush alone content filename collection new)
                  (mismatch fl eng Value services settings (sniff_mime content)
                    (guess_mime filename))
                  (λ _. inr (400, refl, refl, λ _ _. refl))
                  (λ _.
                    checked_case w ids flush alone content filename collection new
                      (parse_file fl eng Value services settings content (guess_mime filename)
                        filename)
                      refl)))
        ]
    where
      after_lookup : Option Document → World fl eng Value × Reply IngestResponse
      after_lookup o =
          looked_up fl eng Value services settings w ids flush content filename collection
            (digest_of content) (path_of content filename) o
