-- ===== src/Ingest/Core/Tests.antt =====
-- One upload of a text file of three words.
use pro_rag.Prelude.{◌≡◌, refl, none, [], Text}
use pro_rag.Prelude.Reply.{answer}
use pro_rag.Prelude.Words.{codes, starts_with, ends_with}
use pro_rag.Models.{Document, ready}
use pro_rag.Retrieve.Samples.{floats, engine}
use pro_rag.Ingest.Chunk.{chunk_pages}
use pro_rag.Ingest.Embed.{embed_with_retry, embed_texts_batched}
use pro_rag.Ingest.Mime.{guess_mime, sniff_mime}
use pro_rag.Ingest.Parse.{parse_to_pages}
use pro_rag.Ingest.Files.{parse_file}
use pro_rag.Ingest.Rows.{new_chunks}
use pro_rag.Ingest.Samples.{services, settings, ids}
use pro_rag.Ingest.Core.{World, flushes, IngestResponse, ingest_bytes}
use pro_rag.Ingest.Core.Again.{AnswersWith, ingest_bytes-again}

abbrev empty_world : World floats engine Text
empty_world = record {
  db = record {
    rules = [];
    groups = [];
    corpus = record {
      documents = [];
      chunks = [];
      table_rows = [];
      acl = record { user_groups = []; document_acl = [] };
    };
  };
  blobs = [];
}

abbrev file : Text
file = codes "one two three"

abbrev stored : World floats engine Text
stored =
    (ingest_bytes floats engine Text services settings empty_world ids flushes file (codes "a.txt")
      (codes "default")).0

abbrev accepted : IngestResponse
accepted = record { doc_id = 40; status = ready; duplicate_of = none }

stores :
    ingest_bytes floats engine Text services settings empty_world ids flushes file
      (codes "a.txt")
      (codes "default")
    ≡ (stored, answer accepted)
unfolding ingest_bytes parse_file new_chunks embed_with_retry embed_texts_batched guess_mime
    sniff_mime chunk_pages parse_to_pages starts_with ends_with
stores = refl

ingest_bytes-again_example :
    (d : Document) × (d.id ≡ 40) × AnswersWith floats engine Text services settings stored file d
ingest_bytes-again_example =
    ingest_bytes-again floats engine Text services settings empty_world ids file (codes "a.txt")
      (codes "default") stored accepted flushes (λ d e. cc) stores
