-- ===== src/Ingest/Rows/Tests.antt =====
-- The rows of one chunk.
use pro_rag.Prelude.{◌≡◌, refl, false, none, some, List, [], ◌∷◌, Text}
use pro_rag.Prelude.Raise.{returned}
use pro_rag.Prelude.Words.{codes}
use pro_rag.Retrieve.Samples.{floats, engine}
use pro_rag.Ingest.Embed.{embed_with_retry, embed_texts_batched}
use pro_rag.Ingest.Files.{Parsed}
use pro_rag.Ingest.Samples.{services, settings, ids}
use pro_rag.Ingest.Rows.{Row, prose_rows, new_chunks}
use pro_rag.Ingest.Rows.Order.{EmbedsInOrder, new_chunks_lem}

abbrev parsed : Parsed floats engine Text
parsed = record {
  prose_chunks =
      record {
        text = codes "one two";
        embed_text = none;
        page_start = 1;
        page_end = 1;
        bbox = none;
        token_count = 2;
      }
      ∷ [];
  parsed_tables = [];
  page_count = some 1;
  used_structured_chunking = false;
}

abbrev rows : List (Row floats engine Text services settings)
rows = prose_rows floats engine Text services settings ids false 0 (
    (
      record {
        text = codes "one two";
        embed_text = none;
        page_start = 1;
        page_end = 1;
        bbox = none;
        token_count = 2;
      },
      7,
    )
    ∷ [])

makes : new_chunks floats engine Text services settings ids parsed ≡ returned rows
unfolding new_chunks embed_with_retry embed_texts_batched
makes = refl

new_chunks_lem_example : EmbedsInOrder floats engine Text services settings ids parsed rows
new_chunks_lem_example = new_chunks_lem floats engine Text services settings ids parsed rows makes
