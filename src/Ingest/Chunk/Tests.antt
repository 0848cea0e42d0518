-- ===== src/Ingest/Chunk/Tests.antt =====
-- Chunking at concrete inputs.
use pro_rag.Prelude.{ℕ, ◌-◌, ◌≡◌, none, some, List, [], ◌∷◌, map, Text, flatten, All, arith}
use pro_rag.Prelude.Words.{codes, split}
use pro_rag.Retrieve.Samples.{scores}
use pro_rag.Ingest.Chunk.{Chunk, Element, StructuredChunk, chunk_pages, chunk_elements, step_of}
use pro_rag.Ingest.Chunk.Pages.{rejoin_words, IsNumberedFrom, Fits, chunk_pages_lem}
use pro_rag.Ingest.Chunk.Sections.{OfOneSection, chunk_elements_lem}

abbrev pages : List Text
pages = codes "one two three" ∷ codes "four five" ∷ []

chunk_pages_lem_example :
    (chunks : List Chunk) × (chunk_pages pages 3 1 ≡ some chunks)
    × (rejoin_words (3 - step_of 3 1) chunks ≡ flatten (map split pages))
    × IsNumberedFrom 0 chunks
    × All (Fits 3) chunks
chunk_pages_lem_example = chunk_pages_lem pages 3 1 (omega arith)

abbrev element : Text → ℕ → Text → Element scores
element text page heading = record {
  text = text;
  page = page;
  heading_path = heading ∷ [];
  bbox = none;
}

abbrev elements : List (Element scores)
elements =
    element (codes "one two") 1 (codes "Intro")
    ∷ element (codes "three") 1 (codes "Intro")
    ∷ element (codes "four") 2 (codes "Intro")
    ∷ []

chunk_elements_lem_example :
    (chunks : List (StructuredChunk scores)) × (chunk_elements scores elements 2 1 ≡ some chunks)
    × All (OfOneSection scores elements 2) chunks
chunk_elements_lem_example = chunk_elements_lem scores elements 2 1 (omega arith)
