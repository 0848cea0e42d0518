-- ===== src/Ingest/Rows/Order.antt =====
-- The chunks of an ingest: their numbers, their document and their vectors.
use pro_rag.Prelude.{
  ℕ, suc, ◌+◌, ◌≡◌, refl, ap, sym, ◌∙◌, subst, List, [], ◌∷◌, ◌++◌, map, map-append, take, drop,
  take-append-drop, length, length-map, length-append, arith, Text,
}
use pro_rag.Prelude.Raise.{
  Outcome, returned, ◌>>=◌, zip_strict, >>=-eq-returned, returned-injective, zip_strict-eq-returned,
}
use pro_rag.Retrieve.Hit.{Floats}
use pro_rag.Retrieve.Arms.{Engine}
use pro_rag.Ingest.Parse.{ParsedTable}
use pro_rag.Ingest.TableText.{TableArtifact}
use pro_rag.Ingest.Files.{Settings, Services, NewIds, Prose, Parsed}
use pro_rag.Ingest.Rows.{
  Row, artifacts_of, text_to_embed, texts_to_embed, all_embeddings, prose_rows, table_chunk_rows,
  new_chunks,
}

module _ (fl : Floats) (eng : Engine fl) (Value : Type 0) (services : Services fl eng Value)
    (settings : Settings fl.Score) where
  abbrev R : Type 0
  R = Row fl eng Value services settings

  abbrev T : Type 0
  T = ℕ × ParsedTable fl.order Value × TableArtifact

  -- The rows belong to the document and are numbered from `ord` on, without a gap.
  abbrev pub NumberedFrom : ℕ → ℕ → List R → Type 0
  NumberedFrom doc ord [] = Unit
  NumberedFrom doc ord (c ∷ rows) =
      (c.doc_id ≡ doc) × (c.ord ≡ ord) × NumberedFrom doc (suc ord) rows

  NumberedFrom-append :
      (doc ord : ℕ) (xs ys : List R)
      → NumberedFrom doc ord xs
      → NumberedFrom doc (ord + length xs) ys
      → NumberedFrom doc ord (xs ++ ys)
  NumberedFrom-append doc ord [] ys h k =
      let same : ord + 0 ≡ ord = omega arith in subst (λ n. NumberedFrom doc n ys) same k
  NumberedFrom-append doc ord (x ∷ xs) ys (d, o, h) k =
      let same : ord + suc (length xs) ≡ suc ord + length xs = omega arith in
      (d, o, NumberedFrom-append doc (suc ord) xs ys h (subst (λ n. NumberedFrom doc n ys) same k))

  abbrev pub vector_of : R → eng.Vector
  vector_of c = c.embedding

  abbrev prose_of :
      NewIds → Parsed fl eng Value → ℕ → List (Prose fl eng Value × eng.Vector) → List R
  prose_of ids p = prose_rows fl eng Value services settings ids p.used_structured_chunking

  prose_rows-lem :
      (ids : NewIds) (p : Parsed fl eng Value) (ord : ℕ)
      (cs : List (Prose fl eng Value × eng.Vector))
      → NumberedFrom ids.doc ord (prose_of ids p ord cs)
        × (map vector_of (prose_of ids p ord cs)
            ≡ map (λ (z : Prose fl eng Value × eng.Vector). z.1) cs)
        × (length (prose_of ids p ord cs) ≡ length cs)
  prose_rows-lem ids p ord [] = (tt, refl, refl)
  prose_rows-lem ids p ord (c ∷ cs) =
      let (numbered, vectors, count) = prose_rows-lem ids p (suc ord) cs in
      ((refl, refl, numbered), ap (λ t. c.1 ∷ t) vectors, ap suc count)

  table_chunk_rows-lem :
      (ids : NewIds) (ord : ℕ) (cs : List (T × eng.Vector))
      → NumberedFrom ids.doc ord (table_chunk_rows fl eng Value services settings ids ord cs)
        × (map vector_of (table_chunk_rows fl eng Value services settings ids ord cs)
            ≡ map (λ (z : T × eng.Vector). z.1) cs)
        × (length (table_chunk_rows fl eng Value services settings ids ord cs) ≡ length cs)
  table_chunk_rows-lem ids ord [] = (tt, refl, refl)
  table_chunk_rows-lem ids ord (c ∷ cs) =
      let (numbered, vectors, count) = table_chunk_rows-lem ids (suc ord) cs in
      ((refl, refl, numbered), ap (λ t. c.1 ∷ t) vectors, ap suc count)

  module _ (ids : NewIds) (p : Parsed fl eng Value) where
    abbrev tables : List T
    tables = artifacts_of fl eng Value services settings p

    abbrev n : ℕ
    n = length p.prose_chunks

    -- The rows of the two halves.
    abbrev rows_of : List (Prose fl eng Value × eng.Vector) → List (T × eng.Vector) → List R
    rows_of ps ts = prose_of ids p 0 ps ++ table_chunk_rows fl eng Value services settings ids n ts

    length_of_firsts :
        {A B : Type 0} (zs : List (A × B)) {xs : List A}
        → map (λ (z : A × B). z.0) zs ≡ xs
        → length zs ≡ length xs
    length_of_firsts zs e = sym (length-map (λ z. z.0) zs) ∙ ap length e

    together :
        (vectors : List eng.Vector) (ps : List (Prose fl eng Value × eng.Vector))
        (ts : List (T × eng.Vector))
        → zip_strict p.prose_chunks (take n vectors) ≡ returned ps
        → zip_strict tables (drop n vectors) ≡ returned ts
        → (vectors ≡ map vector_of (rows_of ps ts))
          × NumberedFrom ids.doc 0 (rows_of ps ts)
          × (length (rows_of ps ts) ≡ length (texts_to_embed fl eng Value services settings p))
    together vectors ps ts zipped zipped_too =
        let (firsts, seconds) = zip_strict-eq-returned p.prose_chunks (take n vectors) zipped in
        let (firsts_too, seconds_too) = zip_strict-eq-returned tables (drop n vectors) zipped_too in
        let (numbered, own, count) = prose_rows-lem ids p 0 ps in
        let (numbered_too, own_too, count_too) = table_chunk_rows-lem ids n ts in
        let many : length ps ≡ n = length_of_firsts ps firsts in
        (
          sym (
              map-append vector_of (prose_of ids p 0 ps)
                (table_chunk_rows fl eng Value services settings ids n ts)
              ∙ ap
                  (λ t.
                    t ++ map vector_of (table_chunk_rows fl eng Value services settings ids n ts))
                  (own ∙ seconds)
              ∙ ap (λ t. take n vectors ++ t) (own_too ∙ seconds_too)
              ∙ take-append-drop n vectors),
          NumberedFrom-append ids.doc 0 (prose_of ids p 0 ps)
              (table_chunk_rows fl eng Value services settings ids n ts) numbered
              (let at : n ≡ 0 + length (prose_of ids p 0 ps) = omega (arith, count, many) in
                subst
                  (λ k.
                    NumberedFrom ids.doc k
                      (table_chunk_rows fl eng Value services settings ids n ts))
                  at numbered_too),
          omega (
            arith,
            length-append (prose_of ids p 0 ps)
                (table_chunk_rows fl eng Value services settings ids n ts),
            count,
            count_too,
            many,
            length_of_firsts ts firsts_too,
            length_of_texts,
          ),
        )
      where
        length_of_texts :
            length (texts_to_embed fl eng Value services settings p) ≡ n + length tables
        length_of_texts =
            let prose_texts : List Text =
              map (text_to_embed fl eng Value services settings) p.prose_chunks in
            omega (
              arith,
              length-append prose_texts (map (λ (a : T). a.2.text) tables),
              length-map (text_to_embed fl eng Value services settings) p.prose_chunks,
              length-map (λ (a : T). a.2.text) tables,
            )

  abbrev pub EmbedsInOrder : NewIds → Parsed fl eng Value → List R → Type 0
  EmbedsInOrder ids p rows =
      (all_embeddings fl eng Value services settings p ≡ returned (map vector_of rows))
      × NumberedFrom ids.doc 0 rows
      × (length rows ≡ length (texts_to_embed fl eng Value services settings p))

  -- The chunks that an ingest stores belong to its document, are numbered from zero in order, and
  -- carry the provider's vectors one by one in the order of the texts that were sent, as many as the
  -- texts.
  pub new_chunks_lem :
      (ids : NewIds) (p : Parsed fl eng Value) (rows : List R)
      → new_chunks fl eng Value services settings ids p ≡ returned rows
      → EmbedsInOrder ids p rows
  unfolding new_chunks
  new_chunks_lem ids p rows h =
      let (vectors, sent, h1) =
        >>=-eq-returned (all_embeddings fl eng Value services settings p) with_vectors h in
      let (ps, zipped, h2) =
        >>=-eq-returned (zip_strict p.prose_chunks (take (n ids p) vectors)) (with_prose vectors)
          h1 in
      let (ts, zipped_too, h3) =
        >>=-eq-returned (zip_strict (tables ids p) (drop (n ids p) vectors)) (with_tables ps) h2 in
      let (all, numbered, count) = together ids p vectors ps ts zipped zipped_too in
      let made : rows_of ids p ps ts ≡ rows = returned-injective h3 in
      subst (EmbedsInOrder ids p) made (sent ∙ ap (λ t. returned t) all, numbered, count)
    where
      with_tables :
          List (Prose fl eng Value × eng.Vector) → List (T × eng.Vector) → Outcome (List R)
      with_tables ps ts = returned (rows_of ids p ps ts)

      with_prose : List eng.Vector → List (Prose fl eng Value × eng.Vector) → Outcome (List R)
      with_prose vectors ps = zip_strict (tables ids p) (drop (n ids p) vectors) >>= with_tables ps

      with_vectors : List eng.Vector → Outcome (List R)
      with_vectors vectors =
          zip_strict p.prose_chunks (take (n ids p) vectors) >>= with_prose vectors
