-- ===== src/Retrieve/Arms.antt =====
-- The retrieval arms: prorag/retrieve/arms.py. What PostgreSQL and its extensions compute is taken
-- as it is documented: a distance, a match with a score, an ordering that returns the same rows.
pub mod Legal
use pro_rag.Prelude.{
  ℕ, Bool, true, false, ◌&&◌, ◌||◌, Option, none, some, List, [], ◌∷◌, ◌++◌, map, ◌==◌,
  if◌then◌else◌, any, filter, take, Text, All,
}
use pro_rag.Prelude.Words.{is_empty, codes}
use pro_rag.Models.{
  Status, pending, processing, ready, failed, Document, Kind, prose, row, table_window,
  table_summary, Chunk, TableRow, User, Acl,
}
use pro_rag.Retrieve.Hit.{Floats, Hit}
use pro_rag.Retrieve.Visibility.{visibility_clause, where_clause}

-- The database's own part of a query.
pub record Engine (fl : Floats) : Type 1 where
  pub Vector : Type 0
  pub RowData : Type 0
  pub cosine_distance : Vector → Vector → fl.Score
  -- `ORDER BY ... LIMIT k`, ascending or descending by a number
  pub order_by : {A : Type 0} → (A → fl.Score) → List A → List A
  pub order_by_desc : {A : Type 0} → (A → fl.Score) → List A → List A
  -- the BM25 score of a chunk that matches the query, and the rank of one by full text search
  pub bm25_score : Text → Chunk Vector fl.Score → Option fl.Score
  pub fts_rank : Text → Chunk Vector fl.Score → Option fl.Score
  -- `CAST(data AS text) ILIKE '%query%'`
  pub ilike : Text → RowData → Bool

abbrev pub is_ready : Status → Bool
is_ready pending = false
is_ready processing = false
is_ready ready = true
is_ready failed = false

abbrev pub in_tables : Kind → Bool
in_tables prose = false
in_tables row = true
in_tables table_window = true
in_tables table_summary = true

-- An ordering returns rows that it was given.
pub record Orders (fl : Floats) (eng : Engine fl) : Type 1 where
  pub order_by-All :
      {A : Type 0} (P : A → Type 0) (f : A → fl.Score) (xs : List A)
      → All P xs
      → All P (eng.order_by f xs)
  pub order_by_desc-All :
      {A : Type 0} (P : A → Type 0) (f : A → fl.Score) (xs : List A)
      → All P xs
      → All P (eng.order_by_desc f xs)

module _ (fl : Floats) (eng : Engine fl) where
  -- The tables that retrieval reads.
  pub record Corpus : Type 0 where
    pub documents : List Document
    pub chunks : List (Chunk eng.Vector fl.Score)
    pub table_rows : List (TableRow eng.RowData)
    pub acl : Acl

  abbrev pub Joined : Type 0
  Joined = Chunk eng.Vector fl.Score × Document

  -- `chunks JOIN documents ON chunks.doc_id = documents.id`
  abbrev pub join_documents : List (Chunk eng.Vector fl.Score) → List Document → List Joined
  join_documents [] documents = []
  join_documents (c ∷ chunks) documents =
      map (λ d. (c, d)) (filter (λ (d : Document). c.doc_id == d.id) documents)
      ++ join_documents chunks documents

  -- The rows that any arm may rank: `status = 'ready'`, and visible to the user.
  pub legal_rows : Corpus → Option User → List Joined
  legal_rows db u =
      filter (λ r. is_ready (r.1).status && where_clause (visibility_clause db.acl u) (r.1).id)
        (join_documents db.chunks db.documents)

  -- `r.title or r.filename`
  abbrev title_or_filename : Document → Text
  title_or_filename d = elim d.title [
    | none ↦ d.filename
    | some t ↦ if is_empty t then d.filename else t
  ]

  abbrev kind_name : Kind → Text
  kind_name prose = codes "prose"
  kind_name row = codes "row"
  kind_name table_window = codes "table_window"
  kind_name table_summary = codes "table_summary"

  -- The hit dict of the vector and the keyword arms. It has no `title_norm`, `doc_date` or
  -- `token_count`.
  pub hit_of : Joined × fl.Score → Hit fl.order
  hit_of ((c, d), s) = record {
    chunk_id = c.id;
    doc_id = some c.doc_id;
    text = c.text;
    page = c.page_start;
    bbox = c.bbox;
    kind = some (kind_name c.kind);
    title = some (title_or_filename d);
    title_norm = none;
    doc_date = none;
    token_count = none;
    score = s;
  }

  pub vector_search : Corpus → eng.Vector → ℕ → Option User → List (Hit fl.order)
  vector_search db query_embedding k u =
      map (λ r. hit_of (r, fl.sub fl.one (eng.cosine_distance (r.0).embedding query_embedding)))
        (take k (
          eng.order_by (λ (r : Joined). eng.cosine_distance (r.0).embedding query_embedding)
            (legal_rows db u)))

  -- The rows that match, each with its score.
  pub matching :
      (Chunk eng.Vector fl.Score → Option fl.Score) → List Joined → List (Joined × fl.Score)
  matching score [] = []
  matching score (r ∷ rows) = elim (score r.0) [
    | none ↦ matching score rows
    | some s ↦ (r, s) ∷ matching score rows
  ]

  pub ranked_search :
      (Chunk eng.Vector fl.Score → Option fl.Score) → Corpus → ℕ → Option User → List (Hit fl.order)
  ranked_search score db k u = map hit_of (
      take k
        (eng.order_by_desc (λ (r : Joined × fl.Score). r.1) (matching score (legal_rows db u))))

  pub bm25_search : Corpus → Text → ℕ → Option User → List (Hit fl.order)
  bm25_search db query = ranked_search (eng.bm25_score query) db

  pub fts_search : Corpus → Text → ℕ → Option User → List (Hit fl.order)
  fts_search db query = ranked_search (eng.fts_rank query) db

  -- `fts_search` on the session of a statement that failed: there is no savepoint, and PostgreSQL
  -- refuses every further statement of the transaction, so it raises.
  abbrev fts_search_aborted : Option (List (Hit fl.order))
  fts_search_aborted = none

  -- `bm25` says whether the BM25 index is there, and `raises` on which queries its search fails.
  pub keyword_search :
      Bool → (Text → Bool) → Corpus → Text → ℕ → Option User → Option (List (Hit fl.order))
  keyword_search bm25 raises db query k u =
      if bm25
      then (if raises query then fts_search_aborted else some (bm25_search db query k u))
      else some (fts_search db query k u)

  -- Some row of the chunk's table matches the query: the join with `table_rows`, made DISTINCT.
  pub table_matches : Corpus → Text → Joined → Bool
  table_matches db query r =
      in_tables (r.0).kind
      && any
          (λ (t : TableRow eng.RowData).
            (elim (r.0).table_id [ none ↦ false | some i ↦ t.table_id == i ])
            && eng.ilike query t.row_values)
          db.table_rows

  abbrev structured_hit : Joined → Hit fl.order
  structured_hit r = record (hit_of (r, fl.one)) { bbox = none; kind = none }

  -- With no field filters, as every caller calls it. The query has no ORDER BY: the rows come in
  -- any order, as where all tie.
  pub structured_search : Corpus → Text → ℕ → Option User → List (Hit fl.order)
  structured_search db query k u = map structured_hit (
      take k (
        eng.order_by (λ (_ : Joined). fl.zero) (filter (table_matches db query) (legal_rows db u))))
