-- ===== src/Retrieve/Arms/Legal.antt =====
-- Every hit that an arm returns is of a ready document that the user may see.
use pro_rag.Prelude.Chain.{OnSome}
use pro_rag.Prelude.{
  ℕ, ◌≡◌, refl, Bool, true, false, none, ◌&&◌, Option, some, List, [], ◌∷◌, map, arith, ◌==◌,
  if_intro, Bool-cases, Option-cases, ==_iff, ap, All-of_Member, inl, inr, All, All-append,
  All-take, filter, Text, Member,
}
use pro_rag.Prelude.Sub.{Sub-All, Sub-filter}
use pro_rag.Models.{Status, pending, processing, ready, failed, Document, Chunk, User}
use pro_rag.Retrieve.Hit.{Floats, Hit}
use pro_rag.Retrieve.Visibility.{visibility_clause, where_clause, sees}
use pro_rag.Retrieve.Arms.{
  Engine, Orders, Corpus, Joined, join_documents, legal_rows, hit_of, vector_search, matching,
  ranked_search, bm25_search, fts_search, keyword_search, table_matches, structured_search,
  is_ready,
}

module _ (fl : Floats) (eng : Engine fl) (db : Corpus fl eng) (u : Option User) where
  -- The hit belongs to a document of the corpus that is ready and that the user may see.
  abbrev pub LegalDoc : Document → Type 0
  LegalDoc d = (d.status ≡ ready) × (sees db.acl u d.id ≡ true)

  abbrev pub Legal : Hit fl.order → Type 0
  Legal h = (d : Document) × Member d db.documents × (h.doc_id ≡ some d.id) × LegalDoc d

  -- A row of the join: the document is one of the corpus, and the chunk's own.
  abbrev JoinedRow : Joined fl eng → Type 0
  JoinedRow r = Member r.1 db.documents × ((r.0).doc_id ≡ (r.1).id)

  abbrev LegalRow : Joined fl eng → Type 0
  LegalRow r = JoinedRow r × LegalDoc r.1

  joined_with :
      (c : Chunk eng.Vector fl.Score) (documents : List Document)
      → All (λ d. Member d db.documents) documents
      → All JoinedRow (map (λ d. (c, d)) (filter (λ (d : Document). c.doc_id == d.id) documents))
  joined_with c [] h = tt
  joined_with c (d ∷ documents) h = elim (Bool-cases (c.doc_id == d.id)) [
    | inl e ↦ rw e ((h.0, (==_iff c.doc_id d.id).0 e), joined_with c documents h.1)
    | inr e ↦ rw e (joined_with c documents h.1)
  ]

  join_documents-JoinedRow :
      (chunks : List (Chunk eng.Vector fl.Score))
      → All JoinedRow (join_documents fl eng chunks db.documents)
  join_documents-JoinedRow [] = tt
  join_documents-JoinedRow (c ∷ chunks) =
      All-append JoinedRow _ (join_documents fl eng chunks db.documents)
        (joined_with c db.documents
          (All-of_Member (λ d. Member d db.documents) db.documents (λ d m. m)))
        (join_documents-JoinedRow chunks)

  ready_of : (s : Status) → is_ready s ≡ true → s ≡ ready
  ready_of pending e = cc
  ready_of processing e = cc
  ready_of ready e = refl
  ready_of failed e = cc

  abbrev passes : Joined fl eng → Bool
  passes r = is_ready (r.1).status && where_clause (visibility_clause db.acl u) (r.1).id

  legal_of_passes : (r : Joined fl eng) → passes r ≡ true → LegalDoc r.1
  unfolding sees
  legal_of_passes r e = (ready_of (r.1).status (ground arith), ground arith)

  filter-LegalRow :
      (rows : List (Joined fl eng)) → All JoinedRow rows → All LegalRow (filter passes rows)
  filter-LegalRow [] h = tt
  filter-LegalRow (r ∷ rows) h = elim (Bool-cases (passes r)) [
    | inl e ↦ rw e ((h.0, legal_of_passes r e), filter-LegalRow rows h.1)
    | inr e ↦ rw e (filter-LegalRow rows h.1)
  ]

  legal_rows-LegalRow : All LegalRow (legal_rows fl eng db u)
  unfolding legal_rows
  legal_rows-LegalRow = filter-LegalRow _ (join_documents-JoinedRow db.chunks)

  hit_of-Legal : (r : Joined fl eng) (s : fl.Score) → LegalRow r → Legal (hit_of fl eng (r, s))
  unfolding hit_of
  hit_of-Legal (c, d) s ((m, e), legal) = (d, m, ap some e, legal)

  map-Legal :
      {A : Type 0} (P : A → Type 0) (f : A → Hit fl.order) (xs : List A)
      → ((x : A) → P x → Legal (f x))
      → All P xs
      → All Legal (map f xs)
  map-Legal P f [] k h = tt
  map-Legal P f (x ∷ xs) k h = (k x h.0, map-Legal P f xs k h.1)

  module _ (laws : Orders fl eng) where
    pub vector_search-Legal : (e : eng.Vector) (k : ℕ) → All Legal (vector_search fl eng db e k u)
    unfolding vector_search
    vector_search-Legal e k =
        map-Legal LegalRow _ _ (λ r h. hit_of-Legal r _ h)
          (All-take LegalRow k _ (laws.order_by-All LegalRow _ _ legal_rows-LegalRow))

    abbrev LegalScored : Joined fl eng × fl.Score → Type 0
    LegalScored r = LegalRow r.0

    matching-Legal :
        (score : Chunk eng.Vector fl.Score → Option fl.Score) (rows : List (Joined fl eng))
        → All LegalRow rows
        → All LegalScored (matching fl eng score rows)
    unfolding matching
    matching-Legal score [] h = tt
    matching-Legal score (r ∷ rows) h = elim (Option-cases (score r.0)) [
      | inl e ↦ rw (e, matching) (matching-Legal score rows h.1)
      | inr (s, e) ↦ rw (e, matching) (h.0, matching-Legal score rows h.1)
    ]

    ranked_search-Legal :
        (score : Chunk eng.Vector fl.Score → Option fl.Score) (k : ℕ)
        → All Legal (ranked_search fl eng score db k u)
    unfolding ranked_search
    ranked_search-Legal score k =
        map-Legal LegalScored _ _ (λ r h. hit_of-Legal r.0 r.1 h)
          (All-take LegalScored k _
            (laws.order_by_desc-All LegalScored _ _ (matching-Legal score _ legal_rows-LegalRow)))

    pub keyword_search-Legal :
        (bm25 : Bool) (raises : Text → Bool) (q : Text) (k : ℕ)
        → OnSome (All Legal) (keyword_search fl eng bm25 raises db q k u)
    unfolding keyword_search bm25_search fts_search
    keyword_search-Legal bm25 raises q k =
        if_intro (OnSome (All Legal)) bm25 {y = some (ranked_search fl eng (eng.fts_rank q) db k u)}
          (if_intro (OnSome (All Legal)) (raises q) {x = none}
            {y = some (ranked_search fl eng (eng.bm25_score q) db k u)} tt
            (ranked_search-Legal (eng.bm25_score q) k))
          (ranked_search-Legal (eng.fts_rank q) k)

    pub keyword_search_total :
        (bm25 : Bool) (raises : Text → Bool) (q : Text) (k : ℕ)
        → raises q ≡ false
        → (l : List (Hit fl.order)) × (keyword_search fl eng bm25 raises db q k u ≡ some l)
    unfolding keyword_search
    keyword_search_total true raises q k h = (bm25_search fl eng db q k u, rw h refl)
    keyword_search_total false raises q k h = (fts_search fl eng db q k u, refl)

    pub structured_search-Legal : (q : Text) (k : ℕ) → All Legal (structured_search fl eng db q k u)
    unfolding structured_search hit_of
    structured_search-Legal q k =
        map-Legal LegalRow _ _ (λ r h. hit_of-Legal r fl.one h)
          (All-take LegalRow k _ (
            laws.order_by-All LegalRow _ _
              (Sub-All LegalRow (Sub-filter (table_matches fl eng db q) _) legal_rows-LegalRow)))
