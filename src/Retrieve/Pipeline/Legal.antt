-- ===== src/Retrieve/Pipeline/Legal.antt =====
-- Every hit that the pipeline returns is of a ready document that the user may see.
use pro_rag.Prelude.{
  ◌≡◌, ◌≢◌, refl, ap, ◌∙◌, arith, length, length-append, length-map, Option-cases, inl, inr, Option,
  false, none, some, List, [], ◌∷◌, ◌++◌, map, if_intro, All, All-append, All-take, Text,
}
use pro_rag.Prelude.Chain.{
  ◌>>=◌, each_total, OnSome, OnSome-each, OnSome-bind, OnSome-any, of_OnSome,
}
use pro_rag.Prelude.Sort.{sort_desc-All}
use pro_rag.Prelude.Sub.{Sub-All}
use pro_rag.Models.{User}
use pro_rag.Retrieve.Hit.{Floats, Hit}
use pro_rag.Retrieve.Arms.{Engine, Orders, Corpus}
use pro_rag.Retrieve.Arms.Legal.{
  Legal, vector_search-Legal, keyword_search-Legal, keyword_search_total, structured_search-Legal,
}
use pro_rag.Retrieve.Fuse.{rrf_fuse}
use pro_rag.Retrieve.Fuse.Origin.{rrf_fuse-All, rrf_fuse_total}
use pro_rag.Retrieve.Rerank.Order.{rerank-All}
use pro_rag.Retrieve.Crop.Bounds.{crop_context-Sub}
use pro_rag.Retrieve.Plan.{Plan, plan, content, crashed, length-plan}
use pro_rag.Retrieve.Pipeline.{
  Gathered, Settings, Services, gather_hits, ranked_context, first_query, refine, retrieve,
  wants_table, vector_lists_of, fts_lists_of, structured_lists_of,
}

module _ (fl : Floats) (eng : Engine fl) (sv : Services fl eng) (settings : Settings fl.Score)
    (db : Corpus fl eng) (u : Option User) (laws : Orders fl eng) where
  abbrev IsLegal : Hit fl.order → Type 0
  IsLegal = Legal fl eng db u

  IsLegal-any_score :
      (h : Hit fl.order) (s : fl.Score) → IsLegal h → IsLegal (record h { score = s })
  IsLegal-any_score h s k = k

  map-All :
      {A B : Type 0} (P : B → Type 0) (f : A → B) (xs : List A)
      → ((x : A) → P (f x))
      → All P (map f xs)
  map-All P f [] k = tt
  map-All P f (x ∷ xs) k = (k x, map-All P f xs k)

  -- Whatever the planner asked for, every fused hit is of a ready document that the user may see.
  pub gather_hits-Legal :
      (p : Plan) (embeddings : List eng.Vector)
      → OnSome (λ g. All IsLegal g.fused) (gather_hits fl eng sv settings db u p embeddings)
  unfolding gather_hits
  gather_hits-Legal p embeddings =
      OnSome-bind (All (All IsLegal)) (λ g. All IsLegal g.fused)
        (fts_lists_of fl eng sv settings db u p.queries) _
        (OnSome-each (All IsLegal) _ p.queries (λ q.
          keyword_search-Legal fl eng db u laws sv.bm25_available sv.bm25_raises q
            settings.rerank_top_n))
        (λ fts_lists hf.
          OnSome-bind (All IsLegal) (λ g. All IsLegal g.fused) (rrf_fuse fl _ _) _
            (rrf_fuse-All fl IsLegal IsLegal-any_score _ _ (
              All-append (All IsLegal) _ _
                (map-All (All IsLegal) _ embeddings
                  (λ e. vector_search-Legal fl eng db u laws e settings.rerank_top_n))
                (All-append (All IsLegal) _ _ hf (
                  if_intro (All (All IsLegal)) (wants_table p.mode) {y = []}
                    (map-All (All IsLegal) _ p.queries
                      (λ q. structured_search-Legal fl eng db u laws q settings.rerank_top_n))
                    tt))))
            (λ fused h. h))

  ranked_context-Legal :
      (g : Gathered fl)
      → All IsLegal g.fused
      → OnSome (All IsLegal) (ranked_context fl eng sv settings db u g)
  unfolding ranked_context
  ranked_context-Legal g h =
      OnSome-bind (λ _. Unit {0}) (All IsLegal) (first_query fl eng sv settings db u g.queries) _
        (OnSome-any _)
        (λ query _. Sub-All IsLegal (crop_context-Sub fl.order sv.normalize_title settings.crop _) (
          sort_desc-All fl.order (λ x. x.score) IsLegal _
            (rerank-All fl IsLegal IsLegal-any_score settings.rerank _ _
              (All-take IsLegal settings.rerank_top_n g.fused h))))

  retrieve-OnSome :
      (message : Text) → OnSome (λ r. All IsLegal r.0) (retrieve fl eng sv settings db u message)
  unfolding retrieve
  retrieve-OnSome message =
      OnSome-bind (λ _. Unit {0}) (λ r. All IsLegal r.0) (plan sv.str sv.extract_json _ _) _
        (OnSome-any _)
        (λ p _.
          OnSome-bind (λ _. Unit {0}) (λ r. All IsLegal r.0) (sv.embed_texts p.queries) _
            (OnSome-any _)
            (λ embeddings _.
              OnSome-bind (λ g. All IsLegal g.fused) (λ r. All IsLegal r.0)
                (gather_hits fl eng sv settings db u p embeddings) _
                (gather_hits-Legal p embeddings)
                (λ g hg.
                  OnSome-bind (All IsLegal) (λ r. All IsLegal r.0)
                    (ranked_context fl eng sv settings db u g) _ (ranked_context-Legal g hg)
                    (λ cropped hc. hc))))

  same_lengths :
      {A : Type 0} (f g h : A → fl.Score) (xs ys zs : List A)
      → length (xs ++ (ys ++ zs)) ≡ length (map f xs ++ (map g ys ++ map h zs))
  same_lengths f g h xs ys zs = omega (
    arith,
    length-append xs (ys ++ zs),
    length-append ys zs,
    length-append (map f xs) (map g ys ++ map h zs),
    length-append (map g ys) (map h zs),
    length-map f xs,
    length-map g ys,
    length-map h zs,
  )

  -- The weights always fit the lists, so gathering raises only where a search does.
  gather_hits_total :
      (p : Plan) (embeddings : List eng.Vector)
      → ((q : Text) → sv.bm25_raises q ≡ false)
      → (g : Gathered fl) × (gather_hits fl eng sv settings db u p embeddings ≡ some g)
        × (g.queries ≡ p.queries)
  unfolding gather_hits
  gather_hits_total p embeddings quiet =
      let vector_lists = vector_lists_of fl eng sv settings db u embeddings in
      let structured_lists = structured_lists_of fl eng sv settings db u p.mode p.queries in
      let (fts_lists, found) = each_total _ p.queries (λ q.
        keyword_search_total fl eng db u laws sv.bm25_available sv.bm25_raises q
          settings.rerank_top_n (quiet q)) in
      let (fused, paired) = rrf_fuse_total fl _ _ (
        same_lengths (λ _. fl.one) (λ _. fl.one) (λ _. settings.structured_weight) vector_lists
          fts_lists structured_lists) in
      (
        record {
          queries = p.queries;
          vector_lists = vector_lists;
          fts_lists = fts_lists;
          structured_lists = structured_lists;
          fused = fused;
        },
        rw (found, paired) refl,
        refl,
      )

  found_total :
      {A B : Type 0} (f : A → B) (o : Option A)
      → (a : A) × (o ≡ some a)
      → (b : B) × ((o >>= λ a. some (f a)) ≡ some b)
  found_total f o (a, e) = (f a, rw e refl)

  ranked_context_total :
      (g : Gathered fl)
      → length g.queries ≡ 2
      → (c : List (Hit fl.order)) × (ranked_context fl eng sv settings db u g ≡ some c)
  unfolding ranked_context
  ranked_context_total g e = elim (Option-cases (first_query fl eng sv settings db u g.queries)) [
    | inl no_query ↦ absurd (nonempty g.queries e no_query)
    | inr (q, found) ↦ found_total _ (first_query fl eng sv settings db u g.queries) (q, found)
  ]
    where
      nonempty :
          (qs : List Text) → length qs ≡ 2 → first_query fl eng sv settings db u qs ≡ none → ⊥
      nonempty [] k n = omega arith
      nonempty (x ∷ qs) k n = cc

  module _ (message : Text)
      (answered : sv.plan_completion (refine fl eng sv settings db u message) ≢ content none)
      (parses : (raw : Text)
        → sv.plan_completion (refine fl eng sv settings db u message) ≡ content (some raw)
        → sv.extract_json raw ≢ crashed)
      (quiet : (q : Text) → sv.bm25_raises q ≡ false)
      (embeds : (qs : List Text) → (vs : List eng.Vector) × (sv.embed_texts qs ≡ some vs)) where
    retrieve_returns :
        (r : List (Hit fl.order) × Text) × (retrieve fl eng sv settings db u message ≡ some r)
    unfolding retrieve
    retrieve_returns =
        let (p, planned, two) =
          length-plan sv.str sv.extract_json (refine fl eng sv settings db u message) _ answered
            parses in
        let (vs, embedded) = embeds p.queries in
        let (g, gathered, queries) = gather_hits_total p vs quiet in
        let (c, cropped) = ranked_context_total g (ap length queries ∙ two) in
        (
          (c, refine fl eng sv settings db u message),
          rw (planned, embedded, gathered, cropped) refl,
        )

    -- Where the planner's answer is not null and parses or fails in a way that `plan` handles, no
    -- BM25 search raises and the embedding service answers, `retrieve` returns, and every hit that it
    -- hands to the answer is of a ready document that the user may see.
    pub retrieve-Legal :
        (r : List (Hit fl.order) × Text) × (retrieve fl eng sv settings db u message ≡ some r)
        × All IsLegal r.0
    retrieve-Legal =
        let (r, returned) = retrieve_returns in
        (r, returned, of_OnSome (λ x. All IsLegal x.0) (retrieve-OnSome message) returned)
