-- ===== src/Admin/Rules/Candidates.antt =====
-- The documents that a rule's embedding picks, by the rows of the tables.
use pro_rag.Prelude.{
  ℕ, ◌≡◌, ◌↔◌, ◌⊎◌, inl, inr, refl, sym, ap, ◌∙◌, Bool, true, false, ◌&&◌, ◌==◌, ==_iff, Option,
  none, some, List, [], ◌∷◌, arith, Bool-cases, if_true, if_false, Member, Member-filter,
  Member-of_filter,
}
use pro_rag.Models.{Status, pending, processing, ready, failed, Document, Chunk}
use pro_rag.Retrieve.Hit.{Floats}
use pro_rag.Retrieve.Arms.{Engine, Corpus, is_ready}
use pro_rag.Admin.Grants.Effect.{has}
use pro_rag.Admin.Rules.{ids_of, rule_candidates, clears, max_of, best_similarity}

module _ (fl : Floats) (eng : Engine fl) where
  -- A ready document with a chunk whose similarity to the embedding clears the floor.
  abbrev pub Candidate : Corpus fl eng → fl.Score → eng.Vector → ℕ → Type 0
  Candidate db floor v doc =
      ((d : Document) × Member d db.documents × (d.id ≡ doc) × (d.status ≡ ready))
      × ((c : Chunk eng.Vector fl.Score) × Member c db.chunks
          × (c.doc_id ≡ doc)
          × (fl.le floor (fl.sub fl.one (eng.cosine_distance c.embedding v)) ≡ true))

  -- The database's ordering gives the rows that it is given, and no other.
  abbrev pub KeepsRows : Type 0
  KeepsRows =
      (f : Document → fl.Score) (ds : List Document) (d : Document)
      → Member d (eng.order_by_desc f ds) ↔ Member d ds

  clears-max_of :
      (floor : fl.Score) (o : Option fl.Score) (s : fl.Score)
      → (clears fl eng floor (max_of fl eng o s) ≡ true)
        ↔ ((clears fl eng floor o ≡ true) ⊎ (fl.le floor s ≡ true))
  clears-max_of floor none s = ((λ k. inr k), (λ h. elim h [ inl k ↦ absurd cc | inr k ↦ k ]))
  clears-max_of floor (some t) s = elim (Bool-cases (fl.le t s)) [
    | inl e ↦ (
      (λ k. inr (ap (fl.le floor) (sym (if_true _ _ e)) ∙ k)),
      (λ h.
          ap (fl.le floor) (if_true _ _ e)
          ∙ (elim h [ inl k ↦ fl.trans floor t s k e | inr k ↦ k ])),
    )
    | inr e ↦ (
      (λ k. inl (ap (fl.le floor) (sym (if_false _ _ e)) ∙ k)),
      (λ h.
          ap (fl.le floor) (if_false _ _ e)
          ∙ (elim h [ inl k ↦ k | inr k ↦ fl.trans floor s t k (other t s e) ])),
    )
  ]
    where
      other : (a b : fl.Score) → fl.le a b ≡ false → fl.le b a ≡ true
      other a b f = elim (fl.total a b) [
        | inl k ↦ absurd (let no : true ≡ false = sym k ∙ f in cc)
        | inr k ↦ k
      ]

  best_iff :
      (floor : fl.Score) (v : eng.Vector) (doc : ℕ) (chunks : List (Chunk eng.Vector fl.Score))
      → (clears fl eng floor (best_similarity fl eng chunks v doc) ≡ true) ↔ (
          (c : Chunk eng.Vector fl.Score) × Member c chunks
          × (c.doc_id ≡ doc)
          × (fl.le floor (fl.sub fl.one (eng.cosine_distance c.embedding v)) ≡ true))
  best_iff floor v doc [] = ((λ k. absurd cc), (λ (c, m, _, _). absurd m))
  best_iff floor v doc (x ∷ chunks) =
      let best : Option fl.Score = best_similarity fl eng chunks v doc in
      let s : fl.Score = fl.sub fl.one (eng.cosine_distance x.embedding v) in
      elim (Bool-cases (x.doc_id == doc)) [
        | inl e ↦ (
          (λ k.
              elim ((clears-max_of floor best s).0
                (ap (clears fl eng floor) (sym (if_true _ _ e)) ∙ k)) [
                  | inl old ↦
                      let (c, m, own, near) = (best_iff floor v doc chunks).0 old in
                      (c, inr m, own, near)
                  | inr near ↦ (x, inl refl, (==_iff x.doc_id doc).0 e, near)
                ]),
          (λ (c, m, own, near).
              ap (clears fl eng floor) (if_true _ _ e)
              ∙ (clears-max_of floor best s).1 (elim m [
                | inl same ↦ inr (
                    ap
                      (λ (y : Chunk eng.Vector fl.Score).
                        fl.le floor (fl.sub fl.one (eng.cosine_distance y.embedding v)))
                      (sym same)
                    ∙ near)
                | inr n ↦ inl ((best_iff floor v doc chunks).1 (c, n, own, near))
              ])),
        )
        | inr e ↦ (
          (λ k.
              let (c, m, own, near) =
                (best_iff floor v doc chunks).0
                  (ap (clears fl eng floor) (sym (if_false _ _ e)) ∙ k) in
              (c, inr m, own, near)),
          (λ (c, m, own, near). ap (clears fl eng floor) (if_false _ _ e) ∙ (elim m [
            | inl same ↦
                let here = ap (λ (y : Chunk eng.Vector fl.Score). y.doc_id) (sym same) ∙ own in
                absurd (let no : true ≡ false = sym ((==_iff x.doc_id doc).1 here) ∙ e in cc)
            | inr n ↦ (best_iff floor v doc chunks).1 (c, n, own, near)
          ])),
        )
      ]

  ready_iff : (s : Status) → (is_ready s ≡ true) ↔ (s ≡ ready)
  ready_iff pending = ((λ k. absurd cc), (λ k. absurd cc))
  ready_iff processing = ((λ k. absurd cc), (λ k. absurd cc))
  ready_iff ready = ((λ k. refl), (λ k. refl))
  ready_iff failed = ((λ k. absurd cc), (λ k. absurd cc))

  has_iff :
      (ds : List Document) (doc : ℕ)
      → (has (ids_of fl eng ds) doc ≡ true) ↔ ((d : Document) × Member d ds × (d.id ≡ doc))
  has_iff [] doc = ((λ k. absurd cc), (λ (d, m, _). absurd m))
  has_iff (x ∷ ds) doc = elim (Bool-cases (x.id == doc)) [
    | inl e ↦ ((λ _. (x, inl refl, (==_iff x.id doc).0 e)), (λ _. ground (arith, e)))
    | inr e ↦ (
      (λ k. let (d, m, own) = (has_iff ds doc).0 (ground (arith, e, k)) in (d, inr m, own)),
      (λ (d, m, own). elim m [
        | inl same ↦
            let here = ap (λ (y : Document). y.id) (sym same) ∙ own in
            absurd (let no : true ≡ false = sym ((==_iff x.id doc).1 here) ∙ e in cc)
        | inr n ↦
            let rest : has (ids_of fl eng ds) doc ≡ true = (has_iff ds doc).1 (d, n, own) in
            ground (arith, rest)
      ]),
    )
  ]

  pub candidates_iff :
      (db : Corpus fl eng) (floor : fl.Score) (v : eng.Vector) (doc : ℕ)
      → KeepsRows
      → (has (ids_of fl eng (rule_candidates fl eng db floor v)) doc ≡ true)
        ↔ Candidate db floor v doc
  unfolding rule_candidates
  candidates_iff db floor v doc keeps = (
    (λ k.
        let (d, m, own) = (has_iff (rule_candidates fl eng db floor v) doc).0 k in
        let (there, ok) = Member-of_filter test db.documents d ((keeps _ _ d).0 m) in
        let near : clears fl eng floor (best_similarity fl eng db.chunks v d.id) ≡ true =
          ground (arith, ok) in
        (
          (d, there, own, (ready_iff d.status).0 (ground (arith, ok))),
          (best_iff floor v doc db.chunks).0 (
              ap (λ n. clears fl eng floor (best_similarity fl eng db.chunks v n)) (sym own)
              ∙ near),
        )),
    (λ ((d, there, own, is_done), close).
        let near : clears fl eng floor (best_similarity fl eng db.chunks v d.id) ≡ true =
          ap (λ n. clears fl eng floor (best_similarity fl eng db.chunks v n)) own
          ∙ (best_iff floor v doc db.chunks).1 close in
        let done : is_ready d.status ≡ true = (ready_iff d.status).1 is_done in
        (has_iff (rule_candidates fl eng db floor v) doc).1 (
          d,
          (keeps _ _ d).1 (Member-filter test db.documents d there (ground (arith, near, done))),
          own,
        )),
  )
    where
      test : Document → Bool
      test d = is_ready d.status && clears fl eng floor (best_similarity fl eng db.chunks v d.id)
