-- ===== src/Admin/Rules/Lifecycle.antt =====
-- What confirming a rule grants, and what deleting it takes back.
use pro_rag.Prelude.{
  ℕ, ◌≡◌, ◌↔◌, ◌⊎◌, inl, inr, refl, sym, ap, ◌∙◌, subst, Bool, true, false, ◌&&◌, ◌||◌, Option,
  none, some, List, Text, arith,
}
use pro_rag.Prelude.Reply.{Reply, answer, guard, ◌>>=◌, ◌>>◌, >>=-eq-answer, answer-injective}
use pro_rag.Models.{User}
use pro_rag.Retrieve.Hit.{Floats}
use pro_rag.Retrieve.Arms.{Engine}
use pro_rag.Retrieve.Visibility.{granted, in_groups_of}
use pro_rag.Admin.Grants.{insert_grants, revoke_grants}
use pro_rag.Admin.Grants.Revoke.{WrittenByOthers, revoke_grants-insert_grants}
use pro_rag.Admin.Grants.Effect.{has, granted-insert_grants}
use pro_rag.Prelude.Table.{find_by, put_by, remove_by, find_by-key, find_by-put, find_by-removed}
use pro_rag.Admin.Rules.Candidates.{Candidate, KeepsRows, candidates_iff}
use pro_rag.Admin.Rules.{
  Rule, Tables, RuleState, draft, confirmed, is_draft, found_or_404, get_rule, rule_key, with_acl,
  ids_of, rule_candidates, embedded_or_500, confirm_rule, delete_rule,
}

pub draft_of : (s : RuleState) (code : ℕ) → guard (is_draft s) code ≡ answer tt → s ≡ draft
draft_of draft code h = refl
draft_of confirmed code h = cc

module _ (fl : Floats) (eng : Engine fl) where
  pub found_of :
      (o : Option (Rule fl eng)) {r : Rule fl eng} → found_or_404 fl eng o ≡ answer r → o ≡ some r
  found_of none h = cc
  found_of (some q) h = ap (λ r. some r) (answer-injective h)

  embedded_of :
      (o : Option eng.Vector) {v : eng.Vector} → embedded_or_500 fl eng o ≡ answer v → o ≡ some v
  embedded_of none h = cc
  embedded_of (some w) h = ap (λ v. some v) (answer-injective h)

  -- The tables after the confirmation of a rule with its embedding.
  abbrev pub confirmed_with :
      Tables fl eng → fl.Score → ℕ → Rule fl eng → eng.Vector → Tables fl eng
  confirmed_with db floor now rule v =
      record (with_acl fl eng db (
        insert_grants rule.group_id rule.id
          (ids_of fl eng (rule_candidates fl eng db.corpus floor v)) db.corpus.acl.document_acl)) {
            rules =
                put_by (rule_key fl eng)
                  (record rule {
                    state = confirmed;
                    query_embedding = some v;
                    confirmed_at = some now;
                  })
                  db.rules;
          }

  -- What a successful confirmation found, and the tables that it leaves.
  abbrev pub Confirmed :
      Tables fl eng → fl.Score → (Text → Option eng.Vector) → ℕ → ℕ → Tables fl eng → Type 0
  Confirmed db floor embed now id db' =
      (rule : Rule fl eng) × (v : eng.Vector) × (find_by (rule_key fl eng) db.rules id ≡ some rule)
      × (rule.state ≡ draft)
      × (embed rule.nl_query ≡ some v)
      × (db' ≡ confirmed_with db floor now rule v)

  abbrev embed_and_grant :
      Tables fl eng
      → fl.Score
      → (Text → Option eng.Vector)
      → ℕ
      → Rule fl eng
      → Reply (Tables fl eng)
  embed_and_grant db floor embed now rule =
      guard (is_draft rule.state) 400
      >> (embedded_or_500 fl eng (embed rule.nl_query) >>= λ v.
          answer (confirmed_with db floor now rule v))

  pub confirm_rule-Confirmed :
      (db : Tables fl eng) (floor : fl.Score) (embed : Text → Option eng.Vector) (now id : ℕ)
      {db' : Tables fl eng}
      → confirm_rule fl eng db floor embed now id ≡ answer db'
      → Confirmed db floor embed now id db'
  unfolding confirm_rule get_rule
  confirm_rule-Confirmed db floor embed now id h =
      let (rule, found, h1) =
        >>=-eq-answer (found_or_404 fl eng (find_by (rule_key fl eng) db.rules id))
          (embed_and_grant db floor embed now) h in
      let (_, ok, h2) =
        >>=-eq-answer (guard (is_draft rule.state) 400)
          (λ _. embedded_or_500 fl eng (embed rule.nl_query) >>= λ v.
            answer (confirmed_with db floor now rule v))
          h1 in
      let (v, embedded, h3) =
        >>=-eq-answer (embedded_or_500 fl eng (embed rule.nl_query))
          (λ v. answer (confirmed_with db floor now rule v)) h2 in
      (
        rule,
        v,
        found_of (find_by (rule_key fl eng) db.rules id) found,
        draft_of rule.state 400 ok,
        embedded_of (embed rule.nl_query) embedded,
        sym (answer-injective h3),
      )

  or_and_iff :
      (a b c : Bool) {P : Type 0}
      → (b ≡ true) ↔ P
      → (a || (b && c) ≡ true) ↔ ((a ≡ true) ⊎ (P × (c ≡ true)))
  or_and_iff true b c h = ((λ _. inl refl), (λ _. refl))
  or_and_iff false b c h = (
    (λ k. inr (h.0 (ground (arith, k)), ground (arith, k))),
    (λ k. elim k [
      | inl e ↦ absurd cc
      | inr (p, e) ↦ let first : b ≡ true = h.1 p in ground (arith, first, e)
    ]),
  )

  -- Who sees what after the confirmation, against before.
  abbrev pub GrantsGroup :
      Tables fl eng → fl.Score → (Text → Option eng.Vector) → ℕ → Tables fl eng → Type 0
  GrantsGroup db floor embed id db' =
      (rule : Rule fl eng) × (v : eng.Vector) × (find_by (rule_key fl eng) db.rules id ≡ some rule)
      × (rule.state ≡ draft)
      × (embed rule.nl_query ≡ some v)
      × ((u : User) (doc : ℕ)
          → (granted db'.corpus.acl u doc ≡ true) ↔ (
              (granted db.corpus.acl u doc ≡ true)
              ⊎ (Candidate fl eng db.corpus floor v doc
                  × (in_groups_of db.corpus.acl u.id (some rule.group_id) ≡ true))))

  -- Where the database's ordering keeps the rows that it is given, a rule that is confirmed was a draft
  -- whose text the model embeds; after it a user is granted exactly what was granted before, and, for
  -- members of the rule's group, the ready documents with a chunk whose similarity to that embedding
  -- is not below the floor.
  pub confirm_rule-GrantsGroup :
      (db : Tables fl eng) (floor : fl.Score) (embed : Text → Option eng.Vector) (now id : ℕ)
      {db' : Tables fl eng}
      → KeepsRows fl eng
      → confirm_rule fl eng db floor embed now id ≡ answer db'
      → GrantsGroup db floor embed id db'
  confirm_rule-GrantsGroup db floor embed now id {db' = db'} keeps h =
      let (rule, v, found, is_new, embedded, e) = confirm_rule-Confirmed db floor embed now id h in
      (
        rule,
        v,
        found,
        is_new,
        embedded,
        λ u doc.
            let ids : List ℕ = ids_of fl eng (rule_candidates fl eng db.corpus floor v) in
            let same : granted db'.corpus.acl u doc
                ≡ granted db.corpus.acl u doc
                  || (has ids doc && in_groups_of db.corpus.acl u.id (some rule.group_id)) =
              ap (λ (d : Tables fl eng). granted d.corpus.acl u doc) e
              ∙ granted-insert_grants db.corpus.acl u doc rule.group_id rule.id ids in
            subst
              (λ b. (b ≡ true) ↔ (
                (granted db.corpus.acl u doc ≡ true)
                ⊎ (Candidate fl eng db.corpus floor v doc
                    × (in_groups_of db.corpus.acl u.id (some rule.group_id) ≡ true))))
              (sym same)
              (or_and_iff (granted db.corpus.acl u doc) (has ids doc)
                (in_groups_of db.corpus.acl u.id (some rule.group_id))
                (candidates_iff fl eng db.corpus floor v doc keeps)),
      )

module _ (fl : Floats) (eng : Engine fl) where
  abbrev delete_found : Tables fl eng → Rule fl eng → Tables fl eng
  delete_found db rule =
      record (with_acl fl eng db (revoke_grants rule.id db.corpus.acl.document_acl)) {
        rules = remove_by (rule_key fl eng) rule.id db.rules;
      }

  delete_rule-found :
      (db : Tables fl eng) (id : ℕ) (rule : Rule fl eng)
      → find_by (rule_key fl eng) db.rules id ≡ some rule
      → delete_rule fl eng db id ≡ answer (delete_found db rule)
  unfolding delete_rule get_rule
  delete_rule-found db id rule e =
      ap (λ o. found_or_404 fl eng o >>= λ r. answer (delete_found db r)) e

  -- The deletion succeeds; the grants are as they were before, and the rule is gone.
  abbrev pub TakenBack : Tables fl eng → ℕ → Tables fl eng → Type 0
  TakenBack db id db' =
      (db'' : Tables fl eng) × (delete_rule fl eng db' id ≡ answer db'')
      × (db''.corpus.acl.document_acl ≡ db.corpus.acl.document_acl)
      × (find_by (rule_key fl eng) db''.rules id ≡ none)

  -- A rule that was confirmed can be deleted right after, and that leaves exactly the grants from
  -- before the confirmation, where none of those was tagged with the rule, and no rule of its id.
  pub delete_rule-confirm_rule :
      (db : Tables fl eng) (floor : fl.Score) (embed : Text → Option eng.Vector) (now id : ℕ)
      {db' : Tables fl eng}
      → WrittenByOthers id db.corpus.acl.document_acl
      → confirm_rule fl eng db floor embed now id ≡ answer db'
      → TakenBack db id db'
  delete_rule-confirm_rule db floor embed now id {db' = db'} others h =
      let (rule, v, found, is_new, embedded, e) =
        confirm_rule-Confirmed fl eng db floor embed now id h in
      let own : rule.id ≡ id = find_by-key (rule_key fl eng) db.rules id found in
      let changed : Rule fl eng = record rule {
        state = confirmed;
        query_embedding = some v;
        confirmed_at = some now;
      } in
      let grants : List ℕ = ids_of fl eng (rule_candidates fl eng db.corpus floor v) in
      let there : find_by (rule_key fl eng) db'.rules id ≡ some changed =
        ap (λ (d : Tables fl eng). find_by (rule_key fl eng) d.rules id) e
        ∙ find_by-put (rule_key fl eng) db.rules id changed found own in
      (
        delete_found db' changed,
        delete_rule-found db' id changed there,
        ap (λ (d : Tables fl eng). revoke_grants rule.id d.corpus.acl.document_acl) e
            ∙ revoke_grants-insert_grants rule.group_id rule.id grants db.corpus.acl.document_acl
                (rw own others),
        ap (λ n. find_by (rule_key fl eng) (remove_by (rule_key fl eng) n db'.rules) id) own
            ∙ find_by-removed (rule_key fl eng) db'.rules id,
      )
