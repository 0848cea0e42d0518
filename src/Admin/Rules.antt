-- ===== src/Admin/Rules.antt =====
-- Access rules: `/admin/rules` of prorag/admin/router.py, and the auto-admission of
-- prorag/ingest/core.py. A `draft` rule grants nothing; a confirmed one grants its group the
-- documents that match it.
use pro_rag.Prelude.{
  ℕ, Bool, true, false, not, ◌&&◌, Option, none, some, List, [], ◌∷◌, ◌++◌, map, ◌==◌,
  if◌then◌else◌, filter, any, Text, length, take,
}
use pro_rag.Prelude.Reply.{Reply, refused, answer, guard, ◌>>=◌, ◌>>◌}
use pro_rag.Prelude.Raise.{Outcome, raised, returned}
use pro_rag.Prelude.Table.{find_by, put_by, remove_by}
use pro_rag.Models.{Document, Chunk, Group, DocumentAcl, Acl}
use pro_rag.Retrieve.Hit.{Floats}
use pro_rag.Retrieve.Arms.{Engine, Corpus, is_ready}
use pro_rag.Admin.Fields.{Field, given, set_field}
use pro_rag.Admin.Grants.{insert_grants, revoke_grants}
pub mod Backed
pub mod Candidates
pub mod Lifecycle
pub mod Reach
mod Tests

pub data RuleState : Type 0 where
  draft confirmed : RuleState

pub record AccessRule (V : Type 0) : Type 0 where
  pub id : ℕ
  pub name : Text
  pub nl_query : Text
  pub group_id : ℕ
  pub state : RuleState
  pub query_embedding : Option V
  pub confirmed_at : Option ℕ

pub record AccessRuleCreate : Type 0 where
  pub name : Text
  pub nl_query : Text
  pub group_id : ℕ

pub record AccessRuleUpdate : Type 0 where
  pub name : Field Text
  pub nl_query : Field Text
  pub group_id : Field ℕ

abbrev pub is_draft : RuleState → Bool
is_draft draft = true
is_draft confirmed = false

abbrev pub has_group : List Group → ℕ → Bool
has_group groups id = any (λ (g : Group). g.id == id) groups

-- `body.group_id is not None and await session.get(Group, body.group_id) is None`
abbrev pub names_no_group : List Group → Field ℕ → Bool
names_no_group groups (given id) = not (has_group groups id)
names_no_group groups _ = false

module _ (fl : Floats) (eng : Engine fl) where
  abbrev pub Rule : Type 0
  Rule = AccessRule eng.Vector

  pub record Tables : Type 0 where
    pub rules : List Rule
    pub groups : List Group
    pub corpus : Corpus fl eng

  abbrev pub rule_key : Rule → ℕ
  rule_key r = r.id

  abbrev pub found_or_404 : Option Rule → Reply Rule
  found_or_404 none = refused 404
  found_or_404 (some r) = answer r

  pub get_rule : Tables → ℕ → Reply Rule
  get_rule db id = found_or_404 (find_by rule_key db.rules id)

  pub create_rule : Tables → ℕ → AccessRuleCreate → Reply Tables
  create_rule db new_id body =
      guard (has_group db.groups body.group_id) 404
      >> answer (record db {
        rules =
            db.rules
            ++ record {
              id = new_id;
              name = body.name;
              nl_query = body.nl_query;
              group_id = body.group_id;
              state = draft;
              query_embedding = none;
              confirmed_at = none;
            }
              ∷ [];
      })

  abbrev pub set_fields : Rule → AccessRuleUpdate → Reply Rule
  set_fields rule body = do
    name ← set_field rule.name body.name
    nl_query ← set_field rule.nl_query body.nl_query
    group_id ← set_field rule.group_id body.group_id
    answer (record rule { name = name; nl_query = nl_query; group_id = group_id })

  pub update_rule : Tables → ℕ → AccessRuleUpdate → Reply Tables
  unfolding get_rule
  update_rule db id body = do
    rule ← get_rule db id
    guard (is_draft rule.state) 400
    guard (not (names_no_group db.groups body.group_id)) 404
    changed ← set_fields rule body
    answer (record db { rules = put_by rule_key changed db.rules })

  abbrev pub with_acl : Tables → List DocumentAcl → Tables
  with_acl db rows = record db {
    corpus = record db.corpus { acl = record db.corpus.acl { document_acl = rows } };
  }

  pub delete_rule : Tables → ℕ → Reply Tables
  unfolding get_rule
  delete_rule db id = do
    rule ← get_rule db id
    answer (record (with_acl db (revoke_grants rule.id db.corpus.acl.document_acl)) {
      rules = remove_by rule_key rule.id db.rules;
    })

  -- The greater of the similarities of a document's chunks, if it has a chunk.
  abbrev pub max_of : Option fl.Score → fl.Score → Option fl.Score
  max_of none s = some s
  max_of (some t) s = some (if fl.le t s then s else t)

  abbrev pub best_similarity : List (Chunk eng.Vector fl.Score) → eng.Vector → ℕ → Option fl.Score
  best_similarity [] embedding doc = none
  best_similarity (c ∷ chunks) embedding doc =
      let best = best_similarity chunks embedding doc in
      if c.doc_id == doc
      then max_of best (fl.sub fl.one (eng.cosine_distance c.embedding embedding))
      else best

  abbrev pub clears : fl.Score → Option fl.Score → Bool
  clears floor none = false
  clears floor (some s) = fl.le floor s

  abbrev pub sort_key : Option fl.Score → fl.Score
  sort_key none = fl.zero
  sort_key (some s) = s

  -- `_rule_candidates`: the documents of the result, in its order
  pub rule_candidates : Corpus fl eng → fl.Score → eng.Vector → List Document
  rule_candidates db floor embedding =
      eng.order_by_desc (λ (d : Document). sort_key (best_similarity db.chunks embedding d.id))
        (filter
          (λ (d : Document).
            is_ready d.status && clears floor (best_similarity db.chunks embedding d.id))
          db.documents)

  abbrev pub ids_of : List Document → List ℕ
  ids_of = map (λ (d : Document). d.id)

  -- `embed_texts([rule.nl_query])`; `none` is an exception, or a number of vectors that is not one.
  abbrev pub embedded_or_500 : Option eng.Vector → Reply eng.Vector
  embedded_or_500 none = refused 500
  embedded_or_500 (some v) = answer v

  -- The count and the first ten.
  pub preview_rule : Tables → fl.Score → (Text → Option eng.Vector) → ℕ → Reply (ℕ × List Document)
  unfolding get_rule rule_candidates
  preview_rule db floor embed id = do
    rule ← get_rule db id
    embedding ← embedded_or_500 (embed rule.nl_query)
    let rows = rule_candidates db.corpus floor embedding
    answer (length rows, take 10 rows)

  pub confirm_rule : Tables → fl.Score → (Text → Option eng.Vector) → ℕ → ℕ → Reply Tables
  unfolding get_rule rule_candidates
  confirm_rule db floor embed now id = do
    rule ← get_rule db id
    guard (is_draft rule.state) 400
    embedding ← embedded_or_500 (embed rule.nl_query)
    answer
        (record (with_acl db (
          insert_grants rule.group_id rule.id (ids_of (rule_candidates db.corpus floor embedding))
            db.corpus.acl.document_acl)) {
              rules =
                  put_by rule_key
                    (record rule {
                      state = confirmed;
                      query_embedding = some embedding;
                      confirmed_at = some now;
                    })
                    db.rules;
            })

  -- A comparison that raises ends the loop, and what was granted before it stays.
  abbrev pub admit_rest :
      Outcome Bool
      → ℕ
      → Rule
      → (List DocumentAcl → List DocumentAcl)
      → List DocumentAcl
      → List DocumentAcl
  admit_rest (raised e) doc rule rest acl = acl
  admit_rest (returned true) doc rule rest acl =
      rest (insert_grants rule.group_id rule.id (doc ∷ []) acl)
  admit_rest (returned false) doc rule rest acl = rest acl

  -- Of a rule that the query does not return nothing is compared.
  abbrev pub compared : (eng.Vector → Outcome Bool) → Rule → Outcome Bool
  compared matches rule = elim rule.query_embedding [
    | none ↦ returned false
    | some v ↦ if is_draft rule.state then returned false else matches v
  ]

  -- `_apply_confirmed_rules`, where `matches` is the comparison of a stored embedding with the
  -- document's chunks.
  pub apply_confirmed_rules :
      (eng.Vector → Outcome Bool) → ℕ → List Rule → List DocumentAcl → List DocumentAcl
  apply_confirmed_rules matches doc [] acl = acl
  apply_confirmed_rules matches doc (r ∷ rules) acl =
      admit_rest (compared matches r) doc r (apply_confirmed_rules matches doc rules) acl
