-- ===== src/Admin/Rules/Reach.antt =====
-- Every state that the rule routes and the auto-admission reach backs each grant by its rule.
use pro_rag.Prelude.{
  ℕ, ◌≡◌, ◌≢◌, refl, sym, ap, ◌∙◌, subst, Bool, not, Option, none, some, List, [], ◌∷◌, ◌++◌, All,
  All-append, Text,
}
use pro_rag.Prelude.Reply.{Reply, answer, guard, ◌>>=◌, ◌>>◌, >>=-eq-answer, answer-injective}
use pro_rag.Prelude.Raise.{Outcome}
use pro_rag.Models.{DocumentAcl, by_hand, by_rule, Group}
use pro_rag.Retrieve.Hit.{Floats}
use pro_rag.Retrieve.Arms.{Engine, Corpus}
use pro_rag.Admin.Grants.{revoke_grants}
use pro_rag.Admin.Grants.Revoke.{All-insert_grants}
use pro_rag.Prelude.Table.{
  find_by, put_by, remove_by, find_by-key, find_by-put, Keyed, Keyed-snoc, Keyed-put, Keyed-remove,
}
use pro_rag.Admin.Rules.Backed.{
  Backed, grant-Backed, put-Backed, set_fields-keeps, apply_confirmed_rules-Backed, append-Backed,
  remove-Backed,
}
use pro_rag.Admin.Rules.Lifecycle.{draft_of, confirm_rule-Confirmed, found_of}
use pro_rag.Admin.Rules.{
  Rule, Tables, draft, confirmed, is_draft, found_or_404, get_rule, rule_key, with_acl, ids_of,
  rule_candidates, create_rule, update_rule, confirm_rule, delete_rule, apply_confirmed_rules,
  AccessRuleCreate, AccessRuleUpdate, set_fields, has_group, names_no_group,
}

module _ (fl : Floats) (eng : Engine fl) where
  abbrev pub Sound : Tables fl eng → Type 0
  Sound db =
      Keyed (rule_key fl eng) db.rules × All (Backed fl eng db.rules) db.corpus.acl.document_acl

  -- A request that succeeds, or a write of another part of the program.
  pub data Step : Tables fl eng → Tables fl eng → Type 0 where
    created :
        {db db' : Tables fl eng} (new_id : ℕ) (body : AccessRuleCreate)
        → find_by (rule_key fl eng) db.rules new_id ≡ none
        → create_rule fl eng db new_id body ≡ answer db'
        → Step db db'
    updated :
        {db db' : Tables fl eng} (id : ℕ) (body : AccessRuleUpdate)
        → update_rule fl eng db id body ≡ answer db'
        → Step db db'
    deleted :
        {db db' : Tables fl eng} (id : ℕ) → delete_rule fl eng db id ≡ answer db' → Step db db'
    confirmed_rule :
        {db db' : Tables fl eng} (floor : fl.Score) (embed : Text → Option eng.Vector) (now id : ℕ)
        → confirm_rule fl eng db floor embed now id ≡ answer db'
        → Step db db'
    admitted :
        {db : Tables fl eng} (matches : eng.Vector → Outcome Bool) (doc : ℕ)
        → Step db (
            with_acl fl eng db
              (apply_confirmed_rules fl eng matches doc db.rules db.corpus.acl.document_acl))
    -- the grants and groups that other code writes, and the documents
    granted_by_hand :
        {db : Tables fl eng} (a : DocumentAcl)
        → a.source ≡ by_hand
        → Step db (with_acl fl eng db (db.corpus.acl.document_acl ++ a ∷ []))
    elsewhere :
        {db : Tables fl eng} (groups : List Group) (corpus : Corpus fl eng)
        → corpus.acl.document_acl ≡ db.corpus.acl.document_acl
        → Step db (record db { groups = groups; corpus = corpus })

  pub data Reachable (start : Tables fl eng) : Tables fl eng → Type 0 where
    begin : Reachable start start
    step : {db db' : Tables fl eng} → Reachable start db → Step db db' → Reachable start db'

  create_rule-Sound :
      (db : Tables fl eng) (new_id : ℕ) (body : AccessRuleCreate) {db' : Tables fl eng}
      → find_by (rule_key fl eng) db.rules new_id ≡ none
      → create_rule fl eng db new_id body ≡ answer db'
      → Sound db
      → Sound db'
  unfolding create_rule
  create_rule-Sound db new_id body {db' = db'} fresh h (keyed, backed) =
      let new : Rule fl eng = record {
        id = new_id;
        name = body.name;
        nl_query = body.nl_query;
        group_id = body.group_id;
        state = draft;
        query_embedding = none;
        confirmed_at = none;
      } in
      let db1 : Tables fl eng = record db { rules = db.rules ++ new ∷ [] } in
      let (_, _, h1) =
        >>=-eq-answer (guard (has_group db.groups body.group_id) 404) (λ _. answer db1) h in
      let same : db1 ≡ db' = answer-injective h1 in
      subst Sound same (
        Keyed-snoc (rule_key fl eng) db.rules new fresh keyed,
        append-Backed fl eng db.rules new db.corpus.acl.document_acl backed,
      )

  update_rule-Sound :
      (db : Tables fl eng) (id : ℕ) (body : AccessRuleUpdate) {db' : Tables fl eng}
      → update_rule fl eng db id body ≡ answer db'
      → Sound db
      → Sound db'
  unfolding update_rule get_rule
  update_rule-Sound db id body h (keyed, backed) =
      let (rule, found, h1) =
        >>=-eq-answer (found_or_404 fl eng (find_by (rule_key fl eng) db.rules id)) guarded h in
      let (_, ok, h2) = >>=-eq-answer (guard (is_draft rule.state) 400) (λ _. checked rule) h1 in
      let (_, _, h3) =
        >>=-eq-answer (guard (not (names_no_group db.groups body.group_id)) 404) (λ _. written rule)
          h2 in
      let (changed, set, h4) = >>=-eq-answer (set_fields fl eng rule body) put h3 in
      let there : find_by (rule_key fl eng) db.rules id ≡ some rule =
        found_of fl eng (find_by (rule_key fl eng) db.rules id) found in
      let own : changed.id ≡ id =
        set_fields-keeps fl eng rule body set ∙ find_by-key (rule_key fl eng) db.rules id there in
      subst Sound (answer-injective h4) (
        Keyed-put (rule_key fl eng) db.rules changed
            (ap (find_by (rule_key fl eng) db.rules) own ∙ there) keyed,
        put-Backed fl eng db.rules id changed db.corpus.acl.document_acl there
            (draft_of rule.state 400 ok) own backed,
      )
    where
      put : Rule fl eng → Reply (Tables fl eng)
      put changed = answer (record db { rules = put_by (rule_key fl eng) changed db.rules })

      written : Rule fl eng → Reply (Tables fl eng)
      written rule = set_fields fl eng rule body >>= put

      checked : Rule fl eng → Reply (Tables fl eng)
      checked rule = guard (not (names_no_group db.groups body.group_id)) 404 >> written rule

      guarded : Rule fl eng → Reply (Tables fl eng)
      guarded rule = guard (is_draft rule.state) 400 >> checked rule

  delete_rule-Sound :
      (db : Tables fl eng) (id : ℕ) {db' : Tables fl eng}
      → delete_rule fl eng db id ≡ answer db'
      → Sound db
      → Sound db'
  unfolding delete_rule get_rule
  delete_rule-Sound db id h (keyed, backed) =
      let (rule, _, h1) =
        >>=-eq-answer (found_or_404 fl eng (find_by (rule_key fl eng) db.rules id)) removed h in
      subst Sound (answer-injective h1) (
        Keyed-remove (rule_key fl eng) db.rules rule.id keyed,
        remove-Backed fl eng db.rules rule.id db.corpus.acl.document_acl backed,
      )
    where
      removed : Rule fl eng → Reply (Tables fl eng)
      removed rule =
          answer (record (with_acl fl eng db (revoke_grants rule.id db.corpus.acl.document_acl)) {
            rules = remove_by (rule_key fl eng) rule.id db.rules;
          })

  confirm_rule-Sound :
      (db : Tables fl eng) (floor : fl.Score) (embed : Text → Option eng.Vector) (now id : ℕ)
      {db' : Tables fl eng}
      → confirm_rule fl eng db floor embed now id ≡ answer db'
      → Sound db
      → Sound db'
  confirm_rule-Sound db floor embed now id h (keyed, backed) =
      let (rule, v, there, is_new, _, e) = confirm_rule-Confirmed fl eng db floor embed now id h in
      let changed : Rule fl eng = record rule {
        state = confirmed;
        query_embedding = some v;
        confirmed_at = some now;
      } in
      let own : changed.id ≡ id = find_by-key (rule_key fl eng) db.rules id there in
      let there_own : find_by (rule_key fl eng) db.rules changed.id ≡ some rule =
        ap (find_by (rule_key fl eng) db.rules) own ∙ there in
      let rules : List (Rule fl eng) = put_by (rule_key fl eng) changed db.rules in
      let doc_ids : List ℕ = ids_of fl eng (rule_candidates fl eng db.corpus floor v) in
      subst Sound (sym e) (
        Keyed-put (rule_key fl eng) db.rules changed there_own keyed,
        All-insert_grants (Backed fl eng rules) rule.group_id rule.id doc_ids
            db.corpus.acl.document_acl
            (λ d.
              grant-Backed fl eng rules changed d
                (find_by-put (rule_key fl eng) db.rules changed.id changed there_own refl) refl)
            (put-Backed fl eng db.rules id changed db.corpus.acl.document_acl there is_new own
              backed),
      )

  pub Step-Sound : {db db' : Tables fl eng} → Step db db' → Sound db → Sound db'
  Step-Sound {db = db} (created new_id body fresh h) s = create_rule-Sound db new_id body fresh h s
  Step-Sound {db = db} (updated id body h) s = update_rule-Sound db id body h s
  Step-Sound {db = db} (deleted id h) s = delete_rule-Sound db id h s
  Step-Sound {db = db} (confirmed_rule floor embed now id h) s =
      confirm_rule-Sound db floor embed now id h s
  Step-Sound {db = db} (admitted matches doc) s = (
    s.0,
    apply_confirmed_rules-Backed fl eng db.rules matches doc db.rules db.corpus.acl.document_acl s.0
        s.1,
  )
  Step-Sound {db = db} (granted_by_hand a e) s = (
    s.0,
    All-append (Backed fl eng db.rules) db.corpus.acl.document_acl (a ∷ []) s.1
        ((λ id k. absurd (apart (sym e ∙ k))), tt),
  )
    where
      apart : {id : ℕ} → by_hand ≢ by_rule id
      apart k = cc
  Step-Sound {db = db} (elsewhere groups corpus e) s =
      (s.0, subst (All (Backed fl eng db.rules)) (sym e) s.1)

  -- In every state that is reached from a sound one, each grant that carries a rule's tag belongs to
  -- a rule on record that is confirmed, and names that rule's group.
  pub Reachable-Sound : {start db : Tables fl eng} → Sound start → Reachable start db → Sound db
  Reachable-Sound s begin = s
  Reachable-Sound s (step r one) = Step-Sound one (Reachable-Sound s r)
