-- ===== src/Admin/Rules/Backed.antt =====
-- A grant backed by its rule, and what keeps it so.
use pro_rag.Prelude.{
  ℕ, ◌≡◌, ◌≢◌, refl, sym, ap, ◌∙◌, Bool, true, false, Option, none, some, List, [], ◌∷◌, ◌++◌, All,
  All-map_imp, if◌then◌else◌, Text,
}
use pro_rag.Prelude.Reply.{Reply, answer, ◌>>=◌, >>=-eq-answer, answer-injective}
use pro_rag.Prelude.Raise.{Outcome, raised, returned, returned-injective}
use pro_rag.Models.{DocumentAcl, AclSource, by_hand, by_rule, group}
use pro_rag.Retrieve.Hit.{Floats}
use pro_rag.Retrieve.Arms.{Engine}
use pro_rag.Admin.Grants.{grant, insert_grants, revoke_grants}
use pro_rag.Admin.Grants.Revoke.{All-insert_grants, All-revoke_grants}
use pro_rag.Prelude.Table.{
  find_by, put_by, remove_by, find_by-put_other, find_by-remove_other, find_by-append,
}
use pro_rag.Admin.Fields.{set_field}
use pro_rag.Admin.Rules.{
  Rule, RuleState, draft, confirmed, is_draft, rule_key, admit_rest, compared,
  apply_confirmed_rules, AccessRuleUpdate, set_fields,
}

module _ (fl : Floats) (eng : Engine fl) where
  -- A grant that carries a rule's tag: the rule is on record and confirmed, and its group is whom
  -- the row names.
  abbrev pub Backed : List (Rule fl eng) → DocumentAcl → Type 0
  Backed rules a =
      (id : ℕ)
      → a.source ≡ by_rule id
      → (rule : Rule fl eng) × (find_by (rule_key fl eng) rules id ≡ some rule)
        × (rule.state ≡ confirmed)
        × (a.principal_type ≡ group)
        × (a.principal_id ≡ some rule.group_id)

  -- Rules that are found, with their state and group, are found again.
  Backed-found :
      (rules rules' : List (Rule fl eng)) (a : DocumentAcl)
      → ((id : ℕ) (rule : Rule fl eng)
          → a.source ≡ by_rule id
          → find_by (rule_key fl eng) rules id ≡ some rule
          → rule.state ≡ confirmed
          → find_by (rule_key fl eng) rules' id ≡ some rule)
      → Backed rules a
      → Backed rules' a
  Backed-found rules rules' a f h id e =
      let (rule, there, ok, t, p) = h id e in (rule, f id rule e there ok, ok, t, p)

  pub grant-Backed :
      (rules : List (Rule fl eng)) (rule : Rule fl eng) (doc : ℕ)
      → find_by (rule_key fl eng) rules rule.id ≡ some rule
      → rule.state ≡ confirmed
      → Backed rules (grant rule.group_id rule.id doc)
  grant-Backed rules rule doc there ok id e =
      let same : rule.id ≡ id = ap (λ (s : AclSource). elim s [ by_hand ↦ id | by_rule n ↦ n ]) e in
      (rule, ap (find_by (rule_key fl eng) rules) (sym same) ∙ there, ok, refl, refl)

  -- A draft differs from every confirmed rule, so a changed draft leaves the grants backed.
  pub put-Backed :
      (rules : List (Rule fl eng)) (id : ℕ) {rule : Rule fl eng} (changed : Rule fl eng)
      (rows : List DocumentAcl)
      → find_by (rule_key fl eng) rules id ≡ some rule
      → rule.state ≡ draft
      → changed.id ≡ id
      → All (Backed rules) rows
      → All (Backed (put_by (rule_key fl eng) changed rules)) rows
  put-Backed rules id {rule = rule} changed rows there is_new same h =
      All-map_imp
        (λ a. Backed-found rules (put_by (rule_key fl eng) changed rules) a (λ other q e found ok.
          find_by-put_other (rule_key fl eng) rules other changed (λ k.
            let one : some rule ≡ some q =
              sym there ∙ ap (find_by (rule_key fl eng) rules) (sym same ∙ k) ∙ found in
            let state : rule.state ≡ q.state =
              ap (λ (o : Option (Rule fl eng)). elim o [ none ↦ draft | some r ↦ r.state ]) one in
            absurd (apart (sym is_new ∙ state ∙ ok)))
          ∙ found))
        rows h
    where
      apart : draft ≢ confirmed
      apart e = cc

  pub set_fields-keeps :
      (rule : Rule fl eng) (body : AccessRuleUpdate) {changed : Rule fl eng}
      → set_fields fl eng rule body ≡ answer changed
      → changed.id ≡ rule.id
  set_fields-keeps rule body h =
      let (name, _, h1) = >>=-eq-answer (set_field rule.name body.name) (with_name) h in
      let (nl_query, _, h2) =
        >>=-eq-answer (set_field rule.nl_query body.nl_query) (with_query name) h1 in
      let (group_id, _, h3) =
        >>=-eq-answer (set_field rule.group_id body.group_id) (with_group name nl_query) h2 in
      ap (λ (r : Rule fl eng). r.id) (sym (answer-injective h3))
    where
      with_group : Text → Text → ℕ → Reply (Rule fl eng)
      with_group name nl_query group_id =
          answer (record rule { name = name; nl_query = nl_query; group_id = group_id })

      with_query : Text → Text → Reply (Rule fl eng)
      with_query name nl_query = set_field rule.group_id body.group_id >>= with_group name nl_query

      with_name : Text → Reply (Rule fl eng)
      with_name name = set_field rule.nl_query body.nl_query >>= with_query name

  -- Only a confirmed rule matches.
  confirmed_of :
      (matches : eng.Vector → Outcome Bool) (rule : Rule fl eng)
      → compared fl eng matches rule ≡ returned true
      → rule.state ≡ confirmed
  confirmed_of matches rule e = with_embedding rule.query_embedding rule.state e
    where
      with_embedding :
          (o : Option eng.Vector) (s : RuleState)
          → (elim o [
            | none ↦ returned false
            | some v ↦ if is_draft s then returned false else matches v
          ])
            ≡ returned true
          → s ≡ confirmed
      with_embedding none s k = absurd (let no = returned-injective k in cc)
      with_embedding (some v) draft k = absurd (let no = returned-injective k in cc)
      with_embedding (some v) confirmed k = refl

  admit_rest-Backed :
      (rules : List (Rule fl eng)) (o : Outcome Bool) (doc : ℕ) (rule : Rule fl eng)
      (rest : List DocumentAcl → List DocumentAcl) (rows : List DocumentAcl)
      → find_by (rule_key fl eng) rules rule.id ≡ some rule
      → (o ≡ returned true → rule.state ≡ confirmed)
      → ((acl : List DocumentAcl) → All (Backed rules) acl → All (Backed rules) (rest acl))
      → All (Backed rules) rows
      → All (Backed rules) (admit_rest fl eng o doc rule rest rows)
  admit_rest-Backed rules (raised e) doc rule rest rows there ok keeps h = h
  admit_rest-Backed rules (returned true) doc rule rest rows there ok keeps h =
      keeps (insert_grants rule.group_id rule.id (doc ∷ []) rows) (
        All-insert_grants (Backed rules) rule.group_id rule.id (doc ∷ []) rows
          (λ d. grant-Backed rules rule d there (ok refl)) h)
  admit_rest-Backed rules (returned false) doc rule rest rows there ok keeps h = keeps rows h

  pub apply_confirmed_rules-Backed :
      (rules : List (Rule fl eng)) (matches : eng.Vector → Outcome Bool) (doc : ℕ)
      (todo : List (Rule fl eng)) (rows : List DocumentAcl)
      → All (λ (r : Rule fl eng). find_by (rule_key fl eng) rules r.id ≡ some r) todo
      → All (Backed rules) rows
      → All (Backed rules) (apply_confirmed_rules fl eng matches doc todo rows)
  unfolding apply_confirmed_rules
  apply_confirmed_rules-Backed rules matches doc [] rows found h = h
  apply_confirmed_rules-Backed rules matches doc (r ∷ todo) rows found h =
      admit_rest-Backed rules (compared fl eng matches r) doc r
        (apply_confirmed_rules fl eng matches doc todo) rows found.0 (confirmed_of matches r)
        (λ acl k. apply_confirmed_rules-Backed rules matches doc todo acl found.1 k) h

  pub append-Backed :
      (rules : List (Rule fl eng)) (new : Rule fl eng) (rows : List DocumentAcl)
      → All (Backed rules) rows
      → All (Backed (rules ++ new ∷ [])) rows
  append-Backed rules new rows h =
      All-map_imp
        (λ a.
          Backed-found rules (rules ++ new ∷ []) a
            (λ id q e found ok. find_by-append (rule_key fl eng) rules (new ∷ []) id found))
        rows h

  pub remove-Backed :
      (rules : List (Rule fl eng)) (gone : ℕ) (rows : List DocumentAcl)
      → All (Backed rules) rows
      → All (Backed (remove_by (rule_key fl eng) gone rules)) (revoke_grants gone rows)
  remove-Backed rules gone rows h =
      All-revoke_grants (Backed rules) (Backed (remove_by (rule_key fl eng) gone rules)) gone rows
        (λ a b other.
          Backed-found rules (remove_by (rule_key fl eng) gone rules) a
            (λ id q e found ok.
              find_by-remove_other (rule_key fl eng) rules gone id
                (λ k. other (e ∙ ap (λ n. by_rule n) (sym k)))
              ∙ found)
            b)
        h
