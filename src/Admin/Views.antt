-- ===== src/Admin/Views.antt =====
-- The admin's listings, which only read: prorag/admin/router.py. `newest_first` is the database's
-- ORDER BY created_at DESC.
use pro_rag.Prelude.{
  ℕ, ◌+◌, ◌-◌, ◌*◌, Bool, true, false, not, ◌&&◌, Option, none, some, List, [], ◌∷◌, ◌++◌, map,
  ◌==◌, if◌then◌else◌, filter, any, take, drop, length, flatten, leb, Text, same_text,
}
use pro_rag.Prelude.Reply.{Reply, refused, answer, guard, ◌>>=◌, ◌>>◌, or_404}
use pro_rag.Prelude.Table.{find_by}
use pro_rag.Prelude.Words.{codes, is_empty}
use pro_rag.Models.{
  Document, Status, pending, processing, ready, failed, User, Group, UserGroup, DocumentAcl,
  PrincipalType, public, user, group, Acl, AclSource, by_hand, by_rule,
}
use pro_rag.Retrieve.Arms.{is_ready}
use pro_rag.Retrieve.Visibility.{visibility_clause, where_clause, is_id}
use pro_rag.Admin.Grants.{is_rule, is_group}
use pro_rag.Admin.Groups.{user_key, group_key}
pub mod Pages
mod Tests

-- `.limit(limit).offset(offset)`
abbrev pub window : {A : Type 0} → ℕ → ℕ → List A → List A
window limit offset rows = take limit (drop offset rows)

-- What a listing answers: the page, and how many rows there are in all.
pub record Listing (A : Type 0) : Type 0 where
  pub items : List A
  pub total : ℕ

module _ (newest_first : List Document → List Document) where
  abbrev pub visible_to : List Document → Acl → User → List Document
  visible_to documents acl target =
      filter
        (λ (d : Document).
          is_ready d.status && where_clause (visibility_clause acl (some target)) d.id)
        documents

  -- `limit` is bound by the route; its offset is a number that is not negative.
  pub user_visible_docs : List User → List Document → Acl → ℕ → ℕ → ℕ → Reply (Listing Document)
  user_visible_docs users documents acl user_id limit offset =
      guard (leb 1 limit && leb limit 200) 422
      >> (or_404 (find_by user_key users user_id) >>= λ target. answer (record {
        items = window limit offset (newest_first (visible_to documents acl target));
        total = length (visible_to documents acl target);
      }))

-- The columns of `connector_items` and `connectors` that a listing reads.
pub record Linked : Type 0 where
  pub doc_id : Option ℕ
  pub connector_name : Text

abbrev pub status_name : Status → Text
status_name pending = codes "pending"
status_name processing = codes "processing"
status_name ready = codes "ready"
status_name failed = codes "failed"

-- The query of a listing; a parameter that is left out, or empty, is no condition.
pub record DocumentQuery : Type 0 where
  pub page : ℕ
  pub page_size : ℕ
  pub status : Option Text
  pub collection : Option Text
  pub label : Option Text
  pub source : Option Text
  pub q : Option Text

abbrev pub when_given : Option Text → (Text → Bool) → Bool
when_given none test = true
when_given (some t) test = if is_empty t then true else test t

-- The names of the groups that a document is granted to, by the join on `groups`.
abbrev group_names : List Group → Option ℕ → List Text
group_names groups id = map (λ (g : Group). g.name) (filter (λ (g : Group). is_id g.id id) groups)

abbrev pub labels_of : List Group → Acl → ℕ → List Text
labels_of groups acl doc = flatten (
    map (λ (a : DocumentAcl). group_names groups a.principal_id)
      (filter (λ (a : DocumentAcl). a.doc_id == doc && is_group a.principal_type) acl.document_acl))

abbrev pub connectors_of : List Linked → ℕ → List Text
connectors_of links doc =
    map (λ (l : Linked). l.connector_name) (filter (λ (l : Linked). is_id doc l.doc_id) links)

-- `dict(rows).get(key)`: the last row of a key.
abbrev last_of : {A : Type 0} → List A → Option A
last_of [] = none
last_of (x ∷ []) = some x
last_of (x ∷ y ∷ xs) = last_of (y ∷ xs)

pub record DocumentItem : Type 0 where
  pub document : Document
  pub labels : List Text
  pub connector : Option Text

module _ (newest_first : List Document → List Document) (ilike : Text → Text → Bool) where
  abbrev pub meets : DocumentQuery → List Group → Acl → List Linked → Document → Bool
  meets query groups acl links d =
      when_given query.status (same_text (status_name d.status))
      && when_given query.collection (same_text d.collection)
      && when_given query.q (ilike d.filename)
      && when_given query.label (λ label. any (same_text label) (labels_of groups acl d.id))
      && when_given query.source (λ source. any (same_text source) (connectors_of links d.id))

  pub list_documents :
      DocumentQuery → List Document → List Group → Acl → List Linked → Listing DocumentItem
  list_documents query documents groups acl links =
      let rows = filter (meets query groups acl links) documents in
      record {
        items =
            map
              (λ (d : Document). record {
                document = d;
                labels = labels_of groups acl d.id;
                connector = last_of (connectors_of links d.id);
              })
              (window query.page_size ((query.page - 1) * query.page_size) (newest_first rows));
        total = length rows;
      }

-- One row of `GET /admin/documents/{doc_id}/access`.
pub record AccessItem : Type 0 where
  pub grant : DocumentAcl
  pub principal_name : Option Text
  pub rule_id : Option ℕ
  pub rule_name : Option Text

abbrev name_in : List (ℕ × Text) → ℕ → Option Text
name_in [] id = none
name_in (n ∷ names) id = if n.0 == id then some n.1 else name_in names id

abbrev name_if : List (ℕ × Text) → Option ℕ → Option Text
name_if names none = none
name_if names (some id) = name_in names id

abbrev rule_of : AclSource → Option ℕ
rule_of by_hand = none
rule_of (by_rule id) = some id

-- `oldest_first` is ORDER BY created_at; the names are of the users and the rules by their ids.
pub document_access :
    (List DocumentAcl → List DocumentAcl)
    → List Document
    → Acl
    → List Group
    → List (ℕ × Text)
    → List (ℕ × Text)
    → ℕ
    → Reply (List AccessItem)
document_access oldest_first documents acl groups user_emails rule_names doc_id =
    or_404 (find_by (λ (d : Document). d.id) documents doc_id) >>= λ doc. answer (
      map
        (λ (a : DocumentAcl). record {
          grant = a;
          principal_name = elim a.principal_type [
            | public ↦ none
            | user ↦ name_if user_emails a.principal_id
            | group ↦ name_if (map (λ (g : Group). (g.id, g.name)) groups) a.principal_id
          ];
          rule_id = rule_of a.source;
          rule_name = name_if rule_names (rule_of a.source);
        })
        (oldest_first (filter (λ (a : DocumentAcl). a.doc_id == doc_id) acl.document_acl)))

-- `GET /admin/rules/{rule_id}/grants`, once the rule is found: the join keeps rows of documents on
-- record, and the total counts every row.
pub rule_grants :
    (List DocumentAcl → List DocumentAcl) → List Document → Acl → ℕ → ℕ → ℕ → Listing DocumentAcl
rule_grants newest_first documents acl rule_id limit offset =
    let rows = filter (λ (a : DocumentAcl). is_rule rule_id a.source) acl.document_acl in
    record {
      items = window limit offset (
          newest_first (
            filter (λ (a : DocumentAcl). any (λ (d : Document). d.id == a.doc_id) documents) rows));
      total = length rows;
    }
