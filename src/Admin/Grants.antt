-- ===== src/Admin/Grants.antt =====
-- The grants that rules write and revoke: the statements on `document_acl` of
-- prorag/admin/router.py and of the auto-admission of prorag/ingest/core.py.
use pro_rag.Prelude.{
  ℕ, Bool, true, false, not, ◌&&◌, Option, some, List, ◌++◌, map, ◌==◌, filter, any,
}
use pro_rag.Models.{
  PrincipalType, public, user, group, AclSource, by_hand, by_rule, DocumentAcl, Acl,
}
use pro_rag.Retrieve.Visibility.{is_id}
pub mod Effect
pub mod Revoke

-- `source = 'rule:{id}'`
abbrev pub is_rule : ℕ → AclSource → Bool
is_rule rule by_hand = false
is_rule rule (by_rule r) = r == rule

abbrev pub is_group : PrincipalType → Bool
is_group public = false
is_group user = false
is_group group = true

abbrev pub grant : ℕ → ℕ → ℕ → DocumentAcl
grant group_id rule doc_id = record {
  doc_id = doc_id;
  principal_type = group;
  principal_id = some group_id;
  source = by_rule rule;
}

-- The row that the NOT EXISTS looks for.
abbrev pub is_grant : ℕ → ℕ → ℕ → DocumentAcl → Bool
is_grant group_id rule doc_id a =
    a.doc_id == doc_id
    && is_group a.principal_type
    && is_id group_id a.principal_id
    && is_rule rule a.source

-- `INSERT INTO document_acl SELECT ... WHERE NOT EXISTS`: one statement, which reads the rows as
-- they were before it.
pub insert_grants : ℕ → ℕ → List ℕ → List DocumentAcl → List DocumentAcl
insert_grants group_id rule doc_ids acl =
    acl
    ++ map (grant group_id rule) (filter (λ d. not (any (is_grant group_id rule d) acl)) doc_ids)

-- `DELETE FROM document_acl WHERE source = 'rule:{id}'`
pub revoke_grants : ℕ → List DocumentAcl → List DocumentAcl
revoke_grants rule = filter (λ (a : DocumentAcl). not (is_rule rule a.source))
