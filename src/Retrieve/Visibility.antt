-- ===== src/Retrieve/Visibility.antt =====
-- Who sees which document: prorag/retrieve/visibility.py.
use pro_rag.Prelude.{ℕ, Bool, true, false, ◌&&◌, Option, none, some, List, ◌==◌, if◌then◌else◌, any}
use pro_rag.Models.{Document, User, UserGroup, public, user, group, DocumentAcl, Acl}

-- `user_id = :id` on a column that may be NULL, which is then not true.
abbrev pub is_id : ℕ → Option ℕ → Bool
is_id n o = elim o [ none ↦ false | some m ↦ m == n ]

-- `principal_id IN (SELECT group_id FROM user_groups WHERE user_id = :id)`
unfoldable pub in_groups_of : Acl → ℕ → Option ℕ → Bool
in_groups_of acl uid p =
    any (λ (m : UserGroup). m.user_id == uid && is_id m.group_id p) acl.user_groups

-- The condition on one row of `document_acl`.
unfoldable pub admits : Acl → User → DocumentAcl → Bool
admits acl u a = elim a.principal_type [
  | public ↦ true
  | user ↦ is_id u.id a.principal_id
  | group ↦ in_groups_of acl u.id a.principal_id
]

-- The EXISTS over `document_acl`.
unfoldable pub granted : Acl → User → ℕ → Bool
granted acl u doc = any (λ a. a.doc_id == doc && admits acl u a) acl.document_acl

-- `none` is "no filtering".
unfoldable pub visibility_clause : Acl → Option User → Option (ℕ → Bool)
visibility_clause acl none = none
visibility_clause acl (some u) = if u.is_admin then none else some (granted acl u)

-- `if clause is not None: stmt = stmt.where(clause)`
abbrev pub where_clause : Option (ℕ → Bool) → ℕ → Bool
where_clause clause doc = elim clause [ none ↦ true | some test ↦ test doc ]

unfoldable pub sees : Acl → Option User → ℕ → Bool
sees acl u doc = where_clause (visibility_clause acl u) doc

unfoldable pub visible_doc_guard : List Document → Acl → Option User → ℕ → Bool
visible_doc_guard documents acl u doc =
    any (λ (d : Document). d.id == doc && where_clause (visibility_clause acl u) d.id) documents
