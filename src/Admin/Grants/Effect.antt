-- ===== src/Admin/Grants/Effect.antt =====
-- What a rule's grants and their revocation do to who sees what.
use pro_rag.Prelude.{
  ℕ, ◌≡◌, refl, ap, ◌∙◌, inl, inr, Bool, true, not, ◌&&◌, ◌||◌, Option, none, some, List, [], ◌∷◌,
  map, arith, ◌==◌, ==_iff, filter, any, any-append, Bool-cases,
}
use pro_rag.Models.{User, DocumentAcl, Acl, PrincipalType, public, user, group}
use pro_rag.Retrieve.Visibility.{is_id, in_groups_of, admits, granted}
use pro_rag.Admin.Grants.{is_group, grant, is_grant, insert_grants}

abbrev pub has : List ℕ → ℕ → Bool
has xs d = any (λ x. x == d) xs

-- The acl with other rows.
abbrev pub with_rows : Acl → List DocumentAcl → Acl
with_rows acl rows = record acl { document_acl = rows }

module _ (acl : Acl) (u : User) (doc : ℕ) where
  -- The test of `granted` on one row.
  abbrev lets_in : DocumentAcl → Bool
  lets_in a = a.doc_id == doc && admits acl u a

  any-grant :
      (group_id rule : ℕ) (doc_ids : List ℕ)
      → any lets_in (map (grant group_id rule) doc_ids)
        ≡ has doc_ids doc && in_groups_of acl u.id (some group_id)
  unfolding admits
  any-grant group_id rule [] = refl
  any-grant group_id rule (d ∷ doc_ids) = ground (arith, any-grant group_id rule doc_ids)

  admits_grant :
      (group_id : ℕ) (a : DocumentAcl)
      → is_group a.principal_type ≡ true
      → is_id group_id a.principal_id ≡ true
      → admits acl u a ≡ in_groups_of acl u.id (some group_id)
  unfolding admits
  admits_grant group_id a t p = by_type a.principal_type t
    where
      principal : (o : Option ℕ) → is_id group_id o ≡ true → o ≡ some group_id
      principal none e = cc
      principal (some m) e = ap (λ n. some n) ((==_iff m group_id).0 e)

      by_type :
          (k : PrincipalType)
          → is_group k ≡ true
          → (elim k [
            | public ↦ true
            | user ↦ is_id u.id a.principal_id
            | group ↦ in_groups_of acl u.id a.principal_id
          ])
            ≡ in_groups_of acl u.id (some group_id)
      by_type public e = cc
      by_type user e = cc
      by_type group e = ap (in_groups_of acl u.id) (principal a.principal_id p)

  -- A document that the NOT EXISTS leaves out lets the group in already.
  lets_in_already :
      (group_id rule : ℕ) (rows : List DocumentAcl)
      → any (is_grant group_id rule doc) rows ≡ true
      → in_groups_of acl u.id (some group_id) ≡ true
      → any lets_in rows ≡ true
  lets_in_already group_id rule [] h g = absurd (ground (arith, h))
  lets_in_already group_id rule (a ∷ rows) h g =
      ground (arith, h, g, admits_grant group_id a, lets_in_already group_id rule rows)

  has-filter : (p : ℕ → Bool) (xs : List ℕ) → has (filter p xs) doc ≡ has xs doc && p doc
  has-filter p [] = refl
  has-filter p (x ∷ xs) = elim (Bool-cases (x == doc)) [
    | inl e ↦
        let same : p x ≡ p doc = ap p ((==_iff x doc).0 e) in
        ground (arith, e, same, has-filter p xs)
    | inr e ↦ ground (arith, e, has-filter p xs)
  ]

  -- After a rule's grants are written, who is let in is who was, and the rule's group on its
  -- documents; nobody else.
  pub granted-insert_grants :
      (group_id rule : ℕ) (doc_ids : List ℕ)
      → granted (with_rows acl (insert_grants group_id rule doc_ids acl.document_acl)) u doc
        ≡ granted acl u doc || (has doc_ids doc && in_groups_of acl u.id (some group_id))
  unfolding granted insert_grants admits in_groups_of
  granted-insert_grants group_id rule doc_ids =
      let new : Bool = not (any (is_grant group_id rule doc) acl.document_acl) in
      any-append lets_in acl.document_acl (
        map (grant group_id rule)
          (filter (λ d. not (any (is_grant group_id rule d) acl.document_acl)) doc_ids))
      ∙ ground (
        arith,
        any-grant group_id rule
            (filter (λ d. not (any (is_grant group_id rule d) acl.document_acl)) doc_ids),
        has-filter (λ d. not (any (is_grant group_id rule d) acl.document_acl)) doc_ids,
        lets_in_already group_id rule acl.document_acl,
      )
