-- ===== src/Admin/Grants/Revoke.antt =====
-- Which rows remain and which are new after grants are written and revoked.
use pro_rag.Prelude.{
  ℕ, ◌≡◌, refl, ap, ◌∙◌, true, false, not, List, [], ◌∷◌, ◌++◌, map, arith, filter, filter-append,
  All-append, append-nil, any, All, All-filter_intro, ◌≢◌,
}
use pro_rag.Models.{DocumentAcl, AclSource, by_hand, by_rule}
use pro_rag.Admin.Grants.{is_rule, grant, is_grant, insert_grants, revoke_grants}

-- Rows that no rule of this id wrote.
abbrev pub WrittenByOthers : ℕ → List DocumentAcl → Type 0
WrittenByOthers rule = All (λ (a : DocumentAcl). is_rule rule a.source ≡ false)

revoke_grants_others :
    (rule : ℕ) (rows : List DocumentAcl)
    → WrittenByOthers rule rows
    → revoke_grants rule rows ≡ rows
unfolding revoke_grants
revoke_grants_others rule [] h = refl
revoke_grants_others rule (a ∷ rows) h = ground (arith, h.0, revoke_grants_others rule rows h.1)

revoke_own :
    (group_id rule : ℕ) (doc_ids : List ℕ)
    → revoke_grants rule (map (grant group_id rule) doc_ids) ≡ []
unfolding revoke_grants
revoke_own group_id rule [] = refl
revoke_own group_id rule (d ∷ doc_ids) = ground (arith, revoke_own group_id rule doc_ids)

pub revoke_grants-insert_grants :
    (group_id rule : ℕ) (doc_ids : List ℕ) (rows : List DocumentAcl)
    → WrittenByOthers rule rows
    → revoke_grants rule (insert_grants group_id rule doc_ids rows) ≡ rows
unfolding revoke_grants insert_grants
revoke_grants-insert_grants group_id rule doc_ids rows h =
    let new : List ℕ = filter (λ d. not (any (is_grant group_id rule d) rows)) doc_ids in
    filter-append (λ (a : DocumentAcl). not (is_rule rule a.source)) rows
      (map (grant group_id rule) new)
    ∙ ap (λ t. revoke_grants rule rows ++ t) (revoke_own group_id rule new)
    ∙ append-nil (revoke_grants rule rows)
    ∙ revoke_grants_others rule rows h

-- What remains was there, and is not the rule's.
pub All-revoke_grants :
    (P Q : DocumentAcl → Type 0) (rule : ℕ) (rows : List DocumentAcl)
    → ((a : DocumentAcl) → P a → a.source ≢ by_rule rule → Q a)
    → All P rows
    → All Q (revoke_grants rule rows)
unfolding revoke_grants
All-revoke_grants P Q rule rows f h =
    All-filter_intro P Q (λ (a : DocumentAcl). not (is_rule rule a.source)) rows
      (λ a p t. f a p (apart a.source t)) h
  where
    apart : (s : AclSource) → not (is_rule rule s) ≡ true → s ≢ by_rule rule
    apart by_hand t e = cc
    apart (by_rule n) t e =
        let same : n ≡ rule = ap (λ (s : AclSource). elim s [ by_hand ↦ rule | by_rule m ↦ m ]) e in
        ground (arith, same, t)

pub All-insert_grants :
    (P : DocumentAcl → Type 0) (group_id rule : ℕ) (doc_ids : List ℕ) (rows : List DocumentAcl)
    → ((doc : ℕ) → P (grant group_id rule doc))
    → All P rows
    → All P (insert_grants group_id rule doc_ids rows)
unfolding insert_grants
All-insert_grants P group_id rule doc_ids rows f h =
    All-append P rows
      (map (grant group_id rule) (filter (λ d. not (any (is_grant group_id rule d) rows)) doc_ids))
      h (all_new (filter (λ d. not (any (is_grant group_id rule d) rows)) doc_ids))
  where
    all_new : (ds : List ℕ) → All P (map (grant group_id rule) ds)
    all_new [] = tt
    all_new (d ∷ ds) = (f d, all_new ds)
