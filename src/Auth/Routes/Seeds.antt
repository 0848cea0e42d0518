-- ===== src/Auth/Routes/Seeds.antt =====
-- What a token's claim makes of a user's groups.
use pro_rag.Prelude.{
  ℕ, ◌≡◌, refl, sym, ap, ◌∙◌, not, ◌&&◌, Option, none, some, List, [], ◌∷◌, ◌++◌, append_assoc,
  append-nil, map, ◌==◌, if_true, if_false, Bool-cases, inl, inr, filter, any, Text, same_text,
  same_text_iff,
}
use pro_rag.Prelude.Reply.{answer, guard, >>=-eq-answer, answer-injective}
use pro_rag.Prelude.Words.{codes}
use pro_rag.Models.{Group, idp, UserGroup}
use pro_rag.Auth.Routes.{
  Seeded, membership, find_idp, of_idp, is_idp, is_text, join, new_group, add_group, join_found,
  seed_from, seed_idp_groups,
}

-- What was found is found in the longer list.
Extends : List Group → List Group → Type 0
Extends groups groups' =
    (ext : Text) (g : Group) → find_idp groups ext ≡ some g → find_idp groups' ext ≡ some g

find_idp-append : (groups more : List Group) → Extends groups (groups ++ more)
unfolding Extends
find_idp-append [] more ext g h = cc
find_idp-append (q ∷ groups) more ext g h =
    elim (Bool-cases (is_idp q.source && is_text ext q.external_id)) [
      | inl t ↦ if_true _ _ t ∙ sym (if_true _ _ t) ∙ h
      | inr t ↦ if_false _ _ t ∙ find_idp-append groups more ext g (sym (if_false _ _ t) ∙ h)
    ]

find_idp-snoc :
    (groups : List Group) (new : Group) (ext : Text)
    → find_idp groups ext ≡ none
    → new.source ≡ idp
    → new.external_id ≡ some ext
    → find_idp (groups ++ new ∷ []) ext ≡ some new
find_idp-snoc [] new ext h s e = if_true _ _ (
    ap (λ t. is_idp t && is_text ext new.external_id) s
    ∙ ap (is_text ext) e
    ∙ (same_text_iff ext ext).1 refl)
find_idp-snoc (q ∷ groups) new ext h s e =
    elim (Bool-cases (is_idp q.source && is_text ext q.external_id)) [
      | inl t ↦ let k : some q ≡ none = sym (if_true _ _ t) ∙ h in cc
      | inr t ↦ if_false _ _ t ∙ find_idp-snoc groups new ext (sym (if_false _ _ t) ∙ h) s e
    ]

-- The groups of the identity provider that the claim names, one after the other.
abbrev pub Resolves : List Group → List Text → List ℕ → Type 0
Resolves groups [] [] = Unit
Resolves groups (ext ∷ claim) (id ∷ ids) =
    ((g : Group) × (find_idp groups ext ≡ some g) × (g.id ≡ id)) × Resolves groups claim ids
Resolves groups _ _ = ⊥

module _ (user_id : ℕ) (new_group_id : Text → ℕ) where
  join-adds :
      (s : Seeded) (id : ℕ) {s' : Seeded}
      → join user_id new_group_id s id ≡ answer s'
      → (s'.groups ≡ s.groups) × (s'.user_groups ≡ s.user_groups ++ membership user_id id ∷ [])
  join-adds s id h =
      let joined : Seeded = record s {
        user_groups = s.user_groups ++ membership user_id id ∷ [];
      } in
      let (_, _, h1) =
        >>=-eq-answer
          (guard
            (not (any (λ (m : UserGroup). m.user_id == user_id && m.group_id == id) s.user_groups))
            500)
          (λ _. answer joined) h in
      (
        ap (λ (t : Seeded). t.groups) (sym (answer-injective h1)),
        ap (λ (t : Seeded). t.user_groups) (sym (answer-injective h1)),
      )

  -- What one turn of the loop does.
  abbrev Turn : Seeded → Text → Seeded → Type 0
  Turn s ext s' =
      (g : Group) × (find_idp s'.groups ext ≡ some g)
      × (s'.user_groups ≡ s.user_groups ++ membership user_id g.id ∷ [])
      × Extends s.groups s'.groups

  join_found-Turn :
      (s : Seeded) (ext : Text) (o : Option Group) {s' : Seeded}
      → find_idp s.groups ext ≡ o
      → join_found user_id new_group_id s ext o ≡ answer s'
      → Turn s ext s'
  unfolding Extends
  join_found-Turn s ext (some g) e h =
      let (same, rows) = join-adds s g.id h in
      (g, ap (λ t. find_idp t ext) same ∙ e, rows, λ x q k. ap (λ t. find_idp t x) same ∙ k)
  join_found-Turn s ext none e h =
      let new : Group = new_group user_id new_group_id ext in
      let grown : Seeded = record s { groups = s.groups ++ new ∷ [] } in
      let (mid, added, h1) =
        >>=-eq-answer (add_group user_id new_group_id s ext)
          (λ t. join user_id new_group_id t (new_group_id ext)) h in
      let (_, _, h2) =
        >>=-eq-answer
          (guard (not (any (λ (g : Group). same_text g.name (codes "idp:" ++ ext)) s.groups)) 500)
          (λ _. answer grown) added in
      let is_grown : mid ≡ grown = sym (answer-injective h2) in
      let (same, rows) = join-adds mid (new_group_id ext) h1 in
      let groups = same ∙ ap (λ (t : Seeded). t.groups) is_grown in
      (
        new,
        ap (λ t. find_idp t ext) groups ∙ find_idp-snoc s.groups new ext e refl refl,
        rows
            ∙ ap (λ (t : Seeded). t.user_groups ++ membership user_id (new_group_id ext) ∷ [])
                is_grown,
        λ x q k. ap (λ t. find_idp t x) groups ∙ find_idp-append s.groups (new ∷ []) x q k,
      )

  -- What the whole loop does.
  abbrev pub SeededBy : List UserGroup → List Text → Seeded → Type 0
  SeededBy kept claim s' =
      (ids : List ℕ) × (s'.user_groups ≡ kept ++ map (membership user_id) ids)
      × Resolves s'.groups claim ids

  seed_from-SeededBy :
      (s : Seeded) (claim : List Text) {s' : Seeded}
      → seed_from user_id new_group_id s claim ≡ answer s'
      → SeededBy s.user_groups claim s' × Extends s.groups s'.groups
  unfolding Extends
  seed_from-SeededBy s [] h =
      let same = answer-injective h in
      (
        ([], ap (λ (t : Seeded). t.user_groups) (sym same) ∙ sym (append-nil s.user_groups), tt),
        λ x q k. ap (λ (t : Seeded). find_idp t.groups x) (sym same) ∙ k,
      )
  seed_from-SeededBy s (ext ∷ claim) {s' = s'} h =
      let (mid, turn, h1) =
        >>=-eq-answer (join_found user_id new_group_id s ext (find_idp s.groups ext))
          (λ t. seed_from user_id new_group_id t claim) h in
      let (g, found, rows, longer) = join_found-Turn s ext (find_idp s.groups ext) refl turn in
      let ((ids, all, resolved), longer_too) = seed_from-SeededBy mid claim h1 in
      (
        (
          g.id ∷ ids,
          all
              ∙ ap (λ t. t ++ map (membership user_id) ids) rows
              ∙ append_assoc s.user_groups (membership user_id g.id ∷ [])
                  (map (membership user_id) ids),
          ((g, longer_too ext g found, refl), resolved),
        ),
        λ x q k. longer_too x q (longer x q k),
      )

  -- Where the seeding succeeds, the memberships are those from before without this user's in groups of
  -- the identity provider, and after them one in the group of each entry of the claim, in its order.
  pub seed_idp_groups-SeededBy :
      (s : Seeded) (claim : List Text) {s' : Seeded}
      → seed_idp_groups user_id new_group_id s claim ≡ answer s'
      → SeededBy
          (filter
            (λ (m : UserGroup). not (m.user_id == user_id && of_idp s.groups m.group_id))
            s.user_groups)
          claim
          s'
  unfolding seed_idp_groups
  seed_idp_groups-SeededBy s claim h =
      (seed_from-SeededBy
        (record s {
          user_groups =
              filter (λ (m : UserGroup). not (m.user_id == user_id && of_idp s.groups m.group_id))
                s.user_groups;
        })
        claim h).0
