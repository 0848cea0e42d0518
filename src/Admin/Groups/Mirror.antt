-- ===== src/Admin/Groups/Mirror.antt =====
-- The routes leave the groups of the identity provider, and who belongs to them, as they are.
use pro_rag.Prelude.{
  ℕ, ◌≡◌, ◌≢◌, refl, sym, ap, ◌∙◌, Bool, true, not, Option, none, some, List, [], ◌∷◌, ◌++◌, arith,
  ◌==◌, filter, any, if◌then◌else◌, subst, Text, if_cases,
}
use pro_rag.Prelude.Reply.{
  Reply, answer, guard, ◌>>=◌, ◌>>◌, >>=-eq-answer, answer-injective, or_404,
}
use pro_rag.Prelude.Table.{
  find_by, put_by, remove_by, find_by-key, find_by-put_other, find_by-remove_other, find_by-append,
}
use pro_rag.Models.{Group, GroupSource, local, idp, UserGroup}
use pro_rag.Admin.Groups.{
  Directory, group_key, user_key, is_local, taken, get_local_group, create_group, update_group,
  delete_group, add_group_member, remove_group_member, is_membership, is_member, with_members,
  Request, post_group, patch_group, remove_group, post_member, remove_member, handle,
}

or_404-found : {A : Type 0} (o : Option A) {a : A} → or_404 o ≡ answer a → o ≡ some a
or_404-found none h = cc
or_404-found (some b) h = ap (λ a. some a) (answer-injective h)

local_of : (s : GroupSource) (code : ℕ) → guard (is_local s) code ≡ answer tt → s ≡ local
local_of local code h = refl
local_of idp code h = cc

abbrev kept_local : Group → Reply Group
kept_local g = guard (is_local g.source) 400 >> answer g

pub get_local_group-found :
    (dir : Directory) (id : ℕ) {g : Group}
    → get_local_group dir id ≡ answer g
    → (find_by group_key dir.groups id ≡ some g) × (g.source ≡ local)
unfolding get_local_group
get_local_group-found dir id h =
    let (g, found, h1) = >>=-eq-answer (or_404 (find_by group_key dir.groups id)) kept_local h in
    let (_, ok, h2) = >>=-eq-answer (guard (is_local g.source) 400) (λ _. answer g) h1 in
    let same = answer-injective h2 in
    (
      or_404-found (find_by group_key dir.groups id) found ∙ ap (λ q. some q) same,
      ap (λ (q : Group). q.source) (sym same) ∙ local_of g.source 400 ok,
    )

-- A group that the identity provider owns is found as before, with the same members.
abbrev pub Mirrored : Directory → Directory → Type 0
Mirrored dir dir' =
    (id : ℕ) (g : Group)
    → find_by group_key dir.groups id ≡ some g
    → g.source ≡ idp
    → (find_by group_key dir'.groups id ≡ some g)
      × ((user_id : ℕ) → is_member dir' user_id id ≡ is_member dir user_id id)

apart_of_local :
    (dir : Directory) (mine id : ℕ) {g l : Group}
    → find_by group_key dir.groups mine ≡ some l
    → l.source ≡ local
    → find_by group_key dir.groups id ≡ some g
    → g.source ≡ idp
    → mine ≢ id
apart_of_local dir mine id {g = g} {l = l} found is_mine there theirs e =
    let one : some l ≡ some g = sym found ∙ ap (find_by group_key dir.groups) e ∙ there in
    let source : l.source ≡ g.source =
      ap (λ (o : Option Group). elim o [ none ↦ local | some q ↦ q.source ]) one in
    absurd (differ (sym is_mine ∙ source ∙ theirs))
  where
    differ : local ≢ idp
    differ k = cc

members_other_filter :
    (group_id : ℕ) (p : UserGroup → Bool) (rows : List UserGroup) (user_id : ℕ)
    → ((m : UserGroup) → m.group_id ≡ group_id → p m ≡ true)
    → any (is_membership user_id group_id) (filter p rows)
      ≡ any (is_membership user_id group_id) rows
members_other_filter group_id p [] user_id h = refl
members_other_filter group_id p (m ∷ rows) user_id h =
    ground (arith, h m, members_other_filter group_id p rows user_id h)

members_other_snoc :
    (group_id : ℕ) (new : UserGroup) (rows : List UserGroup) (user_id : ℕ)
    → new.group_id ≢ group_id
    → any (is_membership user_id group_id) (rows ++ new ∷ [])
      ≡ any (is_membership user_id group_id) rows
members_other_snoc group_id new [] user_id h = ground (arith, h)
members_other_snoc group_id new (m ∷ rows) user_id h =
    ground (arith, members_other_snoc group_id new rows user_id h)

-- What each route leaves of the groups that it does not name.
Mirrored-create :
    (dir : Directory) (new_id : ℕ) (name : Text) {dir' : Directory}
    → create_group dir new_id name ≡ answer dir'
    → Mirrored dir dir'
unfolding create_group
Mirrored-create dir new_id name h =
    let new : Group = record { id = new_id; name = name; source = local; external_id = none } in
    let dir1 : Directory = record dir { groups = dir.groups ++ new ∷ [] } in
    let (_, _, h1) =
      >>=-eq-answer (guard (not (taken dir.groups new_id name)) 500) (λ _. answer dir1) h in
    subst (Mirrored dir) (answer-injective h1)
      (λ id g there theirs. (find_by-append group_key dir.groups (new ∷ []) id there, λ u. refl))

Mirrored-update :
    (dir : Directory) (mine : ℕ) (name : Text) {dir' : Directory}
    → update_group dir mine name ≡ answer dir'
    → Mirrored dir dir'
unfolding update_group
Mirrored-update dir mine name h =
    let (l, found, h1) = >>=-eq-answer (get_local_group dir mine) checked h in
    let (at, is_mine) = get_local_group-found dir mine found in
    let own : l.id ≡ mine = find_by-key group_key dir.groups mine at in
    let (_, _, h2) =
      >>=-eq-answer (guard (not (taken dir.groups l.id name)) 500) (λ _. renamed l) h1 in
    subst (Mirrored dir) (answer-injective h2) (λ id g there theirs. (
      find_by-put_other group_key dir.groups id (record l { name = name })
            (λ e. apart_of_local dir mine id at is_mine there theirs (sym own ∙ e))
          ∙ there,
      λ u. refl,
    ))
  where
    renamed : Group → Reply Directory
    renamed g =
        answer (record dir { groups = put_by group_key (record g { name = name }) dir.groups })

    checked : Group → Reply Directory
    checked g = guard (not (taken dir.groups g.id name)) 500 >> renamed g

Mirrored-delete :
    (dir : Directory) (mine : ℕ) {dir' : Directory}
    → delete_group dir mine ≡ answer dir'
    → Mirrored dir dir'
unfolding delete_group
Mirrored-delete dir mine h =
    let (l, found, h1) = >>=-eq-answer (get_local_group dir mine) checked h in
    let (at, is_mine) = get_local_group-found dir mine found in
    let own : l.id ≡ mine = find_by-key group_key dir.groups mine at in
    let (_, _, h2) =
      >>=-eq-answer (guard (not (any (λ r. r == l.id) dir.rule_groups)) 500) (λ _. removed l) h1 in
    subst (Mirrored dir) (answer-injective h2) (λ id g there theirs.
      let apart : l.id ≢ id =
        λ e. apart_of_local dir mine id at is_mine there theirs (sym own ∙ e) in
      (
        find_by-remove_other group_key dir.groups l.id id apart ∙ there,
        λ u.
            members_other_filter id (λ (m : UserGroup). not (m.group_id == l.id)) dir.user_groups u
              (λ m e. ground (arith, e, apart)),
      ))
  where
    removed : Group → Reply Directory
    removed g = answer (record dir {
      groups = remove_by group_key g.id dir.groups;
      user_groups = filter (λ (m : UserGroup). not (m.group_id == g.id)) dir.user_groups;
    })

    checked : Group → Reply Directory
    checked g = guard (not (any (λ r. r == g.id) dir.rule_groups)) 500 >> removed g

Mirrored-add :
    (dir : Directory) (mine user_id : ℕ) {dir' : Directory}
    → add_group_member dir mine user_id ≡ answer dir'
    → Mirrored dir dir'
unfolding add_group_member
Mirrored-add dir mine user_id h =
    let (l, found, h1) = >>=-eq-answer (get_local_group dir mine) (λ _. for_user) h in
    let (at, is_mine) = get_local_group-found dir mine found in
    let (_, _, h2) =
      >>=-eq-answer (or_404 (find_by user_key dir.users user_id)) (λ _. answer added) h1 in
    subst (Mirrored dir) (answer-injective h2) (
      if_cases (Mirrored dir) (is_member dir user_id mine) {x = dir}
        {y = with_members dir (dir.user_groups ++ new ∷ [])}
        (λ _ id g there theirs. (there, λ u. refl))
        (λ _ id g there theirs. (
          there,
          λ u.
              members_other_snoc id new dir.user_groups u
                (apart_of_local dir mine id at is_mine there theirs),
        )))
  where
    new : UserGroup
    new = record { user_id = user_id; group_id = mine }

    added : Directory
    added =
        if is_member dir user_id mine then dir else with_members dir (dir.user_groups ++ new ∷ [])

    for_user : Reply Directory
    for_user = or_404 (find_by user_key dir.users user_id) >>= λ _. answer added

Mirrored-remove :
    (dir : Directory) (mine user_id : ℕ) {dir' : Directory}
    → remove_group_member dir mine user_id ≡ answer dir'
    → Mirrored dir dir'
unfolding remove_group_member
Mirrored-remove dir mine user_id h =
    let rest : Directory =
      with_members dir (filter (λ m. not (is_membership user_id mine m)) dir.user_groups) in
    let (l, found, h1) = >>=-eq-answer (get_local_group dir mine) (λ _. answer rest) h in
    let (at, is_mine) = get_local_group-found dir mine found in
    subst (Mirrored dir) (answer-injective h1) (λ id g there theirs.
      let apart : mine ≢ id = apart_of_local dir mine id at is_mine there theirs in
      (
        there,
        λ u.
            members_other_filter id (λ m. not (is_membership user_id mine m)) dir.user_groups u
              (λ m e. ground (arith, e, apart)),
      ))

-- No request on `/admin/groups` that succeeds changes a group that the identity provider owns, or
-- who belongs to it.
pub handle-Mirrored :
    (dir : Directory) (request : Request) {dir' : Directory}
    → handle dir request ≡ answer dir'
    → Mirrored dir dir'
handle-Mirrored dir (post_group new_id name) h = Mirrored-create dir new_id name h
handle-Mirrored dir (patch_group id name) h = Mirrored-update dir id name h
handle-Mirrored dir (remove_group id) h = Mirrored-delete dir id h
handle-Mirrored dir (post_member group_id user_id) h = Mirrored-add dir group_id user_id h
handle-Mirrored dir (remove_member group_id user_id) h = Mirrored-remove dir group_id user_id h
