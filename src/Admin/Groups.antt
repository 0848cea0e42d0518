-- ===== src/Admin/Groups.antt =====
-- People and groups: `/admin/users` and `/admin/groups` of prorag/admin/router.py, where each
-- route that writes takes the directory to the directory after its commit.
use pro_rag.Prelude.{
  ℕ, Bool, true, false, not, ◌&&◌, Option, none, some, List, [], ◌∷◌, ◌++◌, map, ◌==◌,
  if◌then◌else◌, filter, any, Text, same_text,
}
use pro_rag.Prelude.Reply.{Reply, refused, answer, guard, ◌>>=◌, ◌>>◌, or_404}
use pro_rag.Prelude.Table.{find_by, put_by, remove_by}
use pro_rag.Models.{User, Group, GroupSource, local, idp, UserGroup}
use pro_rag.Admin.Fields.{Field, set_field, set_nullable}
pub mod Mirror
pub mod Members
mod Tests

-- The rows that the routes read and write; of the rules, the group that each refers to.
pub record Directory : Type 0 where
  pub users : List User
  pub groups : List Group
  pub user_groups : List UserGroup
  pub rule_groups : List ℕ

pub record UserPatch : Type 0 where
  pub is_admin : Field Bool
  pub disabled_at : Field ℕ
  pub daily_cap_usd_override : Field ℕ

abbrev pub group_key : Group → ℕ
group_key g = g.id

abbrev pub user_key : User → ℕ
user_key u = u.id

abbrev pub is_local : GroupSource → Bool
is_local local = true
is_local idp = false

-- The unique constraint on `groups.name`, for a row of this id.
abbrev pub taken : List Group → ℕ → Text → Bool
taken groups id name = any (λ (g : Group). not (g.id == id) && same_text g.name name) groups

-- `_get_local_group_or_404`
pub get_local_group : Directory → ℕ → Reply Group
get_local_group dir id = do
  g ← or_404 (find_by group_key dir.groups id)
  guard (is_local g.source) 400
  answer g

-- A constraint that the statement breaks is an error of the database.
pub create_group : Directory → ℕ → Text → Reply Directory
create_group dir new_id name =
    guard (not (taken dir.groups new_id name)) 500
    >> answer (record dir {
      groups =
          dir.groups
          ++ record { id = new_id; name = name; source = local; external_id = none } ∷ [];
    })

pub update_group : Directory → ℕ → Text → Reply Directory
unfolding get_local_group
update_group dir id name = do
  g ← get_local_group dir id
  guard (not (taken dir.groups g.id name)) 500
  answer (record dir { groups = put_by group_key (record g { name = name }) dir.groups })

-- The memberships go with the group; a rule that refers to it forbids the deletion.
pub delete_group : Directory → ℕ → Reply Directory
unfolding get_local_group
delete_group dir id = do
  g ← get_local_group dir id
  guard (not (any (λ r. r == g.id) dir.rule_groups)) 500
  answer (record dir {
    groups = remove_by group_key g.id dir.groups;
    user_groups = filter (λ (m : UserGroup). not (m.group_id == g.id)) dir.user_groups;
  })

abbrev pub is_membership : ℕ → ℕ → UserGroup → Bool
is_membership user_id group_id m = m.user_id == user_id && m.group_id == group_id

-- `session.get(UserGroup, (user_id, group_id)) is not None`
abbrev pub is_member : Directory → ℕ → ℕ → Bool
is_member dir user_id group_id = any (is_membership user_id group_id) dir.user_groups

abbrev pub with_members : Directory → List UserGroup → Directory
with_members dir rows = record dir { user_groups = rows }

pub add_group_member : Directory → ℕ → ℕ → Reply Directory
unfolding get_local_group
add_group_member dir group_id user_id = do
  g ← get_local_group dir group_id
  u ← or_404 (find_by user_key dir.users user_id)
  answer (
      if is_member dir user_id group_id
      then dir
      else with_members dir
          (dir.user_groups ++ record { user_id = user_id; group_id = group_id } ∷ []))

pub remove_group_member : Directory → ℕ → ℕ → Reply Directory
unfolding get_local_group
remove_group_member dir group_id user_id = do
  g ← get_local_group dir group_id
  answer (with_members dir (filter (λ m. not (is_membership user_id group_id m)) dir.user_groups))

-- `is_admin` is NOT NULL, the other two columns are nullable.
pub update_user : Directory → ℕ → UserPatch → Reply Directory
update_user dir id body = do
  u ← or_404 (find_by user_key dir.users id)
  is_admin ← set_field u.is_admin body.is_admin
  answer (record dir {
    users =
        put_by user_key
          (record u {
            is_admin = is_admin;
            disabled_at = set_nullable u.disabled_at body.disabled_at;
            daily_cap_usd_override =
                set_nullable u.daily_cap_usd_override body.daily_cap_usd_override;
          })
          dir.users;
  })

-- The requests on `/admin/groups` that write, and the route that takes each.
pub data Request : Type 0 where
  post_group : ℕ → Text → Request
  patch_group : ℕ → Text → Request
  remove_group : ℕ → Request
  post_member remove_member : ℕ → ℕ → Request

abbrev pub handle : Directory → Request → Reply Directory
handle dir (post_group new_id name) = create_group dir new_id name
handle dir (patch_group id name) = update_group dir id name
handle dir (remove_group id) = delete_group dir id
handle dir (post_member group_id user_id) = add_group_member dir group_id user_id
handle dir (remove_member group_id user_id) = remove_group_member dir group_id user_id
