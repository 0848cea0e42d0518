-- ===== src/Admin/Groups/Members.antt =====
-- What the membership routes do to who belongs to which group.
use pro_rag.Prelude.{
  ℕ, ◌≡◌, refl, sym, ap, ◌∙◌, Bool, true, not, ◌&&◌, ◌||◌, List, [], ◌∷◌, ◌++◌, arith, ◌==◌, filter,
  any, if◌then◌else◌, subst, if_cases,
}
use pro_rag.Prelude.Reply.{Reply, answer, ◌>>=◌, >>=-eq-answer, answer-injective, or_404}
use pro_rag.Prelude.Table.{find_by}
use pro_rag.Models.{UserGroup}
use pro_rag.Admin.Groups.{
  Directory, user_key, get_local_group, add_group_member, remove_group_member, is_membership,
  is_member, with_members,
}

any-snoc :
    {A : Type 0} (p : A → Bool) (xs : List A) (x : A) → any p (xs ++ x ∷ []) ≡ any p xs || p x
any-snoc p [] x = ground arith
any-snoc p (y ∷ xs) x = ground (arith, any-snoc p xs x)

members_without :
    (u g : ℕ) (rows : List UserGroup) (user_id group_id : ℕ)
    → any (is_membership user_id group_id) (filter (λ m. not (is_membership u g m)) rows)
      ≡ any (is_membership user_id group_id) rows && not (user_id == u && group_id == g)
members_without u g [] user_id group_id = refl
members_without u g (m ∷ rows) user_id group_id =
    ground (arith, members_without u g rows user_id group_id)

-- Who is in already is in once more.
already_in :
    (u g : ℕ) (rows : List UserGroup) (user_id group_id : ℕ)
    → any (is_membership u g) rows ≡ true
    → any (is_membership user_id group_id) rows
      ≡ any (is_membership user_id group_id) rows || (user_id == u && group_id == g)
already_in u g [] user_id group_id h = absurd (ground (arith, h))
already_in u g (m ∷ rows) user_id group_id h =
    ground (arith, h, already_in u g rows user_id group_id)

is_member-add_group_member :
    (dir : Directory) (g u : ℕ) {dir' : Directory}
    → add_group_member dir g u ≡ answer dir'
    → (user_id group_id : ℕ)
    → is_member dir' user_id group_id
      ≡ is_member dir user_id group_id || (user_id == u && group_id == g)
unfolding add_group_member
is_member-add_group_member dir g u h =
    let (_, _, h1) = >>=-eq-answer (get_local_group dir g) (λ _. for_user) h in
    let (_, _, h2) = >>=-eq-answer (or_404 (find_by user_key dir.users u)) (λ _. answer added) h1 in
    subst After (answer-injective h2) (
      if_cases After (is_member dir u g) {x = dir}
        {y = with_members dir (dir.user_groups ++ new ∷ [])} already
        (λ _ user_id group_id.
          any-snoc (is_membership user_id group_id) dir.user_groups new ∙ ground arith))
  where
    new : UserGroup
    new = record { user_id = u; group_id = g }

    added : Directory
    added = if is_member dir u g then dir else with_members dir (dir.user_groups ++ new ∷ [])

    for_user : Reply Directory
    for_user = or_404 (find_by user_key dir.users u) >>= λ _. answer added

    After : Directory → Type 0
    After d =
        (user_id group_id : ℕ)
        → is_member d user_id group_id
          ≡ is_member dir user_id group_id || (user_id == u && group_id == g)

    already : is_member dir u g ≡ true → After dir
    already e user_id group_id = already_in u g dir.user_groups user_id group_id e

is_member-remove_group_member :
    (dir : Directory) (g u : ℕ) {dir' : Directory}
    → remove_group_member dir g u ≡ answer dir'
    → (user_id group_id : ℕ)
    → is_member dir' user_id group_id
      ≡ is_member dir user_id group_id && not (user_id == u && group_id == g)
unfolding remove_group_member
is_member-remove_group_member dir g u h user_id group_id =
    let rest : Directory =
      with_members dir (filter (λ m. not (is_membership u g m)) dir.user_groups) in
    let (_, _, h1) = >>=-eq-answer (get_local_group dir g) (λ _. answer rest) h in
    ap (λ (d : Directory). is_member d user_id group_id) (sym (answer-injective h1))
    ∙ members_without u g dir.user_groups user_id group_id

-- A member who is added to a group and then removed, each call successful, is out of the group, and
-- every other membership is as it was before, whether the user belonged to the group or not.
pub remove_group_member-add_group_member :
    (dir : Directory) (g u : ℕ) {dir1 dir2 : Directory}
    → add_group_member dir g u ≡ answer dir1
    → remove_group_member dir1 g u ≡ answer dir2
    → (user_id group_id : ℕ)
    → is_member dir2 user_id group_id
      ≡ is_member dir user_id group_id && not (user_id == u && group_id == g)
remove_group_member-add_group_member dir g u {dir1 = dir1} h k user_id group_id = ground (
  arith,
  is_member-remove_group_member dir1 g u k user_id group_id,
  is_member-add_group_member dir g u h user_id group_id,
)
