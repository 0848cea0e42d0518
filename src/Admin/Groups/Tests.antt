-- ===== src/Admin/Groups/Tests.antt =====
-- A directory of one user, a local group and a group of the identity provider.
use pro_rag.Prelude.{◌≡◌, refl, none, some, List, [], ◌∷◌}
use pro_rag.Prelude.Reply.{answer}
use pro_rag.Prelude.Words.{codes}
use pro_rag.Models.{local, idp, UserGroup}
use pro_rag.Retrieve.Samples.{reader}
use pro_rag.Admin.Groups.{Directory, get_local_group, add_group_member, post_member}
use pro_rag.Admin.Groups.Mirror.{Mirrored, handle-Mirrored}

abbrev staff : UserGroup
staff = record { user_id = 5; group_id = 1 }

abbrev joined : UserGroup
joined = record { user_id = 5; group_id = 9 }

abbrev dir_of : List UserGroup → Directory
dir_of rows = record {
  users = reader ∷ [];
  groups =
      record { id = 1; name = codes "staff"; source = idp; external_id = some (codes "s") }
      ∷ record { id = 9; name = codes "readers"; source = local; external_id = none }
      ∷ [];
  user_groups = rows;
  rule_groups = [];
}

adds : add_group_member (dir_of (staff ∷ [])) 9 5 ≡ answer (dir_of (staff ∷ joined ∷ []))
unfolding add_group_member get_local_group
adds = refl

handle-Mirrored_example : Mirrored (dir_of (staff ∷ [])) (dir_of (staff ∷ joined ∷ []))
handle-Mirrored_example = handle-Mirrored (dir_of (staff ∷ [])) (post_member 9 5) adds
