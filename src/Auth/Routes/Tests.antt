-- ===== src/Auth/Routes/Tests.antt =====
-- A login whose token names a group that is new.
use pro_rag.Prelude.{ℕ, ◌≡◌, refl, none, some, List, [], ◌∷◌, ◌++◌, Text, same_text}
use pro_rag.Prelude.Reply.{answer}
use pro_rag.Prelude.Words.{codes}
use pro_rag.Models.{Group, local, idp}
use pro_rag.Auth.Routes.{Seeded, membership, new_group, seed_idp_groups}
use pro_rag.Auth.Routes.Seeds.{SeededBy, seed_idp_groups-SeededBy}

abbrev id_of : Text → ℕ
id_of ext = 100

abbrev groups : List Group
groups =
    record { id = 1; name = codes "idp:staff"; source = idp; external_id = some (codes "staff") }
    ∷ record { id = 9; name = codes "readers"; source = local; external_id = none }
    ∷ []

abbrev before : Seeded
before = record { groups = groups; user_groups = membership 5 1 ∷ membership 5 9 ∷ [] }

abbrev seeded : Seeded
seeded = record {
  groups = groups ++ new_group 5 id_of (codes "eng") ∷ [];
  user_groups = membership 5 9 ∷ membership 5 100 ∷ [];
}

seeds : seed_idp_groups 5 id_of before (codes "eng" ∷ []) ≡ answer seeded
unfolding seed_idp_groups same_text
seeds = refl

seed_idp_groups-SeededBy_example : SeededBy 5 id_of (membership 5 9 ∷ []) (codes "eng" ∷ []) seeded
seed_idp_groups-SeededBy_example = seed_idp_groups-SeededBy 5 id_of before (codes "eng" ∷ []) seeds
