-- ===== src/Files/Tests.antt =====
-- A document that is on record and hidden from the reader.
use pro_rag.Prelude.{◌≡◌, some, [], ◌∷◌}
use pro_rag.Prelude.Reply.{refused}
use pro_rag.Models.{Acl, user, by_hand}
use pro_rag.Retrieve.Samples.{document, reader}
use pro_rag.Retrieve.Visibility.{sees, visibility_clause, granted, admits}
use pro_rag.Files.{get_original}
use pro_rag.Files.Hidden.{get_original_lem}

abbrev acl : Acl
acl = record {
  user_groups = [];
  document_acl =
      record { doc_id = 2; principal_type = user; principal_id = some 5; source = by_hand } ∷ [];
}

get_original_lem_example :
    get_original (document 1 ∷ document 2 ∷ []) acl (some reader) 1 ≡ refused 404
unfolding sees visibility_clause granted admits
get_original_lem_example = get_original_lem (document 1 ∷ document 2 ∷ []) acl (some reader) 1
