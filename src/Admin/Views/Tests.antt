-- ===== src/Admin/Views/Tests.antt =====
-- A reader who may see one of two documents.
use pro_rag.Prelude.{◌≡◌, ◌↔◌, refl, true, some, List, [], ◌∷◌, Member, arith}
use pro_rag.Models.{Document, ready, Acl, user, by_hand}
use pro_rag.Retrieve.Samples.{document, reader}
use pro_rag.Retrieve.Visibility.{sees, visibility_clause, granted, admits}
use pro_rag.Admin.Views.Pages.{pages_from, user_visible_docs_lem}

abbrev same_order : List Document → List Document
same_order ds = ds

abbrev documents : List Document
documents = document 1 ∷ document 2 ∷ []

abbrev acl : Acl
acl = record {
  user_groups = [];
  document_acl =
      record { doc_id = 2; principal_type = user; principal_id = some 5; source = by_hand } ∷ [];
}

user_visible_docs_lem_example :
    Member (document 2) (pages_from same_order (reader ∷ []) documents acl 5 1 0 2) ↔ (
      Member (document 2) documents
      × ((document 2).status ≡ ready)
      × (sees acl (some reader) 2 ≡ true))
unfolding visibility_clause granted admits
user_visible_docs_lem_example =
    user_visible_docs_lem same_order (reader ∷ []) documents acl 5 1 reader 2
      (λ ds d. ((λ m. m), (λ m. m))) refl (omega arith) (omega arith) (omega arith) (document 2)
