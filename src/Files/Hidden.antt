-- ===== src/Files/Hidden.antt =====
-- A document that is hidden from a user looks like one that is not there.
use pro_rag.Prelude.{
  ℕ, ◌≡◌, ◌⊎◌, refl, ap, sym, ◌∙◌, inl, inr, Bool, true, false, ◌&&◌, Option, none, List, [], ◌∷◌,
  ◌==◌, ==_iff, if◌then◌else◌, if_true, if_false, Bool-cases, any, arith,
}
use pro_rag.Prelude.Reply.{Reply, refused, guard, ◌>>◌, or_404}
use pro_rag.Prelude.Table.{find_by}
use pro_rag.Models.{Document, User, Acl}
use pro_rag.Retrieve.Visibility.{visible_doc_guard, visibility_clause, where_clause, sees}
use pro_rag.Files.{document_key, get_original}

guard_of_sees :
    (documents : List Document) (acl : Acl) (user : Option User) (id : ℕ)
    → visible_doc_guard documents acl user id
      ≡ any (λ (d : Document). d.id == id) documents && sees acl user id
unfolding visible_doc_guard sees
guard_of_sees [] acl user id = refl
guard_of_sees (d ∷ documents) acl user id = elim (Bool-cases (d.id == id)) [
  | inl t ↦
      let same : where_clause (visibility_clause acl user) d.id
          ≡ where_clause (visibility_clause acl user) id =
        ap (where_clause (visibility_clause acl user)) ((==_iff d.id id).0 t) in
      ground (arith, t, same, guard_of_sees documents acl user id)
  | inr t ↦ ground (arith, t, guard_of_sees documents acl user id)
]

none_of_any :
    (documents : List Document) (id : ℕ)
    → any (λ (d : Document). d.id == id) documents ≡ false
    → find_by document_key documents id ≡ none
none_of_any [] id h = refl
none_of_any (d ∷ documents) id h = ground (arith, h, none_of_any documents id)

abbrev guarded : Bool → Option Document → Reply Document
guarded ok o = guard ok 404 >> or_404 o

-- The file of a document is sent exactly where the document is on record and the retrieval predicate
-- lets the user see it; hidden or missing, the answer is one and the same 404.
pub get_original_lem :
    (documents : List Document) (acl : Acl) (user : Option User) (id : ℕ)
    → get_original documents acl user id
      ≡ (if sees acl user id then or_404 (find_by document_key documents id) else refused 404)
unfolding get_original
get_original_lem documents acl user id = elim (Bool-cases (sees acl user id)) [
  | inl t ↦
      by_record t (Bool-cases (any (λ (d : Document). d.id == id) documents)) ∙ sym (if_true _ _ t)
  | inr t ↦
      let hidden : visible_doc_guard documents acl user id ≡ false =
        guard_of_sees documents acl user id ∙ ground (arith, t) in
      ap (λ b. guarded b (find_by document_key documents id)) hidden ∙ sym (if_false _ _ t)
]
  where
    by_record :
        sees acl user id ≡ true
        → (any (λ (d : Document). d.id == id) documents ≡ true)
          ⊎ (any (λ (d : Document). d.id == id) documents ≡ false)
        → guarded (visible_doc_guard documents acl user id) (find_by document_key documents id)
          ≡ or_404 (find_by document_key documents id)
    by_record t (inl there) =
        let ok : visible_doc_guard documents acl user id ≡ true =
          guard_of_sees documents acl user id ∙ ground (arith, t, there) in
        ap (λ b. guarded b (find_by document_key documents id)) ok
    by_record t (inr missing) =
        let no : visible_doc_guard documents acl user id ≡ false =
          guard_of_sees documents acl user id ∙ ground (arith, t, missing) in
        ap (λ b. guarded b (find_by document_key documents id)) no
        ∙ ap or_404 (sym (none_of_any documents id missing))
