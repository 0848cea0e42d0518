-- ===== src/Admin/Views/Pages.antt =====
-- The pages of "what can this person see".
use pro_rag.Prelude.{
  ℕ, zero, suc, ◌+◌, ◌≤◌, ◌≡◌, ◌↔◌, refl, ap, sym, ◌∙◌, Bool, true, ◌&&◌, some, List, [], ◌∷◌, ◌++◌,
  arith, take, drop, take-append-drop, length, length-drop, leb, Member, Member-filter,
  Member-of_filter, subst,
}
use pro_rag.Prelude.Reply.{Reply, refused, answer, guard, ◌>>=◌, ◌>>◌, or_404}
use pro_rag.Prelude.Table.{find_by}
use pro_rag.Models.{Document, Status, pending, processing, ready, failed, User, Acl}
use pro_rag.Retrieve.Arms.{is_ready}
use pro_rag.Retrieve.Visibility.{visibility_clause, where_clause, sees}
use pro_rag.Admin.Groups.{user_key}
use pro_rag.Admin.Views.{window, Listing, visible_to, user_visible_docs}

drop-drop : {A : Type 0} (m n : ℕ) (xs : List A) → drop n (drop m xs) ≡ drop (m + n) xs
drop-drop zero n xs = let same : 0 + n ≡ n = omega arith in ap (λ k. drop k xs) (sym same)
drop-drop (suc m) zero [] =
    let same : suc m + 0 ≡ suc m = omega arith in ap (λ k. drop k []) (sym same)
drop-drop (suc m) (suc n) [] =
    let same : suc m + suc n ≡ suc (m + suc n) = omega arith in ap (λ k. drop k []) (sym same)
drop-drop (suc m) n (x ∷ xs) =
    let same : suc m + n ≡ suc (m + n) = omega arith in
    drop-drop m n xs ∙ ap (λ k. drop k (x ∷ xs)) (sym same)

no_rows : {A : Type 0} (xs : List A) → length xs ≤ 0 → xs ≡ []
no_rows [] h = refl
no_rows (x ∷ xs) h = absurd (omega arith)

ready_of : (s : Status) → is_ready s ≡ true → s ≡ ready
ready_of pending h = cc
ready_of processing h = cc
ready_of ready h = refl
ready_of failed h = cc

abbrev items_of : Reply (Listing Document) → List Document
items_of (refused code) = []
items_of (answer listing) = listing.items

module _ (newest_first : List Document → List Document) (users : List User)
    (documents : List Document) (acl : Acl) (user_id limit : ℕ) where
  -- What `n` requests give, each from where the one before ended.
  abbrev pub pages_from : ℕ → ℕ → List Document
  pages_from offset zero = []
  pages_from offset (suc n) =
      items_of (user_visible_docs newest_first users documents acl user_id limit offset)
      ++ pages_from (offset + limit) n

  pages_from-eq :
      (target : User) (offset n : ℕ)
      → find_by user_key users user_id ≡ some target
      → 1 ≤ limit
      → limit ≤ 200
      → length (drop offset (newest_first (visible_to newest_first documents acl target))) ≤ n
      → pages_from offset n
        ≡ drop offset (newest_first (visible_to newest_first documents acl target))
  unfolding user_visible_docs
  pages_from-eq target offset zero found h top k =
      sym (no_rows (drop offset (newest_first (visible_to newest_first documents acl target))) k)
  pages_from-eq target offset (suc n) found h top k =
      let rows : List Document = newest_first (visible_to newest_first documents acl target) in
      let rest : drop limit (drop offset rows) ≡ drop (offset + limit) rows =
        drop-drop offset limit rows in
      ap
        (λ b.
          items_of
            (guard b 422 >> (or_404 (find_by user_key users user_id) >>= λ t. answer (page t)))
          ++ pages_from (offset + limit) n)
        in_range
      ∙ ap (λ o. items_of (or_404 o >>= λ t. answer (page t)) ++ pages_from (offset + limit) n)
          found
      ∙ ap (λ t. take limit (drop offset rows) ++ t)
          (pages_from-eq target (offset + limit) n found h top (
              let shorter : length (drop limit (drop offset rows)) ≤ n =
                omega (arith, length-drop limit (drop offset rows)) in
              subst (λ t. length t ≤ n) rest shorter)
            ∙ sym rest)
      ∙ take-append-drop limit (drop offset rows)
    where
      in_range : leb 1 limit && leb limit 200 ≡ true
      in_range = ground (arith, h, top)

      page : User → Listing Document
      page t = record {
        items = window limit offset (newest_first (visible_to newest_first documents acl t));
        total = length (visible_to newest_first documents acl t);
      }

  -- Where the database's ordering keeps the rows that it is given, the pages of any size from 1 to
  -- 200, as many as there are rows, list for a user on record exactly the documents that are ready and that the
  -- retrieval predicate lets the user see.
  pub user_visible_docs_lem :
      (target : User) (n : ℕ)
      → ((ds : List Document) (d : Document) → Member d (newest_first ds) ↔ Member d ds)
      → find_by user_key users user_id ≡ some target
      → 1 ≤ limit
      → limit ≤ 200
      → length (newest_first (visible_to newest_first documents acl target)) ≤ n
      → (d : Document)
      → Member d (pages_from 0 n)
        ↔ (Member d documents × (d.status ≡ ready) × (sees acl (some target) d.id ≡ true))
  unfolding sees
  user_visible_docs_lem target n keeps found h top k d = (
    (λ m.
        let listed : Member d (visible_to newest_first documents acl target) =
          (keeps seen d).0 (subst (Member d) all m) in
        let (there, ok) = Member-of_filter test documents d listed in
        (there, ready_of d.status (first_of ok), second_of ok)),
    (λ m.
        let ok : test d ≡ true =
          ap (λ s. is_ready s && where_clause (visibility_clause acl (some target)) d.id) m.1
          ∙ m.2 in
        subst (Member d) (sym all) ((keeps seen d).1 (Member-filter test documents d m.0 ok))),
  )
    where
      seen : List Document
      seen = visible_to newest_first documents acl target

      test : Document → Bool
      test e = is_ready e.status && where_clause (visibility_clause acl (some target)) e.id

      all : pages_from 0 n ≡ newest_first seen
      all = pages_from-eq target 0 n found h top k

      first_of : test d ≡ true → is_ready d.status ≡ true
      first_of e = ground (arith, e)

      second_of : test d ≡ true → where_clause (visibility_clause acl (some target)) d.id ≡ true
      second_of e = ground (arith, e)
