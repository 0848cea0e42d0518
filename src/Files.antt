-- ===== src/Files.antt =====
-- What a user is served of a document: prorag/files/router.py.
use pro_rag.Prelude.{
  ℕ, ◌≤◌, Bool, true, false, not, Option, none, some, List, [], ◌∷◌, ◌==◌, if◌then◌else◌, filter,
  take, drop, length,
}
use pro_rag.Prelude.Reply.{Reply, refused, answer, guard, ◌>>=◌, ◌>>◌, or_404}
use pro_rag.Prelude.Table.{find_by}
use pro_rag.Models.{Document, User, Acl, TableRow}
use pro_rag.Retrieve.Arms.{is_ready}
use pro_rag.Retrieve.Visibility.{visible_doc_guard}
pub mod Hidden
mod Tests

-- A row of `tables`, as far as it is read.
pub record StoredTable : Type 0 where
  pub id : ℕ
  pub doc_id : ℕ

abbrev pub document_key : Document → ℕ
document_key d = d.id

abbrev pub table_key : StoredTable → ℕ
table_key t = t.id

-- How many documents there are, and how many are ready.
pub stats : List Document → ℕ × ℕ
stats documents =
    (length documents, length (filter (λ (d : Document). is_ready d.status) documents))

-- The document whose blob is sent.
pub get_original : List Document → Acl → Option User → ℕ → Reply Document
get_original documents acl user doc_id =
    guard (visible_doc_guard documents acl user doc_id) 404
    >> or_404 (find_by document_key documents doc_id)

-- `sorted_rows` is ORDER BY row_no.
pub get_table_rows :
    {D : Type 0}
    → (List (TableRow D) → List (TableRow D))
    → List StoredTable
    → List (TableRow D)
    → List Document
    → Acl
    → Option User
    → ℕ
    → ℕ
    → ℕ
    → Reply (List (TableRow D))
get_table_rows {D} sorted_rows tables rows documents acl user table_id limit offset =
    or_404 (find_by table_key tables table_id) >>= λ table.
    guard (visible_doc_guard documents acl user table.doc_id) 404
    >> answer (
        take limit
          (drop offset (sorted_rows (filter (λ (r : TableRow D). r.table_id == table_id) rows))))
