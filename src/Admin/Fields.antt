-- ===== src/Admin/Fields.antt =====
-- The fields of a PATCH body of prorag/schemas.py, and their `setattr` on a row.
use pro_rag.Prelude.{Option, none, some}
use pro_rag.Prelude.Reply.{Reply, refused, answer}

-- A field of a PATCH body: left out, null, or given.
pub data Field (A : Type 0) : Type 0 where
  unset null : Field A
  given : A → Field A

-- A column that is NOT NULL: a null is an error of the database at the commit.
abbrev pub set_field : {A : Type 0} → A → Field A → Reply A
set_field old unset = answer old
set_field old null = refused 500
set_field old (given new) = answer new

abbrev pub set_nullable : {A : Type 0} → Option A → Field A → Option A
set_nullable old unset = old
set_nullable old null = none
set_nullable old (given new) = some new
