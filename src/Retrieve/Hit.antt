-- ===== src/Retrieve/Hit.antt =====
-- What the retrieval stages hand on: one hit, a Python dict in the source, as a record.
-- A key that a dict may lack is an `Option`.
use pro_rag.Prelude.{ℕ, Option, List, Text}
use pro_rag.Prelude.Sort.{Order}

-- Python's floats, as far as retrieval computes with them.
pub record Floats : Type 1 where
  pub order : Order
  pub open order use *
  pub zero : Score
  pub one : Score
  pub add : Score → Score → Score
  pub sub : Score → Score → Score
  -- a weight divided by an `int`
  pub div : Score → ℕ → Score

pub record Hit (o : Order) : Type 0 where
  pub chunk_id : ℕ
  pub doc_id : Option ℕ
  pub text : Text
  pub page : Option ℕ
  pub bbox : Option (List o.Score)
  pub kind : Option Text
  pub title : Option Text
  pub title_norm : Option Text
  pub doc_date : Option ℕ
  pub token_count : Option ℕ
  pub score : o.Score
