-- ===== src/Ingest/TableText/Tests.antt =====
-- A table of one column and two rows.
use pro_rag.Prelude.{none, List, [], ◌∷◌, Text}
use pro_rag.Prelude.Words.{codes}
use pro_rag.Ingest.TableText.{build_table_artifacts}
use pro_rag.Ingest.TableText.Cover.{Covers, row_artifacts, build_table_artifacts_lem}

abbrev same : Text → Text
same s = s

abbrev two_rows : List (List (Text × Text))
two_rows = ((codes "c", codes "1") ∷ []) ∷ ((codes "c", codes "2") ∷ []) ∷ []

build_table_artifacts_lem_example :
    Covers same
      (codes "c" ∷ [])
      0
      two_rows
      (row_artifacts (build_table_artifacts same none (codes "c" ∷ []) two_rows))
build_table_artifacts_lem_example = build_table_artifacts_lem same (codes "c" ∷ []) none two_rows
