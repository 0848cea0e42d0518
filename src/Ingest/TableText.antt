-- ===== src/Ingest/TableText.antt =====
-- The texts made of a table: prorag/ingest/tables.py. A cell's value is of any type, with its `str`.
use pro_rag.Prelude.{
  ℕ, zero, suc, ◌+◌, ◌-◌, ◌/◌, ◌%◌, max, Bool, true, false, Option, none, some, List, [], ◌∷◌, ◌++◌,
  map, ltb, ◌==◌, if◌then◌else◌, Text, same_text, take, length,
}
use pro_rag.Prelude.Slices.{slices}
use pro_rag.Prelude.Words.{codes, join, is_empty}
use pro_rag.Models.{Kind, row, table_window, table_summary}
pub mod Cover
mod Tests

pub record TableArtifact : Type 0 where
  pub kind : Kind
  pub text : Text
  pub row_start : Option ℕ
  pub row_end : Option ℕ

-- `str(n)`, with as many digits as the first argument allows
abbrev digits : ℕ → ℕ → Text
digits zero n = []
digits (suc fuel) n =
    let rest = digits fuel (n / 10) in
    if ltb n 10 then (48 + n) ∷ [] else rest ++ (48 + n % 10) ∷ []

-- A number has at most as many digits as it has units, and one more.
abbrev pub str : ℕ → Text
str n = digits (suc n) n

abbrev pub is_wide_table : List Text → Bool
is_wide_table columns = ltb 12 (length columns)

abbrev pub bar : Text
bar = codes " | "

abbrev pub row_of_bars : List Text → Text
row_of_bars cells = codes "| " ++ join bar cells ++ codes " |"

abbrev pub newline : Text
newline = 10 ∷ []

abbrev pub or_untitled : Option Text → Text
or_untitled none = codes "Untitled table"
or_untitled (some caption) = if is_empty caption then codes "Untitled table" else caption

module _ {Value : Type 0} (str_of : Value → Text) where
  -- A row by its columns: the `dict` of a record.
  abbrev pub Row : Type 0
  Row = List (Text × Value)

  -- `str(row.get(c, ""))`
  abbrev pub cell : Row → Text → Text
  cell [] c = []
  cell (e ∷ r) c = let rest = cell r c in if same_text e.0 c then str_of e.1 else rest

  abbrev pub row_to_markdown : Row → List Text → Text
  row_to_markdown r columns = row_of_bars (map (cell r) columns)

  pub build_table_summary : Option Text → List Text → List Row → Text
  build_table_summary caption columns rows =
      codes "Table: "
      ++ or_untitled caption
      ++ codes ". Columns: "
      ++ join (codes ", ") columns
      ++ codes ". "
      ++ str (length rows)
      ++ codes " rows."
      ++ newline
      ++ codes "Sample:"
      ++ newline
      ++ row_of_bars columns
      ++ newline
      ++ join newline (map (λ r. row_to_markdown r columns) (take 3 rows))

  abbrev pub window_text : List Text → List Row → Text
  window_text columns window =
      row_of_bars columns
      ++ newline
      ++ row_of_bars (map (λ _. codes "---") columns)
      ++ newline
      ++ join newline (map (λ r. row_to_markdown r columns) window)

  -- The windows, each with where it starts.
  abbrev pub numbered_windows : List Text → ℕ → List (List Row) → List TableArtifact
  numbered_windows columns start [] = []
  numbered_windows columns start (window ∷ windows) =
      record {
        kind = table_window;
        text = window_text columns window;
        row_start = some start;
        row_end = some (start + length window - 1);
      }
      ∷ numbered_windows columns (start + length window) windows

  pub build_row_windows : List Text → List Row → ℕ → List TableArtifact
  build_row_windows columns rows window_size = numbered_windows columns 0 (slices window_size rows)

  abbrev pub kv_text : List Text → Row → Text
  kv_text columns r = join bar (map (λ c. c ++ codes ": " ++ cell r c) columns)

  abbrev pub kv_from : List Text → ℕ → List Row → List TableArtifact
  kv_from columns i [] = []
  kv_from columns i (r ∷ rows) =
      record { kind = row; text = kv_text columns r; row_start = some i; row_end = some i }
      ∷ kv_from columns (suc i) rows

  pub build_row_kv_chunks : List Text → List Row → List TableArtifact
  build_row_kv_chunks columns rows = kv_from columns 0 rows

  -- `DEFAULT_WINDOW_SIZE` is 25.
  pub build_table_artifacts : Option Text → List Text → List Row → List TableArtifact
  unfolding build_table_summary build_row_windows build_row_kv_chunks
  build_table_artifacts caption columns rows =
      record {
        kind = table_summary;
        text = build_table_summary caption columns rows;
        row_start = none;
        row_end = none;
      }
      ∷ (if is_wide_table columns
          then build_row_kv_chunks columns rows
          else build_row_windows columns rows 25)
