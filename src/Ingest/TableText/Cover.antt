-- ===== src/Ingest/TableText/Cover.antt =====
-- The row artifacts of a table cover its rows.
use pro_rag.Prelude.{
  ℕ, zero, suc, ◌+◌, ◌-◌, ◌≤◌, ◌≡◌, refl, sym, ap, inl, inr, Option, some, List, [], ◌∷◌, ◌++◌, map,
  arith, if_cases, Text, length, take, drop, take-append-drop, length-take, length-drop, min, subst,
  Member, Member-map,
}
use pro_rag.Prelude.Infix.{Infix, infix_self, infix_behind, infix_before, infix_trans, infix-join}
use pro_rag.Prelude.Words.{codes, join}
use pro_rag.Prelude.Slices.{slices_of}
use pro_rag.Ingest.TableText.{
  TableArtifact, Row, is_wide_table, numbered_windows, build_row_windows, kv_from,
  build_row_kv_chunks, build_table_artifacts, cell, row_of_bars, bar, newline, window_text, kv_text,
  row_to_markdown,
}

abbrev pub row_artifacts : List TableArtifact → List TableArtifact
row_artifacts [] = []
row_artifacts (summary ∷ artifacts) = artifacts

module _ {Value : Type 0} (str_of : Value → Text) (columns : List Text) where
  -- The text holds each cell of the rows.
  abbrev pub Shows : Text → List (Row str_of) → Type 0
  Shows text block =
      (r : Row str_of) (c : Text) → Member r block → Member c columns → Infix (cell str_of r c) text

  -- The artifacts take the rows one block after the other, none empty and none left out: each is
  -- numbered by its first row and its last, and shows all cells of its block.
  abbrev pub Covers : ℕ → List (Row str_of) → List TableArtifact → Type 0
  Covers start rows [] = rows ≡ []
  Covers start rows (a ∷ artifacts) =
      (block : List (Row str_of)) × (rest : List (Row str_of)) × (rows ≡ block ++ rest)
      × (1 ≤ length block)
      × (a.row_start ≡ some start)
      × (a.row_end ≡ some (start + length block - 1))
      × Shows a.text block
      × Covers (start + length block) rest artifacts

  in_bars : (cells : List Text) (t : Text) → Member t cells → Infix t (row_of_bars cells)
  in_bars cells t m =
      infix_behind (codes "| ") t (join bar cells ++ codes " |")
        (infix_before t (join bar cells) (codes " |") (infix-join bar t cells m))

  window-Shows : (block : List (Row str_of)) → Shows (window_text str_of columns block) block
  window-Shows block r c m k =
      let head : Text = row_of_bars columns in
      let dashes : Text = row_of_bars (map (λ _. codes "---") columns) in
      let lines : Text = join newline (map (λ x. row_to_markdown str_of x columns) block) in
      let s : Text = cell str_of r c in
      let in_line : Infix s lines =
        infix_trans s (row_to_markdown str_of r columns) lines
          (in_bars (map (cell str_of r) columns) s (Member-map (cell str_of r) columns c k))
          (infix-join newline (row_to_markdown str_of r columns)
            (map (λ x. row_to_markdown str_of x columns) block)
            (Member-map (λ x. row_to_markdown str_of x columns) block r m)) in
      infix_behind (head ++ newline ++ dashes ++ newline) s lines in_line

  kv-Shows : (r : Row str_of) → Shows (kv_text str_of columns r) (r ∷ [])
  kv-Shows r q c (inl e) k =
      let pair : Text → Text = λ d. d ++ codes ": " ++ cell str_of r d in
      let s : Text = cell str_of r c in
      subst (λ x. Infix (cell str_of x c) (kv_text str_of columns r)) (sym e)
        (infix_trans s (pair c) (join bar (map pair columns))
          (infix_behind (c ++ codes ": ") s s (infix_self s))
          (infix-join bar (pair c) (map pair columns) (Member-map pair columns c k)))
  kv-Shows r q c (inr m) k = absurd m

  windows_cover :
      (fuel size start : ℕ) (rows : List (Row str_of))
      → 1 ≤ size
      → length rows ≤ fuel
      → Covers start rows (numbered_windows str_of columns start (slices_of fuel size rows))
  windows_cover zero size start [] h k = refl
  windows_cover zero size start (r ∷ rows) h k = absurd (omega arith)
  windows_cover (suc fuel) size start [] h k = refl
  windows_cover (suc fuel) size start (r ∷ rows) h k =
      let window : List (Row str_of) = take size (r ∷ rows) in
      let rest : List (Row str_of) = drop size (r ∷ rows) in
      let taken : length window ≡ min size (suc (length rows)) = length-take size (r ∷ rows) in
      let left : length rest ≡ suc (length rows) - size = length-drop size (r ∷ rows) in
      (
        window,
        rest,
        sym (take-append-drop size (r ∷ rows)),
        omega arith,
        refl,
        refl,
        window-Shows window,
        windows_cover fuel size (start + length window) rest h (omega arith),
      )

  kv_cover :
      (start : ℕ) (rows : List (Row str_of)) → Covers start rows (kv_from str_of columns start rows)
  kv_cover start [] = refl
  kv_cover start (r ∷ rows) = (
    r ∷ [],
    rows,
    refl,
    omega arith,
    refl,
    ap (λ n. some n) (omega arith),
    kv-Shows r,
    subst (λ n. Covers n rows (kv_from str_of columns (suc start) rows)) (omega arith)
        (kv_cover (suc start) rows),
  )

  -- Besides its summary, a table gives artifacts that cover its rows in order, with no row left out
  -- and none twice, whether the table is wide or not; and the text of each holds the cells of its
  -- rows in all columns.
  pub build_table_artifacts_lem :
      (caption : Option Text) (rows : List (Row str_of))
      → Covers 0 rows (row_artifacts (build_table_artifacts str_of caption columns rows))
  unfolding build_table_artifacts build_row_windows build_row_kv_chunks
  build_table_artifacts_lem caption rows =
      if_cases (Covers 0 rows) (is_wide_table columns) {x = build_row_kv_chunks str_of columns rows}
        {y = build_row_windows str_of columns rows 25} (λ _. kv_cover 0 rows)
        (λ _. windows_cover (length rows) 25 0 rows (omega arith) (omega arith))
