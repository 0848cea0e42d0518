-- ===== src/Ingest/Parse.antt =====
-- From bytes to pages, elements and tables: prorag/ingest/parse.py. PyMuPDF, docling, pandas and the
-- vision model are parameters: what they return, or the exception that they raise.
use pro_rag.Prelude.{
  ℕ, zero, suc, ◌*◌, Bool, true, false, not, ◌&&◌, ◌||◌, Option, none, some, List, [], ◌∷◌, ◌++◌,
  map, ltb, ◌==◌, if◌then◌else◌, any, Text, same_text, length,
}
use pro_rag.Prelude.Raise.{Outcome, returned, ◌>>=◌, for_each, or_else}
use pro_rag.Prelude.Sort.{Order}
use pro_rag.Prelude.Words.{codes, lower, split}
use pro_rag.Ingest.Chunk.{Element, Bbox}
use pro_rag.Ingest.Mime.{Mime, pdf, tsv, xlsx, same_mime, is_docling}

abbrev pub Bytes : Type 0
Bytes = List ℕ

-- `fitz.open` and `page.get_text()`
pub record Fitz : Type 1 where
  pub Page : Type 0
  pub open_pdf : Bytes → Outcome (List Page)
  pub get_text : Page → Outcome Text

-- `text.strip()` is not empty: the text has a word.
abbrev pub has_words : Text → Bool
has_words s = elim (split s) [ [] ↦ false | _ ∷ _ ↦ true ]

module _ (fitz : Fitz) (decode : Bytes → Text) where
  unfoldable pub parse_to_pages : Bytes → Mime → Outcome (List Text)
  parse_to_pages content mime =
      if same_mime mime pdf
      then fitz.open_pdf content >>= for_each fitz.get_text
      else returned (decode content ∷ [])

  pub pdf_page_count : Bytes → Mime → ℕ
  pdf_page_count content mime =
      if not (same_mime mime pdf)
      then 1
      else or_else 1 (fitz.open_pdf content >>= λ pages. returned (length pages))

  -- `any(...)` over the pages, which reads none after the first with text
  abbrev any_text : List fitz.Page → Outcome Bool
  any_text [] = returned false
  any_text (p ∷ pages) =
      fitz.get_text p >>= λ t. if has_words t then returned true else any_text pages

  pub pdf_has_text_layer : Bytes → Bool
  pdf_has_text_layer content = or_else true (fitz.open_pdf content >>= any_text)

-- One call per page, from page 1: the text that the model gives, "" for none.
abbrev pub pages_from : (ℕ → Outcome Text) → ℕ → ℕ → Outcome (List Text)
pages_from transcribe page_no zero = returned []
pages_from transcribe page_no (suc left) =
    transcribe page_no >>= λ t. pages_from transcribe (suc page_no) left >>= λ ts. returned (t ∷ ts)

pub ocr_pages : (Bytes → Mime → ℕ → Outcome Text) → Bytes → Mime → ℕ → Outcome (List Text)
ocr_pages transcribe content mime page_count = pages_from (transcribe content mime) 1 page_count

module _ (o : Order) (Value : Type 0) where
  pub record ParsedTable : Type 0 where
    pub caption : Option Text
    pub columns : List Text
    pub rows : List (List (Text × Value))
    pub page_no : Option ℕ
    pub bbox : Option (Bbox o)

  pub record ParsedDocument : Type 0 where
    pub prose : List (Element o)
    pub tables : List ParsedTable
    pub page_count : Option ℕ

  -- The header and the records of a data frame.
  pub record DataFrame : Type 0 where
    pub columns : List Text
    pub rows : List (List (Text × Value))

  -- An item of docling's document: its label, or its type's name; its text; whether its type is
  -- `TableItem`; its first provenance; and, with `export_to_dataframe`, what that gives, and its
  -- caption.
  pub record Item : Type 0 where
    pub label : Text
    pub is_table_item : Bool
    pub text : Text
    pub page_no : Option ℕ
    pub bbox : Option (Bbox o)
    pub export_to_dataframe : Option (Outcome DataFrame)
    pub caption_text : Outcome (Option Text)

  pub record DoclingDocument : Type 0 where
    pub items : List Item
    pub num_pages : Option ℕ

  -- The state of the loop over the items.
  pub record Reading : Type 0 where
    pub prose : List (Element o)
    pub tables : List ParsedTable
    pub heading_stack : List Text

  abbrev is_label : List Text → Text → Bool
  is_label names label = any (same_text (lower label)) names

  abbrev page_or_1 : Option ℕ → ℕ
  page_or_1 none = 1
  page_or_1 (some zero) = 1
  page_or_1 (some (suc n)) = suc n

  abbrev table_of : Item → DataFrame → ParsedTable
  table_of item df = record {
    caption = or_else none item.caption_text;
    columns = df.columns;
    rows = df.rows;
    page_no = item.page_no;
    bbox = item.bbox;
  }

  abbrev add_table : Reading → Item → Outcome Reading
  add_table r item = elim item.export_to_dataframe [
    | none ↦ returned r
    | some exported ↦
        exported >>= λ df. returned (record r { tables = r.tables ++ table_of item df ∷ [] })
  ]

  abbrev add_prose : Reading → Item → Reading
  add_prose r item =
      if has_words item.text
      then record r {
        prose =
            r.prose
            ++ record {
              text = item.text;
              page = page_or_1 item.page_no;
              heading_path = r.heading_stack;
              bbox = item.bbox;
            }
              ∷ [];
      }
      else r

  pub read_item : Reading → Item → Outcome Reading
  read_item r item =
      if is_label (codes "section_header" ∷ codes "title" ∷ codes "heading" ∷ []) item.label
      then returned (record r { heading_stack = item.text ∷ [] })
      else if is_label (codes "table" ∷ []) item.label || item.is_table_item
      then add_table r item
      else returned (add_prose r item)

  abbrev read_items : Reading → List Item → Outcome Reading
  read_items r [] = returned r
  read_items r (item ∷ items) = read_item r item >>= λ r'. read_items r' items

  abbrev put_page : ℕ → List ℕ → List ℕ
  put_page p pages = if any (λ q. q == p) pages then pages else p ∷ pages

  abbrev prose_pages : List (Element o) → List ℕ → List ℕ
  prose_pages [] pages = pages
  prose_pages (e ∷ prose) pages = put_page e.page (prose_pages prose pages)

  abbrev put_table_page : Option ℕ → List ℕ → List ℕ
  put_table_page none pages = pages
  put_table_page (some zero) pages = pages
  put_table_page (some (suc n)) pages = put_page (suc n) pages

  abbrev table_pages : List ParsedTable → List ℕ → List ℕ
  table_pages [] pages = pages
  table_pages (t ∷ tables) pages = put_table_page t.page_no (table_pages tables pages)

  -- The pages that an element or a table stands on, each once.
  abbrev pub covered : Reading → List ℕ
  covered r = prose_pages r.prose (table_pages r.tables [])

  -- `page_count and covered and len(covered) / page_count < 0.5`
  abbrev pub is_hollow : Option ℕ → ℕ → Bool
  is_hollow none seen = false
  is_hollow (some page_count) seen = ltb 0 page_count && ltb 0 seen && ltb (2 * seen) page_count

  abbrev gated : Option ℕ → Reading → Option ParsedDocument
  gated page_count r =
      if is_hollow page_count (length (covered r))
      then none
      else some (record { prose = r.prose; tables = r.tables; page_count = page_count })

  abbrev read_document : DoclingDocument → Outcome (Option ParsedDocument)
  read_document doc =
      read_items (record { prose = []; tables = []; heading_stack = [] }) doc.items >>= λ r.
      returned (gated doc.num_pages r)

  -- `convert` is the import, the converter and its run on a copy of the file.
  pub try_docling_parse :
      Bool → (Bytes → Text → Outcome DoclingDocument) → Bytes → Mime → Text → Option ParsedDocument
  unfolding read_item
  try_docling_parse docling_available convert content mime filename =
      if not docling_available || not (is_docling mime)
      then none
      else or_else none (convert content filename >>= read_document)

  abbrev sheet_table : Option Text × DataFrame → ParsedTable
  sheet_table sheet = record {
    caption = sheet.0;
    columns = sheet.1.columns;
    rows = sheet.1.rows;
    page_no = none;
    bbox = none;
  }

  -- `pd.read_excel` gives the named sheets, `pd.read_csv` one data frame.
  pub parse_structured :
      (Bytes → Outcome (List (Text × DataFrame)))
      → (ℕ → Bytes → Outcome DataFrame)
      → Bytes
      → Mime
      → Outcome (List ParsedTable)
  parse_structured read_excel read_csv content mime =
      if same_mime mime xlsx
      then (read_excel content >>= λ sheets.
          returned (map (λ s. sheet_table (some s.0, s.1)) sheets))
      else (read_csv (if same_mime mime tsv then 9 else 44) content >>= λ df.
          returned (sheet_table (none, df) ∷ []))
