-- ===== src/Ingest/Mime.antt =====
-- What kind of file it is: `guess_mime` and `sniff_mime` of prorag/ingest/parse.py, and the checks
-- of `POST /ingest` in prorag/ingest/router.py. A MIME type that the program names is a constructor.
use pro_rag.Prelude.{
  ℕ, Bool, true, false, not, ◌&&◌, ◌||◌, Option, none, some, List, [], ◌∷◌, ◌++◌, ◌==◌, ltb, leb,
  if◌then◌else◌, any, Text, take, length,
}
use pro_rag.Prelude.Reply.{Reply, refused, answer, guard, ◌>>=◌, ◌>>◌}
use pro_rag.Prelude.Words.{codes, starts_with, ends_with, lower, is_empty}
use pro_rag.Ingest.Embed.{contains}

pub data Mime : Type 0 where
  pdf docx pptx xlsx tsv csv markdown png jpeg tiff webp plain : Mime

-- The constants of the program are compared as texts; these are different ones.
abbrev pub code_of : Mime → ℕ
code_of pdf = 0
code_of docx = 1
code_of pptx = 2
code_of xlsx = 3
code_of tsv = 4
code_of csv = 5
code_of markdown = 6
code_of png = 7
code_of jpeg = 8
code_of tiff = 9
code_of webp = 10
code_of plain = 11

abbrev pub same_mime : Mime → Mime → Bool
same_mime a b = code_of a == code_of b

abbrev pub is_image : Mime → Bool
is_image m = leb 7 (code_of m) && leb (code_of m) 10

abbrev pub ends_in : Text → List Text → Bool
ends_in name = any (ends_with name)

abbrev pub image_kind : Text → Mime
image_kind name =
    if ends_with name (codes ".png")
    then png
    else if ends_in name (codes ".jpg" ∷ codes ".jpeg" ∷ [])
    then jpeg
    else if ends_in name (codes ".tiff" ∷ codes ".tif" ∷ [])
    then tiff
    else webp

abbrev pub by_suffix : Text → Mime
by_suffix name =
    if ends_with name (codes ".pdf")
    then pdf
    else if ends_with name (codes ".docx")
    then docx
    else if ends_with name (codes ".pptx")
    then pptx
    else if ends_with name (codes ".xlsx")
    then xlsx
    else if ends_with name (codes ".tsv")
    then tsv
    else if ends_with name (codes ".csv")
    then csv
    else if ends_with name (codes ".md")
    then markdown
    else if ends_in name (
        codes ".png"
        ∷ codes ".jpg"
        ∷ codes ".jpeg"
        ∷ codes ".tiff"
        ∷ codes ".tif"
        ∷ codes ".webp"
        ∷ [])
    then image_kind name
    else plain

unfoldable pub guess_mime : Text → Mime
unfolding lower
guess_mime filename = by_suffix (lower filename)

-- A signature's type, where "zip" stands for the containers of Office.
pub data Signature : Type 0 where
  zip : Signature
  is_mime : Mime → Signature

abbrev pub signatures : List (List ℕ × Signature)
signatures =
    (codes "%PDF-", is_mime pdf)
    ∷ (codes "PK" ++ 3 ∷ 4 ∷ [], zip)
    ∷ (137 ∷ codes "PNG" ++ 13 ∷ 10 ∷ 26 ∷ 10 ∷ [], is_mime png)
    ∷ (255 ∷ 216 ∷ 255 ∷ [], is_mime jpeg)
    ∷ (codes "II*" ++ 0 ∷ [], is_mime tiff)
    ∷ (codes "MM" ++ 0 ∷ codes "*", is_mime tiff)
    ∷ (codes "RIFF", is_mime webp)
    ∷ []

abbrev pub ooxml_markers : List (List ℕ × Mime)
ooxml_markers = (codes "word/", docx) ∷ (codes "ppt/", pptx) ∷ (codes "xl/", xlsx) ∷ []

abbrev pub first_marker : List (List ℕ × Mime) → List ℕ → Option Mime
first_marker [] head = none
first_marker (m ∷ markers) head =
    let rest = first_marker markers head in if contains head m.0 then some m.1 else rest

abbrev pub of_signature : Signature → List ℕ → Option Mime
of_signature (is_mime m) head = some m
of_signature zip head = first_marker ooxml_markers (take 4096 head)

abbrev pub first_signature : List (List ℕ × Signature) → List ℕ → Option Mime
first_signature [] content = none
first_signature (s ∷ rows) content =
    let rest = first_signature rows content in
    if starts_with content s.0 then of_signature s.1 content else rest

-- The bytes of a file are numbers.
unfoldable pub sniff_mime : List ℕ → Option Mime
sniff_mime content = first_signature signatures content

abbrev pub is_structured : Mime → Bool
is_structured csv = true
is_structured tsv = true
is_structured xlsx = true
is_structured _ = false

abbrev pub is_docling : Mime → Bool
is_docling pdf = true
is_docling docx = true
is_docling pptx = true
is_docling _ = false

abbrev pub allowed_suffixes : List Text
allowed_suffixes =
    codes ".pdf"
    ∷ codes ".txt"
    ∷ codes ".md"
    ∷ codes ".docx"
    ∷ codes ".pptx"
    ∷ codes ".csv"
    ∷ codes ".xlsx"
    ∷ codes ".tsv"
    ∷ codes ".png"
    ∷ codes ".jpg"
    ∷ codes ".jpeg"
    ∷ codes ".tiff"
    ∷ codes ".tif"
    ∷ codes ".webp"
    ∷ []

abbrev in_collection_name : ℕ → Bool
in_collection_name c =
    (leb 65 c && leb c 90)
    || (leb 97 c && leb c 122)
    || (leb 48 c && leb c 57)
    || c == 95
    || c == 45

abbrev every : (ℕ → Bool) → Text → Bool
every p [] = true
every p (c ∷ s) = p c && every p s

-- `^[A-Za-z0-9_-]{1,64}$`, which also takes one newline at the end
abbrev pub is_collection_name : Text → Bool
is_collection_name s = every in_collection_name s && leb 1 (length s) && leb (length s) 64

abbrev drop_newline : Text → Text
drop_newline [] = []
drop_newline (c ∷ []) = if c == 10 then [] else c ∷ []
drop_newline (c ∷ d ∷ s) = c ∷ drop_newline (d ∷ s)

-- The loop over the parts that `file.read` gives, to the file's bytes.
abbrev read_parts : ℕ → List ℕ → List (List ℕ) → Reply (List ℕ)
read_parts limit buf [] = answer buf
read_parts limit buf (part ∷ parts) =
    let rest = read_parts limit (buf ++ part) parts in
    if ltb limit (length (buf ++ part)) then refused 413 else rest

abbrev named_or_upload : Option Text → Text
named_or_upload none = codes "upload"
named_or_upload (some name) = if is_empty name then codes "upload" else name

-- `POST /ingest`, up to the call of `ingest_bytes`: the file's name and its bytes.
pub accept_upload : ℕ → Option Text → Text → List (List ℕ) → Reply (Text × List ℕ)
unfolding lower ends_with
accept_upload max_upload_bytes name collection parts =
    let filename = take 255 (named_or_upload name) in
    guard (ends_in (lower filename) allowed_suffixes) 400
    >> guard (is_collection_name (drop_newline collection)) 400
    >> (read_parts max_upload_bytes [] parts >>= λ content.
        guard (not (is_empty content)) 400 >> answer (filename, content))
