-- ===== src/Retrieve/Samples.antt =====
-- Numbers as scores, a few hits, and a small database.
use pro_rag.Prelude.{
  ℕ, ◌+◌, ◌-◌, ◌/◌, ◌≡◌, ◌⊎◌, true, false, length, none, some, List, [], ◌∷◌, leb, arith, Text,
}
use pro_rag.Prelude.Sort.{Order, sort_desc, sort_desc-All}
use pro_rag.Prelude.Words.{codes}
use pro_rag.Models.{ready, Document, prose, Chunk, User}
use pro_rag.Retrieve.Hit.{Floats, Hit}
use pro_rag.Retrieve.Arms.{Engine, Orders}

pub leb_total : (a b : ℕ) → (leb a b ≡ true) ⊎ (leb b a ≡ true)
leb_total a b = ground arith

pub leb_trans : (a b c : ℕ) → leb a b ≡ true → leb b c ≡ true → leb a c ≡ true
leb_trans a b c h k = ground arith

abbrev pub scores : Order
scores = record { Score = ℕ; le = leb; total = leb_total; trans = leb_trans }

-- Millionths.
abbrev pub floats : Floats
floats = record {
  order = scores;
  zero = 0;
  one = 1000000;
  add = λ a b. a + b;
  sub = λ a b. a - b;
  div = λ w n. w / n;
}

abbrev pub hit : ℕ → ℕ → Text → ℕ → ℕ → Hit scores
hit chunk_id doc_id title doc_date score = record {
  chunk_id = chunk_id;
  doc_id = some doc_id;
  text = codes "some words";
  page = some 1;
  bbox = none;
  kind = some (codes "prose");
  title = some title;
  title_norm = some title;
  doc_date = some doc_date;
  token_count = some 100;
  score = score;
}

-- Two printings of one report, the newer one ranked lower, and another document.
abbrev pub old_report : Hit scores
old_report = hit 1 10 (codes "report") 2020 900

abbrev pub new_report : Hit scores
new_report = hit 2 11 (codes "report") 2024 800

abbrev pub memo : Hit scores
memo = hit 3 12 (codes "memo") 2021 700

abbrev pub hits : List (Hit scores)
hits = memo ∷ old_report ∷ new_report ∷ []

abbrev pub descending : {A : Type 0} → (A → ℕ) → List A → List A
descending f xs = sort_desc scores f xs

abbrev pub ascending : {A : Type 0} → (A → ℕ) → List A → List A
ascending f xs = sort_desc scores (λ x. 1000000 - f x) xs

abbrev pub engine : Engine floats
engine = record {
  Vector = ℕ;
  RowData = Text;
  cosine_distance = λ a b. (a - b) + (b - a);
  order_by = ascending;
  order_by_desc = descending;
  bm25_score = λ q c. some (length c.text);
  fts_rank = λ q c. none;
  ilike = λ q d. true;
}

abbrev pub laws : Orders floats engine
laws = record {
  order_by-All = λ P f xs h. sort_desc-All scores (λ x. 1000000 - f x) P xs h;
  order_by_desc-All = λ P f xs h. sort_desc-All scores f P xs h;
}

abbrev pub document : ℕ → Document
document id = record {
  id = id;
  sha256 = id;
  filename = codes "a.txt";
  page_count = none;
  title = none;
  title_norm = none;
  collection = codes "default";
  status = ready;
  error = none;
}

abbrev pub chunk : ℕ → ℕ → Chunk ℕ ℕ
chunk id doc_id = record {
  id = id;
  doc_id = doc_id;
  ord = 0;
  kind = prose;
  text = codes "words";
  embed_text = codes "words";
  page_start = some 1;
  page_end = some 1;
  bbox = none;
  table_id = none;
  token_count = 1;
  embedding = 7;
}

abbrev pub reader : User
reader = record {
  id = 5;
  external_subject = none;
  email = codes "a@b";
  display_name = none;
  is_admin = false;
  password_hash = none;
  daily_cap_usd_override = none;
  disabled_at = none;
}
