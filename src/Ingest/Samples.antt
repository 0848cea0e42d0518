-- ===== src/Ingest/Samples.antt =====
-- Services of an ingest: a provider that counts letters, and no reader of files but the text path.
use pro_rag.Prelude.{ℕ, false, [], ◌∷◌, map, length, Text}
use pro_rag.Prelude.Raise.{Exc, raised, returned}
use pro_rag.Prelude.Words.{codes}
use pro_rag.Retrieve.Samples.{floats, engine}
use pro_rag.Ingest.Parse.{Fitz}
use pro_rag.Ingest.Files.{Settings, Services, NewIds}

abbrev pub no_reader : Exc
no_reader = record { type_name = codes "RuntimeError"; message = [] }

abbrev pub fitz : Fitz
fitz = record { Page = Text; open_pdf = λ b. raised no_reader; get_text = λ t. returned t }

abbrev pub services : Services floats engine Text
services = record {
  fitz = fitz;
  decode = λ b. b;
  transcribe = λ b m n. raised no_reader;
  docling_available = false;
  convert = λ b t. raised no_reader;
  read_excel = λ b. raised no_reader;
  read_csv = λ n b. raised no_reader;
  str_of = λ s. s;
  sha256_hex = length;
  path_suffix = λ s. codes ".txt";
  normalize_title = λ s. s;
  row_data = λ r. [];
  embed_texts = λ attempt ts. returned (map length ts);
  first_in_time = λ e es. e;
  timed_out = false;
  components = λ v. v ∷ [];
  mul = λ a b. a;
  quotient = λ a b. a;
  sqrt = λ a. a;
}

abbrev pub settings : Settings ℕ
settings = record {
  chunk_target_tokens = 2;
  chunk_overlap_tokens = 0;
  max_chunks_per_document = 10;
  embed_batch_size = 8;
  rule_similarity_floor = 900000;
}

abbrev pub ids : NewIds
ids = record { doc = 40; chunk = λ n. n; table = λ n. n }
