-- ===== src/Connectors/Tests.antt =====
-- Syncing and scheduling at concrete inputs.
use pro_rag.Prelude.{
  ℕ, ◌+◌, ◌≤◌, ◌<◌, ◌≡◌, ◌≢◌, arith, false, Member, none, some, List, [], ◌∷◌, length, Text, inl,
  inr, ap, sym, ◌∙◌, refl,
}
use pro_rag.Prelude.Words.{codes}
use pro_rag.Connectors.Sync.{
  RemoteObject, ConnectorItem, synced, get_known, known_of, upsert_item, diff_objects,
  process_objects, Library, document, Run,
}
use pro_rag.Connectors.Sync.Items.{get-upsert_item}
use pro_rag.Connectors.Sync.Recorded.{OneVersion}
use pro_rag.Connectors.Sync.Again.{untouched, process_objects-again}
use pro_rag.Connectors.Sync.Diff.{
  Usable, Classed, diff_objects_lem, handled, process_objects_counts,
}

abbrev object : Text → Text → RemoteObject
object key etag = record { key = key; etag = etag; size = 3; last_modified = 100 }

abbrev item : ConnectorItem
item = record {
  connector_id = 1;
  external_id = codes "a.txt";
  etag = some (codes "v1");
  size = some 3;
  last_modified = some 50;
  doc_id = some 9;
  last_seen_at = some 60;
  status = synced;
  error = none;
}

abbrev listing : List RemoteObject
listing = object (codes "a.txt") (codes "v2") ∷ object (codes "b.txt") (codes "v1") ∷ []

diff_objects_lem_example :
    Classed listing (known_of 1 (item ∷ [])) (diff_objects listing (known_of 1 (item ∷ [])))
    × (length (diff_objects listing (known_of 1 (item ∷ []))).new
          + length (diff_objects listing (known_of 1 (item ∷ []))).changed
          + length (diff_objects listing (known_of 1 (item ∷ []))).unchanged
        ≡ length listing)
diff_objects_lem_example = diff_objects_lem listing (known_of 1 (item ∷ []))

abbrev newer : RemoteObject
newer = object (codes "a.txt") (codes "v2")

get-upsert_item_example :
    (2147483648 ≤ newer.size
      → upsert_item (item ∷ []) 1 newer.key newer synced (some 4) none 70 ≡ none)
    × (newer.size < 2147483648
        → (after : List ConnectorItem) × (upsert_item
              (item ∷ [])
              1
              newer.key
              newer
              synced
              (some 4)
              none
              70
            ≡ some after)
          × (get_known (known_of 1 after) newer.key ≡ some (some newer.etag, some newer.size))
          × ((other : ℕ) (key : Text)
              → key ≢ newer.key
              → get_known (known_of other after) key ≡ get_known (known_of other (item ∷ [])) key))
get-upsert_item_example = get-upsert_item (item ∷ []) 1 newer synced (some 4) none 70

-- A library that counts its documents.
abbrev library : Library
library = record {
  Documents = ℕ;
  ingest_bytes = λ n body name collection. (n + 1, document n);
  delete = λ doc n. n;
}

abbrev run : Run library
run = record {
  connector_id = 1;
  collection = codes "default";
  max_upload_bytes = 1000;
  now = 200;
  fetch = λ o. some (codes "body");
  fetch_error = λ o. [];
}

usable : Usable library run
usable n body name collection e = cc

small : (o : RemoteObject) → Member o listing → o.size < 2147483648
small o (inl e) = omega (arith, ap (λ (x : RemoteObject). x.size) e)
small o (inr (inl e)) = omega (arith, ap (λ (x : RemoteObject). x.size) e)
small o (inr (inr m)) = absurd m

process_objects_counts_example :
    ((process_objects library run (item ∷ []) 5 listing).halted ≡ false)
    × (handled (process_objects library run (item ∷ []) 5 listing).report
          + length (diff_objects listing (known_of 1 (item ∷ []))).unchanged
        ≡ length listing)
process_objects_counts_example =
    process_objects_counts library run usable (item ∷ []) 5 listing small

abbrev only_b : RemoteObject
only_b = object (codes "b.txt") (codes "v1")

listing-OneVersion : OneVersion (only_b ∷ [])
listing-OneVersion o p (inl e) (inl f) k =
    (ap (λ (x : RemoteObject). x.etag) (e ∙ sym f), ap (λ (x : RemoteObject). x.size) (e ∙ sym f))
listing-OneVersion o p (inl e) (inr n) k = absurd n
listing-OneVersion o p (inr n) m k = absurd n

fits : (o : RemoteObject) → Member o (only_b ∷ []) → o.size < 2147483648
fits o (inl e) = omega (arith, ap (λ (x : RemoteObject). x.size) e)
fits o (inr m) = absurd m

finishes : (process_objects library run (item ∷ []) 5 (only_b ∷ [])).halted ≡ false
finishes = (process_objects_counts library run usable (item ∷ []) 5 (only_b ∷ []) fits).0

process_objects-again_example :
    process_objects library run
      (process_objects library run (item ∷ []) 5 (only_b ∷ [])).items
      (process_objects library run (item ∷ []) 5 (only_b ∷ [])).documents
      (only_b ∷ [])
    ≡ untouched library run run
        (process_objects library run (item ∷ []) 5 (only_b ∷ []))
        (only_b ∷ [])
process_objects-again_example =
    process_objects-again library run run (item ∷ []) 5 (only_b ∷ []) listing-OneVersion finishes
      refl
