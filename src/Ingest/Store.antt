-- ===== src/Ingest/Store.antt =====
-- The blobs on disk: prorag/ingest/store.py. A path is the digest and the suffix; what is at a path
-- is the file of that digest, so only which paths exist is kept.
use pro_rag.Prelude.{
  ℕ, ◌≡◌, refl, ap, ◌∙◌, Bool, true, false, not, ◌&&◌, List, [], ◌∷◌, ◌++◌, arith, ◌==◌, ==_iff,
  if◌then◌else◌, filter, any, Text, same_text, same_text_iff, filter-append, append-nil,
}
use pro_rag.Prelude.Words.{codes, is_empty}

pub record Blob : Type 0 where
  pub sha256 : ℕ
  pub ext : Text

abbrev pub or_bin : Text → Text
or_bin suffix = if is_empty suffix then codes ".bin" else suffix

-- `path_suffix` is `Path(filename).suffix`.
pub blob_path_for : (Text → Text) → ℕ → Text → Blob
blob_path_for path_suffix sha256 filename = record {
  sha256 = sha256;
  ext = or_bin (path_suffix filename);
}

abbrev pub is_at : Blob → Blob → Bool
is_at path b = b.sha256 == path.sha256 && same_text b.ext path.ext

abbrev pub exists : List Blob → Blob → Bool
exists blobs path = any (is_at path) blobs

unfoldable pub write_blob : List Blob → Blob → List Blob
write_blob blobs path = if exists blobs path then blobs else blobs ++ path ∷ []

unfoldable pub delete_blob : List Blob → Blob → List Blob
delete_blob blobs path = filter (λ b. not (is_at path b)) blobs

is_at_self : (path : Blob) → is_at path path ≡ true
is_at_self path =
    ap (λ t. t && same_text path.ext path.ext) ((==_iff path.sha256 path.sha256).1 refl)
    ∙ (same_text_iff path.ext path.ext).1 refl

delete_blob_absent :
    (blobs : List Blob) (path : Blob) → exists blobs path ≡ false → delete_blob blobs path ≡ blobs
unfolding delete_blob
delete_blob_absent [] path h = refl
delete_blob_absent (b ∷ blobs) path h = ground (arith, h, delete_blob_absent blobs path)

-- A file that is written where none was and deleted again leaves the disk as it was.
pub delete_blob-write_blob :
    (blobs : List Blob) (path : Blob)
    → exists blobs path ≡ false
    → delete_blob (write_blob blobs path) path ≡ blobs
unfolding delete_blob write_blob
delete_blob-write_blob blobs path h =
    ap (λ (t : Bool). delete_blob (if t then blobs else blobs ++ path ∷ []) path) h
    ∙ filter-append (λ b. not (is_at path b)) blobs (path ∷ [])
    ∙ ap (λ t. delete_blob blobs path ++ t) gone
    ∙ append-nil (delete_blob blobs path)
    ∙ delete_blob_absent blobs path h
  where
    gone : delete_blob (path ∷ []) path ≡ []
    gone = ground (arith, is_at_self path)
