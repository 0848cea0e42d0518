-- ===== src/Connectors/Sync.antt =====
-- prorag/connectors/sync.py and the listing of prorag/connectors/s3.py. The bucket, the download
-- and `ingest_bytes` are parameters; every operation takes the time of its clock readings.
use pro_rag.Prelude.{
  ℕ, ◌+◌, ◌-◌, Bool, true, false, not, ◌&&◌, ◌||◌, Option, none, some, List, [], ◌∷◌, ◌++◌, map,
  leb, ltb, ◌==◌, if◌then◌else◌, filter, any, length, Text, same_text,
}
use pro_rag.Prelude.Words.{lower, ends_with, codes}
pub mod Items
pub mod Again
pub mod Diff
pub mod Recorded

pub record RemoteObject : Type 0 where
  pub key : Text
  pub etag : Text
  pub size : ℕ
  pub last_modified : ℕ

pub data ItemStatus : Type 0 where
  synced skipped error deleted : ItemStatus

pub record ConnectorItem : Type 0 where
  pub connector_id : ℕ
  pub external_id : Text
  pub etag : Option Text
  pub size : Option ℕ
  pub last_modified : Option ℕ
  pub doc_id : Option ℕ
  pub last_seen_at : Option ℕ
  pub status : ItemStatus
  pub error : Option Text

-- `S3Connector.list_changed`, of the objects that the bucket lists
pub list_changed : List RemoteObject → Option ℕ → List RemoteObject
list_changed objs none = objs
list_changed objs (some since) = filter (λ o. ltb since o.last_modified) objs

-- What is on record of a key: the dict `known`.
abbrev pub Known : Type 0
Known = List (Text × (Option Text × Option ℕ))

abbrev pub get_known : Known → Text → Option (Option Text × Option ℕ)
get_known [] key = none
get_known (e ∷ known) key = if same_text e.0 key then some e.1 else get_known known key

abbrev pub is_recorded : Option Text × Option ℕ → RemoteObject → Bool
is_recorded (some etag, some size) obj = same_text etag obj.etag && size == obj.size
is_recorded _ obj = false

pub record Classes : Type 0 where
  pub new : List RemoteObject
  pub changed : List RemoteObject
  pub unchanged : List Text

abbrev pub classify : Option (Option Text × Option ℕ) → RemoteObject → Classes → Classes
classify none obj d = record d { new = obj ∷ d.new }
classify (some prior) obj d =
    if is_recorded prior obj
    then record d { unchanged = obj.key ∷ d.unchanged }
    else record d { changed = obj ∷ d.changed }

pub diff_objects : List RemoteObject → Known → Classes
diff_objects [] known = record { new = []; changed = []; unchanged = [] }
diff_objects (obj ∷ remote) known =
    classify (get_known known obj.key) obj (diff_objects remote known)

abbrev pub is_deleted : ItemStatus → Bool
is_deleted deleted = true
is_deleted _ = false

abbrev pub has_key : List Text → Text → Bool
has_key keys key = any (λ k. same_text k key) keys

-- The set's elements, in the order of `known`
pub find_deleted : List Text → List (Text × ItemStatus) → List Text
find_deleted remote_keys known =
    map (λ (e : Text × ItemStatus). e.0)
      (filter (λ (e : Text × ItemStatus). not (has_key remote_keys e.0) && not (is_deleted e.1))
        known)

abbrev pub is_row : ℕ → Text → ConnectorItem → Bool
is_row connector_id key r = r.connector_id == connector_id && same_text r.external_id key

abbrev pub item_of :
    ℕ → Text → RemoteObject → ItemStatus → Option ℕ → Option Text → ℕ → ConnectorItem
item_of connector_id key obj status doc_id reason now = record {
  connector_id = connector_id;
  external_id = key;
  etag = some obj.etag;
  size = some obj.size;
  last_modified = some obj.last_modified;
  doc_id = doc_id;
  last_seen_at = some now;
  status = status;
  error = reason;
}

-- Every column is set, so the row that is found becomes the row that would be added.
pub put_item : ConnectorItem → List ConnectorItem → List ConnectorItem
put_item row [] = row ∷ []
put_item row (r ∷ items) =
    if is_row row.connector_id row.external_id r then row ∷ items else r ∷ put_item row items

-- A column of type Integer holds what is below 2 ^ 31.
abbrev pub fits_integer : ℕ → Bool
fits_integer n = ltb n 2147483648

-- `none` is the database's error at a size that its column cannot hold.
pub upsert_item :
    List ConnectorItem
    → ℕ
    → Text
    → RemoteObject
    → ItemStatus
    → Option ℕ
    → Option Text
    → ℕ
    → Option (List ConnectorItem)
unfolding put_item
upsert_item items connector_id key obj status doc_id reason now =
    if fits_integer obj.size
    then some (put_item (item_of connector_id key obj status doc_id reason now) items)
    else none

-- What `ingest_bytes` comes to: a document, an HTTPException, another exception, or one that leaves
-- the session in need of a rollback, in which every further statement raises.
pub data Ingested : Type 0 where
  document : ℕ → Ingested
  refused raised : Text → Ingested
  session_broken : Ingested

-- The documents, and what `ingest_bytes` and a delete do to them.
pub record Library : Type 1 where
  pub Documents : Type 0
  pub ingest_bytes : Documents → Text → Text → Text → Documents × Ingested
  pub delete : ℕ → Documents → Documents

abbrev pub own_rows : ℕ → List ConnectorItem → List ConnectorItem
own_rows connector_id = filter (λ r. r.connector_id == connector_id)

abbrev pub known_of : ℕ → List ConnectorItem → Known
known_of connector_id items =
    map (λ r. (r.external_id, (r.etag, r.size))) (own_rows connector_id items)

pub record Report : Type 0 where
  pub new : ℕ
  pub changed : ℕ
  pub skipped : ℕ
  pub errors : ℕ
  pub deleted : ℕ

abbrev pub allowed_suffixes : List Text
allowed_suffixes =
    codes ".pdf"
    ∷ codes ".txt"
    ∷ codes ".md"
    ∷ codes ".docx"
    ∷ codes ".pptx"
    ∷ codes ".csv"
    ∷ codes ".xlsx"
    ∷ codes ".tsv"
    ∷ codes ".png"
    ∷ codes ".jpg"
    ∷ codes ".jpeg"
    ∷ codes ".tiff"
    ∷ codes ".tif"
    ∷ codes ".webp"
    ∷ []

pub is_supported : Text → Bool
unfolding lower ends_with
is_supported key = any (λ suffix. ends_with (lower key) suffix) allowed_suffixes

-- `key.rsplit("/", 1)[-1]`
abbrev pub after_slash : Text → Text → Text
after_slash best [] = best
after_slash best (c ∷ s) = if c == b'/' then after_slash s s else after_slash best s

abbrev pub or_key : Text → Text → Text
or_key [] key = key
or_key (c ∷ s) key = c ∷ s

pub filename_of : Text → Text
filename_of key = or_key (after_slash key key) key

module _ (lib : Library) where
  pub record State : Type 0 where
    pub items : List ConnectorItem
    pub documents : lib.Documents
    pub report : Report
    -- an exception has left the loop
    pub halted : Bool

  -- What of the code's surroundings a run reads.
  pub record Run : Type 0 where
    pub connector_id : ℕ
    pub collection : Text
    pub max_upload_bytes : ℕ
    pub now : ℕ
    -- `connector.fetch`; `none` where it raises, with the reason below
    pub fetch : RemoteObject → Option Text
    pub fetch_error : RemoteObject → Text

  abbrev pub written : State → Option (List ConnectorItem) → Report → State
  written st none report = record st { halted = true }
  written st (some items) report = record st { items = items; report = report }

  -- `_upsert_item`, which stands outside the `try`, and the count after it.
  abbrev pub set_item :
      Run → State → RemoteObject → ItemStatus → Option ℕ → Option Text → Report → State
  set_item run st obj status doc_id reason report =
      written st (upsert_item st.items run.connector_id obj.key obj status doc_id reason run.now)
        report

  abbrev pub skip : Run → State → RemoteObject → Text → State
  skip run st obj reason =
      set_item run st obj skipped none (some reason)
        (record st.report { skipped = st.report.skipped + 1 })

  abbrev pub fail : Run → State → RemoteObject → Text → State
  fail run st obj reason =
      set_item run st obj error none (some reason)
        (record st.report { errors = st.report.errors + 1 })

  abbrev pub tally : Bool → Report → Report
  tally true r = record r { new = r.new + 1 }
  tally false r = record r { changed = r.changed + 1 }

  abbrev pub link : Run → State → RemoteObject → Bool → ℕ → State
  link run st obj is_new doc_id =
      set_item run st obj synced (some doc_id) none (tally is_new st.report)

  abbrev pub settle : Run → State → RemoteObject → Bool → lib.Documents × Ingested → State
  settle run st obj is_new (documents, document doc_id) =
      link run (record st { documents = documents }) obj is_new doc_id
  settle run st obj is_new (documents, refused detail) =
      fail run (record st { documents = documents }) obj detail
  settle run st obj is_new (documents, raised reason) =
      fail run (record st { documents = documents }) obj reason
  settle run st obj is_new (documents, session_broken) = record st {
    documents = documents;
    halted = true;
  }

  abbrev pub fetched : Run → State → RemoteObject → Bool → Option Text → State
  fetched run st obj is_new none = fail run st obj (run.fetch_error obj)
  fetched run st obj is_new (some body) =
      settle run st obj is_new
        (lib.ingest_bytes st.documents body (filename_of obj.key) run.collection)

  -- One turn of the loop of `_process_objects`.
  pub process_object : Run → State → RemoteObject × Bool → State
  unfolding upsert_item filename_of is_supported
  process_object run st (obj, is_new) =
      if not (is_supported obj.key)
      then skip run st obj (codes "unsupported file type")
      else if ltb run.max_upload_bytes obj.size
      then skip run st obj (codes "exceeds max_upload_bytes")
      else fetched run st obj is_new (run.fetch obj)

  abbrev pub process_from : Run → State → List (RemoteObject × Bool) → State
  process_from run st [] = st
  process_from run st (o ∷ objs) =
      let after = process_object run st o in
      let rest = process_from run after objs in if after.halted then after else rest

  abbrev pub seen_again : Run → List Text → List ConnectorItem → List ConnectorItem
  seen_again run keys items =
      map
        (λ (r : ConnectorItem).
          if r.connector_id == run.connector_id && has_key keys r.external_id
          then record r { last_seen_at = some run.now }
          else r)
        items

  abbrev pub work_of : Classes → List (RemoteObject × Bool)
  work_of d =
      map (λ (o : RemoteObject). (o, true)) d.new
      ++ map (λ (o : RemoteObject). (o, false)) d.changed

  pub process_objects : Run → List ConnectorItem → lib.Documents → List RemoteObject → State
  unfolding diff_objects process_object
  process_objects run items documents remote =
      let d = diff_objects remote (known_of run.connector_id items) in
      let st =
        process_from run
          (record {
            items = items;
            documents = documents;
            report = record { new = 0; changed = 0; skipped = 0; errors = 0; deleted = 0 };
            halted = false;
          })
          (work_of d) in
      if st.halted then st else record st { items = seen_again run d.unchanged st.items }

  -- `last_sync_at - _SINCE_SAFETY_BUFFER`
  abbrev pub since_of : Option ℕ → Option ℕ
  since_of none = none
  since_of (some at) = some (at - 5000000)

  -- The state, and the connector's new `last_sync_at`; an exception leaves that as it is.
  pub sync_incremental :
      Run → Option ℕ → List RemoteObject → List ConnectorItem → lib.Documents → State × Option ℕ
  unfolding process_objects list_changed
  sync_incremental run last_sync_at bucket items documents =
      let st = process_objects run items documents (list_changed bucket (since_of last_sync_at)) in
      (st, (if st.halted then last_sync_at else some run.now))

  -- A document's rows go by `ON DELETE SET NULL`.
  abbrev pub unlink : ℕ → List ConnectorItem → List ConnectorItem
  unlink doc items =
      map
        (λ (r : ConnectorItem). elim r.doc_id [
          | none ↦ r
          | some d ↦ if d == doc then record r { doc_id = none } else r
        ])
        items

  abbrev pub delete_doc : Option ℕ → State → State
  delete_doc none st = st
  delete_doc (some doc) st = record st {
    items = unlink doc st.items;
    documents = lib.delete doc st.documents;
  }

  abbrev pub mark_deleted : Run → Text → List ConnectorItem → List ConnectorItem
  mark_deleted run key items =
      map
        (λ (r : ConnectorItem).
          if is_row run.connector_id key r then record r { status = deleted; doc_id = none } else r)
        items

  abbrev pub doc_of : List ConnectorItem → Text → Option ℕ
  doc_of [] key = none
  doc_of (r ∷ rows) key = if same_text r.external_id key then r.doc_id else doc_of rows key

  -- `rows` are the items as they were before the first delete, as in `doc_id_by_key`.
  abbrev pub delete_all : Run → List ConnectorItem → State → List Text → State
  delete_all run rows st [] = st
  delete_all run rows st (key ∷ keys) =
      let gone = delete_doc (doc_of rows key) st in
      delete_all run rows (record gone { items = mark_deleted run key gone.items }) keys

  -- The state, and the connector's new `last_sync_at` and `last_full_sweep_at`, if no exception
  -- leaves the sweep.
  pub full_sweep :
      Run → List RemoteObject → List ConnectorItem → lib.Documents → State × Option (ℕ × ℕ)
  unfolding process_objects find_deleted list_changed
  full_sweep run bucket items documents =
      let remote = list_changed bucket none in
      let st = process_objects run items documents remote in
      let rows = own_rows run.connector_id st.items in
      let keys =
        find_deleted (map (λ (o : RemoteObject). o.key) remote)
          (map (λ (r : ConnectorItem). (r.external_id, r.status)) rows) in
      let swept = delete_all run rows st keys in
      if st.halted then (st, none) else (
        record swept { report = record swept.report { deleted = length keys } },
        some (run.now, run.now),
      )
