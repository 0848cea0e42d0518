-- ===== src/Connectors/Sync/Recorded.antt =====
-- What a run puts on record of the objects that it handles.
use pro_rag.Prelude.{
  ℕ, ◌≡◌, ◌≢◌, refl, ap, sym, ◌∙◌, subst, inl, inr, Bool, true, false, not, ◌&&◌, Option, none,
  some, List, [], ◌∷◌, map, arith, ◌==◌, ==_iff, if_cases, if_true, if_false, Bool-cases, Text,
  same_text, same_text_iff, ltb, Member,
}
use pro_rag.Connectors.Sync.Items.{get-upserted}
use pro_rag.Connectors.Sync.{
  RemoteObject, ConnectorItem, ItemStatus, skipped, error, synced, get_known, known_of, is_recorded,
  upsert_item, Library, Ingested, document, refused, raised, session_broken, Report, written, State,
  Run, settle, fetched, process_object, process_from, seen_again, is_supported, has_key,
}

-- The listing gives a key one version.
abbrev pub OneVersion : List RemoteObject → Type 0
OneVersion remote =
    (o p : RemoteObject)
    → Member o remote
    → Member p remote
    → o.key ≡ p.key
    → (o.etag ≡ p.etag) × (o.size ≡ p.size)

abbrev pub IsOnRecord : ℕ → List ConnectorItem → RemoteObject → Type 0
IsOnRecord connector_id items o =
    get_known (known_of connector_id items) o.key ≡ some (some o.etag, some o.size)

pub is_recorded-eq :
    (prior : Option Text × Option ℕ) (o : RemoteObject)
    → is_recorded prior o ≡ true
    → prior ≡ (some o.etag, some o.size)
is_recorded-eq (some etag, some size) o h =
    let e : etag ≡ o.etag = (same_text_iff etag o.etag).0 (ground (arith, h)) in
    let s : size ≡ o.size = (==_iff size o.size).0 (ground (arith, h)) in
    ap (λ t. (some t, some size)) e ∙ ap (λ n. (some o.etag, some n)) s
is_recorded-eq (none, s) o h = cc
is_recorded-eq (some etag, none) o h = cc

pub recorded_self : (o : RemoteObject) → is_recorded (some o.etag, some o.size) o ≡ true
recorded_self o =
    ground (arith, (same_text_iff o.etag o.etag).1 refl, (==_iff o.size o.size).1 refl)

module _ (lib : Library) (run : Run lib) where
  -- Whatever becomes of an object, its item is written with its etag and its size, or the run halts.
  abbrev pub Upserts : State lib → RemoteObject → State lib → Type 0
  Upserts st o st' =
      st'.halted ≡ false
      → (status : ItemStatus) × (doc_id : Option ℕ) × (reason : Option Text) × (upsert_item st.items
            run.connector_id o.key o status doc_id reason run.now
          ≡ some st'.items)

  written-Upserts :
      (st base : State lib) (o : RemoteObject) (status : ItemStatus) (doc_id : Option ℕ)
      (reason : Option Text) (report : Report) (r : Option (List ConnectorItem))
      → upsert_item st.items run.connector_id o.key o status doc_id reason run.now ≡ r
      → Upserts st o (written lib base r report)
  written-Upserts st base o status doc_id reason report none e live = absurd cc
  written-Upserts st base o status doc_id reason report (some items) e live =
      (status, doc_id, reason, e)

  settle-Upserts :
      (st : State lib) (o : RemoteObject) (is_new : Bool) (r : lib.Documents × Ingested)
      → Upserts st o (settle lib run st o is_new r)
  settle-Upserts st o is_new (documents, document d) =
      written-Upserts st (record st { documents = documents }) o synced (some d) none _ _ refl
  settle-Upserts st o is_new (documents, refused t) =
      written-Upserts st (record st { documents = documents }) o error none (some t) _ _ refl
  settle-Upserts st o is_new (documents, raised t) =
      written-Upserts st (record st { documents = documents }) o error none (some t) _ _ refl
  settle-Upserts st o is_new (documents, session_broken) = λ live. absurd cc

  fetched-Upserts :
      (st : State lib) (o : RemoteObject) (is_new : Bool) (r : Option Text)
      → Upserts st o (fetched lib run st o is_new r)
  fetched-Upserts st o is_new none =
      written-Upserts st st o error none (some (run.fetch_error o)) _ _ refl
  fetched-Upserts st o is_new (some body) = settle-Upserts st o is_new _

  process_object-Upserts :
      (st : State lib) (o : RemoteObject) (is_new : Bool)
      → Upserts st o (process_object lib run st (o, is_new))
  unfolding process_object
  process_object-Upserts st o is_new =
      if_cases (Upserts st o) (not (is_supported o.key))
        (λ _. written-Upserts st st o skipped none (some _) _ _ refl)
        (λ _.
          if_cases (Upserts st o) (ltb run.max_upload_bytes o.size)
            (λ _. written-Upserts st st o skipped none (some _) _ _ refl)
            (λ _. fetched-Upserts st o is_new (run.fetch o)))

  -- A loop that has not halted did not halt at its first turn.
  pub live_first :
      (st : State lib) (v : RemoteObject × Bool) (work : List (RemoteObject × Bool))
      → (process_from lib run st (v ∷ work)).halted ≡ false
      → ((process_object lib run st v).halted ≡ false)
        × (process_from lib run st (v ∷ work)
            ≡ process_from lib run (process_object lib run st v) work)
  live_first st v work h = elim (Bool-cases (process_object lib run st v).halted) [
    | inl e ↦
        let k = ap (λ (s : State lib). s.halted) (sym (if_true _ _ e)) ∙ h in
        absurd (let no : true ≡ false = sym e ∙ k in cc)
    | inr e ↦ (e, if_false _ _ e)
  ]

  module _ (remote : List RemoteObject) (one : OneVersion remote) where
    abbrev pub On : State lib → RemoteObject → Type 0
    On st o = IsOnRecord run.connector_id st.items o

    process_object-keeps :
        (st : State lib) (o : RemoteObject) (is_new : Bool)
        → Member o remote
        → (process_object lib run st (o, is_new)).halted ≡ false
        → On (process_object lib run st (o, is_new)) o
          × ((p : RemoteObject)
              → Member p remote
              → On st p
              → On (process_object lib run st (o, is_new)) p)
    process_object-keeps st o is_new m live =
        let (status, doc_id, reason, e) = process_object-Upserts st o is_new live in
        let (own_now, others) =
          get-upserted st.items run.connector_id o status doc_id reason run.now e in
        (
          own_now,
          λ p mp on. elim (Bool-cases (same_text p.key o.key)) [
            | inl t ↦
                let same : p.key ≡ o.key = (same_text_iff p.key o.key).0 t in
                let (etags, sizes) = one p o mp m same in
                ap
                  (get_known
                    (known_of run.connector_id (process_object lib run st (o, is_new)).items))
                  same
                ∙ own_now
                ∙ ap (λ x. some (some x, some o.size)) (sym etags)
                ∙ ap (λ n. some (some p.etag, some n)) (sym sizes)
            | inr f ↦
                let apart : p.key ≢ o.key = λ s.
                  let yes = (same_text_iff p.key o.key).1 s in
                  absurd (let no : true ≡ false = sym yes ∙ f in cc) in
                others run.connector_id p.key apart ∙ on
          ],
        )

    pub process_from-keeps :
        (st : State lib) (work : List (RemoteObject × Bool))
        → ((w : RemoteObject × Bool) → Member w work → Member w.0 remote)
        → (process_from lib run st work).halted ≡ false
        → ((w : RemoteObject × Bool) → Member w work → On (process_from lib run st work) w.0)
          × ((p : RemoteObject) → Member p remote → On st p → On (process_from lib run st work) p)
    process_from-keeps st [] inside live = ((λ w m. absurd m), (λ p m on. on))
    process_from-keeps st (v ∷ work) inside live =
        let (going, same) = live_first st v work live in
        let (own, kept) = process_object-keeps st v.0 v.1 (inside v (inl refl)) going in
        let (later, kept_too) =
          process_from-keeps (process_object lib run st v) work (λ w m. inside w (inr m))
            (ap (λ (s : State lib). s.halted) (sym same) ∙ live) in
        (
          (λ w m.
              subst (λ s. On s w.0) (sym same)
                (elim m [
                  | inl e ↦
                      subst
                        (λ (x : RemoteObject × Bool).
                          On (process_from lib run (process_object lib run st v) work) x.0)
                        (sym e) (kept_too v.0 (inside v (inl refl)) own)
                  | inr n ↦ later w n
                ])),
          (λ p m on. subst (λ s. On s p) (sym same) (kept_too p m (kept p m on))),
        )

-- What `known` holds of an item.
abbrev entry_of : ConnectorItem → Text × (Option Text × Option ℕ)
entry_of x = (x.external_id, (x.etag, x.size))

known-cons :
    (connector_id : ℕ) (r q : ConnectorItem) (rows items : List ConnectorItem)
    → q.connector_id ≡ r.connector_id
    → entry_of q ≡ entry_of r
    → known_of connector_id rows ≡ known_of connector_id items
    → known_of connector_id (q ∷ rows) ≡ known_of connector_id (r ∷ items)
known-cons connector_id r q rows items own entry rest =
    elim (Bool-cases (r.connector_id == connector_id)) [
      | inl t ↦
          ap (map entry_of) (if_true _ _ (ap (λ n. n == connector_id) own ∙ t))
          ∙ ap (λ e. e ∷ known_of connector_id rows) entry
          ∙ ap (λ t. entry_of r ∷ t) rest
          ∙ sym (ap (map entry_of) (if_true _ _ t))
      | inr t ↦
          ap (map entry_of) (if_false _ _ (ap (λ n. n == connector_id) own ∙ t))
          ∙ rest
          ∙ sym (ap (map entry_of) (if_false _ _ t))
    ]

-- Seeing an item again changes none of what is compared.
pub known-seen_again :
    (lib : Library) (run : Run lib) (connector_id : ℕ) (keys : List Text)
    (items : List ConnectorItem)
    → known_of connector_id (seen_again lib run keys items) ≡ known_of connector_id items
known-seen_again lib run connector_id keys [] = refl
known-seen_again lib run connector_id keys (r ∷ items) =
    if_cases
      (λ q.
        known_of connector_id (q ∷ seen_again lib run keys items)
        ≡ known_of connector_id (r ∷ items))
      (r.connector_id == run.connector_id && has_key keys r.external_id)
      {x = record r { last_seen_at = some run.now }} {y = r}
      (λ _.
        known-cons connector_id r (record r { last_seen_at = some run.now })
          (seen_again lib run keys items) items refl refl
          (known-seen_again lib run connector_id keys items))
      (λ _.
        known-cons connector_id r r (seen_again lib run keys items) items refl refl
          (known-seen_again lib run connector_id keys items))
