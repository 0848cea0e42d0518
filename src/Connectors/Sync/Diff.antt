-- ===== src/Connectors/Sync/Diff.antt =====
-- How the objects of one listing are classed, and what the report counts of them.
use pro_rag.Prelude.{
  some-injective, ℕ, ◌+◌, ◌<◌, ◌≡◌, ◌≢◌, ◌↔◌, refl, sym, ap, subst, ◌∙◌, Bool, true, false, not,
  Option, none, some, List, [], ◌∷◌, map, arith, length, length-append, length-map, if_intro,
  if_true, if_false, Text, ltb, if◌then◌else◌, Member, Member-map, Member-filter, Member-of_filter,
  filter, Bool-cases, inl, inr,
}
use pro_rag.Connectors.Sync.{
  RemoteObject, Known, get_known, is_recorded, Classes, classify, diff_objects, Report, Library,
  Ingested, document, refused, raised, session_broken, State, Run, written, set_item, tally,
  upsert_item, fits_integer, ItemStatus, synced, skipped, error, settle, fetched, process_object,
  process_from, process_objects, work_of, is_supported, known_of, ConnectorItem,
}
use pro_rag.Connectors.Sync.Recorded.{is_recorded-eq, recorded_self}
use pro_rag.Connectors.Sync.Again.{diff-WithinListing, work-Member}

-- The three tests of an object against what is on record of its key.
abbrev Prior : Type 0
Prior = Option (Option Text × Option ℕ)

abbrev new_by : Prior → RemoteObject → Bool
new_by none o = true
new_by (some prior) o = false

abbrev changed_by : Prior → RemoteObject → Bool
changed_by none o = false
changed_by (some prior) o = not (is_recorded prior o)

abbrev same_by : Prior → RemoteObject → Bool
same_by none o = false
same_by (some prior) o = is_recorded prior o

abbrev key_of : RemoteObject → Text
key_of o = o.key

abbrev chosen : (Prior → RemoteObject → Bool) → Known → List RemoteObject → List RemoteObject
chosen test known = filter (λ o. test (get_known known o.key) o)

-- The classes as filters of the listing.
abbrev filters : Known → List RemoteObject → Classes
filters known remote = record {
  new = chosen new_by known remote;
  changed = chosen changed_by known remote;
  unchanged = map key_of (chosen same_by known remote);
}

-- The classes with one more object, by its tests.
abbrev put :
    RemoteObject
    → (is_new is_changed is_same : Bool) → List RemoteObject
    → List RemoteObject
    → List RemoteObject
    → Classes
put o is_new is_changed is_same new changed same = record {
  new = if is_new then o ∷ new else new;
  changed = if is_changed then o ∷ changed else changed;
  unchanged = map key_of (if is_same then o ∷ same else same);
}

classify-put :
    (o : RemoteObject) (prior : Prior) (new changed same : List RemoteObject)
    → classify prior o (record { new = new; changed = changed; unchanged = map key_of same })
      ≡ put o (new_by prior o) (changed_by prior o) (same_by prior o) new changed same
classify-put o none new changed same = refl
classify-put o (some prior) new changed same = on_test (is_recorded prior o)
  where
    d : Classes
    d = record { new = new; changed = changed; unchanged = map key_of same }

    on_test :
        (b : Bool)
        → (if b
            then record d { unchanged = o.key ∷ map key_of same }
            else record d { changed = o ∷ changed })
          ≡ put o false (not b) b new changed same
    on_test true = refl
    on_test false = refl

diff-filters :
    (remote : List RemoteObject) (known : Known) → diff_objects remote known ≡ filters known remote
unfolding diff_objects
diff-filters [] known = refl
diff-filters (o ∷ remote) known =
    ap (classify (get_known known o.key) o) (diff-filters remote known)
    ∙ classify-put o (get_known known o.key) (chosen new_by known remote)
        (chosen changed_by known remote) (chosen same_by known remote)

clash : {b : Bool} → b ≡ false → b ≡ true → ⊥
clash e k = let no = sym e ∙ k in cc

new_by_iff : (prior : Prior) (o : RemoteObject) → (new_by prior o ≡ true) ↔ (prior ≡ none)
new_by_iff none o = ((λ _. refl), (λ _. refl))
new_by_iff (some p) o = ((λ k. cc), (λ k. cc))

changed_by_iff :
    (prior : Prior) (o : RemoteObject)
    → (changed_by prior o ≡ true)
      ↔ ((p : Option Text × Option ℕ) × (prior ≡ some p) × (p ≢ (some o.etag, some o.size)))
changed_by_iff none o = ((λ k. cc), (λ (p, e, apart). cc))
changed_by_iff (some p) o = (
  (λ k. (
    p,
    refl,
    (λ same.
        let r : is_recorded p o ≡ true = ap (λ q. is_recorded q o) same ∙ recorded_self o in
        clash (ap not r) k),
  )),
  (λ (q, e, apart). elim (Bool-cases (is_recorded p o)) [
    | inl r ↦ absurd (apart (sym (some-injective e) ∙ is_recorded-eq p o r))
    | inr r ↦ ap not r
  ]),
)

same_by_iff :
    (prior : Prior) (o : RemoteObject)
    → (same_by prior o ≡ true) ↔ (prior ≡ some (some o.etag, some o.size))
same_by_iff none o = ((λ k. cc), (λ k. cc))
same_by_iff (some p) o = (
  (λ k. ap (λ q. some q) (is_recorded-eq p o k)),
  (λ e. ap (λ q. is_recorded q o) (some-injective e) ∙ recorded_self o),
)

length-put :
    (o : RemoteObject) (prior : Prior) (new changed same : List RemoteObject)
    → let d = put o (new_by prior o) (changed_by prior o) (same_by prior o) new changed same in
      length d.new + length d.changed + length d.unchanged
      ≡ length new + length changed + length (map key_of same) + 1
length-put o none new changed same = omega arith
length-put o (some prior) new changed same = on_test (is_recorded prior o)
  where
    on_test :
        (b : Bool)
        → let d = put o false (not b) b new changed same in
          length d.new + length d.changed + length d.unchanged
          ≡ length new + length changed + length (map key_of same) + 1
    on_test true = omega arith
    on_test false = omega arith

length-filters :
    (known : Known) (remote : List RemoteObject)
    → length (filters known remote).new
        + length (filters known remote).changed
        + length (filters known remote).unchanged
      ≡ length remote
length-filters known [] = refl
length-filters known (o ∷ remote) =
    length-put o (get_known known o.key) (chosen new_by known remote)
      (chosen changed_by known remote) (chosen same_by known remote)
    ∙ omega (arith, length-filters known remote)

-- Which objects of the listing stand in which class, and no other.
abbrev pub Classed : List RemoteObject → Known → Classes → Type 0
Classed remote known d =
    ((o : RemoteObject) → Member o d.new ↔ (Member o remote × (get_known known o.key ≡ none)))
    × ((o : RemoteObject)
        → Member o d.changed ↔ (
            Member o remote
            × ((prior : Option Text × Option ℕ) × (get_known known o.key ≡ some prior)
                × (prior ≢ (some o.etag, some o.size)))))
    × ((key : Text)
        → Member key d.unchanged ↔ (
            (o : RemoteObject) × Member o remote
            × (key ≡ o.key)
            × (get_known known o.key ≡ some (some o.etag, some o.size))))

filter_iff :
    {P : RemoteObject → Type 0} (test : RemoteObject → Bool) (remote : List RemoteObject)
    → ((o : RemoteObject) → (test o ≡ true) ↔ P o)
    → (o : RemoteObject) → Member o (filter test remote) ↔ (Member o remote × P o)
filter_iff test remote h o = (
  (λ m. let (there, ok) = Member-of_filter test remote o m in (there, (h o).0 ok)),
  (λ k. Member-filter test remote o k.0 ((h o).1 k.1)),
)

Member-map_of :
    (key : Text) (xs : List RemoteObject)
    → Member key (map key_of xs)
    → (o : RemoteObject) × Member o xs × (key ≡ o.key)
Member-map_of key [] m = absurd m
Member-map_of key (x ∷ xs) (inl e) = (x, inl refl, e)
Member-map_of key (x ∷ xs) (inr m) = let (o, n, e) = Member-map_of key xs m in (o, inr n, e)

filters-Classed :
    (remote : List RemoteObject) (known : Known) → Classed remote known (filters known remote)
filters-Classed remote known = (
  filter_iff (λ o. new_by (get_known known o.key) o) remote
      (λ o. new_by_iff (get_known known o.key) o),
  filter_iff (λ o. changed_by (get_known known o.key) o) remote
      (λ o. changed_by_iff (get_known known o.key) o),
  (λ key. (
    (λ m.
        let (o, n, e) = Member-map_of key (chosen same_by known remote) m in
        let (there, on) = (same_iff o).0 n in (o, there, e, on)),
    (λ (o, there, e, on).
        subst (λ k. Member k (map key_of (chosen same_by known remote))) (sym e)
          (Member-map key_of (chosen same_by known remote) o ((same_iff o).1 (there, on)))),
  )),
)
  where
    same_iff :
        (o : RemoteObject)
        → Member o (chosen same_by known remote)
          ↔ (Member o remote × (get_known known o.key ≡ some (some o.etag, some o.size)))
    same_iff =
        filter_iff (λ o. same_by (get_known known o.key) o) remote
          (λ o. same_by_iff (get_known known o.key) o)

-- An object of the listing is new exactly if its key is not on record, and changed exactly if it is
-- with another etag or size; unchanged are exactly the keys of those on record with the same; and the
-- classes hold as many as the listing.
pub diff_objects_lem :
    (remote : List RemoteObject) (known : Known)
    → Classed remote known (diff_objects remote known)
      × (length (diff_objects remote known).new
            + length (diff_objects remote known).changed
            + length (diff_objects remote known).unchanged
          ≡ length remote)
diff_objects_lem remote known =
    subst
      (λ d.
        Classed remote known d
        × (length d.new + length d.changed + length d.unchanged ≡ length remote))
      (sym (diff-filters remote known)) (filters-Classed remote known, length-filters known remote)

abbrev pub handled : Report → ℕ
handled r = r.new + r.changed + r.skipped + r.errors

module _ (lib : Library) (run : Run lib) where
  -- A turn that does not halt counts its object; and it halts only at a size that its column cannot
  -- hold, or at a session that an ingest left broken.
  abbrev Turned : State lib → RemoteObject → State lib → Type 0
  Turned st o st' =
      (st'.halted ≡ false → handled st'.report ≡ handled st.report + 1)
      × (o.size < 2147483648 → st.halted ≡ false → st'.halted ≡ false)

  set_item-Turned :
      (st : State lib) (o : RemoteObject) (status : ItemStatus) (doc_id : Option ℕ)
      (reason : Option Text) (report : Report)
      → handled report ≡ handled st.report + 1
      → Turned st o (set_item lib run st o status doc_id reason report)
  unfolding upsert_item
  set_item-Turned st o status doc_id reason report counted =
      elim (Bool-cases (fits_integer o.size)) [
        | inl e ↦
            subst (λ r. Turned st o (written lib st r report)) (sym (if_true _ _ e))
              ((λ _. counted), (λ _ live. live))
        | inr e ↦
            subst (λ r. Turned st o (written lib st r report)) (sym (if_false _ _ e))
              ((λ k. absurd cc), (λ small. absurd (ground (arith, e, small))))
      ]

  tally_counts : (is_new : Bool) (r : Report) → handled (tally lib is_new r) ≡ handled r + 1
  tally_counts true r = omega arith
  tally_counts false r = omega arith

  -- The library leaves the session usable.
  abbrev pub Usable : Type 0
  Usable =
      (documents : lib.Documents) (body name collection : Text)
      → (lib.ingest_bytes documents body name collection).1 ≢ session_broken

  module _ (usable : Usable) where
    settle-Turned :
        (st : State lib) (o : RemoteObject) (is_new : Bool) (r : lib.Documents × Ingested)
        → r.1 ≢ session_broken
        → Turned st o (settle lib run st o is_new r)
    settle-Turned st o is_new (documents, document d) ok =
        set_item-Turned (record st { documents = documents }) o synced (some d) none _
          (tally_counts is_new st.report)
    settle-Turned st o is_new (documents, refused t) ok =
        set_item-Turned (record st { documents = documents }) o error none (some t) _ (omega arith)
    settle-Turned st o is_new (documents, raised t) ok =
        set_item-Turned (record st { documents = documents }) o error none (some t) _ (omega arith)
    settle-Turned st o is_new (documents, session_broken) ok = absurd (ok refl)

    fetched-Turned :
        (st : State lib) (o : RemoteObject) (is_new : Bool) (r : Option Text)
        → Turned st o (fetched lib run st o is_new r)
    fetched-Turned st o is_new none =
        set_item-Turned st o error none (some (run.fetch_error o)) _ (omega arith)
    fetched-Turned st o is_new (some body) = settle-Turned st o is_new _ (usable _ _ _ _)

    process_object-Turned :
        (st : State lib) (o : RemoteObject) (is_new : Bool)
        → Turned st o (process_object lib run st (o, is_new))
    unfolding process_object
    process_object-Turned st o is_new =
        if_intro (Turned st o) (not (is_supported o.key))
          (set_item-Turned st o skipped none _ _ (omega arith))
          (if_intro (Turned st o) (ltb run.max_upload_bytes o.size)
            (set_item-Turned st o skipped none _ _ (omega arith))
            (fetched-Turned st o is_new (run.fetch o)))

    process_from_counts :
        (st : State lib) (work : List (RemoteObject × Bool))
        → ((w : RemoteObject × Bool) → Member w work → (w.0).size < 2147483648)
        → st.halted ≡ false
        → ((process_from lib run st work).halted ≡ false)
          × (handled (process_from lib run st work).report ≡ handled st.report + length work)
    process_from_counts st [] small live = (live, omega arith)
    process_from_counts st (v ∷ work) small live =
        let after : State lib = process_object lib run st v in
        let (counts, goes) = process_object-Turned st v.0 v.1 in
        let going : after.halted ≡ false = goes (small v (inl refl)) live in
        let (end, counted) = process_from_counts after work (λ w m. small w (inr m)) going in
        let one : handled after.report ≡ handled st.report + 1 = counts going in
        subst
          (λ (s : State lib).
            (s.halted ≡ false) × (handled s.report ≡ handled st.report + length (v ∷ work)))
          (sym (if_false {b = after.halted} _ _ going)) (end, omega (arith, counted, one))

    length-work : (d : Classes) → length (work_of lib d) ≡ length d.new + length d.changed
    length-work d =
        length-append (map as_new d.new) (map as_changed d.changed)
        ∙ omega (arith, length-map as_new d.new, length-map as_changed d.changed)
      where
        as_new : RemoteObject → RemoteObject × Bool
        as_new o = (o, true)

        as_changed : RemoteObject → RemoteObject × Bool
        as_changed o = (o, false)

    -- Where the sizes of a listing fit a column of 32 bits and no ingest leaves the session broken, a
    -- run over it finishes, whatever else becomes of its objects, and its report counts each new or
    -- changed object once.
    pub process_objects_counts :
        (items : List ConnectorItem) (documents : lib.Documents) (remote : List RemoteObject)
        → ((o : RemoteObject) → Member o remote → o.size < 2147483648)
        → ((process_objects lib run items documents remote).halted ≡ false)
          × (handled (process_objects lib run items documents remote).report
                + length (diff_objects remote (known_of run.connector_id items)).unchanged
              ≡ length remote)
    unfolding process_objects
    process_objects_counts items documents remote small =
        let known : Known = known_of run.connector_id items in
        let d : Classes = diff_objects remote known in
        let (live, counted) =
          process_from_counts start (work_of lib d)
            (λ w m. small w.0 (work-Member lib run remote d (diff-WithinListing remote known) w m))
            refl in
        let sized = (diff_objects_lem remote known).1 in
        subst
          (λ (s : State lib).
            (s.halted ≡ false) × (handled s.report + length d.unchanged ≡ length remote))
          (sym (if_false {b = (process_from lib run start (work_of lib d)).halted} _ _ live))
          (live, omega (arith, counted, sized, length-work d))
      where
        start : State lib
        start = record {
          items = items;
          documents = documents;
          report = record { new = 0; changed = 0; skipped = 0; errors = 0; deleted = 0 };
          halted = false;
        }
