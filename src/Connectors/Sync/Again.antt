-- ===== src/Connectors/Sync/Again.antt =====
-- A second run over the same listing.
use pro_rag.Prelude.{
  Member-map, Member-append_left, Member-append_right, ℕ, ◌≡◌, ◌⊎◌, refl, ap, sym, ◌∙◌, subst, inl,
  inr, Bool, true, false, Option, none, some, List, [], ◌∷◌, map, if_cases, if_true, if_false,
  Bool-cases, if◌then◌else◌, Text, Member, Member-append,
}
use pro_rag.Connectors.Sync.{
  RemoteObject, ConnectorItem, Known, get_known, known_of, is_recorded, Classes, classify,
  diff_objects, Library, State, Run, process_from, process_objects, work_of, seen_again,
}
use pro_rag.Connectors.Sync.Recorded.{
  OneVersion, IsOnRecord, is_recorded-eq, recorded_self, process_from-keeps, known-seen_again,
}

-- Every object of a listing is work, or on record as it is.
InClasses : Known → Classes → RemoteObject → Type 0
InClasses known d o =
    (Member o d.new ⊎ Member o d.changed)
    ⊎ (get_known known o.key ≡ some (some o.etag, some o.size))

classify-own :
    (known : Known) (o : RemoteObject) (d : Classes) (prior : Option (Option Text × Option ℕ))
    → get_known known o.key ≡ prior
    → InClasses known (classify prior o d) o
unfolding InClasses
classify-own known o d none e = inl (inl (inl refl))
classify-own known o d (some prior) e =
    if_cases (λ k. InClasses known k o) (is_recorded prior o)
      {x = record d { unchanged = o.key ∷ d.unchanged }} {y = record d { changed = o ∷ d.changed }}
      (λ r. inr (e ∙ ap (λ t. some t) (is_recorded-eq prior o r))) (λ _. inl (inr (inl refl)))

classify-keeps :
    (known : Known) (o p : RemoteObject) (d : Classes) (prior : Option (Option Text × Option ℕ))
    → InClasses known d p
    → InClasses known (classify prior o d) p
unfolding InClasses
classify-keeps known o p d none (inl (inl m)) = inl (inl (inr m))
classify-keeps known o p d none (inl (inr m)) = inl (inr m)
classify-keeps known o p d none (inr h) = inr h
classify-keeps known o p d (some prior) h =
    if_cases (λ k. InClasses known k p) (is_recorded prior o)
      {x = record d { unchanged = o.key ∷ d.unchanged }} {y = record d { changed = o ∷ d.changed }}
      (λ _. h) (λ _. more h)
  where
    more :
        (Member p d.new ⊎ Member p d.changed)
          ⊎ (get_known known p.key ≡ some (some p.etag, some p.size))
        → (Member p d.new ⊎ Member p (o ∷ d.changed))
          ⊎ (get_known known p.key ≡ some (some p.etag, some p.size))
    more (inl (inl m)) = inl (inl m)
    more (inl (inr m)) = inl (inr (inr m))
    more (inr e) = inr e

diff-InClasses :
    (remote : List RemoteObject) (known : Known) (o : RemoteObject)
    → Member o remote
    → InClasses known (diff_objects remote known) o
unfolding diff_objects
diff-InClasses [] known o m = absurd m
diff-InClasses (x ∷ remote) known o (inl e) =
    subst (λ p. InClasses known (classify (get_known known x.key) x (diff_objects remote known)) p)
      (sym e) (classify-own known x (diff_objects remote known) (get_known known x.key) refl)
diff-InClasses (x ∷ remote) known o (inr m) =
    classify-keeps known x o (diff_objects remote known) (get_known known x.key)
      (diff-InClasses remote known o m)

-- Nothing but objects of the listing is work.
pub WithinListing : List RemoteObject → Classes → Type 0
WithinListing remote d =
    (o : RemoteObject) → (Member o d.new → Member o remote) × (Member o d.changed → Member o remote)

classify-WithinListing :
    (remote : List RemoteObject) (x : RemoteObject) (d : Classes)
    (prior : Option (Option Text × Option ℕ))
    → WithinListing remote d
    → WithinListing (x ∷ remote) (classify prior x d)
unfolding WithinListing
classify-WithinListing remote x d none h = λ o. (first o, λ m. inr ((h o).1 m))
  where
    first : (o : RemoteObject) → Member o (x ∷ d.new) → Member o (x ∷ remote)
    first o (inl e) = inl e
    first o (inr m) = inr ((h o).0 m)
classify-WithinListing remote x d (some prior) h =
    if_cases (WithinListing (x ∷ remote)) (is_recorded prior x)
      {x = record d { unchanged = x.key ∷ d.unchanged }} {y = record d { changed = x ∷ d.changed }}
      (λ _ o. ((λ m. inr ((h o).0 m)), (λ m. inr ((h o).1 m))))
      (λ _ o. ((λ m. inr ((h o).0 m)), second o))
  where
    second : (o : RemoteObject) → Member o (x ∷ d.changed) → Member o (x ∷ remote)
    second o (inl e) = inl e
    second o (inr m) = inr ((h o).1 m)

pub diff-WithinListing :
    (remote : List RemoteObject) (known : Known) → WithinListing remote (diff_objects remote known)
unfolding diff_objects WithinListing
diff-WithinListing [] known = λ o. ((λ m. m), (λ m. m))
diff-WithinListing (x ∷ remote) known =
    classify-WithinListing remote x (diff_objects remote known) (get_known known x.key)
      (diff-WithinListing remote known)

abbrev keys_of : List RemoteObject → List Text
keys_of = map (λ (o : RemoteObject). o.key)

abbrev pub nothing_new : List RemoteObject → Classes
nothing_new remote = record { new = []; changed = []; unchanged = keys_of remote }

-- A listing that is on record has nothing new.
diff-on_record :
    (remote : List RemoteObject) (known : Known)
    → ((o : RemoteObject)
        → Member o remote
        → get_known known o.key ≡ some (some o.etag, some o.size))
    → diff_objects remote known ≡ nothing_new remote
unfolding diff_objects
diff-on_record [] known h = refl
diff-on_record (o ∷ remote) known h =
    ap (λ d. classify (get_known known o.key) o d)
      (diff-on_record remote known (λ p m. h p (inr m)))
    ∙ ap (λ prior. classify prior o (nothing_new remote)) (h o (inl refl))
    ∙ if_true _ _ (recorded_self o)

Member-of_map :
    {B : Type 0} (b : B) (xs : List RemoteObject) (w : RemoteObject × B)
    → Member w (map (λ x. (x, b)) xs)
    → Member w.0 xs
Member-of_map b [] w m = absurd m
Member-of_map b (x ∷ xs) w (inl e) = inl (ap (λ t. t.0) e)
Member-of_map b (x ∷ xs) w (inr m) = inr (Member-of_map b xs w m)

module _ (lib : Library) (run : Run lib) where
  pub work-Member :
      (remote : List RemoteObject) (d : Classes)
      → WithinListing remote d
      → (w : RemoteObject × Bool) → Member w (work_of lib d)
      → Member w.0 remote
  unfolding WithinListing
  work-Member remote d h w m =
      elim (Member-append w (map (λ (o : RemoteObject). (o, true)) d.new)
        (map (λ (o : RemoteObject). (o, false)) d.changed) m) [
          | inl a ↦ (h w.0).0 (Member-of_map true d.new w a)
          | inr b ↦ (h w.0).1 (Member-of_map false d.changed w b)
        ]

  -- A run that finishes has finished its loop, and then notes what it saw again.
  pub finished_of :
      (st : State lib) (d : Classes)
      → (if st.halted
          then st
          else record st { items = seen_again lib run d.unchanged st.items }).halted
        ≡ false
      → (st.halted ≡ false)
        × ((if st.halted then st else record st { items = seen_again lib run d.unchanged st.items })
            ≡ record st { items = seen_again lib run d.unchanged st.items })
  finished_of st d h = elim (Bool-cases st.halted) [
    | inl e ↦
        let k = ap (λ (s : State lib). s.halted) (sym (if_true _ _ e)) ∙ h in
        absurd (let no : true ≡ false = sym e ∙ k in cc)
    | inr e ↦ (e, if_false _ _ e)
  ]

  -- What a run leaves of a listing: every object is on record as the listing has it.
  process_objects-records :
      (items : List ConnectorItem) (documents : lib.Documents) (remote : List RemoteObject)
      → OneVersion remote
      → (process_objects lib run items documents remote).halted ≡ false
      → (o : RemoteObject) → Member o remote
      → IsOnRecord run.connector_id (process_objects lib run items documents remote).items o
  unfolding process_objects InClasses
  process_objects-records items documents remote one finished o m =
      let (live, done_state) = finished_of after d finished in
      let (done, kept) =
        process_from-keeps lib run remote one start (work_of lib d)
          (work-Member remote d (diff-WithinListing remote known)) live in
      ap (λ (s : State lib). get_known (known_of run.connector_id s.items) o.key) done_state
      ∙ ap (λ k. get_known k o.key)
          (known-seen_again lib run run.connector_id d.unchanged after.items)
      ∙ (elim (diff-InClasses remote known o m) [
        | inl (inl new) ↦
            done (o, true)
              (Member-append_left (o, true) (map (λ (x : RemoteObject). (x, true)) d.new)
                (map (λ (x : RemoteObject). (x, false)) d.changed)
                (Member-map (λ (x : RemoteObject). (x, true)) d.new o new))
        | inl (inr changed) ↦
            done (o, false)
              (Member-append_right (o, false) (map (λ (x : RemoteObject). (x, true)) d.new)
                (map (λ (x : RemoteObject). (x, false)) d.changed)
                (Member-map (λ (x : RemoteObject). (x, false)) d.changed o changed))
        | inr on ↦ kept o m on
      ])
    where
      known : Known
      known = known_of run.connector_id items

      d : Classes
      d = diff_objects remote known

      start : State lib
      start = record {
        items = items;
        documents = documents;
        report = record { new = 0; changed = 0; skipped = 0; errors = 0; deleted = 0 };
        halted = false;
      }

      after : State lib
      after = process_from lib run start (work_of lib d)

  -- The state of a run that only sees the items again.
  abbrev pub untouched : Run lib → State lib → List RemoteObject → State lib
  untouched later st remote = record {
    items = seen_again lib later (keys_of remote) st.items;
    documents = st.documents;
    report = record { new = 0; changed = 0; skipped = 0; errors = 0; deleted = 0 };
    halted = false;
  }

  -- Where a listing gives each key one version and a run over it finishes, a later run of the
  -- connector over the same listing ingests nothing, leaves the documents as they are, counts nothing,
  -- and only notes that the items were seen: whatever became of the objects in the first run.
  pub process_objects-again :
      (later : Run lib) (items : List ConnectorItem) (documents : lib.Documents)
      (remote : List RemoteObject)
      → OneVersion remote
      → (process_objects lib run items documents remote).halted ≡ false
      → later.connector_id ≡ run.connector_id
      → process_objects lib later
          (process_objects lib run items documents remote).items
          (process_objects lib run items documents remote).documents
          remote
        ≡ untouched later (process_objects lib run items documents remote) remote
  unfolding process_objects
  process_objects-again later items documents remote one finished same =
      ap
        (λ d.
          if (process_from lib later start (work_of lib d)).halted
          then process_from lib later start (work_of lib d)
          else record (process_from lib later start (work_of lib d)) {
            items =
                seen_again lib later d.unchanged
                  (process_from lib later start (work_of lib d)).items;
          })
        (diff-on_record remote (known_of later.connector_id first.items) (λ o m.
          ap (λ n. get_known (known_of n first.items) o.key) same
          ∙ process_objects-records items documents remote one finished o m))
    where
      first : State lib
      first = process_objects lib run items documents remote

      start : State lib
      start = record {
        items = first.items;
        documents = first.documents;
        report = record { new = 0; changed = 0; skipped = 0; errors = 0; deleted = 0 };
        halted = false;
      }
