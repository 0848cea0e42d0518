-- ===== src/Retrieve/Crop/Printings.antt =====
-- One printing for each title: what the dedup loop of the crop keeps.
use pro_rag.Prelude.{
  ℕ, suc, ◌≤◌, ◌<◌, ◌≡◌, refl, sym, ◌∙◌, ap, ◌⊎◌, inl, inr, Bool, true, false, not, ◌&&◌, Option,
  none, some, List, [], ◌∷◌, ◌++◌, append_assoc, append-nil, arith, ltb, if_cases, if_intro,
  Bool-cases, length, filter, All, All-map_imp, All-snoc, length-append, filter-snoc_in,
  filter-snoc_out, filter-filter_within, filter-filter_apart, max, Text, same_text, same_text_iff,
}
use mathlib.Core.Path.{subst}
use mathlib.Core.Bool.{false≢true}
use pro_rag.Prelude.Chain.{OnSome}
use pro_rag.Prelude.Sort.{Order}
use pro_rag.Retrieve.Hit.{Hit}
use pro_rag.Retrieve.Crop.{
  Dedup, put, title_of, is_newer, same_doc, take_slot, first_of_title, join_slot, against,
  dedup_from,
}

module _ (o : Order) (normalize_title : Option Text → Text) where
  abbrev pub title : Hit o → Text
  title = title_of o normalize_title

  abbrev pub has_title : Text → Hit o → Bool
  has_title t h = same_text (title h) t

  abbrev pub newer : Hit o → Hit o → Bool
  newer = is_newer o normalize_title

  abbrev pub one_doc : Hit o → Hit o → Bool
  one_doc = same_doc o normalize_title

  -- Of the hits of one title, by the winner: their number is within the count that was taken, they
  -- are the winner or come from its document, and no hit that was seen is newer than the winner.
  abbrev pub GroupOk : ℕ → Option (Hit o) → ℕ → List (Hit o) → List (Hit o) → Type 0
  GroupOk n none taken group seen = (group ≡ []) × (seen ≡ [])
  GroupOk n (some w) taken group seen =
      (length group ≤ taken)
      × (taken ≤ max 1 n)
      × All (λ h. (h ≡ w) ⊎ (one_doc h w ≡ true)) group
      × All (λ x. newer x w ≡ false) seen

  abbrev pub TitleOk : ℕ → Text → Dedup o normalize_title → List (Hit o) → Type 0
  TitleOk n t s done =
      GroupOk n (s.winner_by_title t) (s.taken_by_title t) (filter (has_title t) s.deduped)
        (filter (has_title t) done)

  pub same_text_refl : (t : Text) → same_text t t ≡ true
  same_text_refl t = (same_text_iff t t).1 refl

  newer_irrefl : (h : Hit o) → newer h h ≡ false
  newer_irrefl h = ground arith

  newer_trans : (x w h : Hit o) → newer h w ≡ true → newer x w ≡ false → newer x h ≡ false
  newer_trans x w h a b = ground arith

  GroupOk-cong :
      (n : ℕ) {w w' : Option (Hit o)} {k k' : ℕ} {g g' d d' : List (Hit o)}
      → w' ≡ w
      → k' ≡ k
      → g' ≡ g
      → d' ≡ d
      → GroupOk n w k g d
      → GroupOk n w' k' g' d'
  GroupOk-cong n ew ek eg ed h =
      subst (λ x. x) (λ i. GroupOk n (sym ew i) (sym ek i) (sym eg i) (sym ed i)) h

  put_same :
      {V : Type 0} (t u : Text) (v : V) (d : Text → V)
      → same_text t u ≡ true
      → put o normalize_title t v d u ≡ v
  put_same t u v d e = rw e refl

  put_other :
      {V : Type 0} (t u : Text) (v : V) (d : Text → V)
      → same_text t u ≡ false
      → put o normalize_title t v d u ≡ d u
  put_other t u v d e = rw e refl

  -- The test by which a newer printing drops the hits of its title.
  abbrev not_of : Hit o → Hit o → Bool
  not_of h x = not (same_text (title x) (title h))

  not_of_other :
      (t : Text) (h x : Hit o)
      → same_text (title h) t ≡ false
      → has_title t x ≡ true
      → not_of h x ≡ true
  not_of_other t h x e m = elim (Bool-cases (same_text (title x) (title h))) [
    | inl same ↦ absurd (
        false≢true (
          sym e
          ∙ (same_text_iff (title h) t).1
              (sym ((same_text_iff (title x) (title h)).0 same) ∙ (same_text_iff (title x) t).0 m)))
    | inr differ ↦ rw differ refl
  ]

  not_of_own : (h x : Hit o) → has_title (title h) x ≡ true → not_of h x ≡ false
  not_of_own h x m = rw m refl

  module _ (n : ℕ) (h : Hit o) (s : Dedup o normalize_title) (done : List (Hit o)) where
    -- A hit of another title.
    other_title :
        (t : Text) (w : Option (Hit o))
        → same_text (title h) t ≡ false
        → TitleOk n t s done
        → TitleOk n t (against o normalize_title n w h s) (done ++ h ∷ [])
    unfolding against first_of_title take_slot join_slot
    other_title t none e k =
        GroupOk-cong n (put_other (title h) t (some h) s.winner_by_title e)
          (put_other (title h) t 1 s.taken_by_title e) (filter-snoc_out (has_title t) s.deduped h e)
          (filter-snoc_out (has_title t) done h e) k
    other_title t (some w) e k =
        if_intro (λ (r : Dedup o normalize_title). TitleOk n t r (done ++ h ∷ [])) (newer h w)
          (GroupOk-cong n (put_other (title h) t (some h) s.winner_by_title e)
            (put_other (title h) t 1 s.taken_by_title e)
            (filter-snoc_out (has_title t) (filter (not_of h) s.deduped) h e
              ∙ filter-filter_within (has_title t) (not_of h) s.deduped
                  (λ x m. not_of_other t h x e m))
            (filter-snoc_out (has_title t) done h e) k)
          (if_intro (λ (r : Dedup o normalize_title). TitleOk n t r (done ++ h ∷ []))
            (one_doc h w && ltb (s.taken_by_title (title h)) n)
            (GroupOk-cong n refl
              (put_other (title h) t (suc (s.taken_by_title (title h))) s.taken_by_title e)
              (filter-snoc_out (has_title t) s.deduped h e) (filter-snoc_out (has_title t) done h e)
              k)
            (GroupOk-cong n refl refl refl (filter-snoc_out (has_title t) done h e) k))

    abbrev own : Hit o → Bool
    own = has_title (title h)

    is_own : same_text (title h) (title h) ≡ true
    is_own = same_text_refl (title h)

    -- A hit of the same title, by the case that the loop is in.
    own_first :
        s.winner_by_title (title h) ≡ none
        → TitleOk n (title h) s done
        → TitleOk n (title h) (first_of_title o normalize_title h s) (done ++ h ∷ [])
    unfolding first_of_title
    own_first e k =
        let k' : GroupOk n none (s.taken_by_title (title h)) (filter own s.deduped)
            (filter own done) =
          rw (e, GroupOk) at k in
        GroupOk-cong n (put_same (title h) (title h) (some h) s.winner_by_title is_own)
          (put_same (title h) (title h) 1 s.taken_by_title is_own)
          (filter-snoc_in own s.deduped h is_own ∙ ap (λ g. g ++ h ∷ []) k'.0)
          (filter-snoc_in own done h is_own ∙ ap (λ g. g ++ h ∷ []) k'.1)
          (omega arith, omega arith, (inl refl, tt), (newer_irrefl h, tt))

    module _ (w : Hit o) (won : s.winner_by_title (title h) ≡ some w)
        (ok : TitleOk n (title h) s done) where
      group_ok :
          GroupOk n (some w) (s.taken_by_title (title h)) (filter own s.deduped) (filter own done)
      group_ok = rw (won, GroupOk) at ok

      own_newer :
          newer h w ≡ true → TitleOk n (title h) (take_slot o normalize_title h s) (done ++ h ∷ [])
      unfolding take_slot
      own_newer later =
          GroupOk-cong n (put_same (title h) (title h) (some h) s.winner_by_title is_own)
            (put_same (title h) (title h) 1 s.taken_by_title is_own)
            (filter-snoc_in own (filter (not_of h) s.deduped) h is_own
              ∙ ap (λ g. g ++ h ∷ []) (filter-filter_apart own (not_of h) s.deduped (not_of_own h)))
            (filter-snoc_in own done h is_own)
            (
              omega arith,
              omega arith,
              (inl refl, tt),
              All-snoc (λ x. newer x h ≡ false) (filter own done) h
                  (All-map_imp (λ x old. newer_trans x w h later old) (filter own done) group_ok.3)
                  (newer_irrefl h),
            )

      seen_more : newer h w ≡ false → All (λ x. newer x w ≡ false) (filter own done ++ h ∷ [])
      seen_more old = All-snoc (λ x. newer x w ≡ false) (filter own done) h group_ok.3 old

      own_join :
          newer h w ≡ false
          → one_doc h w ≡ true
          → s.taken_by_title (title h) < n
          → TitleOk n (title h) (join_slot o normalize_title h s) (done ++ h ∷ [])
      unfolding join_slot
      own_join old same room =
          GroupOk-cong n won
            (put_same (title h) (title h) (suc (s.taken_by_title (title h))) s.taken_by_title
              is_own)
            (filter-snoc_in own s.deduped h is_own) (filter-snoc_in own done h is_own)
            (
              omega (arith, group_ok.0, length-append (filter own s.deduped) (h ∷ [])),
              omega arith,
              All-snoc (λ x. (x ≡ w) ⊎ (one_doc x w ≡ true)) (filter own s.deduped) h group_ok.2
                  (inr same),
              seen_more old,
            )

      own_drop : newer h w ≡ false → TitleOk n (title h) s (done ++ h ∷ [])
      own_drop old =
          GroupOk-cong n won refl refl (filter-snoc_in own done h is_own)
            (group_ok.0, group_ok.1, group_ok.2, seen_more old)

      own_title_won :
          TitleOk n (title h) (against o normalize_title n (some w) h s) (done ++ h ∷ [])
      unfolding against
      own_title_won =
          if_cases (λ (r : Dedup o normalize_title). TitleOk n (title h) r (done ++ h ∷ []))
            (newer h w) own_newer
            (λ old.
              if_cases (λ (r : Dedup o normalize_title). TitleOk n (title h) r (done ++ h ∷ []))
                (one_doc h w && ltb (s.taken_by_title (title h)) n)
                (λ both. own_join old (ground arith) (ground arith)) (λ _. own_drop old))

    own_title :
        (w : Option (Hit o))
        → s.winner_by_title (title h) ≡ w
        → TitleOk n (title h) s done
        → TitleOk n (title h) (against o normalize_title n w h s) (done ++ h ∷ [])
    unfolding against
    own_title none e k = own_first e k
    own_title (some w) e k = own_title_won w e k

    against-TitleOk :
        (t : Text)
        → TitleOk n t s done
        → TitleOk n t
            (against o normalize_title n (s.winner_by_title (title h)) h s)
            (done ++ h ∷ [])
    against-TitleOk t k = elim (Bool-cases (same_text (title h) t)) [
      | inl same ↦
          subst
            (λ u.
              TitleOk n u s done
              → TitleOk n u (against o normalize_title n (s.winner_by_title (title h)) h s)
                  (done ++ h ∷ []))
            ((same_text_iff (title h) t).0 same) (own_title (s.winner_by_title (title h)) refl) k
      | inr other ↦ other_title t (s.winner_by_title (title h)) other k
    ]

  pub dedup_from-TitleOk :
      (n : ℕ) (t : Text) (s : Dedup o normalize_title) (done ranked : List (Hit o))
      → TitleOk n t s done
      → TitleOk n t (dedup_from o normalize_title n s ranked) (done ++ ranked)
  unfolding dedup_from
  dedup_from-TitleOk n t s done [] k = rw append-nil k
  dedup_from-TitleOk n t s done (h ∷ ranked) k =
      subst
        (λ d.
          TitleOk n t
            (dedup_from o normalize_title n
              (against o normalize_title n (s.winner_by_title (title h)) h s) ranked)
            d)
        (append_assoc done (h ∷ []) ranked)
        (dedup_from-TitleOk n t (against o normalize_title n (s.winner_by_title (title h)) h s)
          (done ++ h ∷ []) ranked (against-TitleOk n h s done t k))

  -- Every winner comes from the ranking, so what holds of the hits holds of the winners.
  abbrev pub WinnersAre : (Hit o → Type 0) → Dedup o normalize_title → Type 0
  WinnersAre P s = (t : Text) → OnSome P (s.winner_by_title t)

  put_winner :
      (P : Hit o → Type 0) (u : Text) (h : Hit o) (d : Text → Option (Hit o))
      → P h
      → ((t : Text) → OnSome P (d t))
      → (t : Text) → OnSome P (put o normalize_title u (some h) d t)
  put_winner P u h d ph k t = if_intro (OnSome P) (same_text u t) {x = some h} {y = d t} ph (k t)

  against-WinnersAre :
      (P : Hit o → Type 0) (n : ℕ) (w : Option (Hit o)) (h : Hit o) (s : Dedup o normalize_title)
      → P h
      → WinnersAre P s
      → WinnersAre P (against o normalize_title n w h s)
  unfolding against first_of_title take_slot join_slot
  against-WinnersAre P n none h s ph k = put_winner P (title h) h s.winner_by_title ph k
  against-WinnersAre P n (some w) h s ph k =
      if_intro (WinnersAre P) (newer h w) (put_winner P (title h) h s.winner_by_title ph k)
        (if_intro (WinnersAre P) (one_doc h w && ltb (s.taken_by_title (title h)) n) k k)

  pub dedup_from-WinnersAre :
      (P : Hit o → Type 0) (n : ℕ) (s : Dedup o normalize_title) (ranked : List (Hit o))
      → All P ranked
      → WinnersAre P s
      → WinnersAre P (dedup_from o normalize_title n s ranked)
  unfolding dedup_from
  dedup_from-WinnersAre P n s [] h k = k
  dedup_from-WinnersAre P n s (x ∷ ranked) h k =
      dedup_from-WinnersAre P n (against o normalize_title n (s.winner_by_title (title x)) x s)
        ranked h.1 (against-WinnersAre P n (s.winner_by_title (title x)) x s h.0 k)
