-- ===== src/Retrieve/Crop/Newest.antt =====
-- One printing for each title: what the crop returns.
use pro_rag.Prelude.{
  ℕ, ◌≤◌, ◌≡◌, refl, sym, ◌∙◌, ap, ◌⊎◌, inl, inr, true, false, Option, none, some, List, [], arith,
  length, filter, All, All-map_imp, All-filter, All-member, All-of_Member, Member, count,
  count-eq-length, max, Text, same_text_iff,
}
use pro_rag.Prelude.Sort.{Order, sort_desc, sort_desc-All, Member-sort_desc}
use pro_rag.Prelude.Sub.{Sub-count, Sub-Member}
use pro_rag.Prelude.Chain.{of_OnSome}
use pro_rag.Retrieve.Hit.{Hit}
use pro_rag.Retrieve.Crop.{Limits, Dedup, start, dedup_from, dedup, crop_context}
use pro_rag.Retrieve.Crop.Bounds.{crop_context-Sub, crop_context-Sub_dedup}
use pro_rag.Retrieve.Crop.Printings.{
  title, has_title, newer, one_doc, GroupOk, TitleOk, same_text_refl, dedup_from-TitleOk,
  dedup_from-WinnersAre,
}

module _ (o : Order) (normalize_title : Option Text → Text) where
  module _ (lim : Limits o.Score) (hits : List (Hit o)) where
    abbrev cap : ℕ
    cap = lim.max_chunks_per_doc

    abbrev ranked : List (Hit o)
    ranked = sort_desc o (λ h. h.score) hits

    abbrev final : Dedup o normalize_title
    final = dedup_from o normalize_title cap (start o normalize_title) ranked

    abbrev cropped : List (Hit o)
    cropped = crop_context o normalize_title lim hits

    final-TitleOk : (t : Text) → TitleOk o normalize_title cap t final ranked
    final-TitleOk t =
        dedup_from-TitleOk o normalize_title cap t (start o normalize_title) [] ranked (refl, refl)

    group-length :
        (n k : ℕ) (w : Option (Hit o)) (g d : List (Hit o))
        → GroupOk o normalize_title n w k g d
        → length g ≤ max 1 n
    group-length n k none g d ok = rw (ok.0) (omega arith)
    group-length n k (some w) g d ok = omega (arith, ok.0, ok.1)

    -- A title has at most `max_chunks_per_doc` hits in the cropped list (one, if that is 0).
    pub crop_title_cap : (t : Text) → count ((has_title o normalize_title) t) cropped ≤ max 1 cap
    unfolding dedup
    crop_title_cap t = omega (
      arith,
      Sub-count ((has_title o normalize_title) t)
          (crop_context-Sub_dedup o normalize_title lim hits),
      count-eq-length ((has_title o normalize_title) t) final.deduped,
      group-length cap (final.taken_by_title t) (final.winner_by_title t)
          (filter ((has_title o normalize_title) t) final.deduped)
          (filter ((has_title o normalize_title) t) ranked) (final-TitleOk t),
    )

    -- What the loop knows of a hit of the title `t` that it has kept.
    abbrev Chosen : Text → Hit o → Type 0
    Chosen t h =
        (w : Hit o) × (final.winner_by_title t ≡ some w)
        × ((h ≡ w) ⊎ ((one_doc o normalize_title) h w ≡ true))
        × All
            (λ x. (has_title o normalize_title) t x ≡ true → (newer o normalize_title) x w ≡ false)
            ranked

    group-Chosen :
        (t : Text) (w : Option (Hit o))
        → final.winner_by_title t ≡ w
        → GroupOk o normalize_title cap w
            (final.taken_by_title t)
            (filter ((has_title o normalize_title) t) final.deduped)
            (filter ((has_title o normalize_title) t) ranked)
        → All (Chosen t) (filter ((has_title o normalize_title) t) final.deduped)
    group-Chosen t none e ok = rw (ok.0) tt
    group-Chosen t (some w) e ok =
        All-map_imp
          (λ h from. (
            w,
            e,
            from,
            All-filter (λ x. (newer o normalize_title) x w ≡ false)
                ((has_title o normalize_title) t) ranked ok.3,
          ))
          (filter ((has_title o normalize_title) t) final.deduped) ok.2

    chosen : (h : Hit o) → Member h cropped → Chosen ((title o normalize_title) h) h
    unfolding dedup
    chosen h m =
        All-member
          (λ x.
            (has_title o normalize_title) ((title o normalize_title) h) x ≡ true
            → Chosen ((title o normalize_title) h) x)
          final.deduped
          (All-filter (Chosen ((title o normalize_title) h))
            ((has_title o normalize_title) ((title o normalize_title) h)) final.deduped
            (group-Chosen ((title o normalize_title) h)
              (final.winner_by_title ((title o normalize_title) h)) refl
              (final-TitleOk ((title o normalize_title) h))))
          h (Sub-Member (crop_context-Sub_dedup o normalize_title lim hits) h m)
          (same_text_refl o normalize_title ((title o normalize_title) h))

    doc_of_winner :
        (h w : Hit o) → (h ≡ w) ⊎ ((one_doc o normalize_title) h w ≡ true) → h.doc_id ≡ w.doc_id
    doc_of_winner h w (inl e) = ap (λ (x : Hit o). x.doc_id) e
    doc_of_winner h w (inr same) = ground arith

    ranked-Member : All (λ x. Member x hits) ranked
    ranked-Member =
        sort_desc-All o (λ h. h.score) (λ x. Member x hits) hits
          (All-of_Member (λ x. Member x hits) hits (λ x m. m))

    from_hits : (h : Hit o) → Member h ranked → Member h hits
    from_hits = All-member (λ x. Member x hits) ranked ranked-Member

    won_from_hits : (t : Text) (w : Hit o) → final.winner_by_title t ≡ some w → Member w hits
    won_from_hits t w won =
        of_OnSome (λ x. Member x hits)
          (dedup_from-WinnersAre o normalize_title (λ x. Member x hits) cap
            (start o normalize_title) ranked ranked-Member (λ _. tt) t)
          won

    date_of_winner :
        ((a b : Hit o)
          → Member a hits
          → Member b hits
          → (one_doc o normalize_title) a b ≡ true
          → a.doc_date ≡ b.doc_date)
        → (h w : Hit o) → Member h hits
        → Member w hits
        → (h ≡ w) ⊎ ((one_doc o normalize_title) h w ≡ true)
        → h.doc_date ≡ w.doc_date
    date_of_winner dated h w mh mw (inl e) = ap (λ (x : Hit o). x.doc_date) e
    date_of_winner dated h w mh mw (inr same) = dated h w mh mw same

    -- Two hits of one title in the cropped list come from one document.
    pub crop_one_printing :
        (h x : Hit o)
        → Member h cropped
        → Member x cropped
        → (title o normalize_title) h ≡ (title o normalize_title) x
        → h.doc_id ≡ x.doc_id
    crop_one_printing h x mh mx e =
        let (w, won, from, _) = chosen h mh in
        let (v, won', from', _) = chosen x mx in
        let same : w ≡ v = ground (arith, won, won', ap final.winner_by_title e) in
        doc_of_winner h w from ∙ ap (λ (y : Hit o). y.doc_id) same ∙ sym (doc_of_winner x v from')

    -- If the hits of a document carry one date, no hit of the input is from a newer printing, of
    -- a title in the cropped list, than the hits that the list has of it.
    pub crop_newest :
        ((a b : Hit o)
          → Member a hits
          → Member b hits
          → (one_doc o normalize_title) a b ≡ true
          → a.doc_date ≡ b.doc_date)
        → (h x : Hit o) → Member h cropped
        → Member x hits
        → (title o normalize_title) x ≡ (title o normalize_title) h
        → (newer o normalize_title) x h ≡ false
    crop_newest dated h x mh mx e =
        let (w, won, from, old) = chosen h mh in
        let older : (newer o normalize_title) x w ≡ false =
          All-member
            (λ y.
              (has_title o normalize_title) ((title o normalize_title) h) y ≡ true
              → (newer o normalize_title) y w ≡ false)
            ranked old x (Member-sort_desc o (λ y. y.score) hits x mx)
            ((same_text_iff ((title o normalize_title) x) ((title o normalize_title) h)).1 e) in
        let date : h.doc_date ≡ w.doc_date =
          date_of_winner dated h w
            (from_hits h (Sub-Member (crop_context-Sub o normalize_title lim hits) h mh))
            (won_from_hits (title o normalize_title h) w won) from in
        ground arith
