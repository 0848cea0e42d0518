-- ===== src/Ingest/Chunk/Groups.antt =====
-- `_group_by_page_and_heading` cuts the elements where the page or the H1/H2 heading changes.
use pro_rag.Prelude.{
  ◌≡◌, refl, sym, ap, ◌∙◌, ◌⊎◌, inl, inr, true, not, Option, none, some, List, [], ◌∷◌, ◌++◌,
  append-nil, append_assoc, arith, Text, same_text, same_text_iff, if_cases, flatten, All, All-snoc,
}
use mathlib.Core.Path.{subst}
use pro_rag.Prelude.Sort.{Order}
use pro_rag.Ingest.Chunk.{
  Element, Key, key_of, same_texts, is_key, Grouping, put_element, closed, group_from,
  group_by_page_and_heading,
}

module _ (o : Order) where
  same_texts_sound : (ss ts : List Text) → same_texts o ss ts ≡ true → ss ≡ ts
  same_texts_sound [] [] h = refl
  same_texts_sound [] (t ∷ ts) h = absurd (ground (arith, h))
  same_texts_sound (s ∷ ss) [] h = absurd (ground (arith, h))
  same_texts_sound (s ∷ ss) (t ∷ ts) h =
      let heads : same_text s t ≡ true = ground (arith, h) in
      let tails : same_texts o ss ts ≡ true = ground (arith, h) in
      ap (λ u. u ∷ ss) ((same_text_iff s t).0 heads)
      ∙ ap (λ us. t ∷ us) (same_texts_sound ss ts tails)

  is_key_sound : (j k : Key o) → is_key o (some j) k ≡ true → k ≡ j
  is_key_sound (m, ss) (n, ts) h =
      let pages : m ≡ n = ground (arith, h) in
      let headings : ss ≡ ts = same_texts_sound ss ts (ground (arith, h)) in
      ap (λ a. (a, ts)) (sym pages) ∙ ap (λ a. (m, a)) (sym headings)

  -- The elements of a group are of one page and one H1/H2.
  abbrev pub IsUniform : List (Element o) → Type 0
  IsUniform els = (k : Key o) × All (λ el. key_of o el ≡ k) els

  abbrev IsOpen : List (Element o) → Option (Key o) → Type 0
  IsOpen current key =
      (current ≡ []) ⊎ ((k : Key o) × (key ≡ some k) × All (λ el. key_of o el ≡ k) current)

  abbrev Inv : List (Element o) → Grouping o → Type 0
  Inv seen g =
      (flatten g.groups ++ g.current ≡ seen)
      × All IsUniform g.groups
      × IsOpen g.current g.current_key

  flatten-snoc :
      (gs : List (List (Element o))) (c : List (Element o))
      → flatten (gs ++ c ∷ []) ≡ flatten gs ++ c
  flatten-snoc [] c = append-nil c
  flatten-snoc (g ∷ gs) c =
      ap (λ t. g ++ t) (flatten-snoc gs c) ∙ sym (append_assoc g (flatten gs) c)

  abbrev grouping : List (List (Element o)) → List (Element o) → Option (Key o) → Grouping o
  grouping groups current key = record { groups = groups; current = current; current_key = key }

  put_Inv :
      (seen : List (Element o)) (groups : List (List (Element o))) (current : List (Element o))
      (key : Option (Key o)) (el : Element o)
      → Inv seen (grouping groups current key)
      → Inv (seen ++ el ∷ []) (put_element o (grouping groups current key) el)
  put_Inv seen groups [] key el (all, uniform, open_group) = (
    ap (λ t. t ++ el ∷ []) (sym (append-nil (flatten groups)) ∙ all),
    uniform,
    inr (key_of o el, refl, (refl, tt)),
  )
  put_Inv seen groups (c ∷ cs) key el (all, uniform, inl e) = absurd cc
  put_Inv seen groups (c ∷ cs) key el (all, uniform, inr (k, e, same)) =
      if_cases (Inv (seen ++ el ∷ [])) (not (is_key o key (key_of o el)))
        {x = grouping (groups ++ (c ∷ cs) ∷ []) (el ∷ []) (some (key_of o el))}
        {y = grouping groups ((c ∷ cs) ++ el ∷ []) (some (key_of o el))}
        (λ _. (
          ap (λ t. t ++ el ∷ []) (flatten-snoc groups (c ∷ cs) ∙ all),
          All-snoc IsUniform groups (c ∷ cs) uniform (k, same),
          inr (key_of o el, refl, (refl, tt)),
        ))
        (λ n.
          let here : key_of o el ≡ k =
            is_key_sound k (key_of o el)
              (subst (λ j. is_key o j (key_of o el) ≡ true) e (ground (arith, n))) in
          (
            sym (append_assoc (flatten groups) (c ∷ cs) (el ∷ [])) ∙ ap (λ t. t ++ el ∷ []) all,
            uniform,
            inr (
              k,
              ap (λ (x : Key o). some x) here,
              All-snoc (λ x. key_of o x ≡ k) (c ∷ cs) el same here,
            ),
          ))

  put_element-Inv :
      (seen : List (Element o)) (g : Grouping o) (el : Element o)
      → Inv seen g
      → Inv (seen ++ el ∷ []) (put_element o g el)
  put_element-Inv seen g el h = put_Inv seen g.groups g.current g.current_key el h

  closed-grouping-Inv :
      (seen : List (Element o)) (groups : List (List (Element o))) (current : List (Element o))
      (key : Option (Key o))
      → Inv seen (grouping groups current key)
      → (flatten (closed o (grouping groups current key)) ≡ seen)
        × All IsUniform (closed o (grouping groups current key))
  closed-grouping-Inv seen groups [] key (all, uniform, open_group) =
      (sym (append-nil (flatten groups)) ∙ all, uniform)
  closed-grouping-Inv seen groups (c ∷ cs) key (all, uniform, inl e) = absurd cc
  closed-grouping-Inv seen groups (c ∷ cs) key (all, uniform, inr (k, e, same)) =
      (flatten-snoc groups (c ∷ cs) ∙ all, All-snoc IsUniform groups (c ∷ cs) uniform (k, same))

  closed-Inv :
      (seen : List (Element o)) (g : Grouping o)
      → Inv seen g
      → (flatten (closed o g) ≡ seen) × All IsUniform (closed o g)
  closed-Inv seen g h = closed-grouping-Inv seen g.groups g.current g.current_key h

  group_from-Inv :
      (seen : List (Element o)) (g : Grouping o) (els : List (Element o))
      → Inv seen g
      → (flatten (group_from o g els) ≡ seen ++ els) × All IsUniform (group_from o g els)
  group_from-Inv seen g [] h =
      let (all, uniform) = closed-Inv seen g h in (all ∙ sym (append-nil seen), uniform)
  group_from-Inv seen g (el ∷ els) h =
      let (all, uniform) =
        group_from-Inv (seen ++ el ∷ []) (put_element o g el) els (put_element-Inv seen g el h) in
      (all ∙ append_assoc seen (el ∷ []) els, uniform)

  -- The groups are the elements in order, none lost, and each is of one page and one heading.
  pub group_by_page_and_heading_lem :
      (els : List (Element o))
      → (flatten (group_by_page_and_heading o els) ≡ els)
        × All IsUniform (group_by_page_and_heading o els)
  unfolding group_by_page_and_heading
  group_by_page_and_heading_lem els =
      group_from-Inv [] (record { groups = []; current = []; current_key = none }) els
        (refl, tt, inl refl)
