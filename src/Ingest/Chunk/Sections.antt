-- ===== src/Ingest/Chunk/Sections.antt =====
-- A chunk of `chunk_elements` never crosses a page or an H1/H2 heading.
use pro_rag.Prelude.{
  ℕ, ◌+◌, ◌≤◌, ◌≡◌, refl, sym, ap, none, some, List, [], ◌∷◌, ◌++◌, map, arith, Text, length,
  length-take, take, drop, take-append-drop, flatten, append-nil, append_assoc, ◌∙◌, All,
  All-append, All-take, All-map_imp,
}
use mathlib.Core.Option
use mathlib.Core.Path.{subst}
use pro_rag.Prelude.Sort.{Order}
use pro_rag.Prelude.Words.{split, join}
use pro_rag.Ingest.Chunk.{
  Element, StructuredChunk, Key, Window, key_of, numbered, words_of, structured_chunk,
  stream_of_elements, windows_of_groups, group_by_page_and_heading, chunk_elements,
}
use pro_rag.Ingest.Chunk.Windows.{whole, IsCutOf, cut_lem}
use pro_rag.Ingest.Chunk.Pages.{All-drop}
use pro_rag.Ingest.Chunk.Groups.{IsUniform, group_by_page_and_heading_lem}

module _ (o : Order) where
  -- The words of the elements, in order, each with its element.
  abbrev pub words_in : List (Element o) → List (Text × Element o)
  words_in [] = []
  words_in (el ∷ els) = map (λ word. (word, el)) (split el.text) ++ words_in els

  words_in-eq : (els : List (Element o)) → stream_of_elements o els ≡ words_in els
  unfolding stream_of_elements
  words_in-eq [] = refl
  words_in-eq (el ∷ els) = ap (λ t. map (λ word. (word, el)) (split el.text) ++ t) (words_in-eq els)

  words_in-append : (xs ys : List (Element o)) → words_in (xs ++ ys) ≡ words_in xs ++ words_in ys
  words_in-append [] ys = refl
  words_in-append (x ∷ xs) ys =
      ap (λ t. map (λ word. (word, x)) (split x.text) ++ t) (words_in-append xs ys)
      ∙ sym (append_assoc (map (λ word. (word, x)) (split x.text)) (words_in xs) (words_in ys))

  -- One piece of the list, without a gap.
  abbrev pub IsPieceOf : List (Text × Element o) → List (Text × Element o) → Type 0
  IsPieceOf all part =
      (before : List (Text × Element o)) × (after : List (Text × Element o)) × (all
        ≡ before ++ (part ++ after))

  piece_within :
      (xs ys zs part : List (Text × Element o))
      → IsPieceOf ys part
      → IsPieceOf (xs ++ (ys ++ zs)) part
  piece_within xs ys zs part (before, after, e) = (
    xs ++ before,
    after ++ zs,
    ap (λ t. xs ++ (t ++ zs)) e
        ∙ ap (λ t. xs ++ t) (append_assoc before (part ++ after) zs)
        ∙ ap (λ t. xs ++ (before ++ t)) (append_assoc part after zs)
        ∙ sym (append_assoc xs before (part ++ (after ++ zs))),
  )

  piece_cut : (i n : ℕ) (all : List (Text × Element o)) → IsPieceOf all (take n (drop i all))
  piece_cut i n all = (
    take i all,
    drop n (drop i all),
    sym (take-append-drop i all)
        ∙ ap (λ t. take i all ++ t) (sym (take-append-drop n (drop i all))),
  )

  -- The window's words stand together in the elements, are of one page and one H1/H2, and at most
  -- `target`.
  abbrev pub OneSection : List (Text × Element o) → ℕ → Window (Text × Element o) → Type 0
  OneSection all target w =
      All (λ (x : Text × Element o). key_of o x.1 ≡ key_of o w.0.1) (whole w)
      × (length (whole w) ≤ target)
      × IsPieceOf all (whole w)

  -- The chunk is made of such a window.
  abbrev pub OfOneSection : List (Element o) → ℕ → StructuredChunk o → Type 0
  OfOneSection elements target c =
      (w : Window (Text × Element o)) × OneSection (words_in elements) target w
      × (c.text ≡ join (32 ∷ []) (words_of w))
      × (c.page_start ≡ w.0.1.page)
      × (c.page_end ≡ w.0.1.page)
      × (c.heading_path ≡ w.0.1.heading_path)

  stream-All :
      (k : Key o) (els : List (Element o))
      → All (λ el. key_of o el ≡ k) els
      → All (λ (x : Text × Element o). key_of o x.1 ≡ k) (stream_of_elements o els)
  unfolding stream_of_elements
  stream-All k [] h = tt
  stream-All k (el ∷ els) h = All-append _ _ _ (paired (split el.text)) (stream-All k els h.1)
    where
      paired :
          (ws : List Text)
          → All (λ (x : Text × Element o). key_of o x.1 ≡ k) (map (λ word. (word, el)) ws)
      paired [] = tt
      paired (w ∷ ws) = (h.0, paired ws)

  All-cuts :
      (target : ℕ) (k : Key o) (stream : List (Text × Element o))
      (ws : List (Window (Text × Element o)))
      → All (λ (x : Text × Element o). key_of o x.1 ≡ k) stream
      → All (IsCutOf target stream) ws
      → All (OneSection stream target) ws
  All-cuts target k stream [] h c = tt
  All-cuts target k stream (w ∷ ws) h ((i, e), c) =
      let same : All (λ (x : Text × Element o). key_of o x.1 ≡ k) (whole w) =
        subst (All (λ (x : Text × Element o). key_of o x.1 ≡ k)) (sym e)
          (All-take _ target (drop i stream) (All-drop _ i stream h)) in
      (
        (
          subst (λ j. All (λ (x : Text × Element o). key_of o x.1 ≡ j) (whole w)) (sym same.0) same,
          omega (arith, ap length e, length-take target (drop i stream)),
          subst (IsPieceOf stream) (sym e) (piece_cut i target stream),
        ),
        All-cuts target k stream ws h c,
      )

  within :
      (xs ys zs : List (Text × Element o)) (target : ℕ) (ws : List (Window (Text × Element o)))
      → All (OneSection ys target) ws
      → All (OneSection (xs ++ (ys ++ zs)) target) ws
  within xs ys zs target ws h =
      All-map_imp
        (λ (w : Window (Text × Element o)) k. (k.0, k.1, piece_within xs ys zs (whole w) k.2)) ws h

  windows_of_groups-All :
      (target overlap : ℕ) (groups : List (List (Element o)))
      → 1 ≤ target
      → All (IsUniform o) groups
      → (ws : List (Window (Text × Element o))) × (windows_of_groups o target overlap groups
          ≡ some ws)
        × All (OneSection (words_in (flatten groups)) target) ws
  unfolding windows_of_groups
  windows_of_groups-All target overlap [] h k = ([], refl, tt)
  windows_of_groups-All target overlap (group ∷ groups) h ((key, same), k) =
      let (ws, found, _, cuts) = cut_lem none target overlap (stream_of_elements o group) h in
      let (rest, found_rest, sections) = windows_of_groups-All target overlap groups h k in
      (
        ws ++ rest,
        rw (found, found_rest) refl,
        All-append _ ws rest
            (subst (λ t. All (OneSection t target) ws)
              (ap (λ t. t ++ words_in (flatten groups)) (words_in-eq group)
                ∙ sym (words_in-append group (flatten groups)))
              (within [] (stream_of_elements o group) (words_in (flatten groups)) target ws (
                All-cuts target key (stream_of_elements o group) ws (stream-All key group same)
                  cuts)))
            (subst (λ t. All (OneSection t target) rest)
              (ap (λ t. words_in group ++ t) (append-nil (words_in (flatten groups)))
                ∙ sym (words_in-append group (flatten groups)))
              (within (words_in group) (words_in (flatten groups)) [] target rest sections)),
      )

  numbered-All :
      (elements : List (Element o)) (target n : ℕ) (ws : List (Window (Text × Element o)))
      → All (OneSection (words_in elements) target) ws
      → All (OfOneSection elements target) (numbered (structured_chunk o) n ws)
  numbered-All elements target n [] h = tt
  numbered-All elements target n (w ∷ ws) h =
      ((w, h.0, refl, refl, refl, refl), numbered-All elements target (n + 1) ws h.1)

  -- With a target of at least one word, chunking raises nothing, and each chunk holds words that stand
  -- together in the elements, of one page and one H1/H2 only, at most the target, under that page and
  -- the heading path of the first.
  pub chunk_elements_lem :
      (elements : List (Element o)) (target overlap : ℕ)
      → 1 ≤ target
      → (chunks : List (StructuredChunk o)) × (chunk_elements o elements target overlap
          ≡ some chunks)
        × All (OfOneSection elements target) chunks
  unfolding chunk_elements
  chunk_elements_lem elements target overlap h =
      let (all, uniform) = group_by_page_and_heading_lem o elements in
      let (ws, found, sections) =
        windows_of_groups-All target overlap (group_by_page_and_heading o elements) h uniform in
      (
        numbered (structured_chunk o) 0 ws,
        ap (Option.map (numbered (structured_chunk o) 0)) found,
        numbered-All elements target 0 ws
            (subst (λ els. All (OneSection (words_in els) target) ws) all sections),
      )
