-- ===== src/Ingest/Chunk/Pages.antt =====
-- `chunk_pages` loses no word.
use pro_rag.Prelude.{
  ℕ, zero, suc, ◌+◌, ◌-◌, ◌≤◌, ◌≡◌, refl, sym, ap, ◌∙◌, some, List, [], ◌∷◌, ◌++◌, map, arith, Text,
  length, length-map, length-take, drop, flatten, All, All-append, All-take,
}
use mathlib.Core.Option
use mathlib.Core.Path.{subst}
use pro_rag.Prelude.Words.{split, split-All, split-join, IsWord}
use pro_rag.Ingest.Chunk.{
  Chunk, Window, step_of, numbered, stream_of_pages, words_of, page_chunk, chunk_pages,
}
use pro_rag.Ingest.Chunk.Windows.{whole, new_parts, rejoin, IsCutOf, cut_lem}

-- The words of the chunks, each chunk after the first without the `k` that it shares.
abbrev pub new_words : ℕ → List Chunk → List Text
new_words k [] = []
new_words k (c ∷ cs) = drop k (split c.text) ++ new_words k cs

abbrev pub rejoin_words : ℕ → List Chunk → List Text
rejoin_words k [] = []
rejoin_words k (c ∷ cs) = split c.text ++ new_words k cs

-- `ord` counts from the first argument.
abbrev pub IsNumberedFrom : ℕ → List Chunk → Type 0
IsNumberedFrom n [] = Unit
IsNumberedFrom n (c ∷ cs) = (c.ord ≡ n) × IsNumberedFrom (n + 1) cs

map-append : {A B : Type 0} (f : A → B) (xs ys : List A) → map f (xs ++ ys) ≡ map f xs ++ map f ys
map-append f [] ys = refl
map-append f (x ∷ xs) ys = ap (λ t. f x ∷ t) (map-append f xs ys)

map-drop : {A B : Type 0} (f : A → B) (n : ℕ) (xs : List A) → map f (drop n xs) ≡ drop n (map f xs)
map-drop f zero xs = refl
map-drop f (suc n) [] = refl
map-drop f (suc n) (x ∷ xs) = map-drop f n xs

pub All-drop : {A : Type 0} (P : A → Type 0) (n : ℕ) (xs : List A) → All P xs → All P (drop n xs)
All-drop P zero xs h = h
All-drop P (suc n) [] h = tt
All-drop P (suc n) (x ∷ xs) h = All-drop P n xs h.1

abbrev word_in : Text × ℕ → Text
word_in x = x.0

abbrev OfWords : Window (Text × ℕ) → Type 0
OfWords w = All (λ (x : Text × ℕ). IsWord x.0) (whole w)

All-cut :
    (target : ℕ) (stream : List (Text × ℕ)) (ws : List (Window (Text × ℕ)))
    → All (λ (x : Text × ℕ). IsWord x.0) stream
    → All (IsCutOf target stream) ws
    → All OfWords ws
All-cut target stream [] h k = tt
All-cut target stream (w ∷ ws) h ((i, e), k) = (
  subst (All (λ (x : Text × ℕ). IsWord x.0)) (sym e) (
      All-take (λ (x : Text × ℕ). IsWord x.0) target (drop i stream)
        (All-drop (λ (x : Text × ℕ). IsWord x.0) i stream h)),
  All-cut target stream ws h k,
)

words-All :
    (xs : List (Text × ℕ)) → All (λ (x : Text × ℕ). IsWord x.0) xs → All IsWord (map word_in xs)
words-All [] h = tt
words-All (x ∷ xs) h = (h.0, words-All xs h.1)

stream-words :
    (n : ℕ) (pages : List Text) → map word_in (stream_of_pages n pages) ≡ flatten (map split pages)
unfolding stream_of_pages
stream-words n [] = refl
stream-words n (p ∷ pages) =
    map-append word_in (map (λ word. (word, n)) (split p)) (stream_of_pages (n + 1) pages)
    ∙ ap (λ t. t ++ map word_in (stream_of_pages (n + 1) pages)) (unpaired (split p))
    ∙ ap (λ t. split p ++ t) (stream-words (n + 1) pages)
  where
    unpaired : (ws : List Text) → map word_in (map (λ word. (word, n)) ws) ≡ ws
    unpaired [] = refl
    unpaired (w ∷ ws) = ap (λ t. w ∷ t) (unpaired ws)

stream-All :
    (n : ℕ) (pages : List Text) → All (λ (x : Text × ℕ). IsWord x.0) (stream_of_pages n pages)
unfolding stream_of_pages
stream-All n [] = tt
stream-All n (p ∷ pages) =
    All-append _ _ _ (paired (split p) (split-All p)) (stream-All (n + 1) pages)
  where
    paired :
        (ws : List Text)
        → All IsWord ws
        → All (λ (x : Text × ℕ). IsWord x.0) (map (λ word. (word, n)) ws)
    paired [] h = tt
    paired (w ∷ ws) h = (h.0, paired ws h.1)

split-page_chunk :
    (n : ℕ) (w : Window (Text × ℕ))
    → OfWords w
    → split (page_chunk n w).text ≡ map word_in (whole w)
split-page_chunk n w h = split-join (words_of w) (words-All (whole w) h)

new_words-eq :
    (k n : ℕ) (ws : List (Window (Text × ℕ)))
    → All OfWords ws
    → new_words k (numbered page_chunk n ws) ≡ map word_in (new_parts k ws)
new_words-eq k n [] h = refl
new_words-eq k n (w ∷ ws) h =
    ap (λ t. drop k t ++ new_words k (numbered page_chunk (n + 1) ws)) (split-page_chunk n w h.0)
    ∙ ap (λ t. drop k (map word_in (whole w)) ++ t) (new_words-eq k (n + 1) ws h.1)
    ∙ ap (λ t. t ++ map word_in (new_parts k ws)) (sym (map-drop word_in k (whole w)))
    ∙ sym (map-append word_in (drop k (whole w)) (new_parts k ws))

rejoin_words-eq :
    (k n : ℕ) (ws : List (Window (Text × ℕ)))
    → All OfWords ws
    → rejoin_words k (numbered page_chunk n ws) ≡ map word_in (rejoin k ws)
rejoin_words-eq k n [] h = refl
rejoin_words-eq k n (w ∷ ws) h =
    ap (λ t. t ++ new_words k (numbered page_chunk (n + 1) ws)) (split-page_chunk n w h.0)
    ∙ ap (λ t. map word_in (whole w) ++ t) (new_words-eq k (n + 1) ws h.1)
    ∙ sym (map-append word_in (whole w) (new_parts k ws))

numbered-IsNumberedFrom :
    (n : ℕ) (ws : List (Window (Text × ℕ))) → IsNumberedFrom n (numbered page_chunk n ws)
numbered-IsNumberedFrom n [] = tt
numbered-IsNumberedFrom n (w ∷ ws) = (refl, numbered-IsNumberedFrom (n + 1) ws)

-- The count is the count of the text's words, and within the target.
abbrev pub Fits : ℕ → Chunk → Type 0
Fits target c = (c.token_count ≡ length (split c.text)) × (c.token_count ≤ target)

numbered-Fits :
    (target n : ℕ) (stream : List (Text × ℕ)) (ws : List (Window (Text × ℕ)))
    → All OfWords ws
    → All (IsCutOf target stream) ws
    → All (Fits target) (numbered page_chunk n ws)
numbered-Fits target n stream [] h k = tt
numbered-Fits target n stream (w ∷ ws) h ((i, e), k) = (
  (
    sym (ap length (split-page_chunk n w h.0)),
    omega (arith, length-map word_in w.1, ap length e, length-take target (drop i stream)),
  ),
  numbered-Fits target (n + 1) stream ws h.1 k,
)

-- With a target of at least one word, chunking the pages gives chunks; their words, without what
-- each shares with the one before, are the words of the pages in order; they are numbered from
-- zero, and each counts its own words, at most the target.
pub chunk_pages_lem :
    (pages : List Text) (target overlap : ℕ)
    → 1 ≤ target
    → (chunks : List Chunk) × (chunk_pages pages target overlap ≡ some chunks)
      × (rejoin_words (target - step_of target overlap) chunks ≡ flatten (map split pages))
      × IsNumberedFrom 0 chunks
      × All (Fits target) chunks
unfolding chunk_pages
chunk_pages_lem pages target overlap h =
    let (ws, found, joined, cuts) = cut_lem (some []) target overlap (stream_of_pages 1 pages) h in
    let words = All-cut target (stream_of_pages 1 pages) ws (stream-All 1 pages) cuts in
    (
      numbered page_chunk 0 ws,
      ap (Option.map (numbered page_chunk 0)) found,
      (rejoin_words-eq _ 0 ws words ∙ ap (map word_in) joined ∙ stream-words 1 pages),
      numbered-IsNumberedFrom 0 ws,
      numbered-Fits target 0 (stream_of_pages 1 pages) ws words cuts,
    )
