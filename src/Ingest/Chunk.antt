-- ===== src/Ingest/Chunk.antt =====
-- prorag/ingest/chunk.py: windows of words over the pages or the elements of a document.
-- Both loops cut windows in the same way, so they share `windows`; a window is kept as its first
-- entry and the others, since the code reads the first one. `ord_` counts the windows in order.
use pro_rag.Prelude.{
  ℕ, zero, suc, ◌+◌, ◌-◌, max, Bool, true, false, not, ◌&&◌, Option, none, some, List, [], ◌∷◌,
  ◌++◌, map, ltb, leb, ◌==◌, if◌then◌else◌, Text, same_text, length, take, drop,
}
use mathlib.Core.Option
use pro_rag.Prelude.Chain.{◌>>=◌}
use pro_rag.Prelude.Sort.{Order}
use pro_rag.Prelude.Words.{split, join, codes}
pub mod Windows
pub mod Pages
pub mod Groups
pub mod Sections
mod Tests

pub record Chunk : Type 0 where
  pub ord : ℕ
  pub text : Text
  pub page_start : ℕ
  pub page_end : ℕ
  pub token_count : ℕ

abbrev pub Window : Type 0 → Type 0
Window A = A × List A

-- What one turn of the loop appends, before what the later turns append; `at_empty` is what the
-- loop does with an empty window.
abbrev pub window_then :
    {A : Type 0}
    → Option (List (Window A))
    → List A
    → Option (List (Window A))
    → Option (List (Window A))
window_then at_empty [] rest = at_empty
window_then at_empty (x ∷ w) rest = Option.map (λ ws. (x, w) ∷ ws) rest

module _ {A : Type 0} (at_empty : Option (List (Window A))) (target_tokens step : ℕ)
    (stream : List A) where
  -- `while i < n`, at most as many turns as the first argument says
  unfoldable pub windows : ℕ → ℕ → Option (List (Window A))
  windows zero i = some []
  windows (suc fuel) i =
      let rest = windows fuel (i + step) in
      if ltb i (length stream)
      then window_then at_empty (take target_tokens (drop i stream))
          (if leb (length stream) (i + target_tokens) then some [] else rest)
      else some []

abbrev pub step_of : ℕ → ℕ → ℕ
step_of target_tokens overlap_tokens = max (target_tokens - overlap_tokens) 1

-- Every turn moves on by at least one, so the length of the stream is enough turns.
abbrev pub cut : {A : Type 0} → Option (List (Window A)) → ℕ → ℕ → List A → Option (List (Window A))
cut at_empty target_tokens overlap_tokens stream =
    windows at_empty target_tokens (step_of target_tokens overlap_tokens) stream (length stream) 0

-- The windows in order, each with its number.
abbrev pub numbered : {A C : Type 0} → (ℕ → A → C) → ℕ → List A → List C
numbered f ord [] = []
numbered f ord (w ∷ ws) = f ord w ∷ numbered f (ord + 1) ws

unfoldable pub stream_of_pages : ℕ → List Text → List (Text × ℕ)
unfolding split
stream_of_pages page_no [] = []
stream_of_pages page_no (page_text ∷ pages) =
    map (λ word. (word, page_no)) (split page_text) ++ stream_of_pages (page_no + 1) pages

abbrev pub last_page : Text × ℕ → List (Text × ℕ) → ℕ
last_page x [] = x.1
last_page x (y ∷ w) = last_page y w

abbrev pub words_of : {B : Type 0} → Window (Text × B) → List Text
words_of {B} w = map (λ (x : Text × B). x.0) (w.0 ∷ w.1)

abbrev pub page_chunk : ℕ → Window (Text × ℕ) → Chunk
page_chunk ord w = record {
  ord = ord;
  text = join (32 ∷ []) (words_of w);
  page_start = w.0.1;
  page_end = last_page w.0 w.1;
  token_count = length (words_of w);
}

-- An empty window breaks the loop.
unfoldable pub chunk_pages : List Text → ℕ → ℕ → Option (List Chunk)
unfolding stream_of_pages windows
chunk_pages pages target_tokens overlap_tokens =
    Option.map (numbered page_chunk 0)
      (cut (some []) target_tokens overlap_tokens (stream_of_pages 1 pages))

-- The coordinates are of any ordered type.
module _ (o : Order) where
  pub record Bbox : Type 0 where
    pub x0 : o.Score
    pub y0 : o.Score
    pub x1 : o.Score
    pub y1 : o.Score

  pub record Element : Type 0 where
    pub text : Text
    pub page : ℕ
    pub heading_path : List Text
    pub bbox : Option Bbox

  pub record StructuredChunk : Type 0 where
    pub ord : ℕ
    pub text : Text
    pub embed_text : Text
    pub heading_path : List Text
    pub page_start : ℕ
    pub page_end : ℕ
    pub bbox : Option Bbox
    pub token_count : ℕ

  abbrev pub lesser : o.Score → o.Score → o.Score
  lesser a b = if o.le a b then a else b

  abbrev pub greater : o.Score → o.Score → o.Score
  greater a b = if o.le b a then a else b

  abbrev pub around : Bbox → List Bbox → Bbox
  around b [] = b
  around b (c ∷ boxes) =
      around
        (record {
          x0 = lesser b.x0 c.x0;
          y0 = lesser b.y0 c.y0;
          x1 = greater b.x1 c.x1;
          y1 = greater b.y1 c.y1;
        })
        boxes

  abbrev pub union_bbox : List Bbox → Option Bbox
  union_bbox [] = none
  union_bbox (b ∷ boxes) = some (around b boxes)

  -- `[e.bbox for e in els if e.bbox]`
  abbrev pub boxes_of : List Element → List Bbox
  boxes_of [] = []
  boxes_of (el ∷ els) = elim el.bbox [ none ↦ boxes_of els | some b ↦ b ∷ boxes_of els ]

  abbrev pub heading_key : List Text → List Text
  heading_key = take 2

  abbrev pub same_texts : List Text → List Text → Bool
  same_texts [] [] = true
  same_texts (s ∷ ss) (t ∷ ts) = same_text s t && same_texts ss ts
  same_texts _ _ = false

  abbrev pub Key : Type 0
  Key = ℕ × List Text

  abbrev pub key_of : Element → Key
  key_of el = (el.page, heading_key el.heading_path)

  abbrev pub is_key : Option Key → Key → Bool
  is_key none k = false
  is_key (some j) k = j.0 == k.0 && same_texts j.1 k.1

  -- The loop's state: the closed groups, the open one and its key.
  pub record Grouping : Type 0 where
    pub groups : List (List Element)
    pub current : List Element
    pub current_key : Option Key

  abbrev pub is_none_yet : List Element → Bool
  is_none_yet [] = true
  is_none_yet (x ∷ xs) = false

  abbrev pub put_element : Grouping → Element → Grouping
  put_element g el =
      if not (is_none_yet g.current) && not (is_key g.current_key (key_of el))
      then record {
        groups = g.groups ++ g.current ∷ [];
        current = el ∷ [];
        current_key = some (key_of el);
      }
      else record {
        groups = g.groups;
        current = g.current ++ el ∷ [];
        current_key = some (key_of el);
      }

  abbrev pub closed : Grouping → List (List Element)
  closed g = if is_none_yet g.current then g.groups else g.groups ++ g.current ∷ []

  abbrev pub group_from : Grouping → List Element → List (List Element)
  group_from g [] = closed g
  group_from g (el ∷ elements) = group_from (put_element g el) elements

  unfoldable pub group_by_page_and_heading : List Element → List (List Element)
  group_by_page_and_heading = group_from (record { groups = []; current = []; current_key = none })

  abbrev pub crumb : List Text → Text
  crumb [] = []
  crumb (h ∷ hs) = codes "# " ++ join (codes " > ") (h ∷ hs)

  abbrev pub under : Text → Text → Text
  under [] text = text
  under (c ∷ cs) text = (c ∷ cs) ++ 10 ∷ text

  abbrev pub structured_chunk : ℕ → Window (Text × Element) → StructuredChunk
  structured_chunk ord w =
      let text = join (32 ∷ []) (words_of w) in
      record {
        ord = ord;
        text = text;
        embed_text = under (crumb w.0.1.heading_path) text;
        heading_path = w.0.1.heading_path;
        page_start = w.0.1.page;
        page_end = w.0.1.page;
        bbox = union_bbox (boxes_of (map (λ (x : Text × Element). x.1) (w.0 ∷ w.1)));
        token_count = length (words_of w);
      }

  unfoldable pub stream_of_elements : List Element → List (Text × Element)
  unfolding split
  stream_of_elements [] = []
  stream_of_elements (el ∷ group) =
      map (λ word. (word, el)) (split el.text) ++ stream_of_elements group

  -- An empty window raises: the code reads its first element.
  unfoldable pub windows_of_groups :
      ℕ → ℕ → List (List Element) → Option (List (Window (Text × Element)))
  unfolding windows stream_of_elements
  windows_of_groups target_tokens overlap_tokens [] = some []
  windows_of_groups target_tokens overlap_tokens (group ∷ groups) =
      cut none target_tokens overlap_tokens (stream_of_elements group) >>= λ ws.
      windows_of_groups target_tokens overlap_tokens groups >>= λ rest. some (ws ++ rest)

  pub chunk_elements : List Element → ℕ → ℕ → Option (List StructuredChunk)
  unfolding windows_of_groups group_by_page_and_heading
  chunk_elements elements target_tokens overlap_tokens =
      Option.map (numbered structured_chunk 0)
        (windows_of_groups target_tokens overlap_tokens (group_by_page_and_heading elements))
