-- ===== src/Retrieve/Rerank.antt =====
-- The reranker's answer and the flatness guard: prorag/retrieve/rerank.py.
pub mod Order
mod Tests
use pro_rag.Prelude.{
  ℕ, zero, suc, ◌≤◌, Bool, true, false, not, ◌&&◌, ◌||◌, Option, none, some, List, [], ◌∷◌, map,
  leb, ltb, if◌then◌else◌, length, take, filter, get_elem?, ◌-◌,
}
use mathlib.Core.Option
use pro_rag.Prelude.Chain.{◌>>=◌}
use pro_rag.Prelude.Sort.{sort_desc}
use pro_rag.Retrieve.Hit.{Floats, Hit}

-- One entry of the `results` list of the provider's JSON. `index` is `none` where the key is
-- missing or holds a negative number; `relevance_score` is `none` where `float(r[...])` raises.
pub record Ranked (S : Type 0) : Type 0 where
  pub index : Option ℕ
  pub relevance_score : Option S

-- What the HTTP call gave: an exception (no answer, a bad status, a body that is no JSON), or the
-- parsed results.
pub data Reply (S : Type 0) : Type 0 where
  raised : Reply S
  results : List (Ranked S) → Reply S

-- The settings that the reranker reads.
pub record Settings (S : Type 0) : Type 0 where
  pub rerank_enabled : Bool
  pub has_api_key : Bool
  pub rerank_flat_spread : S

abbrev pub is_nil : {A : Type 0} → List A → Bool
is_nil [] = true
is_nil (_ ∷ _) = false

abbrev pub or_input : {A : Type 0} → A → Option A → A
or_input hits none = hits
or_input hits (some out) = out

module _ (fl : Floats) where
  abbrev lt : fl.Score → fl.Score → Bool
  lt a b = not (fl.le b a)

  -- `max(top) - min(top)` of scores in descending order, when there are two or more.
  abbrev last_or : fl.Score → List fl.Score → fl.Score
  last_or a [] = a
  last_or a (b ∷ bs) = last_or b bs

  pub is_flat : fl.Score → List fl.Score → Bool
  is_flat spread (a ∷ b ∷ rest) = lt (fl.sub a (last_or b rest)) spread
  is_flat spread _ = false

  -- `{**h, "score": ordered[i]}` for each hit, in step.
  pub attach : List fl.Score → List (Hit fl.order) → List (Hit fl.order)
  attach _ [] = []
  attach [] (h ∷ hits) = h ∷ hits
  attach (s ∷ scores) (h ∷ hits) = record h { score = s } ∷ attach scores hits

  pub flat_guard : fl.Score → List (Hit fl.order) → List fl.Score → Option (List (Hit fl.order))
  flat_guard spread hits input_scores =
      let ordered = sort_desc fl.order (λ s. s) input_scores in
      if is_flat spread (take 5 ordered) then some (attach ordered hits) else none

  abbrev pub in_range : ℕ → Ranked fl.Score → Bool
  in_range n r = elim r.index [ none ↦ false | some i ↦ ltb i n ]

  -- `input_scores[r["index"]] = float(...)`
  pub set_score : ℕ → fl.Score → List fl.Score → List fl.Score
  set_score i s [] = []
  set_score zero s (x ∷ xs) = s ∷ xs
  set_score (suc i) s (x ∷ xs) = x ∷ set_score i s xs

  -- The two loops over `valid`: `none` where a score cannot be read, which raises.
  pub input_scores_from : List fl.Score → List (Ranked fl.Score) → Option (List fl.Score)
  input_scores_from acc [] = some acc
  input_scores_from acc (r ∷ valid) = do
    s ← r.relevance_score
    i ← r.index
    input_scores_from (set_score i s acc) valid

  pub scored_hits : List (Hit fl.order) → List (Ranked fl.Score) → Option (List (Hit fl.order))
  scored_hits hits [] = some []
  scored_hits hits (r ∷ valid) = do
    rest ← scored_hits hits valid
    s ← r.relevance_score
    i ← r.index
    h ← get_elem? hits i
    some (record h { score = s } ∷ rest)

  abbrev zeros : List (Hit fl.order) → List fl.Score
  zeros = map (λ _. fl.zero)

  -- `guarded` if the guard fired, else the scored hits, best first.
  pub kept_or_sorted :
      List (Hit fl.order)
      → List (Ranked fl.Score)
      → Option (List (Hit fl.order))
      → Option (List (Hit fl.order))
  kept_or_sorted hits valid (some kept) = some kept
  kept_or_sorted hits valid none =
      Option.map (sort_desc fl.order (λ h. h.score)) (scored_hits hits valid)

  -- The answer from the valid entries. Any exception gives the input.
  pub use_valid :
      fl.Score → List (Hit fl.order) → List (Ranked fl.Score) → Option (List (Hit fl.order))
  use_valid spread hits valid = do
    scores ← input_scores_from (zeros hits) valid
    kept_or_sorted hits valid (flat_guard spread hits scores)

  pub use_results : fl.Score → List (Hit fl.order) → List (Ranked fl.Score) → List (Hit fl.order)
  use_results spread hits ranked =
      let valid = filter (in_range (length hits)) ranked in
      if is_nil valid then hits else or_input hits (use_valid spread hits valid)

  pub rerank_api : Settings fl.Score → Reply fl.Score → List (Hit fl.order) → List (Hit fl.order)
  rerank_api settings raised hits = hits
  rerank_api settings (results ranked) hits =
      if not settings.has_api_key then hits else use_results settings.rerank_flat_spread hits ranked

  pub rerank : Settings fl.Score → Reply fl.Score → List (Hit fl.order) → List (Hit fl.order)
  rerank settings reply [] = []
  rerank settings reply (h ∷ hits) =
      if not settings.rerank_enabled then h ∷ hits else rerank_api settings reply (h ∷ hits)
