-- ===== src/Retrieve/Crop.antt =====
-- The context crop: prorag/retrieve/crop.py. `normalize_title`, a chain of regular expressions, is
-- any function from titles to texts here.
pub mod Printings
pub mod Newest
pub mod Bounds
mod Tests
use pro_rag.Prelude.{
  ℕ, suc, ◌+◌, Bool, true, false, not, ◌&&◌, ◌||◌, Option, none, some, List, [], ◌∷◌, ◌++◌, leb,
  ltb, ◌==◌, if◌then◌else◌, length, take, filter, Text, same_text,
}
use pro_rag.Prelude.Sort.{Order, sort_desc}
use pro_rag.Prelude.Words.{split, is_empty}
use pro_rag.Retrieve.Hit.{Hit}

pub record Limits (S : Type 0) : Type 0 where
  pub min_docs : ℕ
  pub max_docs : ℕ
  pub max_chunks_per_doc : ℕ
  pub score_floor : S
  pub token_budget : ℕ
  pub min_chars : ℕ

module _ (o : Order) (normalize_title : Option Text → Text) where
  -- `h.get("title_norm") or normalize_title(h.get("title"))`
  pub title_of : Hit o → Text
  title_of h = elim h.title_norm [
    | none ↦ normalize_title h.title
    | some t ↦ if is_empty t then normalize_title h.title else t
  ]

  -- The two dicts of the loop are never iterated over: they are functions of the title.
  pub record Dedup : Type 0 where
    pub deduped : List (Hit o)
    pub winner_by_title : Text → Option (Hit o)
    pub taken_by_title : Text → ℕ

  abbrev pub start : Dedup
  start = record { deduped = []; winner_by_title = λ _. none; taken_by_title = λ _. 0 }

  -- `d[t] = v`
  abbrev pub put : {V : Type 0} → Text → V → (Text → V) → Text → V
  put t v d u = if same_text t u then v else d u

  -- `h_date and w_date and h_date > w_date`; a date is never falsy.
  abbrev pub is_newer : Hit o → Hit o → Bool
  is_newer h w = elim h.doc_date [
    | none ↦ false
    | some d ↦ elim w.doc_date [ none ↦ false | some e ↦ ltb e d ]
  ]

  -- `h.get("doc_id") and h.get("doc_id") == winner.get("doc_id")`
  abbrev pub same_doc : Hit o → Hit o → Bool
  same_doc h w = elim h.doc_id [
    | none ↦ false
    | some d ↦ elim w.doc_id [ none ↦ false | some e ↦ d == e ]
  ]

  -- A hit that takes its title's slot, alone.
  pub take_slot : Hit o → Dedup → Dedup
  take_slot h s = record {
    deduped = filter (λ x. not (same_text (title_of x) (title_of h))) s.deduped ++ h ∷ [];
    winner_by_title = put (title_of h) (some h) s.winner_by_title;
    taken_by_title = put (title_of h) 1 s.taken_by_title;
  }

  pub first_of_title : Hit o → Dedup → Dedup
  first_of_title h s = record {
    deduped = s.deduped ++ h ∷ [];
    winner_by_title = put (title_of h) (some h) s.winner_by_title;
    taken_by_title = put (title_of h) 1 s.taken_by_title;
  }

  pub join_slot : Hit o → Dedup → Dedup
  join_slot h s = record s {
    deduped = s.deduped ++ h ∷ [];
    taken_by_title = put (title_of h) (suc (s.taken_by_title (title_of h))) s.taken_by_title;
  }

  -- The body of `for h in ranked`, with the winner that the title has.
  pub against : ℕ → Option (Hit o) → Hit o → Dedup → Dedup
  against max_chunks none h s = first_of_title h s
  against max_chunks (some winner) h s =
      if is_newer h winner
      then take_slot h s
      else if same_doc h winner && ltb (s.taken_by_title (title_of h)) max_chunks
      then join_slot h s
      else s

  pub dedup_from : ℕ → Dedup → List (Hit o) → Dedup
  dedup_from max_chunks s [] = s
  dedup_from max_chunks s (h ∷ ranked) =
      dedup_from max_chunks (against max_chunks (s.winner_by_title (title_of h)) h s) ranked

  pub dedup : ℕ → List (Hit o) → List (Hit o)
  dedup max_chunks ranked = (dedup_from max_chunks start ranked).deduped

  -- `h.get("token_count") or len(h.get("text", "").split())`
  pub tokens_of : Hit o → ℕ
  tokens_of h = elim h.token_count [
    | none ↦ length (split h.text)
    | some n ↦ if n == 0 then length (split h.text) else n
  ]

  pub pool_of : Limits o.Score → List (Hit o) → List (Hit o)
  pool_of lim deduped =
      let substantial = filter (λ h. leb lim.min_chars (length h.text)) deduped in
      if leb lim.min_docs (length substantial) then substantial else deduped

  pub kept_of : Limits o.Score → List (Hit o) → List (Hit o)
  kept_of lim pool =
      let kept = filter (λ h. o.le lim.score_floor h.score) pool in
      if ltb (length kept) lim.min_docs
      then take lim.min_docs pool
      else if ltb lim.max_docs (length kept)
      then take lim.max_docs kept
      else kept

  -- The loop over `enumerate(kept)`, with its `break`.
  pub budgeted_from : Limits o.Score → ℕ → ℕ → List (Hit o) → List (Hit o)
  budgeted_from lim i total [] = []
  budgeted_from lim i total (h ∷ kept) =
      if leb lim.min_docs i && ltb lim.token_budget (total + tokens_of h)
      then []
      else h ∷ budgeted_from lim (suc i) (total + tokens_of h) kept

  pub crop_pool : Limits o.Score → List (Hit o) → List (Hit o)
  crop_pool lim [] = []
  crop_pool lim (h ∷ pool) = budgeted_from lim 0 0 (kept_of lim (h ∷ pool))

  pub crop_context : Limits o.Score → List (Hit o) → List (Hit o)
  crop_context lim [] = []
  crop_context lim (h ∷ hits) =
      let ranked = sort_desc o (λ x. x.score) (h ∷ hits) in
      crop_pool lim (pool_of lim (dedup lim.max_chunks_per_doc ranked))
