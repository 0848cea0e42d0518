-- ===== src/Retrieve/Plan.antt =====
-- The query planner and the prefill agent, past the call of the model:
-- prorag/retrieve/plan.py and prorag/retrieve/prefill.py.
use pro_rag.Prelude.{
  ℕ, Bool, true, false, not, Option, none, some, List, [], ◌∷◌, if◌then◌else◌, Text, ◌≢◌, ◌==◌,
  if_cases, same_text, ◌≡◌, refl, length,
}
use pro_rag.Prelude.Words.{codes, lstrip, is_empty}

-- What `json.loads` returns. The items of an array and the fields of an object are in their order.
mutual
  pub data Json : Type 0 where
    null : Json
    boolean : Bool → Json
    number : ℕ → Json
    string : Text → Json
    array : Items → Json
    object : Fields → Json

  pub data Items : Type 0 where
    end : Items
    item : Json → Items → Items

  pub data Fields : Type 0 where
    stop : Fields
    field : Text → Json → Fields → Fields

-- `data.get(key)`, where the last of two equal keys counts, as in `json.loads`.
pub get : Text → Fields → Option Json
get key stop = none
get key (field k v rest) = elim (get key rest) [
  | none ↦ if same_text k key then some v else none
  | some w ↦ some w
]

-- `bool(...)`
abbrev pub truthy : Json → Bool
truthy null = false
truthy (boolean b) = b
truthy (number n) = not (n == 0)
truthy (string s) = not (is_empty s)
truthy (array end) = false
truthy (array (item _ _)) = true
truthy (object stop) = false
truthy (object (field _ _ _)) = true

-- What parsing a text comes to: a value, an error of a type that `plan` handles (JSONDecodeError or
-- TypeError), or any other, as the ValueError of a number with too many digits and the RecursionError
-- of a deep nesting are.
pub data Parsed : Type 0 where
  value : Json → Parsed
  decode_error crashed : Parsed

pub data Mode : Type 0 where
  default table : Mode

pub record Plan : Type 0 where
  pub search_needed : Bool
  pub queries : List Text
  pub mode : Mode

pub fallback : Text → Plan
fallback query = record { search_needed = true; queries = query ∷ query ∷ []; mode = default }

-- What the call of a model gives: an exception, or the content of its message, which may be null.
pub data Completion : Type 0 where
  raised : Completion
  content : Option Text → Completion

-- `not s.strip()`
pub is_blank : Text → Bool
is_blank s = is_empty (lstrip s)

pub cleaned_or : Text → Option Json → Option Json → Text
cleaned_or query (some (string s)) changed =
    if is_blank s
    then query
    else if elim changed [ none ↦ false | some j ↦ truthy j ]
    then s
    else query
cleaned_or query _ changed = query

-- `str` is Python's `str` on a JSON value.
module _ (str : Json → Text) where
  abbrev texts : Items → List Text
  texts end = []
  texts (item j rest) = str j ∷ texts rest

  -- `queries = [str(q) for q in queries][:2]`, and the first again if there is but one.
  pub two_queries : Json → Items → List Text
  two_queries q end = str q ∷ str q ∷ []
  two_queries q (item r rest) = str q ∷ str r ∷ []

  pub mode_of : Option Json → Mode
  mode_of (some (string s)) = if same_text s (codes "table") then table else default
  mode_of _ = default

  pub plan_of : Text → Fields → Option Json → Plan
  plan_of query fields (some (array (item q rest))) = record {
    search_needed = elim (get (codes "search_needed") fields) [ none ↦ true | some j ↦ truthy j ];
    queries = two_queries q rest;
    mode = mode_of (get (codes "mode") fields);
  }
  plan_of query fields _ = fallback query

  -- What the parsed answer makes of the query.
  pub plan_of_json : Text → Json → Plan
  plan_of_json query (object fields) = plan_of query fields (get (codes "queries") fields)
  plan_of_json query _ = fallback query

  length-plan_of :
      (query : Text) (fields : Fields) (queries : Option Json)
      → length (plan_of query fields queries).queries ≡ 2
  unfolding plan_of two_queries fallback
  length-plan_of query fields (some (array (item q end))) = refl
  length-plan_of query fields (some (array (item q (item r rest)))) = refl
  length-plan_of query fields _ = refl

  length-plan_of_json : (query : Text) (j : Json) → length (plan_of_json query j).queries ≡ 2
  unfolding plan_of_json fallback
  length-plan_of_json query (object fields) = length-plan_of query fields _
  length-plan_of_json query _ = refl

  -- `extract_json` strips a code fence and parses.
  module _ (extract_json : Text → Parsed) where
    abbrev parsed_plan : Text → Parsed → Option Plan
    parsed_plan query (value j) = some (plan_of_json query j)
    parsed_plan query decode_error = some (fallback query)
    parsed_plan query crashed = none

    -- `none` is an exception that leaves `plan`: `None.strip()` is an AttributeError, which the
    -- handler does not name.
    pub plan : Text → Completion → Option Plan
    plan query raised = some (fallback query)
    plan query (content none) = none
    plan query (content (some raw)) = parsed_plan query (extract_json raw)

    length-parsed_plan :
        (query : Text) (r : Parsed)
        → r ≢ crashed
        → (p : Plan) × (parsed_plan query r ≡ some p) × (length p.queries ≡ 2)
    length-parsed_plan query (value j) h = (plan_of_json query j, refl, length-plan_of_json query j)
    length-parsed_plan query decode_error h = (fallback query, refl, unfold fallback in refl)
    length-parsed_plan query crashed h = absurd (h refl)

    -- Where the call of the model fails, and where it answers in text whose parsing gives a value or
    -- an error that `plan` handles, there is a plan, and it has exactly two queries.
    pub length-plan :
        (query : Text) (c : Completion)
        → c ≢ content none
        → ((raw : Text) → c ≡ content (some raw) → extract_json raw ≢ crashed)
        → (p : Plan) × (plan query c ≡ some p) × (length p.queries ≡ 2)
    unfolding plan
    length-plan query raised h k = (fallback query, refl, unfold fallback in refl)
    length-plan query (content none) h k = absurd (h refl)
    length-plan query (content (some raw)) h k =
        length-parsed_plan query (extract_json raw) (k raw refl)

    -- `data["cleaned"]` and what follows, on parsed data.
    pub prefill_of : Text → Parsed → Text
    prefill_of query (value (object fields)) =
        cleaned_or query (get (codes "cleaned") fields) (get (codes "changed") fields)
    prefill_of query _ = query

    pub prefill : Text → Completion → Text
    prefill query (content (some raw)) =
        if is_blank query then query else prefill_of query (extract_json raw)
    prefill query _ = query

    cleaned_or_not_blank :
        (query : Text) (cleaned changed : Option Json)
        → is_blank query ≡ false
        → is_blank (cleaned_or query cleaned changed) ≡ false
    unfolding cleaned_or
    cleaned_or_not_blank query (some (string s)) changed h =
        if_cases (λ t. is_blank t ≡ false) (is_blank s) (λ _. h)
          (λ full. if_cases (λ t. is_blank t ≡ false) _ (λ _. full) (λ _. h))
    cleaned_or_not_blank query _ changed h = h

    prefill_of_not_blank :
        (query : Text) (j : Parsed) → is_blank query ≡ false → is_blank (prefill_of query j) ≡ false
    unfolding prefill_of
    prefill_of_not_blank query (value (object fields)) h = cleaned_or_not_blank query _ _ h
    prefill_of_not_blank query _ h = h

    -- The refined prompt is the query, or a text that is not blank.
    pub prefill_not_blank :
        (query : Text) (c : Completion)
        → is_blank query ≡ false
        → is_blank (prefill query c) ≡ false
    unfolding prefill
    prefill_not_blank query raised h = h
    prefill_not_blank query (content none) h = h
    prefill_not_blank query (content (some raw)) h =
        if_cases (λ t. is_blank t ≡ false) (is_blank query) (λ _. h)
          (λ _. prefill_of_not_blank query (extract_json raw) h)
