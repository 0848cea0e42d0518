-- ===== src/Ingest/Embed.antt =====
-- Embedding with batches and retries: `embed_texts_batched` of prorag/llm.py and
-- `_embed_with_retry` of prorag/ingest/core.py. The provider's call is a parameter.
use pro_rag.Prelude.{
  ℕ, zero, suc, ◌+◌, max, Bool, true, false, not, ◌||◌, List, [], ◌∷◌, ◌++◌, ◌==◌, if◌then◌else◌,
  any, Text, flatten, length,
}
use pro_rag.Prelude.Raise.{Exc, Outcome, raised, returned, ◌>>=◌, for_each}
use pro_rag.Prelude.Slices.{slices}
use pro_rag.Prelude.Words.{codes, starts_with, lower}
pub mod Retry
pub mod Batches
mod Tests

-- `marker in text`
abbrev pub contains : Text → Text → Bool
contains [] marker = starts_with [] marker
contains (c ∷ s) marker = starts_with (c ∷ s) marker || contains s marker

abbrev pub transient_error_markers : List Text
transient_error_markers =
    codes "timeout"
    ∷ codes "timed out"
    ∷ codes "rate limit"
    ∷ codes "ratelimit"
    ∷ codes "429"
    ∷ codes "422"
    ∷ codes "unprocessable"
    ∷ codes "500"
    ∷ codes "502"
    ∷ codes "503"
    ∷ codes "504"
    ∷ codes "connection"
    ∷ codes "temporarily"
    ∷ codes "overloaded"
    ∷ codes "unavailable"
    ∷ []

-- `f"{type(exc).__name__} {exc}".lower()`
pub is_transient : Exc → Bool
is_transient exc =
    any (contains (lower (exc.type_name ++ 32 ∷ exc.message))) transient_error_markers

abbrev pub unreachable : Exc
unreachable = record { type_name = codes "AssertionError"; message = codes "unreachable" }

-- The turns of the loop that are left; `run attempt` is what the call does in that turn.
unfoldable pub retry_from : {A : Type 0} → (ℕ → Outcome A) → ℕ → ℕ → Outcome A
unfolding is_transient
retry_from run zero attempt = raised unreachable
retry_from run (suc left) attempt =
    let rest = retry_from run left (suc attempt) in
    elim (run attempt) [
      | returned a ↦ returned a
      | raised exc ↦ if (left == 0) || not (is_transient exc) then raised exc else rest
    ]

abbrev pub raised_of : {A : Type 0} → List (Outcome A) → List Exc
raised_of [] = []
raised_of (raised e ∷ outcomes) = e ∷ raised_of outcomes
raised_of (returned a ∷ outcomes) = raised_of outcomes

abbrev pub returned_of : {A : Type 0} → List (Outcome A) → List A
returned_of [] = []
returned_of (raised e ∷ outcomes) = returned_of outcomes
returned_of (returned a ∷ outcomes) = a ∷ returned_of outcomes

-- `asyncio.gather`: the results in the order of the calls, or the exception that came first in time.
abbrev pub gather : {A : Type 0} → (Exc → List Exc → Exc) → List (Outcome A) → Outcome (List A)
gather first_in_time outcomes = elim (raised_of outcomes) [
  | [] ↦ returned (returned_of outcomes)
  | e ∷ es ↦ raised (first_in_time e es)
]

module _ {V : Type 0} (embed_texts : List Text → Outcome (List V))
    (first_in_time : Exc → List Exc → Exc) where
  abbrev run_each : List (List Text) → List (Outcome (List V))
  run_each [] = []
  run_each (b ∷ batches) = embed_texts b ∷ run_each batches

  abbrev pub embed_batches : List (List Text) → Outcome (List V)
  embed_batches (b ∷ []) = embed_texts b
  embed_batches batches =
      gather first_in_time (run_each batches) >>= λ results. returned (flatten results)

  unfoldable pub embed_texts_batched : ℕ → List Text → Outcome (List V)
  embed_texts_batched embed_batch_size [] = returned []
  embed_texts_batched embed_batch_size (t ∷ texts) =
      embed_batches (slices (max 1 embed_batch_size) (t ∷ texts))

-- `_embed_with_retry`, where the provider may answer differently at each attempt
abbrev pub embed_attempt :
    {V : Type 0}
    → (ℕ → List Text → Outcome (List V))
    → (Exc → List Exc → Exc)
    → ℕ
    → List Text
    → ℕ
    → Outcome (List V)
embed_attempt embed_texts first_in_time embed_batch_size texts attempt =
    embed_texts_batched (embed_texts attempt) first_in_time embed_batch_size texts

unfoldable pub embed_with_retry :
    {V : Type 0}
    → (ℕ → List Text → Outcome (List V))
    → (Exc → List Exc → Exc)
    → ℕ
    → ℕ
    → List Text
    → Outcome (List V)
unfolding retry_from
embed_with_retry embed_texts first_in_time embed_batch_size attempts texts =
    retry_from (embed_attempt embed_texts first_in_time embed_batch_size texts) attempts 0
