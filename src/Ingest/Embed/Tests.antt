-- ===== src/Ingest/Embed/Tests.antt =====
-- A provider that counts letters, and one that is slow at first.
use pro_rag.Prelude.{ℕ, zero, suc, ◌≡◌, refl, ◌<◌, List, [], ◌∷◌, map, length, Text, arith}
use pro_rag.Prelude.Raise.{Exc, Outcome, raised, returned}
use pro_rag.Prelude.Words.{codes, lower, starts_with}
use pro_rag.Ingest.Embed.{embed_texts_batched, embed_with_retry, embed_attempt, is_transient}
use pro_rag.Ingest.Embed.Batches.{embed_texts_batched_lem}
use pro_rag.Ingest.Embed.Retry.{FailsTransiently, embed_with_retry_lem}

abbrev texts : List Text
texts = codes "a" ∷ codes "bc" ∷ codes "def" ∷ []

abbrev letters : List Text → Outcome (List ℕ)
letters ts = returned (map length ts)

abbrev first : Exc → List Exc → Exc
first e es = e

embed_texts_batched_lem_example :
    embed_texts_batched letters first 2 texts ≡ returned (1 ∷ 2 ∷ 3 ∷ [])
embed_texts_batched_lem_example = embed_texts_batched_lem letters first length (λ ts. refl) 2 texts

abbrev slow : Exc
slow = record { type_name = codes "ReadTimeout"; message = [] }

abbrev slow_at_first : ℕ → List Text → Outcome (List ℕ)
slow_at_first zero ts = raised slow
slow_at_first (suc attempt) ts = letters ts

fails_once : (j : ℕ) → j < 1 → FailsTransiently (embed_attempt slow_at_first first 8 texts j)
unfolding embed_texts_batched is_transient lower starts_with
fails_once zero h = (slow, refl, refl)
fails_once (suc j) h = absurd (omega arith)

second : embed_attempt slow_at_first first 8 texts 1 ≡ returned (1 ∷ 2 ∷ 3 ∷ [])
unfolding embed_texts_batched
second = refl

embed_with_retry_lem_example :
    embed_with_retry slow_at_first first 8 3 texts ≡ returned (1 ∷ 2 ∷ 3 ∷ [])
embed_with_retry_lem_example =
    embed_with_retry_lem slow_at_first first 8 3 texts 1 (omega arith) fails_once (1 ∷ 2 ∷ 3 ∷ [])
      second
