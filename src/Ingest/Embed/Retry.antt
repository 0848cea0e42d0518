-- ===== src/Ingest/Embed/Retry.antt =====
-- A transient failure is retried.
use pro_rag.Prelude.{
  ℕ, zero, suc, ◌+◌, ◌<◌, ◌≡◌, ap, ◌∙◌, true, not, ◌||◌, List, arith, ◌==◌, if◌then◌else◌, Text,
  if_false,
}
use pro_rag.Prelude.Raise.{Exc, Outcome, raised, returned}
use pro_rag.Ingest.Embed.{is_transient, retry_from, embed_attempt, embed_with_retry}

-- The call of this turn fails in a way that another turn may mend.
abbrev pub FailsTransiently : {A : Type 0} → Outcome A → Type 0
FailsTransiently o = (exc : Exc) × (o ≡ raised exc) × (is_transient exc ≡ true)

abbrev turn : {A : Type 0} → (ℕ → Outcome A) → ℕ → ℕ → Outcome A → Outcome A
turn run left attempt o = elim o [
  | returned a ↦ returned a
  | raised exc ↦
      if (left == 0) || not (is_transient exc)
      then raised exc
      else retry_from run left (suc attempt)
]

retry_from_lem :
    {A : Type 0} (run : ℕ → Outcome A) (left attempt k : ℕ)
    → k < left
    → ((j : ℕ) → j < k → FailsTransiently (run (attempt + j)))
    → (a : A) → run (attempt + k) ≡ returned a
    → retry_from run left attempt ≡ returned a
unfolding retry_from
retry_from_lem run zero attempt k h fails a e = absurd (omega arith)
retry_from_lem run (suc left) attempt zero h fails a e =
    let same : attempt ≡ attempt + 0 = omega arith in
    let now : run attempt ≡ returned a = ap run same ∙ e in ap (turn run left attempt) now
retry_from_lem run (suc left) attempt (suc k) h fails a e =
    let (exc, now, transient) = fails 0 (omega arith) in
    let same : attempt ≡ attempt + 0 = omega arith in
    let here : run attempt ≡ raised exc = ap run same ∙ now in
    ap (turn run left attempt) here
    ∙ if_false (raised exc) (retry_from run left (suc attempt)) (ground (arith, transient, h))
    ∙ retry_from_lem run left (suc attempt) k (omega arith)
        (λ j below.
          let (exc1, at, t) = fails (suc j) (omega arith) in
          let moved : suc attempt + j ≡ attempt + suc j = omega arith in
          (exc1, ap run moved ∙ at, t))
        a (let moved : suc attempt + k ≡ attempt + suc k = omega arith in ap run moved ∙ e)

-- Where some attempt within the allowed number gets an answer, and every earlier one fails with an
-- error that is marked transient, the call returns that answer.
pub embed_with_retry_lem :
    {V : Type 0} (embed_texts : ℕ → List Text → Outcome (List V))
    (first_in_time : Exc → List Exc → Exc) (embed_batch_size attempts : ℕ) (texts : List Text)
    (k : ℕ)
    → k < attempts
    → ((j : ℕ)
        → j < k
        → FailsTransiently (embed_attempt embed_texts first_in_time embed_batch_size texts j))
    → (vectors : List V)
    → embed_attempt embed_texts first_in_time embed_batch_size texts k ≡ returned vectors
    → embed_with_retry embed_texts first_in_time embed_batch_size attempts texts ≡ returned vectors
unfolding embed_with_retry
embed_with_retry_lem {V = V} embed_texts first_in_time embed_batch_size attempts texts k h fails
      vectors e =
    retry_from_lem run attempts 0 k h
      (λ j below.
        let (exc, at, t) = fails j below in
        let same : 0 + j ≡ j = omega arith in (exc, ap run same ∙ at, t))
      vectors (let same : 0 + k ≡ k = omega arith in ap run same ∙ e)
  where
    run : ℕ → Outcome (List V)
    run = embed_attempt embed_texts first_in_time embed_batch_size texts
