-- ===== src/Ingest/Embed/Batches.antt =====
-- Batches give what one request would.
use pro_rag.Prelude.{
  ℕ, max, ◌≡◌, refl, ap, sym, ◌∙◌, List, [], ◌∷◌, ◌++◌, map, map-append, arith, Text, flatten,
  append-nil,
}
use pro_rag.Prelude.Raise.{Exc, Outcome, raised, returned, ◌>>=◌}
use pro_rag.Prelude.Slices.{slices, flatten-slices}
use pro_rag.Ingest.Embed.{
  raised_of, returned_of, gather, run_each, embed_batches, embed_texts_batched,
}

map-flatten :
    {A B : Type 0} (f : A → B) (xss : List (List A))
    → map f (flatten xss) ≡ flatten (map (map f) xss)
map-flatten f [] = refl
map-flatten f (xs ∷ xss) =
    map-append f xs (flatten xss) ∙ ap (λ t. map f xs ++ t) (map-flatten f xss)

module _ {V : Type 0} (embed_texts : List Text → Outcome (List V))
    (first_in_time : Exc → List Exc → Exc) (vector : Text → V)
    (answers : (texts : List Text) → embed_texts texts ≡ returned (map vector texts)) where
  run_each-answers :
      (batches : List (List Text))
      → run_each embed_texts first_in_time batches ≡ map (λ b. returned (map vector b)) batches
  run_each-answers [] = refl
  run_each-answers (b ∷ batches) =
      ap (λ o. o ∷ run_each embed_texts first_in_time batches) (answers b)
      ∙ ap (λ t. returned (map vector b) ∷ t) (run_each-answers batches)

  raised_of-answers :
      (batches : List (List Text)) → raised_of (map (λ b. returned (map vector b)) batches) ≡ []
  raised_of-answers [] = refl
  raised_of-answers (b ∷ batches) = raised_of-answers batches

  returned_of-answers :
      (batches : List (List Text))
      → returned_of (map (λ b. returned (map vector b)) batches) ≡ map (map vector) batches
  returned_of-answers [] = refl
  returned_of-answers (b ∷ batches) = ap (λ t. map vector b ∷ t) (returned_of-answers batches)

  abbrev joined : List (Outcome (List V)) → Outcome (List V)
  joined outcomes = gather first_in_time outcomes >>= λ results. returned (flatten results)

  gather-answers :
      (batches : List (List Text))
      → joined (run_each embed_texts first_in_time batches)
        ≡ returned (map vector (flatten batches))
  gather-answers batches =
      ap joined (run_each-answers batches)
      ∙ ap
          (λ es.
            (elim es [
              | [] ↦ returned (returned_of (map (λ b. returned (map vector b)) batches))
              | e ∷ rest ↦ raised (first_in_time e rest)
            ])
            >>= λ results. returned (flatten results))
          (raised_of-answers batches)
      ∙ ap (λ results. returned (flatten results)) (returned_of-answers batches)
      ∙ ap (λ t. returned t) (sym (map-flatten vector batches))

  embed_batches-answers :
      (batches : List (List Text))
      → embed_batches embed_texts first_in_time batches ≡ returned (map vector (flatten batches))
  embed_batches-answers [] = gather-answers []
  embed_batches-answers (b ∷ []) =
      answers b ∙ ap (λ t. returned (map vector t)) (sym (append-nil b))
  embed_batches-answers (b ∷ c ∷ batches) = gather-answers (b ∷ c ∷ batches)

  -- With a provider that answers each request with one vector per text, in order, the batches come to
  -- what one request with all the texts comes to, whatever the size of a batch, zero included.
  pub embed_texts_batched_lem :
      (embed_batch_size : ℕ) (texts : List Text)
      → embed_texts_batched embed_texts first_in_time embed_batch_size texts ≡ embed_texts texts
  unfolding embed_texts_batched
  embed_texts_batched_lem embed_batch_size [] = sym (answers [])
  embed_texts_batched_lem embed_batch_size (t ∷ texts) =
      embed_batches-answers (slices (max 1 embed_batch_size) (t ∷ texts))
      ∙ ap (λ ts. returned (map vector ts))
          (flatten-slices (max 1 embed_batch_size) (t ∷ texts) (omega arith))
      ∙ sym (answers (t ∷ texts))
