-- ===== src/Chat/Guard/Tests.antt =====
-- `TokenGuard` at concrete inputs.
use pro_rag.Prelude.{◌≡◌, refl, ◌⊎◌, inl, true, map, List, [], ◌∷◌, ◌++◌, Text, flatten, arith}
use pro_rag.Prelude.Words.{codes, is_space}
use pro_rag.Chat.Guard.{
  Delta, answer_text, no_text, failure, feed, stream, new_guard, truncation_notice,
}
use pro_rag.Chat.Guard.Stream.{received, fails, stream_lem, stream_recut}
use pro_rag.Chat.Guard.Row.{HoldsRow, feed-HoldsRow, feed_stops}

abbrev tokens : List Text
tokens = codes "| a |" ∷ codes " b |" ∷ (10 ∷ codes "done") ∷ []

-- A thought, then text, then a lost connection.
abbrev deltas : List Delta
deltas = no_text ∷ map answer_text tokens ++ failure ∷ []

stream_lem_example :
    (stream 200 deltas ≡ received deltas)
    ⊎ (((seen : Text) × (unseen : Text) × (received deltas ≡ seen ++ unseen)
          × (stream 200 deltas ≡ seen ++ truncation_notice))
        ⊎ ((fails deltas ≡ true)
            × ((seen : Text) × (unseen : Text) × (received deltas ≡ seen ++ unseen)
                × (stream 200 deltas ≡ seen))))
stream_lem_example = stream_lem 200 deltas

stream_recut_example :
    stream 200 (map answer_text tokens) ≡ stream 200 (answer_text (flatten tokens) ∷ [])
stream_recut_example = stream_recut 200 tokens

feed-HoldsRow_example : HoldsRow (feed (new_guard 200) (codes "| a")).0
feed-HoldsRow_example = feed-HoldsRow (new_guard 200) (codes "| a") (inl refl, tt)

feed_stops_example : (feed (new_guard 3) (32 ∷ 10 ∷ 32 ∷ [])).0.done ≡ true
unfolding is_space
feed_stops_example =
    feed_stops (new_guard 3) (32 ∷ 10 ∷ 32 ∷ []) refl (refl, (refl, (refl, tt))) (λ e. cc)
      (omega arith)
