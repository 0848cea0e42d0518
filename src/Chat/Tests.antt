-- ===== src/Chat/Tests.antt =====
-- Feedback at a concrete input.
use pro_rag.Prelude.{◌≡◌, none, [], ◌∷◌}
use pro_rag.Chat.Feedback.{Feedback, up, rating_of, toggled, feedback, feedback_lem}

abbrev liked : Feedback
liked = record { message_id = 3; rating = up; comment = none }

feedback_lem_example :
    (rating_of (feedback liked (liked ∷ [])).0 3 ≡ toggled (rating_of (liked ∷ []) 3) up)
    × ((feedback liked (liked ∷ [])).1 ≡ toggled (rating_of (liked ∷ []) 3) up)
feedback_lem_example = feedback_lem liked (liked ∷ [])
