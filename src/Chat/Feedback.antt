-- ===== src/Chat/Feedback.antt =====
-- `POST /feedback` of prorag/chat/router.py: one rating for each message, and posting it again
-- takes it back.
use pro_rag.Prelude.{
  ℕ, ◌≡◌, refl, Bool, true, false, Option, none, some, List, [], ◌∷◌, ◌++◌, ◌==◌, ==_iff,
  if◌then◌else◌, Text, arith,
}

pub data Rating : Type 0 where
  up down : Rating

abbrev pub same_rating : Rating → Rating → Bool
same_rating up up = true
same_rating down down = true
same_rating _ _ = false

pub record Feedback : Type 0 where
  pub message_id : ℕ
  pub rating : Rating
  pub comment : Option Text

pub rating_of : List Feedback → ℕ → Option Rating
rating_of [] message_id = none
rating_of (f ∷ rows) message_id =
    if f.message_id == message_id then some f.rating else rating_of rows message_id

-- A message has at most one row: `uq_feedback_message_id`.
abbrev pub remove_feedback : ℕ → List Feedback → List Feedback
remove_feedback message_id [] = []
remove_feedback message_id (f ∷ rows) =
    if f.message_id == message_id
    then remove_feedback message_id rows
    else f ∷ remove_feedback message_id rows

abbrev pub change_feedback : Feedback → List Feedback → List Feedback
change_feedback new [] = []
change_feedback new (f ∷ rows) =
    if f.message_id == new.message_id
    then new ∷ change_feedback new rows
    else f ∷ change_feedback new rows

-- The rows after the request, and the `rating` of the answer.
abbrev pub answer_feedback :
    Option Rating → Feedback → List Feedback → List Feedback × Option Rating
answer_feedback none new rows = (rows ++ new ∷ [], some new.rating)
answer_feedback (some old) new rows =
    if same_rating old new.rating
    then (remove_feedback new.message_id rows, none)
    else (change_feedback new rows, some new.rating)

pub feedback : Feedback → List Feedback → List Feedback × Option Rating
unfolding rating_of
feedback new rows = answer_feedback (rating_of rows new.message_id) new rows

-- What the message is rated after the request, by what it was rated before.
abbrev pub toggled : Option Rating → Rating → Option Rating
toggled none r = some r
toggled (some old) r = if same_rating old r then none else some r

rating-snoc :
    (new : Feedback) (rows : List Feedback)
    → rating_of rows new.message_id ≡ none
    → rating_of (rows ++ new ∷ []) new.message_id ≡ some new.rating
unfolding rating_of
rating-snoc new [] e = ground (arith, (==_iff new.message_id new.message_id).1 refl)
rating-snoc new (f ∷ rows) e = ground (arith, e, rating-snoc new rows)

rating-remove : (m : ℕ) (rows : List Feedback) → rating_of (remove_feedback m rows) m ≡ none
unfolding rating_of
rating-remove m [] = refl
rating-remove m (f ∷ rows) = ground (arith, rating-remove m rows)

rating-change :
    (new : Feedback) (old : Rating) (rows : List Feedback)
    → rating_of rows new.message_id ≡ some old
    → rating_of (change_feedback new rows) new.message_id ≡ some new.rating
unfolding rating_of
rating-change new old [] e = absurd cc
rating-change new old (f ∷ rows) e =
    ground (arith, e, rating-change new old rows, (==_iff new.message_id new.message_id).1 refl)

answer_lem :
    (new : Feedback) (rows : List Feedback) (o : Option Rating)
    → rating_of rows new.message_id ≡ o
    → (rating_of (answer_feedback o new rows).0 new.message_id ≡ toggled o new.rating)
      × ((answer_feedback o new rows).1 ≡ toggled o new.rating)
answer_lem new rows none e = (rating-snoc new rows e, refl)
answer_lem new rows (some old) e =
    ground (arith, rating-remove new.message_id rows, rating-change new old rows e)

-- A rating toggles: it is set where the message has none, replaces another one, and is taken back
-- where the message has it already; the answer tells what the message is rated then.
pub feedback_lem :
    (new : Feedback) (rows : List Feedback)
    → (rating_of (feedback new rows).0 new.message_id
        ≡ toggled (rating_of rows new.message_id) new.rating)
      × ((feedback new rows).1 ≡ toggled (rating_of rows new.message_id) new.rating)
unfolding feedback
feedback_lem new rows = answer_lem new rows (rating_of rows new.message_id) refl
