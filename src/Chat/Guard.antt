-- ===== src/Chat/Guard.antt =====
-- `TokenGuard` of prorag/chat/stream.py: the text that streams to the reader, line by line.
use pro_rag.Prelude.{
  ℕ, ◌+◌, Bool, true, false, not, ◌||◌, List, [], ◌∷◌, ◌++◌, leb, ◌==◌, if◌then◌else◌, Text,
}
use pro_rag.Prelude.Words.{is_space, lstrip, starts_with, is_empty, codes}
pub mod Stream
pub mod Row
mod Tests

pub record Guard : Type 0 where
  pub whitespace_limit : ℕ
  pub pending : Text
  pub ws_run : ℕ
  pub done : Bool

abbrev pub new_guard : ℕ → Guard
new_guard limit = record { whitespace_limit = limit; pending = []; ws_run = 0; done = false }

abbrev pub truncation_notice : Text
truncation_notice = 10 ∷ 10 ∷ codes "_[response truncated: repeated whitespace]_"

pub holds_row : Text → Bool
unfolding lstrip starts_with is_space
holds_row s = starts_with (lstrip s) (b'|' ∷ [])

abbrev pub next_run : ℕ → ℕ → ℕ
next_run run ch = if is_space ch then run + 1 else 0

abbrev pub runs_away : Guard → ℕ → Bool
runs_away g ch = leb g.whitespace_limit (next_run g.ws_run ch)

-- The end of a line, or text that is no table row yet.
abbrev pub shows : Guard → ℕ → Bool
shows g ch = ch == 10 || not (holds_row (g.pending ++ ch ∷ []))

abbrev pub truncated : Guard → ℕ → Guard × Text
truncated g ch = (
  record g { pending = []; ws_run = next_run g.ws_run ch; done = true },
  (g.pending ++ ch ∷ []) ++ truncation_notice,
)

abbrev pub shown : Guard → ℕ → Guard × Text
shown g ch = (record g { pending = []; ws_run = next_run g.ws_run ch }, g.pending ++ ch ∷ [])

abbrev pub held : Guard → ℕ → Guard × Text
held g ch = (record g { pending = g.pending ++ ch ∷ []; ws_run = next_run g.ws_run ch }, [])

-- One turn of the loop: the guard after it and what it appends to `out`.
pub feed_char : Guard → ℕ → Guard × Text
feed_char g ch =
    if runs_away g ch then truncated g ch else if shows g ch then shown g ch else held g ch

-- The loop, which a guard that is done breaks.
pub feed_chars : Guard → Text → Guard × Text
feed_chars g [] = (g, [])
feed_chars g (ch ∷ token) =
    let (h, out) = feed_char g ch in
    let (k, rest) = feed_chars h token in if h.done then (h, out) else (k, out ++ rest)

pub feed : Guard → Text → Guard × Text
unfolding feed_chars
feed g token = if g.done || is_empty token then (g, []) else feed_chars g token

pub flush : Guard → Guard × Text
flush g = (record g { pending = [] }, g.pending)

-- What a wait for the model's next chunk comes to: answer text; a chunk that shows nothing (the
-- usage, a thought, an unexpected shape); no chunk within the heartbeat interval; an exception.
pub data Delta : Type 0 where
  answer_text : Text → Delta
  no_text pause failure : Delta

-- The answer's loop in prorag/chat/router.py: it feeds the text until the guard is done or the
-- chunks end, then flushes. A pause cancels the generator of the chunks, so the wait after the
-- heartbeat finds it ended. An exception goes to the `error` event, past the flush. What it gives
-- is the text of the `token` events.
pub stream_from : Guard → List Delta → Text
stream_from g [] = (flush g).1
stream_from g (answer_text token ∷ deltas) =
    let (h, out) = feed g token in
    let rest = stream_from h deltas in out ++ (if h.done then (flush h).1 else rest)
stream_from g (no_text ∷ deltas) = stream_from g deltas
stream_from g (pause ∷ deltas) = (flush g).1
stream_from g (failure ∷ deltas) = []

pub stream : ℕ → List Delta → Text
unfolding stream_from
stream limit deltas = stream_from (new_guard limit) deltas
