-- ===== src/Chat/Guard/Row.antt =====
-- What `TokenGuard` holds back, and when it stops.
use pro_rag.Prelude.{
  ℕ, ◌+◌, ◌≤◌, ◌≡◌, ◌≢◌, refl, ap, ◌⊎◌, inl, inr, true, false, ◌||◌, [], ◌∷◌, arith, Text, All,
  All-snoc, length, if_cases, if_intro, if◌then◌else◌,
}
use pro_rag.Prelude.Words.{is_space}
use pro_rag.Chat.Guard.{
  Guard, runs_away, shows, truncated, shown, held, holds_row, feed_char, feed_chars, feed,
}

-- Nothing is pending, or a text that begins, after white space, with `|`; and no end of line in it.
abbrev pub HoldsRow : Guard → Type 0
HoldsRow g = ((g.pending ≡ []) ⊎ (holds_row g.pending ≡ true)) × All (λ c. c ≢ 10) g.pending

feed_char-HoldsRow : (g : Guard) (ch : ℕ) → HoldsRow g → HoldsRow (feed_char g ch).0
unfolding feed_char
feed_char-HoldsRow g ch h =
    if_cases (λ (r : Guard × Text). HoldsRow r.0) (runs_away g ch) {x = truncated g ch}
      {y = if shows g ch then shown g ch else held g ch} (λ _. (inl refl, tt))
      (λ _.
        if_cases (λ (r : Guard × Text). HoldsRow r.0) (shows g ch) {x = shown g ch} {y = held g ch}
          (λ _. (inl refl, tt))
          (λ e.
            (inr (ground (arith, e)), All-snoc (λ c. c ≢ 10) g.pending ch h.1 (ground (arith, e)))))

feed_chars-HoldsRow : (g : Guard) (token : Text) → HoldsRow g → HoldsRow (feed_chars g token).0
unfolding feed_chars
feed_chars-HoldsRow g [] h = h
feed_chars-HoldsRow g (ch ∷ token) h =
    if_intro (λ (r : Guard × Text). HoldsRow r.0) (feed_char g ch).0.done
      (feed_char-HoldsRow g ch h)
      (feed_chars-HoldsRow (feed_char g ch).0 token (feed_char-HoldsRow g ch h))

-- From a guard that holds nothing, or a text that begins, after white space, with `|` and has no end
-- of line in it, any token leads to such a guard again.
pub feed-HoldsRow : (g : Guard) (token : Text) → HoldsRow g → HoldsRow (feed g token).0
unfolding feed
feed-HoldsRow g token h =
    if_intro (λ (r : Guard × Text). HoldsRow r.0) _ h (feed_chars-HoldsRow g token h)

-- The guard stopped, or it counts one more white space.
abbrev RunsOn : Guard → Guard × Text → Type 0
RunsOn g r =
    (r.0.done ≡ true)
    ⊎ ((r.0.done ≡ false)
        × (r.0.ws_run ≡ g.ws_run + 1)
        × (r.0.whitespace_limit ≡ g.whitespace_limit)
        × (g.ws_run + 2 ≤ g.whitespace_limit))

feed_char-RunsOn :
    (g : Guard) (ch : ℕ) → g.done ≡ false → is_space ch ≡ true → RunsOn g (feed_char g ch)
unfolding feed_char
feed_char-RunsOn g ch live space =
    if_cases (RunsOn g) (runs_away g ch) {x = truncated g ch}
      {y = if shows g ch then shown g ch else held g ch} (λ _. inl refl)
      (λ e.
        if_intro (RunsOn g) (shows g ch) {x = shown g ch} {y = held g ch} (inr (counted e))
          (inr (counted e)))
  where
    counted :
        runs_away g ch ≡ false
        → (g.done ≡ false)
          × ((if is_space ch then g.ws_run + 1 else 0) ≡ g.ws_run + 1)
          × (g.whitespace_limit ≡ g.whitespace_limit)
          × (g.ws_run + 2 ≤ g.whitespace_limit)
    counted e = (live, rw space refl, refl, ground (arith, e, space))

feed_chars_stops :
    (g : Guard) (token : Text)
    → g.done ≡ false
    → All (λ c. is_space c ≡ true) token
    → token ≢ []
    → g.whitespace_limit ≤ g.ws_run + length token
    → (feed_chars g token).0.done ≡ true
unfolding feed_chars
feed_chars_stops g [] live spaces some_text long = absurd (some_text refl)
feed_chars_stops g (ch ∷ token) live spaces some_text long =
    if_cases (λ (r : Guard × Text). r.0.done ≡ true) (feed_char g ch).0.done {x = feed_char g ch}
      (λ d. d)
      (λ d. elim (feed_char-RunsOn g ch live spaces.0) [
        | inl e ↦ absurd cc
        | inr (_, run, limit, short) ↦
            feed_chars_stops (feed_char g ch).0 token d spaces.1
              (λ e. absurd (rest_long e long short)) (omega (arith, run, limit, long))
      ])
  where
    rest_long :
        token ≡ []
        → g.whitespace_limit ≤ g.ws_run + length (ch ∷ token)
        → g.ws_run + 2 ≤ g.whitespace_limit
        → ⊥
    rest_long e l s = omega (arith, ap length e)

-- A guard that runs stops on any token of white space that takes its count to the limit.
pub feed_stops :
    (g : Guard) (token : Text)
    → g.done ≡ false
    → All (λ c. is_space c ≡ true) token
    → token ≢ []
    → g.whitespace_limit ≤ g.ws_run + length token
    → (feed g token).0.done ≡ true
unfolding feed
feed_stops g [] live spaces some_text long = absurd (some_text refl)
feed_stops g (ch ∷ token) live spaces some_text long =
    if_cases (λ (r : Guard × Text). r.0.done ≡ true) (g.done || false) {x = (g, [])}
      {y = feed_chars g (ch ∷ token)} (λ d. absurd (ground (arith, live, d)))
      (λ _. feed_chars_stops g (ch ∷ token) live spaces some_text long)
