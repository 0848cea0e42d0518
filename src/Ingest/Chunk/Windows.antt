-- ===== src/Ingest/Chunk/Windows.antt =====
-- The windows of a stream, joined without their overlap, are the stream.
use pro_rag.Prelude.{
  ℕ, zero, suc, ◌+◌, ◌-◌, ◌≤◌, ◌<◌, ◌≡◌, refl, sym, ap, ◌∙◌, Option, some, List, [], ◌∷◌, ◌++◌,
  arith, ltb, leb, leb→le, if◌then◌else◌, length, length-drop, length-take, take, drop,
  take-append-drop, All, if_cases,
}
use pro_rag.Ingest.Chunk.{Window, windows, window_then, step_of, cut}

drop-drop : {A : Type 0} (a b c : ℕ) (xs : List A) → c ≡ b + a → drop a (drop b xs) ≡ drop c xs
drop-drop a zero c xs e = ap (λ n. drop n xs) (omega (arith, e))
drop-drop a (suc b) zero xs e = absurd (omega (arith, e))
drop-drop zero (suc b) (suc c) [] e = refl
drop-drop (suc a) (suc b) (suc c) [] e = refl
drop-drop a (suc b) (suc c) (x ∷ xs) e = drop-drop a b c xs (omega (arith, e))

drop-append :
    {A : Type 0} (k : ℕ) (xs ys : List A) → k ≤ length xs → drop k (xs ++ ys) ≡ drop k xs ++ ys
drop-append zero xs ys h = refl
drop-append (suc k) [] ys h = absurd (omega arith)
drop-append (suc k) (x ∷ xs) ys h = drop-append k xs ys (omega arith)

drop_all : {A : Type 0} (k : ℕ) (xs : List A) → length xs ≤ k → drop k xs ≡ []
drop_all zero [] h = refl
drop_all zero (x ∷ xs) h = absurd (omega arith)
drop_all (suc k) [] h = refl
drop_all (suc k) (x ∷ xs) h = drop_all k xs (omega arith)

abbrev pub whole : {A : Type 0} → Window A → List A
whole w = w.0 ∷ w.1

-- The windows after the first, each without the `k` entries that it shares with the one before.
abbrev pub new_parts : {A : Type 0} → ℕ → List (Window A) → List A
new_parts k [] = []
new_parts k (w ∷ ws) = drop k (whole w) ++ new_parts k ws

abbrev pub rejoin : {A : Type 0} → ℕ → List (Window A) → List A
rejoin k [] = []
rejoin k (w ∷ ws) = whole w ++ new_parts k ws

-- The window is what `stream[i : i + target]` is for some `i`.
abbrev pub IsCutOf : {A : Type 0} → ℕ → List A → Window A → Type 0
IsCutOf target stream v = (i : ℕ) × (whole v ≡ take target (drop i stream))

module _ {A : Type 0} (at_empty : Option (List (Window A))) (target step : ℕ) (stream : List A)
    (least : 1 ≤ step) (most : step ≤ target) where
  abbrev IsCut : Window A → Type 0
  IsCut = IsCutOf target stream

  -- The windows from `i` on: the first is the next `target` entries, the new parts are the rest.
  abbrev Covers : ℕ → List (Window A) → Type 0
  Covers i [] = ⊥
  Covers i (w ∷ ws) =
      (whole w ≡ take target (drop i stream))
      × (new_parts (target - step) ws ≡ drop target (drop i stream))
      × All IsCut (w ∷ ws)

  covered_by :
      (i : ℕ) (window : List A) (rest : Option (List (Window A)))
      → window ≡ take target (drop i stream)
      → i < length stream
      → ((ws : List (Window A)) × (rest ≡ some ws)
          × (new_parts (target - step) ws ≡ drop target (drop i stream))
          × All IsCut ws)
      → (ws : List (Window A)) × (window_then at_empty window rest ≡ some ws) × Covers i ws
  covered_by i [] rest e inside h =
      absurd (omega (arith, ap length e, length-take target (drop i stream), length-drop i stream))
  covered_by i (x ∷ w) rest e inside (ws, found, parts, cuts) =
      ((x, w) ∷ ws, rw found refl, (e, parts, ((i, e), cuts)))

  next_parts :
      (i : ℕ) (ws : List (Window A))
      → i + target < length stream
      → Covers (i + step) ws
      → new_parts (target - step) ws ≡ drop target (drop i stream)
  next_parts i [] inside h = absurd h
  next_parts i (w ∷ ws) inside (first, parts, _) =
      let d = drop (i + step) stream in
      ap (λ v. drop (target - step) v ++ new_parts (target - step) ws) first
      ∙ ap (λ v. drop (target - step) (take target d) ++ v) parts
      ∙ sym (
          drop-append (target - step) (take target d) (drop target d)
            (omega (arith, length-take target d, length-drop (i + step) stream)))
      ∙ ap (drop (target - step)) (take-append-drop target d)
      ∙ drop-drop (target - step) (i + step) (i + target) stream (omega arith)
      ∙ sym (drop-drop target i (i + target) stream refl)

  All-IsCut : (i : ℕ) (ws : List (Window A)) → Covers i ws → All IsCut ws
  All-IsCut i [] h = absurd h
  All-IsCut i (w ∷ ws) (_, _, cuts) = cuts

  windows-Covers :
      (fuel i : ℕ)
      → i < length stream
      → length stream ≤ fuel + i
      → (ws : List (Window A)) × (windows at_empty target step stream fuel i ≡ some ws)
        × Covers i ws
  unfolding windows
  windows-Covers zero i inside enough = absurd (omega arith)
  windows-Covers (suc fuel) i inside enough =
      if_cases Result (ltb i (length stream)) {y = some []}
        (λ _. covered_by i (take target (drop i stream)) later refl inside (
          if_cases Later (leb (length stream) (i + target)) {x = some []}
            {y = windows at_empty target step stream fuel (i + step)}
            (λ e. (
              [],
              refl,
              sym (
                  drop-drop target i (i + target) stream refl
                  ∙ drop_all (i + target) stream (leb→le _ _ e)),
              tt,
            ))
            (λ e.
              let (ws, found, covers) =
                windows-Covers fuel (i + step) (ground (arith, e, most)) (omega arith) in
              (
                ws,
                found,
                next_parts i ws (ground (arith, e)) covers,
                All-IsCut (i + step) ws covers,
              ))))
        (λ e. absurd (ground (arith, e, inside)))
    where
      later : Option (List (Window A))
      later =
          if leb (length stream) (i + target)
          then some []
          else windows at_empty target step stream fuel (i + step)

      Result : Option (List (Window A)) → Type 0
      Result r = (ws : List (Window A)) × (r ≡ some ws) × Covers i ws

      Later : Option (List (Window A)) → Type 0
      Later r =
          (ws : List (Window A)) × (r ≡ some ws)
          × (new_parts (target - step) ws ≡ drop target (drop i stream))
          × All IsCut ws

-- However the loop treats an empty window, a target of at least one word cuts the stream into
-- windows that are cut from it, and joined without what they share they are the stream.
pub cut_lem :
    {A : Type 0} (at_empty : Option (List (Window A))) (target overlap : ℕ) (stream : List A)
    → 1 ≤ target
    → (ws : List (Window A)) × (cut at_empty target overlap stream ≡ some ws)
      × (rejoin (target - step_of target overlap) ws ≡ stream)
      × All (IsCutOf target stream) ws
unfolding windows
cut_lem at_empty target overlap [] h = ([], refl, refl, tt)
cut_lem {A} at_empty target overlap (x ∷ s) h =
    let (ws, found, covers) =
      windows-Covers at_empty target (step_of target overlap) (x ∷ s) (omega arith) (omega arith)
        (length (x ∷ s)) 0 (omega arith) (omega arith) in
    (
      ws,
      found,
      rejoined ws covers,
      All-IsCut at_empty target (step_of target overlap) (x ∷ s) (omega arith) (omega arith) 0 ws
          covers,
    )
  where
    rejoined :
        (ws : List (Window A))
        → Covers at_empty target (step_of target overlap) (x ∷ s) (omega arith) (omega arith) 0 ws
        → rejoin (target - step_of target overlap) ws ≡ x ∷ s
    rejoined [] c = absurd c
    rejoined (w ∷ ws) (first, parts, _) =
        ap (λ v. v ++ new_parts (target - step_of target overlap) ws) first
        ∙ ap (λ v. take target (x ∷ s) ++ v) parts
        ∙ take-append-drop target (x ∷ s)
