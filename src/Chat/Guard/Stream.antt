-- ===== src/Chat/Guard/Stream.antt =====
-- What `feed` emits of a stream, however the stream is cut into tokens.
use pro_rag.Prelude.{
  ℕ, ◌≡◌, refl, sym, ap, ◌∙◌, ◌⊎◌, inl, inr, Bool, true, false, List, [], ◌∷◌, ◌++◌, append-nil,
  append_assoc, arith, Text, flatten, Bool-cases, if_cases, if_intro, ◌||◌, ◌&&◌, not, map,
  if◌then◌else◌,
}
use pro_rag.Chat.Guard.{
  Guard, runs_away, shows, truncated, shown, held, feed_char, feed_chars, feed, flush, Delta,
  answer_text, no_text, pause, failure, stream_from, stream, new_guard, truncation_notice,
}

-- The guard still runs and every character is emitted or pending; or it is done, nothing is
-- pending, and a prefix of the text went out with the notice behind it.
abbrev pub Accounts : Guard → Text → Guard × Text → Type 0
Accounts g token r =
    ((r.0.done ≡ false) × (r.1 ++ r.0.pending ≡ g.pending ++ token))
    ⊎ ((r.0.done ≡ true)
        × (r.0.pending ≡ [])
        × ((seen : Text) × (unseen : Text) × (token ≡ seen ++ unseen)
            × (r.1 ≡ (g.pending ++ seen) ++ truncation_notice)))

-- A guard that is done has accounted for whatever comes after.
Accounts-stopped :
    (g : Guard) (xs ys : Text) (r : Guard × Text)
    → r.0.done ≡ true
    → Accounts g xs r
    → Accounts g (xs ++ ys) r
Accounts-stopped g xs ys r d (inl (k, e)) = absurd cc
Accounts-stopped g xs ys r d (inr (k, p, (seen, unseen, cut, e))) =
    inr (k, p, (seen, unseen ++ ys, (ap (λ t. t ++ ys) cut ∙ append_assoc seen unseen ys), e))

Accounts-then :
    (g h k : Guard) (xs ys out rest : Text)
    → h.done ≡ false
    → Accounts g xs (h, out)
    → Accounts h ys (k, rest)
    → Accounts g (xs ++ ys) (k, out ++ rest)
Accounts-then g h k xs ys out rest live (inr (d, _, _)) r = absurd cc
Accounts-then g h k xs ys out rest live (inl (_, e)) (inl (alive, f)) = inl (
  alive,
  append_assoc out rest k.pending
      ∙ ap (λ t. out ++ t) f
      ∙ sym (append_assoc out h.pending ys)
      ∙ ap (λ t. t ++ ys) e
      ∙ append_assoc g.pending xs ys,
)
Accounts-then g h k xs ys out rest live (inl (_, e)) (inr (d, p, (seen, unseen, cut, f))) = inr (
  d,
  p,
  (
    xs ++ seen,
    unseen,
    (ap (λ t. xs ++ t) cut ∙ sym (append_assoc xs seen unseen)),
    (ap (λ t. out ++ t) f
        ∙ sym (append_assoc out (h.pending ++ seen) truncation_notice)
        ∙ ap (λ t. t ++ truncation_notice)
            (sym (append_assoc out h.pending seen)
              ∙ ap (λ t. t ++ seen) e
              ∙ append_assoc g.pending xs seen)),
  ),
)

feed_char-Accounts : (g : Guard) (ch : ℕ) → g.done ≡ false → Accounts g (ch ∷ []) (feed_char g ch)
unfolding feed_char
feed_char-Accounts g ch live =
    if_cases (Accounts g (ch ∷ [])) (runs_away g ch) {x = truncated g ch}
      {y = if shows g ch then shown g ch else held g ch}
      (λ _. inr (refl, refl, (ch ∷ [], [], refl, refl)))
      (λ _.
        if_cases (Accounts g (ch ∷ [])) (shows g ch) {x = shown g ch} {y = held g ch}
          (λ _. inl (live, append-nil _)) (λ _. inl (live, refl)))

feed_chars-Accounts :
    (g : Guard) (token : Text) → g.done ≡ false → Accounts g token (feed_chars g token)
unfolding feed_chars
feed_chars-Accounts g [] live = inl (live, sym (append-nil g.pending))
feed_chars-Accounts g (ch ∷ token) live =
    if_cases (Accounts g (ch ∷ token)) (feed_char g ch).0.done
      (λ d. Accounts-stopped g (ch ∷ []) token (feed_char g ch) d (feed_char-Accounts g ch live))
      (λ d.
        Accounts-then g (feed_char g ch).0 (feed_chars (feed_char g ch).0 token).0 (ch ∷ []) token
          (feed_char g ch).1 (feed_chars (feed_char g ch).0 token).1 d
          (feed_char-Accounts g ch live) (feed_chars-Accounts (feed_char g ch).0 token d))

-- Whatever the guard held and the token: if it runs on, what it emits and what it holds are the
-- text it held and the token, and no character is lost; if it stops, it emits a prefix of them
-- and the notice, and holds nothing.
pub feed-Accounts : (g : Guard) (token : Text) → g.done ≡ false → Accounts g token (feed g token)
unfolding feed
feed-Accounts g [] live =
    if_intro (Accounts g []) (g.done || true) {x = (g, [])} {y = (g, [])}
      (inl (live, sym (append-nil g.pending))) (inl (live, sym (append-nil g.pending)))
feed-Accounts g (ch ∷ token) live =
    if_cases (Accounts g (ch ∷ token)) (g.done || false) {x = (g, [])}
      {y = feed_chars g (ch ∷ token)} (λ d. absurd (ground (arith, live, d)))
      (λ _. feed_chars-Accounts g (ch ∷ token) live)

if_true : {A : Type 0} {b : Bool} (x y : A) → b ≡ true → (if b then x else y) ≡ x
if_true x y e = rw e refl

if_false : {A : Type 0} {b : Bool} (x y : A) → b ≡ false → (if b then x else y) ≡ y
if_false x y e = rw e refl

-- The loop over `xs` after the state and the output of what came before.
abbrev andthen : Guard × Text → Text → Guard × Text
andthen r xs = if r.0.done then r else ((feed_chars r.0 xs).0, r.1 ++ (feed_chars r.0 xs).1)

andthen_prepend :
    (out : Text) (r : Guard × Text) (ys : Text)
    → andthen (r.0, out ++ r.1) ys ≡ ((andthen r ys).0, out ++ (andthen r ys).1)
andthen_prepend out r ys = elim (Bool-cases r.0.done) [
  | inl d ↦ rw d refl
  | inr d ↦ rw (d, append_assoc) refl
]

feed_chars-append :
    (g : Guard) (xs ys : Text)
    → g.done ≡ false
    → feed_chars g (xs ++ ys) ≡ andthen (feed_chars g xs) ys
unfolding feed_chars
feed_chars-append g [] ys live = rw live refl
feed_chars-append g (x ∷ xs) ys live = elim (Bool-cases (feed_char g x).0.done) [
  | inl d ↦ rw (d, d) refl
  | inr d ↦ rw d (
      ap (λ (r : Guard × Text). (r.0, (feed_char g x).1 ++ r.1))
        (feed_chars-append (feed_char g x).0 xs ys d)
      ∙ sym (andthen_prepend (feed_char g x).1 (feed_chars (feed_char g x).0 xs) ys))
]

feed-eq-andthen : (g : Guard) (token : Text) → feed g token ≡ andthen (g, []) token
unfolding feed feed_chars
feed-eq-andthen g [] = elim (Bool-cases g.done) [ inl d ↦ rw d refl | inr d ↦ rw d refl ]
feed-eq-andthen g (x ∷ xs) = elim (Bool-cases g.done) [ inl d ↦ rw d refl | inr d ↦ rw d refl ]

andthen_append :
    (r : Guard × Text) (xs ys : Text) → andthen (andthen r xs) ys ≡ andthen r (xs ++ ys)
andthen_append r xs ys = elim (Bool-cases r.0.done) [
  | inl d ↦ ap (λ k. andthen k ys) (if_true _ _ d) ∙ if_true _ _ d ∙ sym (if_true _ _ d)
  | inr d ↦
      ap (λ k. andthen k ys) (if_false _ _ d)
      ∙ andthen_prepend r.1 (feed_chars r.0 xs) ys
      ∙ ap (λ (k : Guard × Text). (k.0, r.1 ++ k.1)) (sym (feed_chars-append r.0 xs ys d))
      ∙ sym (if_false _ _ d)
]

abbrev given : Guard × Text → Text
given r = r.1 ++ r.0.pending

-- The model's text up to the first pause or exception.
pub received : List Delta → Text
received [] = []
received (answer_text token ∷ deltas) = token ++ received deltas
received (no_text ∷ deltas) = received deltas
received (pause ∷ deltas) = []
received (failure ∷ deltas) = []

-- An exception comes, and no pause before it.
pub fails : List Delta → Bool
fails [] = false
fails (answer_text token ∷ deltas) = fails deltas
fails (no_text ∷ deltas) = fails deltas
fails (pause ∷ deltas) = false
fails (failure ∷ deltas) = true

-- What is out at the end: an exception drops what a guard that runs holds.
abbrev closing : Bool → Guard × Text → Text
closing b r = if b && not r.0.done then r.1 else r.1 ++ r.0.pending

closing_prepend :
    (b : Bool) (h : Guard) (out rest : Text)
    → out ++ closing b (h, rest) ≡ closing b (h, out ++ rest)
closing_prepend b h out rest = elim (Bool-cases (b && not h.done)) [
  | inl t ↦ ap (λ t. out ++ t) (if_true _ _ t) ∙ sym (if_true _ _ t)
  | inr f ↦
      ap (λ t. out ++ t) (if_false _ _ f)
      ∙ sym (append_assoc out rest h.pending)
      ∙ sym (if_false _ _ f)
]

closing_done : (b : Bool) (r : Guard × Text) → r.0.done ≡ true → closing b r ≡ given r
closing_done b r d = if_false {b = b && not r.0.done} _ _ (ground (arith, d))

closing_end : (r : Guard × Text) → closing false r ≡ given r
closing_end r = refl

rest_given :
    (r : Guard × Text) (ds : List Delta)
    → (r.0.done ≡ false → stream_from r.0 ds ≡ closing (fails ds) (andthen (r.0, []) (received ds)))
    → r.1 ++ (if r.0.done then (flush r.0).1 else stream_from r.0 ds)
      ≡ closing (fails ds) (andthen r (received ds))
unfolding flush
rest_given r ds e = elim (Bool-cases r.0.done) [
  | inl d ↦
      ap (λ t. r.1 ++ t) (if_true _ _ d)
      ∙ sym (closing_done (fails ds) r d)
      ∙ ap (closing (fails ds)) (sym (if_true _ _ d))
  | inr d ↦
      ap (λ t. r.1 ++ t) (if_false _ _ d ∙ e d ∙ ap (closing (fails ds)) (if_false _ _ d))
      ∙ closing_prepend (fails ds) (feed_chars r.0 (received ds)).0 r.1
          (feed_chars r.0 (received ds)).1
      ∙ ap (closing (fails ds)) (sym (if_false _ _ d))
]

stream_from-eq :
    (g : Guard) (deltas : List Delta)
    → g.done ≡ false
    → stream_from g deltas ≡ closing (fails deltas) (andthen (g, []) (received deltas))
unfolding stream_from flush feed_chars received fails
stream_from-eq g [] live = rw live refl
stream_from-eq g (answer_text t ∷ ds) live =
    rest_given (feed g t) ds (stream_from-eq (feed g t).0 ds)
    ∙ ap (λ (r : Guard × Text). closing (fails ds) (andthen r (received ds))) (feed-eq-andthen g t)
    ∙ ap (closing (fails ds)) (andthen_append (g, []) t (received ds))
stream_from-eq g (no_text ∷ ds) live = stream_from-eq g ds live
stream_from-eq g (pause ∷ ds) live = rw live refl
stream_from-eq g (failure ∷ ds) live = rw live refl

received-texts : (tokens : List Text) → received (map answer_text tokens) ≡ flatten tokens
unfolding received
received-texts [] = refl
received-texts (t ∷ ts) = ap (λ s. t ++ s) (received-texts ts)

fails-texts : (tokens : List Text) → fails (map answer_text tokens) ≡ false
unfolding fails
fails-texts [] = refl
fails-texts (t ∷ ts) = fails-texts ts

stream-texts :
    (limit : ℕ) (tokens : List Text)
    → stream limit (map answer_text tokens) ≡ given (andthen (new_guard limit, []) (flatten tokens))
unfolding stream
stream-texts limit tokens =
    stream_from-eq (new_guard limit) (map answer_text tokens) refl
    ∙ ap (λ b. closing b (andthen (new_guard limit, []) (received (map answer_text tokens))))
        (fails-texts tokens)
    ∙ ap (λ t. given (andthen (new_guard limit, []) t)) (received-texts tokens)

-- What reaches the reader does not depend on how the model's text is cut into tokens.
pub stream_recut :
    (limit : ℕ) (tokens : List Text)
    → stream limit (map answer_text tokens) ≡ stream limit (answer_text (flatten tokens) ∷ [])
stream_recut limit tokens =
    stream-texts limit tokens
    ∙ ap (λ t. given (andthen (new_guard limit, []) t)) (sym (append-nil (flatten tokens)))
    ∙ sym (stream-texts limit (flatten tokens ∷ []))

-- Of the model's text up to the first pause or exception the reader gets the whole; or a prefix and
-- the notice; or, only where the stream ends by an exception, a prefix, without the notice.
pub stream_lem :
    (limit : ℕ) (deltas : List Delta)
    → (stream limit deltas ≡ received deltas)
      ⊎ (((seen : Text) × (unseen : Text) × (received deltas ≡ seen ++ unseen)
            × (stream limit deltas ≡ seen ++ truncation_notice))
          ⊎ ((fails deltas ≡ true)
              × ((seen : Text) × (unseen : Text) × (received deltas ≡ seen ++ unseen)
                  × (stream limit deltas ≡ seen))))
unfolding stream
stream_lem limit deltas = elim (feed_chars-Accounts (new_guard limit) (received deltas) refl) [
  | inl (live, e) ↦ elim (Bool-cases (fails deltas)) [
    | inl f ↦ inr (
        inr (
          f,
          (
            fed.1,
            fed.0.pending,
            sym e,
            stream_from-eq (new_guard limit) deltas refl
                ∙ if_true {b = fails deltas && not fed.0.done} _ _ (ground (arith, f, live)),
          ),
        ))
    | inr f ↦ inl (
        stream_from-eq (new_guard limit) deltas refl
        ∙ if_false {b = fails deltas && not fed.0.done} _ _ (ground (arith, f))
        ∙ e)
  ]
  | inr (d, p, (seen, unseen, cut, e)) ↦ inr (
      inl (
        seen,
        unseen,
        cut,
        stream_from-eq (new_guard limit) deltas refl
            ∙ closing_done (fails deltas) fed d
            ∙ rw (e, p) (append-nil _),
      ))
]
  where
    fed : Guard × Text
    fed = feed_chars (new_guard limit) (received deltas)
