-- ===== src/Prelude/Infix.antt =====
-- One text within another.
use pro_rag.Prelude.{
  ◌≡◌, sym, ap, ◌∙◌, subst, inl, inr, List, [], ◌∷◌, ◌++◌, append-nil, append_assoc, Text, Member,
}
use pro_rag.Prelude.Words.{join}

abbrev pub Infix : Text → Text → Type 0
Infix s t = (before : Text) × (after : Text) × (t ≡ before ++ (s ++ after))

pub infix_self : (s : Text) → Infix s s
infix_self s = ([], [], sym (append-nil s))

pub infix_behind : (p s t : Text) → Infix s t → Infix s (p ++ t)
infix_behind p s t (before, after, e) =
    (p ++ before, after, ap (λ u. p ++ u) e ∙ sym (append_assoc p before (s ++ after)))

pub infix_before : (s t q : Text) → Infix s t → Infix s (t ++ q)
infix_before s t q (before, after, e) = (
  before,
  after ++ q,
  ap (λ u. u ++ q) e
      ∙ append_assoc before (s ++ after) q
      ∙ ap (λ u. before ++ u) (append_assoc s after q),
)

pub infix_trans : (s t u : Text) → Infix s t → Infix t u → Infix s u
infix_trans s t u st (before, after, e) =
    subst (Infix s) (sym e) (infix_behind before s (t ++ after) (infix_before s t after st))

pub infix-join : (sep : Text) (x : Text) (xs : List Text) → Member x xs → Infix x (join sep xs)
infix-join sep x [] m = absurd m
infix-join sep x (y ∷ []) (inl e) = subst (λ z. Infix x z) e (infix_self x)
infix-join sep x (y ∷ []) (inr m) = absurd m
infix-join sep x (y ∷ z ∷ xs) (inl e) =
    infix_before x y (sep ++ join sep (z ∷ xs)) (subst (λ w. Infix x w) e (infix_self x))
infix-join sep x (y ∷ z ∷ xs) (inr m) =
    infix_behind y x (sep ++ join sep (z ∷ xs))
      (infix_behind sep x (join sep (z ∷ xs)) (infix-join sep x (z ∷ xs) m))
