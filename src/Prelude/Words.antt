-- ===== src/Prelude/Words.antt =====
-- The methods of Python's `str` that the program calls, on lists of code points.
use Prim.Native.Char.{code}
use Prim.Native.String.{String}
use pro_rag.Prelude.{
  ℕ, ◌+◌, ◌-◌, ◌≡◌, refl, ◌≢◌, ap, sym, ◌∙◌, Bool, true, false, ◌&&◌, ◌||◌, List, [], ◌∷◌, ◌++◌,
  append_assoc, append-nil, map, leb, ◌==◌, if◌then◌else◌, Bool-cases, inl, inr, Text, length, drop,
  All, All-append, same_text,
}

-- `str.isspace` on one character: the white space of Unicode, as Python has it.
unfoldable pub is_space : ℕ → Bool
is_space c =
    (leb 9 c && leb c 13)
    || (leb 28 c && leb c 32)
    || c == 133
    || c == 160
    || c == 5760
    || (leb 8192 c && leb c 8202)
    || c == 8232
    || c == 8233
    || c == 8239
    || c == 8287
    || c == 12288

-- `str.lstrip()`
unfoldable pub lstrip : Text → Text
unfolding is_space
lstrip [] = []
lstrip (c ∷ s) = if is_space c then lstrip s else c ∷ s

abbrev pub is_empty : Text → Bool
is_empty [] = true
is_empty (c ∷ s) = false

-- `str.startswith`
unfoldable pub starts_with : Text → Text → Bool
starts_with s [] = true
starts_with [] (p ∷ ps) = false
starts_with (c ∷ s) (p ∷ ps) = c == p && starts_with s ps

-- `str.endswith`
unfoldable pub ends_with : Text → Text → Bool
unfolding same_text
ends_with s suffix =
    leb (length suffix) (length s) && same_text (drop (length s - length suffix) s) suffix

-- `str.lower` on ASCII; any other character is taken to be lower case.
unfoldable pub lower : Text → Text
lower = map (λ c. if leb b'A' c && leb c b'Z' then c + 32 else c)

abbrev word : Text → List Text
word [] = []
word (c ∷ s) = (c ∷ s) ∷ []

split_from : Text → Text → List Text
split_from cur [] = word cur
split_from cur (c ∷ s) = elim (is_space c) [
  | true ↦ word cur ++ split_from [] s
  | false ↦ split_from (cur ++ c ∷ []) s
]

-- `str.split()`
unfoldable pub split : Text → List Text
unfolding split_from is_space
split = split_from []

-- `sep.join(parts)`
abbrev pub join : Text → List Text → Text
join sep [] = []
join sep (w ∷ []) = w
join sep (w ∷ v ∷ ws) = w ++ (sep ++ join sep (v ∷ ws))

abbrev pub HasNoSpace : Text → Type 0
HasNoSpace = All (λ c. is_space c ≡ false)

-- What `split` returns: words that are not empty and hold no white space.
abbrev pub IsWord : Text → Type 0
IsWord w = (w ≢ []) × HasNoSpace w

word-All : (w : Text) → HasNoSpace w → All IsWord (word w)
word-All [] h = tt
word-All (c ∷ s) h = (((λ e. cc), h), tt)

split_from-All : (cur s : Text) → HasNoSpace cur → All IsWord (split_from cur s)
unfolding split_from
split_from-All cur [] h = word-All cur h
split_from-All cur (c ∷ s) h = elim (Bool-cases (is_space c)) [
  | inl e ↦
      rw (e, split_from)
        (All-append IsWord (word cur) (split_from [] s) (word-All cur h) (split_from-All [] s tt))
  | inr e ↦
      rw (e, split_from)
        (split_from-All (cur ++ c ∷ []) s
          (All-append (λ x. is_space x ≡ false) cur (c ∷ []) h (e, tt)))
]

pub split-All : (s : Text) → All IsWord (split s)
unfolding split
split-All s = split_from-All [] s tt

split_from-append :
    (cur w s : Text) → HasNoSpace w → split_from cur (w ++ s) ≡ split_from (cur ++ w) s
unfolding split_from
split_from-append cur [] s h = rw append-nil refl
split_from-append cur (c ∷ w) s h =
    rw (h.0, split_from) (split_from-append (cur ++ c ∷ []) w s h.1 ∙ rw append_assoc refl)

word_id : (w : Text) → IsWord w → word w ≡ w ∷ []
word_id [] h = absurd (h.0 refl)
word_id (c ∷ s) h = refl

-- Splitting joined words gives the words back.
pub split-join : (ws : List Text) → All IsWord ws → split (join (32 ∷ []) ws) ≡ ws
unfolding split split_from is_space
split-join [] h = refl
split-join (w ∷ []) h =
    ap (split_from []) (sym (append-nil w)) ∙ split_from-append [] w [] h.0.1 ∙ word_id w h.0
split-join (w ∷ v ∷ ws) h =
    split_from-append [] w (32 ∷ join (32 ∷ []) (v ∷ ws)) h.0.1
    ∙ ap (λ t. t ++ split_from [] (join (32 ∷ []) (v ∷ ws))) (word_id w h.0)
    ∙ ap (λ t. w ∷ t) (split-join (v ∷ ws) h.1)

-- The code points of a text literal.
abbrev pub codes : String → Text
codes String.[] = []
codes (String.◌∷◌ c s) = code c ∷ codes s
