-- ===== src/Chat/Citations.antt =====
-- prorag/chat/citations.py. The patterns are read as their matchers at one place; a digit is an
-- ASCII digit, and case is folded on ASCII.
use pro_rag.Prelude.{
  ℕ, zero, suc, ◌+◌, ◌-◌, ◌*◌, ◌≤◌, ◌≡◌, refl, Bool, true, false, not, ◌&&◌, ◌||◌, Option, none,
  some, List, [], ◌∷◌, ◌++◌, map, leb, ltb, ◌==◌, if◌then◌else◌, Text, length, drop, get_elem?,
  filter, any, count, All,
}
use pro_rag.Prelude.Words.{codes, is_space, lower}
pub mod Found
pub mod Resolve
mod Tests

abbrev pub is_digit : ℕ → Bool
is_digit c = leb b'0' c && leb c b'9'

abbrev pub digits : Text → Text
digits [] = []
digits (c ∷ s) = if is_digit c then c ∷ digits s else []

abbrev pub digit_value : ℕ → ℕ
digit_value c = c - b'0'

-- `int(...)` on digits
abbrev pub int_from : ℕ → Text → ℕ
int_from n [] = n
int_from n (c ∷ s) = int_from (n * 10 + digit_value c) s

-- What a matcher finds at the start of a text: the digits, and the length of the match.
abbrev pub Match : Type 0
Match = Option (Text × ℕ)

abbrev pub closed_with : ℕ → ℕ → Text → Text → Match
closed_with close before [] rest = none
closed_with close before (d ∷ ds) [] = none
closed_with close before (d ∷ ds) (c ∷ rest) =
    if c == close then some (d ∷ ds, before + length (d ∷ ds) + 1) else none

-- Digits, at least one, and then the closing character, after a prefix of the length given.
abbrev pub closed_by : ℕ → ℕ → Text → Match
closed_by close before s = closed_with close before (digits s) (drop (length (digits s)) s)

-- ASCII lower case
abbrev pub fold : ℕ → ℕ
fold c = if leb b'A' c && leb c b'Z' then c + 32 else c

-- The prefix, letter case aside where the first argument is `fold`
abbrev pub after_prefix : (ℕ → ℕ) → Text → ℕ → ℕ → Text → Match
after_prefix f [] close before s = closed_by close before s
after_prefix f (p ∷ ps) close before [] = none
after_prefix f (p ∷ ps) close before (c ∷ s) =
    let rest = after_prefix f ps close before s in if f p == f c then rest else none

-- The white space of `\s+` goes as far as it can: no digit is white space.
abbrev pub spaces : Text → ℕ
spaces [] = 0
spaces (c ∷ s) = let rest = spaces s in if is_space c then suc rest else 0

abbrev pub source_at : ℕ → Text → Match
source_at zero s = none
source_at (suc n) s = closed_by b']' (7 + suc n) (drop (7 + suc n) s)

abbrev pub starts_folded : Text → Text → Bool
starts_folded [] s = true
starts_folded (p ∷ ps) [] = false
starts_folded (p ∷ ps) (c ∷ s) = fold p == fold c && starts_folded ps s

abbrev pub same : ℕ → ℕ
same c = c

-- `_DEVIATION_PATTERNS`, in order
pub round_s : Text → Match
round_s = after_prefix fold (codes "(S") b')' 2

pub square_s : Text → Match
square_s = after_prefix fold (codes "[s") b']' 2

pub square_source : Text → Match
unfolding is_space
square_source s =
    if starts_folded (codes "[source") s then source_at (spaces (drop 7 s)) s else none

pub square_number : Text → Match
square_number = after_prefix same (codes "[") b']' 1

-- `_CANONICAL`
pub canonical : Text → Match
canonical = after_prefix same (codes "[S") b']' 2

-- `pattern.sub`: the first argument counts the characters of a match that are still to be left out.
pub sub_from : (Text → Match) → ℕ → Text → Text
sub_from m skip [] = []
sub_from m (suc skip) (c ∷ s) = sub_from m skip s
sub_from m zero (c ∷ s) = elim (m (c ∷ s)) [
  | none ↦ c ∷ sub_from m zero s
  | some (ds, n) ↦ codes "[S" ++ (ds ++ b']' ∷ sub_from m (n - 1) s)
]

pub normalize_citations : Text → Text
unfolding sub_from round_s square_s square_source square_number
normalize_citations text =
    sub_from square_number 0
      (sub_from square_source 0 (sub_from square_s 0 (sub_from round_s 0 text)))

-- `finditer`: the numbers of the matches from the left
pub found_from : ℕ → Text → List ℕ
unfolding canonical
found_from skip [] = []
found_from (suc skip) (c ∷ s) = found_from skip s
found_from zero (c ∷ s) = elim (canonical (c ∷ s)) [
  | none ↦ found_from zero s
  | some (ds, n) ↦ int_from 0 ds ∷ found_from (n - 1) s
]

-- `seen.setdefault(n, None)` on the keys in the order in which they came
abbrev pub set_default : List ℕ → ℕ → List ℕ
set_default seen n = if any (λ k. k == n) seen then seen else seen ++ n ∷ []

abbrev pub seen_from : List ℕ → List ℕ → List ℕ
seen_from seen [] = seen
seen_from seen (n ∷ ns) = seen_from (set_default seen n) ns

pub extract_cited_indices : Text → List ℕ
unfolding found_from
extract_cited_indices text = seen_from [] (found_from 0 text)

module _ {A : Type 0} where
  -- One turn of the loop: `idx = n - 1`, and nothing where it is out of range.
  abbrev pub source_of : List A → ℕ → Option A
  source_of chunks zero = none
  source_of chunks (suc idx) = get_elem? chunks idx

  abbrev pub source_then : ℕ → Option A → List (ℕ × A) → List (ℕ × A)
  source_then n none rest = rest
  source_then n (some c) rest = (n, c) ∷ rest

  abbrev pub sources_of : List A → List ℕ → List (ℕ × A)
  sources_of chunks [] = []
  sources_of chunks (n ∷ ns) = source_then n (source_of chunks n) (sources_of chunks ns)

  pub resolve_citations : Text → List A → List (ℕ × A)
  unfolding extract_cited_indices
  resolve_citations text chunks = sources_of chunks (extract_cited_indices text)
