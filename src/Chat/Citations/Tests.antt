-- ===== src/Chat/Citations/Tests.antt =====
-- Citations at concrete answers.
use pro_rag.Prelude.{
  ℕ, ◌-◌, ◌++◌, true, length, get_elem?, ◌≤◌, ◌≡◌, ◌≢◌, refl, some, List, [], ◌∷◌, Text, All,
}
use pro_rag.Prelude.Words.{codes}
use pro_rag.Chat.Citations.{is_digit, int_from, resolve_citations, normalize_citations}
use pro_rag.Chat.Citations.Found.{cite}
use pro_rag.Chat.Citations.Resolve.{times, resolve_citations_lem}

abbrev answer : Text
answer = codes "See [S2], [S1], [S2] and [S9]."

abbrev context : List ℕ
context = 70 ∷ 80 ∷ []

resolve_citations_lem_example :
    All
      (λ (s : ℕ × ℕ). (1 ≤ s.0) × (get_elem? context (s.0 - 1) ≡ some s.1))
      (resolve_citations answer context)
    × ((k : ℕ) → times k (resolve_citations answer context) ≤ 1)
    × ((before ds after : Text)
        → answer ≡ before ++ cite ds after
        → ds ≢ []
        → All (λ c. is_digit c ≡ true) ds
        → 1 ≤ int_from 0 ds
        → int_from 0 ds ≤ length context
        → times (int_from 0 ds) (resolve_citations answer context) ≡ 1)
resolve_citations_lem_example = resolve_citations_lem context answer

resolved : resolve_citations answer context ≡ (2, 80) ∷ (1, 70) ∷ []
unfolding resolve_citations
resolved = refl

normalized :
    normalize_citations (codes "(S1) [s2] [Source  3] [4] [x]") ≡ codes "[S1] [S2] [S3] [S4] [x]"
unfolding normalize_citations
normalized = refl
