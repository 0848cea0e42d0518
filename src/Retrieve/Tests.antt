-- ===== src/Retrieve/Tests.antt =====
-- Planning at concrete answers of a model.
use pro_rag.Prelude.{◌≡◌, some, Text, length}
use pro_rag.Prelude.Words.{codes}
use pro_rag.Retrieve.Plan.{
  Json, Parsed, value, string, field, object, stop, array, end, item, Plan, content, plan,
  length-plan,
}

abbrev as_text : Json → Text
as_text j = codes "x"

-- What the answer `{"queries": ["a"]}` parses to.
abbrev one_query : Text → Parsed
one_query s = value (object (field (codes "queries") (array (item (string (codes "a")) end)) stop))

length-plan_example :
    (p : Plan) × (plan as_text one_query (codes "why?") (content (some (codes "answer"))) ≡ some p)
    × (length p.queries ≡ 2)
length-plan_example =
    length-plan as_text one_query (codes "why?") (content (some (codes "answer"))) (λ e. cc)
      (λ raw e k. cc)
