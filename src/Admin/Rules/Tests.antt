-- ===== src/Admin/Rules/Tests.antt =====
-- A rule for the readers' group over a corpus of two documents.
use pro_rag.Prelude.{◌≡◌, refl, none, some, [], ◌∷◌, Member, All-member, All-of_Member}
use pro_rag.Prelude.Sort.{sort_desc-All, Member-sort_desc}
use pro_rag.Prelude.Reply.{answer}
use pro_rag.Prelude.Words.{codes}
use pro_rag.Models.{Group, local, by_hand, user}
use pro_rag.Retrieve.Samples.{scores, descending, floats, engine, document, chunk}
use pro_rag.Admin.Rules.{Rule, Tables, draft, confirm_rule, get_rule}
use pro_rag.Admin.Rules.Candidates.{KeepsRows}
use pro_rag.Admin.Rules.Lifecycle.{
  confirmed_with, GrantsGroup, TakenBack, confirm_rule-GrantsGroup, delete_rule-confirm_rule,
}
use pro_rag.Admin.Rules.Reach.{Sound, begin, step, confirmed_rule, Reachable-Sound}

abbrev rule : Rule floats engine
rule = record {
  id = 3;
  name = codes "readers";
  nl_query = codes "words";
  group_id = 9;
  state = draft;
  query_embedding = none;
  confirmed_at = none;
}

abbrev readers : Group
readers = record { id = 9; name = codes "readers"; source = local; external_id = none }

abbrev tables : Tables floats engine
tables = record {
  rules = rule ∷ [];
  groups = readers ∷ [];
  corpus = record {
    documents = document 1 ∷ document 2 ∷ [];
    chunks = chunk 10 1 ∷ [];
    table_rows = [];
    acl = record {
      user_groups = record { user_id = 5; group_id = 9 } ∷ [];
      document_acl =
          record { doc_id = 2; principal_type = user; principal_id = some 6; source = by_hand }
          ∷ [];
    };
  };
}

abbrev tables_after : Tables floats engine
tables_after = confirmed_with floats engine tables 900000 100 rule 7

confirms : confirm_rule floats engine tables 900000 (λ t. some 7) 100 3 ≡ answer tables_after
unfolding confirm_rule get_rule
confirms = refl

keeps : KeepsRows floats engine
keeps f ds d = (
  (λ m.
      All-member (λ x. Member x ds) (descending f ds)
        (sort_desc-All scores f (λ x. Member x ds) ds
          (All-of_Member (λ x. Member x ds) ds (λ x n. n)))
        d m),
  (λ m. Member-sort_desc scores f ds d m),
)

confirm_rule-GrantsGroup_example :
    GrantsGroup floats engine tables 900000 (λ t. some 7) 3 tables_after
confirm_rule-GrantsGroup_example =
    confirm_rule-GrantsGroup floats engine tables 900000 (λ t. some 7) 100 3 keeps confirms

delete_rule-confirm_rule_example : TakenBack floats engine tables 3 tables_after
delete_rule-confirm_rule_example =
    delete_rule-confirm_rule floats engine tables 900000 (λ t. some 7) 100 3 (refl, tt) confirms

tables-Sound : Sound floats engine tables
tables-Sound = ((refl, tt), ((λ id e. cc), tt))

Reachable-Sound_example : Sound floats engine tables_after
Reachable-Sound_example =
    Reachable-Sound floats engine tables-Sound
      (step begin (confirmed_rule 900000 (λ t. some 7) 100 3 confirms))
