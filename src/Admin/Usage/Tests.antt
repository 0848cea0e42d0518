-- ===== src/Admin/Usage/Tests.antt =====
-- A user who has spent more than the cap.
use pro_rag.Prelude.{◌+◌, ◌≢◌, ◌↔◌, refl, [], Member}
use pro_rag.Budget.{day, ok, budget_decision}
use pro_rag.Budget.Caps.{cost_of, is_todays}
use pro_rag.Budget.Samples.{money, settings, rows}
use pro_rag.Admin.Usage.{warned_users}
use pro_rag.Admin.Usage.Warned.{HasRow, warned_users_iff}

warned_users_iff_example : Member 7 (warned_users money settings [] (day + 5) rows) ↔ (
    HasRow money (day + 5) rows 7
    × (budget_decision money (cost_of money (is_todays money (day + 5) 7) rows) 1000 2000 ≢ ok))
warned_users_iff_example = warned_users_iff money settings [] (day + 5) rows 7 refl
