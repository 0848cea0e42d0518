-- ===== src/Budget/Tests.antt =====
-- Budgets at concrete inputs.
use pro_rag.Prelude.{◌+◌, ◌≡◌, ◌↔◌, true, none, some}
use pro_rag.Budget.{day, check_daily_cap}
use pro_rag.Budget.Samples.{money, settings, rows}
use pro_rag.Budget.Caps.{lets_through, Within, check_daily_cap_iff}

check_daily_cap_iff_example :
    (lets_through money (check_daily_cap money settings (day + 5) rows (some (7, none))) ≡ true)
    ↔ Within money settings (day + 5) rows (some (7, none))
check_daily_cap_iff_example = check_daily_cap_iff money settings (day + 5) rows (some (7, none))
