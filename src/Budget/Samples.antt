-- ===== src/Budget/Samples.antt =====
-- A day's usage, in thousandths.
use pro_rag.Prelude.{ℕ, ◌+◌, ◌*◌, ◌/◌, Option, none, some, List, [], ◌∷◌}
use pro_rag.Prelude.Words.{codes}
use pro_rag.Retrieve.Samples.{scores}
use pro_rag.Budget.{Money, Usage, Settings, day}

-- Money in thousandths.
abbrev pub money : Money
money = record {
  order = scores;
  zero = 0;
  add = λ a b. a + b;
  mul = λ a b. a * b / 1000;
  of_int = λ n. n * 1000;
  thousandth = λ a. a / 1000;
}

abbrev pub settings : Settings money
settings = record {
  daily_cost_cap_usd = 5000;
  user_daily_cap_usd = 1000;
  user_hard_cap_multiplier = 2000;
  fallback_price_per_1k_usd = 2;
}

abbrev pub spent : ℕ → Option ℕ → Usage money
spent cost user = record {
  message_id = none;
  model = codes "m";
  prompt_tokens = 10;
  completion_tokens = 1;
  cost_usd = cost;
  user_id = user;
  created_at = day;
}

abbrev pub rows : List (Usage money)
rows = spent 1500 (some 7) ∷ spent 200 none ∷ []
