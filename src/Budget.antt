-- ===== src/Budget.antt =====
-- prorag/cost.py and prorag/operations/budget.py: what a request may still cost today.
-- Times are microseconds since the epoch, in UTC.
use pro_rag.Prelude.{
  ℕ, ◌+◌, ◌-◌, ◌*◌, ◌%◌, Bool, true, false, ◌&&◌, Option, none, some, List, [], ◌∷◌, ◌++◌, leb,
  ◌==◌, if◌then◌else◌, filter, Text,
}
use pro_rag.Prelude.Sort.{Order}
pub mod Caps
pub mod Samples
mod Tests

-- The floats that costs are counted in.
pub record Money : Type 1 where
  pub order : Order
  pub open order use *
  pub zero : Score
  pub add : Score → Score → Score
  pub mul : Score → Score → Score
  pub of_int : ℕ → Score
  pub thousandth : Score → Score

module _ (m : Money) where
  pub record Usage : Type 0 where
    pub message_id : Option ℕ
    pub model : Text
    pub prompt_tokens : ℕ
    pub completion_tokens : ℕ
    pub cost_usd : m.Score
    pub user_id : Option ℕ
    pub created_at : ℕ

  pub record Settings : Type 0 where
    pub daily_cost_cap_usd : m.Score
    pub user_daily_cap_usd : m.Score
    pub user_hard_cap_multiplier : m.Score
    pub fallback_price_per_1k_usd : m.Score

  -- What `litellm.completion_cost` does.
  pub data Completion : Type 0 where
    raised : Completion
    priced : Option m.Score → Completion

  pub flat_cost : Settings → ℕ → ℕ → m.Score
  flat_cost settings prompt_tokens completion_tokens =
      m.mul (m.thousandth (m.of_int (prompt_tokens + completion_tokens)))
        settings.fallback_price_per_1k_usd

  pub compute_cost : (Text → ℕ → ℕ → Completion) → Settings → Text → ℕ → ℕ → m.Score
  unfolding flat_cost
  compute_cost completion_cost settings model prompt_tokens completion_tokens =
      elim (completion_cost model prompt_tokens completion_tokens) [
        | raised ↦ flat_cost settings prompt_tokens completion_tokens
        | priced cost ↦ elim cost [
          | none ↦ flat_cost settings prompt_tokens completion_tokens
          | some c ↦ c
        ]
      ]

  -- With a session: the rows after the call, and the cost.
  pub track_usage :
      (Text → ℕ → ℕ → Completion)
      → Settings
      → ℕ
      → List Usage
      → Text
      → ℕ
      → ℕ
      → Option ℕ
      → Option ℕ
      → List Usage × m.Score
  unfolding compute_cost
  track_usage completion_cost settings now rows model prompt_tokens completion_tokens message_id
        user_id =
      let cost = compute_cost completion_cost settings model prompt_tokens completion_tokens in
      (
        rows
            ++ record {
              message_id = message_id;
              model = model;
              prompt_tokens = prompt_tokens;
              completion_tokens = completion_tokens;
              cost_usd = cost;
              user_id = user_id;
              created_at = now;
            }
              ∷ [],
        cost,
      )

  -- `func.coalesce(func.sum(Usage.cost_usd), 0.0)`
  abbrev pub total_of : List Usage → m.Score
  total_of [] = m.zero
  total_of (u ∷ rows) = m.add u.cost_usd (total_of rows)

  abbrev pub is_user : ℕ → Usage → Bool
  is_user user_id u = elim u.user_id [ none ↦ false | some id ↦ id == user_id ]

abbrev pub day : ℕ
day = 86400000000

pub utc_day_start : ℕ → ℕ
utc_day_start now = now - now % day

module _ (m : Money) where
  pub today_cost_usd : ℕ → List (Usage m) → m.Score
  unfolding utc_day_start
  today_cost_usd now rows = total_of m (filter (λ u. leb (utc_day_start now) u.created_at) rows)

  pub today_user_cost_usd : ℕ → List (Usage m) → ℕ → m.Score
  unfolding utc_day_start
  today_user_cost_usd now rows user_id =
      total_of m (filter (λ u. is_user m user_id u && leb (utc_day_start now) u.created_at) rows)

  pub over_daily_cap : m.Score → m.Score → Bool
  over_daily_cap today_total cap = m.le cap today_total

pub data Decision : Type 0 where
  ok warn block : Decision

-- What `check_daily_cap` comes to: the two refusals are answered with 429, and a warning is a
-- text with the amounts.
pub data Outcome (m : Money) : Type 0 where
  install_cap_reached : m.Score → Outcome m
  user_cap_reached : m.Score → m.Score → Outcome m
  passes_with_warning : m.Score → m.Score → Outcome m
  passes : Outcome m

module _ (m : Money) where
  unfoldable pub budget_decision : m.Score → m.Score → m.Score → Decision
  budget_decision spent cap hard_multiplier =
      if m.le (m.mul cap hard_multiplier) spent then block else if m.le cap spent then warn else ok

  abbrev pub outcome_of : Decision → m.Score → m.Score → m.Score → Outcome m
  outcome_of block user_spent cap hard_cap = user_cap_reached user_spent hard_cap
  outcome_of warn user_spent cap hard_cap = passes_with_warning user_spent cap
  outcome_of ok user_spent cap hard_cap = passes

  -- The user's own cap, `user.daily_cap_usd_override`, is an amount of money where there is one.
  abbrev pub cap_of : Settings m → Option m.Score → m.Score
  cap_of settings none = settings.user_daily_cap_usd
  cap_of settings (some override) = override

  pub check_daily_cap : Settings m → ℕ → List (Usage m) → Option (ℕ × Option m.Score) → Outcome m
  unfolding today_cost_usd over_daily_cap today_user_cost_usd budget_decision
  check_daily_cap settings now rows user =
      let spent = today_cost_usd m now rows in
      if over_daily_cap m spent settings.daily_cost_cap_usd
      then install_cap_reached spent
      else elim user [
        | none ↦ passes
        | some u ↦
            let cap = cap_of settings u.1 in
            let user_spent = today_user_cost_usd m now rows u.0 in
            outcome_of (budget_decision user_spent cap settings.user_hard_cap_multiplier) user_spent
              cap (m.mul cap settings.user_hard_cap_multiplier)
      ]
