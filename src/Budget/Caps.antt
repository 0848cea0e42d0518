-- ===== src/Budget/Caps.antt =====
-- When a request is let through, and what moves a user's total.
use pro_rag.Prelude.{
  ℕ, ◌+◌, ◌-◌, ◌/◌, ◌%◌, [], ◌∷◌, sym, ◌∙◌, subst, filter, if◌then◌else◌, if_true, if_false, leb→le,
  le→leb, ◌≤◌, ◌<◌, ◌≡◌, ◌≢◌, refl, ap, ◌↔◌, inl, inr, Bool, true, false, ◌&&◌, Option, none, some,
  List, arith, leb, ◌==◌, filter-snoc_out, ==_iff, Bool-cases, Text,
}
use pro_rag.Budget.{
  Money, Usage, Settings, total_of, utc_day_start, day, today_cost_usd, today_user_cost_usd,
  over_daily_cap, Decision, ok, warn, block, Outcome, install_cap_reached, user_cap_reached,
  passes_with_warning, passes, budget_decision, cap_of, check_daily_cap, Completion, track_usage,
}

-- The budget day starts at or before now, at a multiple of a day, and now is within that day.
pub utc_day_start_lem :
    (now : ℕ)
    → (utc_day_start now ≤ now) × (now < utc_day_start now + day) × (utc_day_start now % day ≡ 0)
unfolding utc_day_start
utc_day_start_lem now = (omega arith, omega arith, omega arith)

module _ (m : Money) where
  -- The request goes on to the model.
  abbrev pub lets_through : Outcome m → Bool
  lets_through (install_cap_reached s) = false
  lets_through (user_cap_reached s c) = false
  lets_through (passes_with_warning s c) = true
  lets_through passes = true

  -- What the rows cost that pass a test.
  abbrev pub cost_of : (Usage m → Bool) → List (Usage m) → m.Score
  cost_of test [] = m.zero
  cost_of test (u ∷ rows) =
      let rest = cost_of test rows in if test u then m.add u.cost_usd rest else rest

  -- The row is of the day of `now`, or later: days are counted from the epoch.
  abbrev pub is_today : ℕ → Usage m → Bool
  is_today now u = leb (now / day) (u.created_at / day)

  abbrev pub is_todays : ℕ → ℕ → Usage m → Bool
  is_todays now user u = (elim u.user_id [ none ↦ false | some id ↦ id == user ]) && is_today now u

  -- The user's own cap, if there is one.
  abbrev pub own_cap : Settings m → Option m.Score → m.Score
  own_cap settings none = settings.user_daily_cap_usd
  own_cap settings (some own) = own

  pub own_cap_lem :
      (settings : Settings m) (own : Option m.Score) → cap_of m settings own ≡ own_cap settings own
  own_cap_lem settings none = refl
  own_cap_lem settings (some c) = refl

  -- Spent less than the cap of the install, and the user, if known, less than the hard cap.
  abbrev pub Within : Settings m → ℕ → List (Usage m) → Option (ℕ × Option m.Score) → Type 0
  Within settings now rows none =
      m.le settings.daily_cost_cap_usd (cost_of (is_today now) rows) ≡ false
  Within settings now rows (some u) =
      (m.le settings.daily_cost_cap_usd (cost_of (is_today now) rows) ≡ false)
      × (m.le (m.mul (own_cap settings u.1) settings.user_hard_cap_multiplier)
            (cost_of (is_todays now u.0) rows)
          ≡ false)

  pub today_lem :
      (now created : ℕ) → leb (utc_day_start now) created ≡ leb (now / day) (created / day)
  unfolding utc_day_start
  today_lem now created = elim (Bool-cases (leb (now - now % day) created)) [
    | inl e ↦ e ∙ sym (le→leb _ _ (omega (arith, leb→le _ _ e)))
    | inr e ↦ e ∙ sym (ground (arith, e))
  ]

  cost_of_lem :
      (test : Usage m → Bool) (test' : Usage m → Bool) (rows : List (Usage m))
      → ((u : Usage m) → test u ≡ test' u)
      → total_of m (filter test rows) ≡ cost_of test' rows
  cost_of_lem test test' [] h = refl
  cost_of_lem test test' (u ∷ rows) h = elim (Bool-cases (test u)) [
    | inl e ↦
        ap (total_of m) (if_true _ _ e)
        ∙ ap (m.add u.cost_usd) (cost_of_lem test test' rows h)
        ∙ sym (if_true _ _ (sym (h u) ∙ e))
    | inr e ↦
        ap (total_of m) (if_false _ _ e)
        ∙ cost_of_lem test test' rows h
        ∙ sym (if_false _ _ (sym (h u) ∙ e))
  ]

  pub today_cost_usd-eq :
      (now : ℕ) (rows : List (Usage m)) → today_cost_usd m now rows ≡ cost_of (is_today now) rows
  unfolding today_cost_usd
  today_cost_usd-eq now rows = cost_of_lem _ (is_today now) rows (λ u. today_lem now u.created_at)

  pub today_user_cost_usd-eq :
      (now : ℕ) (rows : List (Usage m)) (user : ℕ)
      → today_user_cost_usd m now rows user ≡ cost_of (is_todays now user) rows
  unfolding today_user_cost_usd
  today_user_cost_usd-eq now rows user = cost_of_lem _ (is_todays now user) rows (λ u.
      ap (λ b. (elim u.user_id [ none ↦ false | some id ↦ id == user ]) && b)
        (today_lem now u.created_at))

  let_through_iff :
      (settings : Settings m) (now : ℕ) (rows : List (Usage m)) (u : ℕ × Option m.Score)
      → (lets_through (check_daily_cap m settings now rows (some u)) ≡ true) ↔ (
          (m.le settings.daily_cost_cap_usd (today_cost_usd m now rows) ≡ false)
          × (m.le
                (m.mul (cap_of m settings u.1) settings.user_hard_cap_multiplier)
                (today_user_cost_usd m now rows u.0)
              ≡ false))
  unfolding check_daily_cap budget_decision over_daily_cap
  let_through_iff settings now rows u = ground arith

  nobody_iff :
      (settings : Settings m) (now : ℕ) (rows : List (Usage m))
      → (lets_through (check_daily_cap m settings now rows none) ≡ true)
        ↔ (m.le settings.daily_cost_cap_usd (today_cost_usd m now rows) ≡ false)
  unfolding check_daily_cap over_daily_cap
  nobody_iff settings now rows = ground arith

  -- A request is let through exactly where the rows of the day, and of any later one, cost less than
  -- the cap of the install, and those of them that are the user's less than the user's hard cap:
  -- the user's own cap, or the default where there is none, times the multiplier.
  pub check_daily_cap_iff :
      (settings : Settings m) (now : ℕ) (rows : List (Usage m)) (user : Option (ℕ × Option m.Score))
      → (lets_through (check_daily_cap m settings now rows user) ≡ true)
        ↔ Within settings now rows user
  check_daily_cap_iff settings now rows none =
      subst
        (λ t.
          (lets_through (check_daily_cap m settings now rows none) ≡ true)
          ↔ (m.le settings.daily_cost_cap_usd t ≡ false))
        (today_cost_usd-eq now rows) (nobody_iff settings now rows)
  check_daily_cap_iff settings now rows (some u) =
      subst
        (λ (t : m.Score × (m.Score × m.Score)).
          (lets_through (check_daily_cap m settings now rows (some u)) ≡ true) ↔ (
            (m.le settings.daily_cost_cap_usd t.0 ≡ false)
            × (m.le (m.mul (t.1.0) settings.user_hard_cap_multiplier) (t.1.1) ≡ false)))
        (λ i. (
          today_cost_usd-eq now rows i,
          (own_cap_lem settings u.1 i, today_user_cost_usd-eq now rows u.0 i),
        ))
        (let_through_iff settings now rows u)

  abbrev pub severity : Decision → ℕ
  severity ok = 0
  severity warn = 1
  severity block = 2

  -- Spending more never makes the decision milder.
  pub budget_decision_grows :
      (spent more cap multiplier : m.Score)
      → m.le spent more ≡ true
      → severity (budget_decision m spent cap multiplier)
        ≤ severity (budget_decision m more cap multiplier)
  unfolding budget_decision
  budget_decision_grows spent more cap multiplier h =
      let hard = m.trans (m.mul cap multiplier) spent more in
      let soft = m.trans cap spent more in ground (arith, h, hard, soft)

  -- What another user, or nobody, is charged does not move a user's total.
  pub today_user_cost_usd-track_usage :
      (completion_cost : Text → ℕ → ℕ → Completion m) (settings : Settings m) (later now : ℕ)
      (rows : List (Usage m)) (model : Text) (prompt_tokens completion_tokens : ℕ)
      (message_id payer : Option ℕ) (user : ℕ)
      → payer ≢ some user
      → today_user_cost_usd m later
          (track_usage m completion_cost settings now rows model prompt_tokens completion_tokens
            message_id payer).0
          user
        ≡ today_user_cost_usd m later rows user
  unfolding today_user_cost_usd track_usage
  today_user_cost_usd-track_usage completion_cost settings later now rows model prompt_tokens
        completion_tokens message_id payer user other =
      ap (total_of m) (filter-snoc_out _ rows _ (skipped payer other))
    where
      skipped :
          (p : Option ℕ)
          → p ≢ some user
          → ((elim p [ none ↦ false | some id ↦ id == user ]) && leb (utc_day_start later) now)
            ≡ false
      skipped none h = refl
      skipped (some id) h = elim (Bool-cases (id == user)) [
        | inl e ↦ absurd (h (ap (λ n. some n) ((==_iff id user).0 e)))
        | inr e ↦ rw e refl
      ]
