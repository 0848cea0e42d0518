-- ===== src/Admin/Usage.antt =====
-- Who has reached the cap today: the end of `usage_report` in prorag/admin/router.py. The sums of
-- its window are the database's.
use pro_rag.Prelude.{
  ℕ, Bool, true, false, ◌&&◌, Option, none, some, List, [], ◌∷◌, ◌==◌, if◌then◌else◌, filter, any,
  leb,
}
use pro_rag.Prelude.Table.{find_by}
use pro_rag.Budget.{Money, Usage, Settings, cap_of, utc_day_start, today_user_cost_usd}
pub mod Warned
mod Tests

module _ (m : Money) where
  -- The columns of `users` that are read.
  pub record Capped : Type 0 where
    pub id : ℕ
    pub daily_cap_usd_override : Option m.Score

  abbrev pub capped_key : Capped → ℕ
  capped_key c = c.id

  abbrev pub put_user : Option ℕ → List ℕ → List ℕ
  put_user none ids = ids
  put_user (some id) ids = if any (λ n. n == id) ids then ids else id ∷ ids

  -- The groups of GROUP BY user_id
  abbrev pub users_of : List (Usage m) → List ℕ
  users_of [] = []
  users_of (u ∷ rows) = put_user u.user_id (users_of rows)

  abbrev pub todays : ℕ → List (Usage m) → List (Usage m)
  todays now rows = filter (λ (u : Usage m). leb (utc_day_start now) u.created_at) rows

  -- `caps.get(uid, settings.user_daily_cap_usd)`
  abbrev pub cap_for : Settings m → List Capped → ℕ → m.Score
  cap_for settings users id = elim (find_by capped_key users id) [
    | none ↦ settings.user_daily_cap_usd
    | some c ↦ cap_of m settings c.daily_cap_usd_override
  ]

  pub warned_users : Settings m → List Capped → ℕ → List (Usage m) → List ℕ
  warned_users settings users now rows =
      filter (λ id. m.le (cap_for settings users id) (today_user_cost_usd m now rows id))
        (users_of (todays now rows))
