-- ===== src/Connectors/Scheduler.antt =====
-- The decision of prorag/connectors/scheduler.py. Times are microseconds since the epoch.
use pro_rag.Prelude.{
  ℕ, ◌+◌, ◌*◌, ◌≤◌, ◌<◌, ◌≡◌, ◌↔◌, Bool, true, not, ◌&&◌, List, map, Text, Option, none, some, leb,
  if◌then◌else◌, arith,
}

pub data Action : Type 0 where
  sweep incremental wait : Action

-- A run that never was is due; a difference of times may be negative, and is then not due for any
-- positive period.
abbrev pub is_due : ℕ → Option ℕ → ℕ → Bool
is_due now none period = true
is_due now (some last) period = leb (last + period) now

pub next_action : ℕ → Option ℕ → Option ℕ → ℕ → ℕ → Action
next_action now last_sync_at last_full_sweep_at poll_seconds sweep_hours =
    if is_due now last_full_sweep_at (sweep_hours * 3600000000)
    then sweep
    else if is_due now last_sync_at (poll_seconds * 1000000)
    then incremental
    else wait

-- The longer the wait, the less can be left undone: a sweep that is due stays due, and an
-- incremental poll that is due stays due or is preempted by a sweep.
pub rank : Action → ℕ
rank wait = 0
rank incremental = 1
rank sweep = 2

-- As time passes and nothing runs, the action due never steps back.
pub next_action_grows :
    (now later : ℕ) (last_sync_at last_full_sweep_at : Option ℕ) (poll_seconds sweep_hours : ℕ)
    → now ≤ later
    → rank (next_action now last_sync_at last_full_sweep_at poll_seconds sweep_hours)
      ≤ rank (next_action later last_sync_at last_full_sweep_at poll_seconds sweep_hours)
unfolding next_action rank
next_action_grows now later none none p s h = ground arith
next_action_grows now later none (some b) p s h = ground arith
next_action_grows now later (some a) none p s h = ground arith
next_action_grows now later (some a) (some b) p s h = ground arith

-- A connector that was swept and synced at `at` waits exactly until the shorter period is over.
pub next_action-wait_iff :
    (now at poll_seconds sweep_hours : ℕ)
    → (next_action now (some at) (some at) poll_seconds sweep_hours ≡ wait)
      ↔ ((now < at + poll_seconds * 1000000) × (now < at + sweep_hours * 3600000000))
unfolding next_action
next_action-wait_iff now at p s = ground arith

-- A connector's row, as far as the scheduler reads and writes it.
pub record Connector : Type 0 where
  pub id : ℕ
  pub enabled : Bool
  pub last_sync_at : Option ℕ
  pub last_full_sweep_at : Option ℕ
  pub last_error : Option Text

-- What a sync run comes to: an exception with its text, or the row that it leaves.
pub data Ran : Type 0 where
  failed : Text → Ran
  finished : Connector → Ran

pub record Schedule : Type 0 where
  pub poll_seconds : ℕ
  pub sweep_hours : ℕ
  -- `full_sweep` and `sync_incremental`, of the row they are given
  pub full_sweep : Connector → Ran
  pub sync_incremental : Connector → Ran

-- A failed run is rolled back.
abbrev pub recorded : Connector → Ran → Connector
recorded row (failed text) = record row { last_error = some text }
recorded row (finished after) = record after { last_error = none }

abbrev pub run_action : Schedule → Connector → Action → Connector
run_action sched row sweep = recorded row (sched.full_sweep row)
run_action sched row incremental = recorded row (sched.sync_incremental row)
run_action sched row wait = row

pub run_one : Schedule → ℕ → Connector → Connector
unfolding next_action
run_one sched now row =
    if not row.enabled
    then row
    else run_action sched row (
        next_action now row.last_sync_at row.last_full_sweep_at sched.poll_seconds
          sched.sweep_hours)

-- One tick, where `locked` says which connectors a manual sync holds.
pub tick : Schedule → (ℕ → Bool) → ℕ → List Connector → List Connector
unfolding run_one
tick sched locked now rows =
    map
      (λ (row : Connector).
        if row.enabled && not (locked row.id) then run_one sched now row else row)
      rows
