-- ===== src/TaskManager.antt =====
-- The manager of background tasks (pkg/task/manager.go). The calls are made under its lock, so each is
-- one step.
pub mod Order
use go_video_transcode_servi.Common.{
  Bool, true, false, List, [], ◌∷◌, ◌++◌, Option, none, some, Error, Op, if◌then◌else◌,
}

-- A task with what its Start and its Stop do; the error of Stop is dropped.
pub record BackgroundTask (S : Type 0) : Type 0 where
  pub start : Op S (Option Error)
  pub stop : S → S

-- The registered tasks, and whether there is a `cancel`.
pub record Manager (S : Type 0) : Type 0 where
  pub tasks : List (BackgroundTask S)
  pub started : Bool

module _ {S : Type 0} where
  unfoldable pub register : Option (BackgroundTask S) → Manager S → Manager S
  register none m = m
  register (some t) m = record m { tasks = m.tasks ++ t ∷ [] }

  -- The loop ends with the first error.
  abbrev started_one : Option Error → S → Option Error × S → Option Error × S
  started_one (some e) s later = (some e, s)
  started_one none s later = later

  unfoldable pub start_each : List (BackgroundTask S) → Op S (Option Error)
  start_each [] s = (none, s)
  start_each (t ∷ ts) s = let (failed, s') = t.start s in started_one failed s' (start_each ts s')

  unfoldable pub start_tasks : Manager S → Op S (Manager S × Option Error)
  unfolding start_each
  start_tasks m s =
      let (failed, s') = start_each m.tasks s in
      if m.started then ((m, none), s) else ((record m { started = true }, failed), s')

  -- From the last task to the first.
  unfoldable pub stop_each : List (BackgroundTask S) → S → S
  stop_each [] s = s
  stop_each (t ∷ ts) s = t.stop (stop_each ts s)

  -- `cancel` ends the context of the tasks.
  unfoldable pub stop_tasks : (S → S) → Manager S → S → Manager S × S
  unfolding stop_each
  stop_tasks cancel m s =
      (record m { started = false }, stop_each m.tasks (if m.started then cancel s else s))
