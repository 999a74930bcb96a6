-- ===== src/Worker/Recovery.antt =====
-- `recoverStuckTasks` (transcode_worker.go): tasks that are stored as processing and have not been
-- touched for an hour go back to the queue. Times are in nanoseconds.
pub mod Queued
use go_video_transcode_servi.Common.{
  ℕ, ◌+◌, ◌*◌, ltb, pos, Bool, true, false, List, [], ◌∷◌, Option, none, some, Error, Result, ok,
  err, Op, ◌>>=◌, ◌>>◌, pure, if◌then◌else◌,
}
use go_video_transcode_servi.Status.{pending, processing}
use go_video_transcode_servi.Task.{Task}
use go_video_transcode_servi.App.{Services}

-- An hour.
abbrev stuck_after : ℕ
stuck_after = 3600 * 1_000_000_000

-- UpdatedAt is after the threshold.
abbrev pub is_recent : ℕ → Task → Bool
is_recent now t = ltb now (t.updated_at + stuck_after)

module _ {S : Type 0} (env : Services S) where
  -- The row of a stuck task is set back first; where that fails, the task is passed over.
  unfoldable pub requeued : Task → Option Error → S → S
  requeued t (some e) s = s
  requeued t none s = (env.enqueue_task t s).1

  unfoldable pub recover_task : Task → S → S
  unfolding requeued
  recover_task t s =
      let (failed, s') = env.update_status t.task_uuid pending [] t.output_path (pos 0) s in
      requeued t failed s'

  -- The loop over the tasks; `none` is the fault of a nil task.
  unfoldable pub recover_each : ℕ → List (Option Task) → S → Option S
  unfolding recover_task
  recover_each now [] s = some s
  recover_each now (none ∷ ts) s = none
  recover_each now (some t ∷ ts) s =
      recover_each now ts (if is_recent now t then s else recover_task t s)

  unfoldable pub recover_found : Result Error (List (Option Task)) → S → Option S
  unfolding recover_each
  recover_found (err e) s = some s
  recover_found (ok ts) s = let (now, s') = env.now s in recover_each now ts s'

  unfoldable pub recover_stuck_tasks : S → Option S
  unfolding recover_found
  recover_stuck_tasks s =
      let (found, s') = env.query_by_status processing (pos 100) s in recover_found found s'
