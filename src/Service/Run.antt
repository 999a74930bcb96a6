-- ===== src/Service/Run.antt =====
-- How the run of a task ends (ddd/domain/service/transcode_service.go).
use go_video_transcode_servi.Common.{
  pos, ◌≤ℤ◌, Text, codes, ◌++◌, Bool, if◌then◌else◌, [], ◌≡◌, ◌≢◌, Option, none, some, Error, wrap,
  error_text, Result, ok, err, Op, pure, ◌>>=◌,
}
use go_video_transcode_servi.Runtime.{Runtime}
use go_video_transcode_servi.Status.{pending, processing, completed, failed}
use go_video_transcode_servi.Task.{Task, transition_to, set_progress, set_error_message}
use go_video_transcode_servi.Service.{Environment, LastPersist, touched, update_job_status}

-- The fields that say which job a task is are those of `before`.
abbrev SameJob : Task → Task → Type 0
SameJob before t =
    record t {
      status = before.status;
      progress = before.progress;
      error_message = before.error_message;
      output_path = before.output_path;
      updated_at = before.updated_at;
    }
    ≡ before

-- A task that is being run has at most 99 percent.
abbrev Running : Task → Task → Type 0
Running before t =
    SameJob before t × (t.status ≡ processing) × (pos 0 ≤ℤ t.progress) × (t.progress ≤ℤ pos 99)

-- A finished task: the output path is the executor's key, or empty if the upload is skipped.
abbrev Final : Bool → Task → Text → Task → Type 0
Final skips before key t =
    SameJob before t
    × (t.status ≡ completed)
    × (t.progress ≡ pos 100)
    × (t.error_message ≡ [])
    × (t.output_path ≡ (if skips then [] else key))

-- The ways in which the run of the task `before` can end, by the task and the error at the end:
-- `mark` is what the database answers to the status `processing`, `ran` the executor's result, and
-- `Saved final` what it answers to the write of the finished task.
pub data Ended (skips : Bool) (mark : Option Error) (ran : Result Error Text)
    (Saved : Task → Option Error → Type 0) (before ended : Task) (answer : Option Error)
    : Type 0 where
  -- a task that may not be run, unchanged
  refused :
      before.status ≢ pending
      → ended ≡ before
      → answer ≢ none
      → Ended skips mark ran Saved before ended answer
  -- the database did not take the status `processing`
  unmarked :
      (e : Error)
      → mark ≡ some e
      → Running before ended
      → answer ≡ some (wrap (codes "更新任务状态失败") e)
      → Ended skips mark ran Saved before ended answer
  -- the executor failed: its error is the task's message
  broken :
      (e : Error)
      → (mark ≡ none) × (ran ≡ err e)
      → SameJob before ended
      → ended.status ≡ failed
      → ended.progress ≤ℤ pos 99
      → ended.error_message ≡ error_text e
      → answer ≡ some (wrap (codes "转码执行失败") e)
      → Ended skips mark ran Saved before ended answer
  -- the executor succeeded, but the database did not take the finished task, which stays completed
  -- in memory
  unsaved :
      (key : Text) (final : Task) (e : Error)
      → (mark ≡ none) × (ran ≡ ok key) × Saved final (some e)
      → Final skips before key final
      → SameJob before ended
      → ended.status ≡ completed
      → ended.progress ≡ pos 100
      → ended.error_message ≡ codes "更新任务完成状态失败: " ++ error_text e
      → answer ≡ some (wrap (codes "更新任务完成状态失败") e)
      → Ended skips mark ran Saved before ended answer
  -- finished, and written
  finished :
      (key : Text)
      → (mark ≡ none) × (ran ≡ ok key) × Saved ended none
      → Final skips before key ended
      → answer ≡ none
      → Ended skips mark ran Saved before ended answer

module _ {S : Type 0} (rt : Runtime) (env : Environment S) where
  -- What the database has answered to the write of a finished task.
  abbrev pub Saves : Task → Option Error → Type 0
  Saves final answer = (s : S) × ((env.update_job final s).0 ≡ answer)

  -- The executor's result for a task in a state.
  abbrev pub result_of : Task → LastPersist × S → Result Error Text
  result_of t s = (env.execute t env.skip_full_upload s.1).0.1

  -- A task on its way to the executor: the resets and the write of the status `processing`.
  abbrev reset : Task → Op (LastPersist × S) (Task × Option Error)
  reset t = do
    full ← touched rt env λ now. set_progress (pos 0) now t
    clear ← touched rt env λ now. set_error_message [] now full
    stored ← update_job_status rt env processing [] clear
    pure (clear, stored)

  -- The same from the beginning, with the first transition.
  abbrev pub prepared : Task → Op (LastPersist × S) (Task × Option Error)
  prepared task = do moved ← touched rt env λ now. transition_to processing now task; reset moved.0
