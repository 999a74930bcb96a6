-- ===== src/Database.antt =====
-- The implementation of the transcode repository: the DAO over a table
-- (ddd/infrastructure/database/dao/transcode_job_dao.go) and the conversion around it
-- (persistence/transcode_repo_impl.go). What gorm does with the table is a parameter.
pub mod Table
pub mod Refine
pub mod Missing
use go_video_transcode_servi.Common.{
  ℕ, ℤ, pos, ltb_ℤ, pos_part, Text, codes, List, [], ◌∷◌, Option, none, some, Error, Result, on_ok,
  Op, ◌>>=◌, ◌>>◌, pure, if◌then◌else◌, map,
}
use go_video_transcode_servi.Runtime.{Runtime}
use go_video_transcode_servi.Status.{TaskStatus, value}
use go_video_transcode_servi.Task.{Task}
use go_video_transcode_servi.Store.{Repository}
use go_video_transcode_servi.Store.Row.{TranscodeJob, to_entity, to_po, to_entities}

-- A column with the value that an update gives it.
pub data Column : Type 0 where
  status_column message_column output_path_column : Text → Column
  progress_column : ℤ → Column

-- gorm's calls on the table `transcode_jobs`, each with its `Error`.
pub record JobTable (S : Type 0) : Type 0 where
  pub insert : TranscodeJob → Op S (Option Error)  -- Create(job)
  pub update_columns : Text → List Column → Op S (Option Error)  -- Where("job_uuid = ?").Update(s) of columns
  pub update_nonzero : Text → TranscodeJob → Op S (Option Error)  -- Where("job_uuid = ?").Updates(job)
  pub first : Text → Op S (Result Error TranscodeJob)  -- Where("job_uuid = ?").First
  pub find : Text → Option ℕ → Op S (Result Error (List TranscodeJob))  -- Where("status = ?").Limit.Find

module _ {S : Type 0} (table : JobTable S) where
  dao_create : TranscodeJob → Op S (Option Error)
  dao_create job = table.insert job

  dao_update_progress : Text → ℤ → Op S (Option Error)
  dao_update_progress job_uuid progress =
      table.update_columns job_uuid (progress_column progress ∷ [])

  dao_update_job : TranscodeJob → Op S (Option Error)
  dao_update_job job = table.update_nonzero job.job_uuid job

  -- A pointer to the row, which is not nil unless there is an error.
  pub dao_find_by_job_uuid : Text → Op S (Result Error (Option TranscodeJob))
  dao_find_by_job_uuid job_uuid = do
    found ← table.first job_uuid
    pure (on_ok (λ job. some job) found)

  pub dao_update_status : Text → Text → Text → Text → ℤ → Op S (Option Error)
  dao_update_status job_uuid status message output_path progress = table.update_columns job_uuid (
      status_column status
      ∷ message_column message
      ∷ progress_column progress
      ∷ output_path_column output_path
      ∷ [])

  -- The oldest update first; no limit if the limit is not positive.
  dao_query_by_status : Text → ℤ → Op S (Result Error (List (Option TranscodeJob)))
  dao_query_by_status status limit = do
    found ← table.find status (if ltb_ℤ (pos 0) limit then some (pos_part limit) else none)
    pure (on_ok (λ jobs. map (λ job. some job) jobs) found)

  unfoldable pub new_transcode_repository : Runtime → Repository S
  unfolding dao_create dao_update_progress dao_update_job dao_find_by_job_uuid dao_update_status
      dao_query_by_status
  new_transcode_repository rt = record {
    create_job = λ job. dao_create (to_po job);
    update_progress = λ job_uuid progress. dao_update_progress job_uuid progress;
    update_job = λ job. dao_update_job (to_po job);
    get_job =
        λ job_uuid. (do found ← dao_find_by_job_uuid job_uuid; pure (on_ok (to_entity rt) found));
    update_status = λ job_uuid status message output_path progress.
        dao_update_status job_uuid (value status) message output_path progress;
    query_by_status = λ status limit. (do
      found ← dao_query_by_status (value status) limit
      pure (on_ok (to_entities rt) found));
  }

-- The sink that stores progress (ddd/infrastructure/progress/db_sink.go); a nil repository or task is
-- passed over.
pub save_progress : {S : Type 0} → Option (Repository S) → Option Task → ℤ → Op S (Option Error)
save_progress none task progress = pure none
save_progress (some repo) none progress = pure none
save_progress (some repo) (some task) progress = repo.update_progress task.task_uuid progress
