-- ===== src/TaskTable.antt =====
-- The DAO of the table `transcode_tasks` (ddd/infrastructure/database/dao/transcode_task_dao.go,
-- po/transcode_task.go). What gorm does with the table is a parameter. A time is the text that the
-- driver is sent, empty for NULL; log lines are left out.
pub mod Frames
use go_video_transcode_servi.Common.{
  ℕ, ℤ, pos, ltb_ℤ, pos_part, Text, codes, Bool, true, List, [], ◌∷◌, ◌++◌, Option, none, some,
  Error, Result, ok, err, on_ok, Op, ◌>>=◌, ◌>>◌, pure, is_empty, if◌then◌else◌,
}

-- A nullable text is an option.
pub record TranscodeTaskRow : Type 0 where
  pub task_uuid : Text
  pub user_uuid : Text
  pub video_uuid : Text
  pub input_path : Text
  pub output_path : Text
  pub resolution : Text
  pub bitrate : Text
  pub status : Text
  pub progress : ℤ
  pub message : Text
  pub hls_enabled : Bool
  pub hls_status : Option Text
  pub hls_progress : ℤ
  pub hls_output_path : Option Text
  pub hls_segment_duration : ℤ
  pub hls_list_size : ℤ
  pub hls_format : Text
  pub hls_error_message : Option Text
  pub hls_started_at : Text
  pub hls_completed_at : Text

-- A column with the value that an update gives it.
pub data TaskColumn : Type 0 where
  status_column message_column output_path_column : Text → TaskColumn
  progress_column hls_progress_column : ℤ → TaskColumn
  hls_status_column hls_output_path_column hls_error_column hls_completed_at_column :
      Text → TaskColumn

-- What a query asks for: a status, or HLS and its status. The rows come with the oldest update first.
pub data Condition : Type 0 where
  status_is : Text → Condition
  hls_status_is : Bool → Text → Condition

-- gorm's calls on the table, each with its `Error`.
pub record TaskTable (S : Type 0) : Type 0 where
  pub insert : TranscodeTaskRow → Op S (Option Error)  -- Create(task)
  pub update_columns : Text → List TaskColumn → Op S (Option Error)  -- Where("task_uuid = ?").Update(s)
  pub update_nonzero : Text → TranscodeTaskRow → Op S (Option Error)  -- Where("task_uuid = ?").Updates(task)
  pub first : Text → Op S (Result Error TranscodeTaskRow)  -- Where("task_uuid = ?").First
  pub find : Condition → Option ℕ → Op S (Result Error (List TranscodeTaskRow))  -- Where().Order().Limit().Find

module _ {S : Type 0} (table : TaskTable S) where
  task_dao_create : TranscodeTaskRow → Op S (Option Error)
  task_dao_create task = table.insert task

  update_transcode_task_progress : Text → ℤ → Op S (Option Error)
  update_transcode_task_progress task_uuid progress =
      table.update_columns task_uuid (progress_column progress ∷ [])

  update_transcode_task : TranscodeTaskRow → Op S (Option Error)
  update_transcode_task task = table.update_nonzero task.task_uuid task

  find_by_task_uuid : Text → Op S (Result Error TranscodeTaskRow)
  find_by_task_uuid task_uuid = table.first task_uuid

  -- An empty output path is not written.
  pub update_transcode_task_status : Text → Text → Text → Text → ℤ → Op S (Option Error)
  update_transcode_task_status task_uuid status message output_path progress =
      table.update_columns task_uuid (
        status_column status
        ∷ message_column message
        ∷ progress_column progress
        ∷ (if is_empty output_path then [] else output_path_column output_path ∷ []))

  abbrev limit_or_none : ℤ → Option ℕ
  limit_or_none limit = if ltb_ℤ (pos 0) limit then some (pos_part limit) else none

  query_transcode_tasks_by_status : Text → ℤ → Op S (Result Error (List TranscodeTaskRow))
  query_transcode_tasks_by_status status limit = table.find (status_is status) (limit_or_none limit)

  pub update_hls_progress : Text → ℤ → Op S (Option Error)
  update_hls_progress task_uuid progress =
      table.update_columns task_uuid (hls_progress_column progress ∷ [])

  pub update_hls_status : Text → Text → Op S (Option Error)
  update_hls_status task_uuid status =
      table.update_columns task_uuid (hls_status_column status ∷ [])

  pub update_hls_output_path : Text → Text → Op S (Option Error)
  update_hls_output_path task_uuid output_path =
      table.update_columns task_uuid (hls_output_path_column output_path ∷ [])

  pub update_hls_error : Text → Text → Op S (Option Error)
  update_hls_error task_uuid error_message =
      table.update_columns task_uuid (hls_error_column error_message ∷ [])

  -- The time is the text NOW(), not the function of SQL.
  pub update_hls_completed : Text → Op S (Option Error)
  update_hls_completed task_uuid = table.update_columns task_uuid (
      hls_status_column (codes "completed")
      ∷ hls_progress_column (pos 100)
      ∷ hls_completed_at_column (codes "NOW()")
      ∷ [])

  pub update_hls_failed : Text → Text → Op S (Option Error)
  update_hls_failed task_uuid error_message = table.update_columns task_uuid (
      hls_status_column (codes "failed")
      ∷ hls_error_column error_message
      ∷ hls_completed_at_column (codes "NOW()")
      ∷ [])

  query_hls_enabled_tasks : Text → ℤ → Op S (Result Error (List TranscodeTaskRow))
  query_hls_enabled_tasks status limit =
      table.find (hls_status_is true status) (limit_or_none limit)
