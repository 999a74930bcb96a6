-- ===== src/Database/Table.antt =====
-- What the DAO relies on of gorm and of the table, whose column `job_uuid` is unique: a call changes
-- the row that it names and no other, and a failed update has been made or not.
use go_video_transcode_servi.Common.{
  Text, List, [], ◌∷◌, ◌≡◌, ◌≢◌, ◌⊎◌, Option, none, some, Error, ok, err,
}
use go_video_transcode_servi.Store.Row.{TranscodeJob}
use go_video_transcode_servi.Database.{
  Column, status_column, message_column, output_path_column, progress_column, JobTable,
}

abbrev pub write_column : Column → TranscodeJob → TranscodeJob
write_column (status_column v) job = record job { status = v }
write_column (message_column v) job = record job { message = v }
write_column (output_path_column v) job = record job { output_path = v }
write_column (progress_column v) job = record job { progress = v }

-- The columns in turn.
abbrev pub write_columns : List Column → TranscodeJob → TranscodeJob
write_columns [] job = job
write_columns (c ∷ cs) job = write_columns cs (write_column c job)

-- `row s id` is the row of job `id` in the state `s`; the time of its update is left aside.
pub record TableLaws {S : Type 0} (table : JobTable S) (row : S → Text → Option TranscodeJob)
    : Type 0 where
  pub first_keeps : (id : Text) (s : S) (k : Text) → row (table.first id s).1 k ≡ row s k
  pub first_reads :
      (id : Text) (s : S) (job : TranscodeJob) → (table.first id s).0 ≡ ok job → row s id ≡ some job
  pub first_missing :
      (id : Text) (s : S) → row s id ≡ none → (e : Error) × ((table.first id s).0 ≡ err e)
  pub columns_others :
      (id : Text) (cs : List Column) (s : S) (k : Text)
      → k ≢ id
      → row (table.update_columns id cs s).1 k ≡ row s k
  pub columns_self :
      (id : Text) (cs : List Column) (s : S)
      → (row (table.update_columns id cs s).1 id ≡ row s id)
        ⊎ ((job : TranscodeJob) × (row s id ≡ some job)
            × (row (table.update_columns id cs s).1 id ≡ some (write_columns cs job)))
