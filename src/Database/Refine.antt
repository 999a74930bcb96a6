-- ===== src/Database/Refine.antt =====
-- The repository over a table keeps the laws that the application relies on.
use go_video_transcode_servi.Common.{
  Text, ◌≡◌, inl, inr, refl, ap, ◌∙◌, arith, Option, none, some, Error, Result, ok, err, on_ok,
}
use go_video_transcode_servi.Runtime.{Runtime}
use go_video_transcode_servi.Status.{TaskStatus, new_task_status_from_string}
use go_video_transcode_servi.Status.Machine.{new_task_status_from_string-value}
use go_video_transcode_servi.Task.{Task}
use go_video_transcode_servi.Store.Laws.{StatusLaws}
use go_video_transcode_servi.Store.Row
use go_video_transcode_servi.Store.Row.{TranscodeJob, to_entity}
use go_video_transcode_servi.Database.{
  JobTable, new_transcode_repository, dao_find_by_job_uuid, dao_update_status,
}
use go_video_transcode_servi.Database.Table.{TableLaws}

-- The status that a row is read with.
abbrev pub row_status : Option TranscodeJob → Option TaskStatus
row_status none = none
row_status (some job) = some (Row.status_of (new_task_status_from_string job.status))

module _ {S : Type 0} (rt : Runtime) (table : JobTable S) (row : S → Text → Option TranscodeJob)
    (laws : TableLaws table row) where
  abbrev status_in : S → Text → Option TaskStatus
  status_in s id = row_status (row s id)

  -- What an entity that is read says of its row.
  read_back :
      (found : Result Error TranscodeJob) (t : Task)
      → on_ok (to_entity rt) (on_ok (λ job. some job) found) ≡ ok (some t)
      → (job : TranscodeJob) × (found ≡ ok job)
        × (Row.status_of (new_task_status_from_string job.status) ≡ t.status)
  unfolding to_entity
  read_back (ok job) t h = (job, refl, ground arith)
  read_back (err e) t h = absurd (ground arith)

  -- Over a table that keeps its laws, the repository keeps those that the application relies on: a
  -- look-up changes nothing and reads the stored status, and an update of a status changes that of
  -- its job alone, if there is one, to the status given.
  pub new_transcode_repository-StatusLaws : StatusLaws (new_transcode_repository table rt) status_in
  unfolding new_transcode_repository dao_find_by_job_uuid dao_update_status
  new_transcode_repository-StatusLaws = record {
    get_keeps = λ id s k. ap row_status (laws.first_keeps id s k);
    get_reads = λ id s t h.
        let (job, found, read) = read_back (table.first id s).0 t h in
        ap row_status (laws.first_reads id s job found) ∙ ap some read;
    update_others = λ id st m path p s k h. ap row_status (laws.columns_others id _ s k h);
    update_self = λ id st m path p s known. elim (laws.columns_self id _ s) [
      | inl kept ↦ inl (ap row_status kept)
      | inr (job, stored, written) ↦ inr (
        λ none_there. cc (none_there, stored),
        ap row_status written
            ∙ ap (λ read. some (Row.status_of read)) (new_task_status_from_string-value st known),
      )
    ];
  }
