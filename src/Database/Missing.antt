-- ===== src/Database/Missing.antt =====
-- What the application answers for a task that is not stored.
use go_video_transcode_servi.Common.{Text, [], ◌≡◌, ◌≢◌, ap, Option, none, some, Error, err, on_ok}
use go_video_transcode_servi.Runtime.{Runtime}
use go_video_transcode_servi.Errno.{biz, database}
use go_video_transcode_servi.Store.Row.{TranscodeJob, to_entity}
use go_video_transcode_servi.App.{Services, get_transcode_task, get_transcode_progress}
use go_video_transcode_servi.App.Lookup.{get_transcode_task_failed, get_transcode_progress_failed}
use go_video_transcode_servi.Database.{JobTable, dao_find_by_job_uuid, new_transcode_repository}
use go_video_transcode_servi.Database.Table.{TableLaws}

-- The services over the repository of a table.
abbrev pub over_table : {S : Type 0} → Runtime → JobTable S → Services S → Services S
over_table rt table env = record env { repo = new_transcode_repository table rt }

module _ {S : Type 0} (rt : Runtime) (table : JobTable S) (row : S → Text → Option TranscodeJob)
    (laws : TableLaws table row) (env : Services S) where
  get_job-missing :
      (id : Text) (s : S)
      → row s id ≡ none
      → (e : Error) × (((new_transcode_repository table rt).get_job id s).0 ≡ err e)
  unfolding new_transcode_repository dao_find_by_job_uuid
  get_job-missing id s h =
      let (e, failed) = laws.first_missing id s h in
      (e, ap (λ r. on_ok (to_entity rt) (on_ok (λ job. some job) r)) failed)

  -- For a task that is not stored both queries answer with a database error, since the DAO reports
  -- the missing row as one; the code of a task that is not found is never given.
  pub get_transcode_task-missing :
      (id : Text) (s : S)
      → id ≢ []
      → row s id ≡ none
      → (e : Error) × ((get_transcode_task rt (over_table rt table env) id s).0
          ≡ err (biz database e))
        × ((get_transcode_progress rt (over_table rt table env) id s).0 ≡ err (biz database e))
  get_transcode_task-missing id s named h =
      let (e, failed) = get_job-missing id s h in
      (
        e,
        get_transcode_task_failed rt (over_table rt table env) id s e named failed,
        get_transcode_progress_failed rt (over_table rt table env) id s e failed,
      )
