-- ===== src/Store/Laws.antt =====
-- What the service relies on of the database behind a repository: which jobs are stored with which
-- status, and that the calls change no more than they say. A write that reports an error may have
-- been made or not.
use go_video_transcode_servi.Common.{Text, ℤ, ◌≡◌, ◌≢◌, ◌⊎◌, Option, none, some, ok}
use go_video_transcode_servi.Status.{TaskStatus, unset}
use go_video_transcode_servi.Task.{Task}
use go_video_transcode_servi.Store.{Repository}

-- `status_in s id` is the status of the row of job `id`, if there is one.
pub record StatusLaws {S : Type 0} (repo : Repository S) (status_in : S → Text → Option TaskStatus)
    : Type 0 where
  pub get_keeps : (id : Text) (s : S) (k : Text) → status_in (repo.get_job id s).1 k ≡ status_in s k
  pub get_reads :
      (id : Text) (s : S) (t : Task)
      → (repo.get_job id s).0 ≡ ok (some t)
      → status_in s id ≡ some t.status
  pub update_others :
      (id : Text) (st : TaskStatus) (message path : Text) (progress : ℤ) (s : S) (k : Text)
      → k ≢ id
      → status_in (repo.update_status id st message path progress s).1 k ≡ status_in s k
  pub update_self :
      (id : Text) (st : TaskStatus) (message path : Text) (progress : ℤ) (s : S)
      → st ≢ unset
      → (status_in (repo.update_status id st message path progress s).1 id ≡ status_in s id)
        ⊎ ((status_in s id ≢ none)
            × (status_in (repo.update_status id st message path progress s).1 id ≡ some st))
