-- ===== src/Store.antt =====
-- The stored transcode jobs: the repository interface of ddd/domain/repo/transcode_repo.go, and its
-- implementation by ddd/infrastructure/database (convertor, dao, persistence).
pub mod Row
pub mod Laws
use go_video_transcode_servi.Common.{Text, ℤ, Error, Result, Op, Option, List}
use go_video_transcode_servi.Status.{TaskStatus}
use go_video_transcode_servi.Task.{Task}

-- `TranscodeJobRepository`. A nil pointer is `none`, in a list too.
pub record Repository (S : Type 0) : Type 0 where
  pub create_job : Task → Op S (Option Error)
  pub update_progress : Text → ℤ → Op S (Option Error)
  pub update_job : Task → Op S (Option Error)
  pub get_job : Text → Op S (Result Error (Option Task))
  pub update_status : Text → TaskStatus → Text → Text → ℤ → Op S (Option Error)
  pub query_by_status : TaskStatus → ℤ → Op S (Result Error (List (Option Task)))
