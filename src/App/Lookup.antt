-- ===== src/App/Lookup.antt =====
-- The two queries of one task, `GetTranscodeTask` and `GetTranscodeProgress`, where the database
-- fails.
use go_video_transcode_servi.Common.{Text, [], ◌∷◌, ◌≡◌, ◌≢◌, refl, arith, Error, err}
use go_video_transcode_servi.Runtime.{Runtime}
use go_video_transcode_servi.Errno.{biz, database}
use go_video_transcode_servi.App.{Services, looked_up, get_transcode_task, get_transcode_progress}

module _ {S : Type 0} (rt : Runtime) (env : Services S) where
  pub get_transcode_task_failed :
      (id : Text) (s : S) (e : Error)
      → id ≢ []
      → (env.get_job id s).0 ≡ err e
      → (get_transcode_task rt env id s).0 ≡ err (biz database e)
  unfolding get_transcode_task looked_up
  get_transcode_task_failed [] s e named h = absurd (named refl)
  get_transcode_task_failed (c ∷ id) s e named h = ground arith

  pub get_transcode_progress_failed :
      (id : Text) (s : S) (e : Error)
      → (env.get_job id s).0 ≡ err e
      → (get_transcode_progress rt env id s).0 ≡ err (biz database e)
  unfolding get_transcode_progress looked_up
  get_transcode_progress_failed id s e h = ground arith
