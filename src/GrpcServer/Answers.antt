-- ===== src/GrpcServer/Answers.antt =====
-- What the answers of the server say of the tasks.
use go_video_transcode_servi.Common.{
  ℤ, Text, codes, true, false, Bool-cases, ◌≡◌, ◌≢◌, ◌⊎◌, inl, inr, refl, ap, List, [], ◌∷◌, ◌++◌,
  Option, none, some, Error, Result, is_empty,
}
use go_video_transcode_servi.Runtime.{Runtime}
use go_video_transcode_servi.Errno.{AppError, biz, database}
use go_video_transcode_servi.Task.{Task}
use go_video_transcode_servi.Dto.{TranscodeTaskDto, new_task_dto}
use go_video_transcode_servi.Store.Row.{TranscodeJob}
use go_video_transcode_servi.App.{Services}
use go_video_transcode_servi.App.Create.{
  QueueLaws, Outcome, Active, HandedOut, created, existing, refused, create_transcode_task-Outcome,
}
use go_video_transcode_servi.Database.{JobTable}
use go_video_transcode_servi.Database.Table.{TableLaws}
use go_video_transcode_servi.Database.Missing.{over_table, get_transcode_task-missing}
use go_video_transcode_servi.GrpcServer.{
  CreateRequest, CreateResponse, app_request, create_answer, get_answer, refuse_get, serve_create,
  serve_get,
}

-- An answer to a request to create a task, with the queue before and after it.
pub Served : (Task → Type 0) → Text → List Task → List Task → CreateResponse → Type 0
Served stored video before after r =
    ((r.success ≡ false) × (after ≡ before) × (r.task_uuid ≡ []))
    ⊎ ((t : Task) × (r.success ≡ true)
        × (t.video_uuid ≡ video)
        × (r.task_uuid ≡ t.task_uuid)
        × HandedOut stored before after t)

Outcome-Served :
    (stored : Task → Type 0) (video : Text) (before after : List Task)
    (answer : Result AppError TranscodeTaskDto)
    → Outcome stored video before after answer
    → Served stored video before after (create_answer answer)
unfolding Served create_answer new_task_dto
Outcome-Served stored video before after answer (created t e p v q) =
    rw e (inr (t, refl, v, refl, inl q))
Outcome-Served stored video before after answer (existing t e v k q) =
    rw e (inr (t, refl, v, refl, inr (q, k)))
Outcome-Served stored video before after answer (refused x e q) = rw e (inl (refl, q, refl))

module _ {S : Type 0} (rt : Runtime) (env : Services S) (queue : S → List Task)
    (laws : QueueLaws env queue) where
  -- A request to create a task is answered with success only where there is a task for its video: the
  -- answer names it, and it is the one item added to the end of the queue, or one that the
  -- repository lists as pending or processing for the video, with the queue as it was. Otherwise the
  -- answer names none, and the queue is as it was.
  pub serve_create-Served :
      (req : CreateRequest) (s : S)
      → Served
          (Active env s)
          req.video_uuid
          (queue s)
          (queue (serve_create rt (some env) req s).1)
          (serve_create rt (some env) req s).0
  unfolding serve_create Served
  serve_create-Served req s = elim (Bool-cases (is_empty req.user_uuid)) [
    | inl e ↦ rw e (inl (refl, refl, refl))
    | inr user ↦ elim (Bool-cases (is_empty req.video_uuid)) [
      | inl e ↦ rw (user, e) (inl (refl, refl, refl))
      | inr video ↦ elim (Bool-cases (is_empty req.input_path)) [
        | inl e ↦ rw (user, video, e) (inl (refl, refl, refl))
        | inr path ↦
            rw (user, video, path)
              (Outcome-Served (Active env s) _ _ _ _
                (create_transcode_task-Outcome rt env queue laws (app_request req) s))
      ]
    ]
  ]

module _ {S : Type 0} (rt : Runtime) (table : JobTable S) (row : S → Text → Option TranscodeJob)
    (laws : TableLaws table row) (env : Services S) where
  -- Over a table, a task that is not stored is answered as a failure of the database, never as a task
  -- that is not found.
  pub serve_get-missing :
      (text_of : AppError → Text) (to_int32 : ℤ → ℤ) (id : Text) (s : S)
      → id ≢ []
      → row s id ≡ none
      → (e : Error) × ((serve_get rt text_of to_int32 (some (over_table rt table env)) id s).0
          ≡ refuse_get (codes "failed to get transcode task: " ++ text_of (biz database e)))
  unfolding serve_get get_answer
  serve_get-missing text_of to_int32 [] s named h = absurd (named refl)
  serve_get-missing text_of to_int32 (c ∷ id) s named h =
      let (e, failed, asked) =
        get_transcode_task-missing rt table row laws env (c ∷ id) s named h in
      (e, ap (get_answer text_of to_int32 (c ∷ id)) failed)
