-- ===== src/App.antt =====
-- The application service (ddd/application/app/transcode_app.go) over a repository, a task queue, a
-- clock and a source of identifiers, which act on a state `S`.
pub mod Update
pub mod Create
pub mod Paging
pub mod Lookup
use go_video_transcode_servi.Common.{
  ℕ, suc, ◌+◌, ◌-◌, ◌*◌, ◌%◌, ◌<◌, ◌≤◌, ℤ, pos, negsuc, leb_ℤ, ltb_ℤ, to_int64, pos_part, Text,
  codes, text_eq, Bool, true, false, ◌||◌, ◌&&◌, not, ltb, leb, List, [], ◌∷◌, ◌++◌, Option, none,
  some, Error, plain, wrap, error_text, Result, ok, err, Op, ◌>>=◌, ◌>>◌, pure, is_empty,
  if◌then◌else◌, length, take, drop, map,
}
use go_video_transcode_servi.Runtime.{Runtime}
use go_video_transcode_servi.Status.{
  TaskStatus, pending, processing, completed, failed, cancelled, value, new_task_status_from_string,
  can_transition_to,
}
use go_video_transcode_servi.Params.{TranscodeParams, new_transcode_params}
use go_video_transcode_servi.Task.{Task, default_task, set_status, set_error_message}
use go_video_transcode_servi.Errno.{
  Errno, AppError, errno, biz, other, invalid_param, database, task_not_found, invalid_task_status,
  queue_is_full, task_uuid_required,
}
use go_video_transcode_servi.Request.{CreateTranscodeTaskReq, validate}
use go_video_transcode_servi.Store.{Repository}
use go_video_transcode_servi.Dto.{TranscodeTaskDto, new_task_dto}

-- What the service is given: its fields, and the library calls with an effect.
pub record Services (S : Type 0) : Type 0 where
  pub repo : Repository S
  pub open repo use *
  pub enqueue_task : Task → Op S (Option Error)  -- taskQueue.Enqueue
  pub now : Op S ℕ  -- time.Now
  pub new_uuid : Op S Text  -- uuid.New().String()

-- The first task for the video in a list, nil entries passed over.
unfoldable pub find_video : Text → List (Option Task) → Option Task
find_video video [] = none
find_video video (none ∷ rest) = find_video video rest
find_video video (some t ∷ rest) =
    let later = find_video video rest in if text_eq t.video_uuid video then some t else later

-- The tasks that a user may see; an empty user stands for all.
unfoldable pub visible : Text → List (Option Task) → List Task
visible user [] = []
visible user (none ∷ rest) = visible user rest
visible user (some t ∷ rest) =
    let others = visible user rest in
    if not (is_empty user) && not (text_eq t.user_uuid user) then others else t ∷ others

-- `all[start:end]` with the guards before it; `none` is the fault of a negative index.
page_from : {A : Type 0} → ℤ → ℕ → List A → Option (List A)
page_from (negsuc n) size all = none
page_from (pos start) size all =
    if ltb (length all) start
    then some []
    else (let end = if ltb (length all) (start + size) then length all else start + size in
        some (take (end - start) (drop start all)))

-- The defaults of `page` and `size`.
abbrev pub page_or_default : ℤ → ℕ
page_or_default page = if leb_ℤ page (pos 0) then 1 else pos_part page

abbrev pub size_or_default : ℤ → ℕ
size_or_default size = if leb_ℤ size (pos 0) || ltb_ℤ (pos 100) size then 10 else pos_part size

unfoldable pub page_of : {A : Type 0} → ℕ → ℕ → List A → Option (List A)
unfolding page_from
page_of page size all = page_from (to_int64 ((page - 1) * size)) size all

-- A task, or the error that stands for its absence.
looked_up : Result Error (Option Task) → Result AppError Task
looked_up (err e) = err (biz database e)
looked_up (ok none) = err (errno task_not_found)
looked_up (ok (some t)) = ok t

-- The answer of one query: a task for the video, or else what the later queries find. An error is
-- passed over.
unfoldable pub answered :
    {S : Type 0} → Text → Result Error (List (Option Task)) → S → Option Task × S → Option Task × S
answered video (err e) s later = later
answered video (ok list) s later = elim (find_video video list) [
  | some t ↦ (some t, s)
  | none ↦ later
]

module _ {S : Type 0} (rt : Runtime) (env : Services S) where
  unfoldable pub find_active : Text → List TaskStatus → Op S (Option Task)
  unfolding answered
  find_active video [] s = (none, s)
  find_active video (st ∷ rest) s =
      let (jobs, s') = env.query_by_status st (pos 100) s in
      answered video jobs s' (find_active video rest s')

  unfoldable pub find_active_by_video : Text → Op S (Option Task)
  unfolding find_active
  find_active_by_video video s =
      if is_empty video then (none, s) else find_active video (pending ∷ processing ∷ []) s

  -- The task could not be queued: its row is marked as failed.
  fail_created : Task → Error → Op S (Result AppError TranscodeTaskDto)
  fail_created task e = do
    let reason = error_text (wrap (codes "enqueue task failed") e)
    failed_at ← env.now
    noted_at ← env.now
    let gone = set_error_message reason noted_at (set_status failed failed_at task)
    _ ← env.update_status gone.task_uuid failed reason gone.output_path gone.progress
    pure (err (errno queue_is_full))

  -- The end of `CreateTranscodeTask`: the task's row is stored, and it goes to the queue.
  unfoldable pub enqueue_created : Task → Op S (Result AppError TranscodeTaskDto)
  unfolding fail_created
  enqueue_created task = do
    queued ← env.enqueue_task task
    elim queued [ none ↦ pure (ok (new_task_dto task)) | some e ↦ fail_created task e ]

  -- Behind `CreateTranscodeJob`, whose error is the argument.
  unfoldable pub with_row : Task → Option Error → Op S (Result AppError TranscodeTaskDto)
  unfolding enqueue_created
  with_row task (some e) = pure (err (biz database e))
  with_row task none = enqueue_created task

  unfoldable pub store_created : Task → Op S (Result AppError TranscodeTaskDto)
  unfolding with_row
  store_created task = do stored ← env.create_job task; with_row task stored

  unfoldable pub create_new :
      CreateTranscodeTaskReq → TranscodeParams → Op S (Result AppError TranscodeTaskDto)
  unfolding store_created
  create_new req params = do
    uuid ← env.new_uuid
    now ← env.now
    store_created (
        default_task req.user_uuid req.video_uuid req.video_push_uuid req.original_path params uuid
          now)

  unfoldable pub with_params :
      CreateTranscodeTaskReq
      → Result Error TranscodeParams
      → Op S (Result AppError TranscodeTaskDto)
  unfolding create_new
  with_params req (err e) = pure (err (biz invalid_param e))
  with_params req (ok params) = create_new req params

  unfoldable pub create_or_existing :
      CreateTranscodeTaskReq → Option Task → Op S (Result AppError TranscodeTaskDto)
  unfolding with_params
  create_or_existing req (some existing) = pure (ok (new_task_dto existing))
  create_or_existing req none = with_params req (new_transcode_params rt req.resolution req.bitrate)

  -- Behind the check of the request, whose error is the second argument.
  unfoldable pub create_checked :
      CreateTranscodeTaskReq → Option Errno → Op S (Result AppError TranscodeTaskDto)
  unfolding find_active_by_video create_or_existing
  create_checked req (some e) = pure (err (errno e))
  create_checked req none = find_active_by_video req.video_uuid >>= create_or_existing req

  unfoldable pub create_transcode_task :
      CreateTranscodeTaskReq → Op S (Result AppError TranscodeTaskDto)
  unfolding create_checked
  create_transcode_task request =
      let (req, invalid) = validate request in create_checked req invalid

  pub get_transcode_task : Text → Op S (Result AppError TranscodeTaskDto)
  unfolding looked_up
  get_transcode_task task_uuid =
      if is_empty task_uuid then pure (err (errno task_uuid_required)) else (do
        found ← env.get_job task_uuid
        elim (looked_up found) [ err e ↦ pure (err e) | ok t ↦ pure (ok (new_task_dto t)) ])

  write_status : Text → TaskStatus → Text → Task → Op S (Option AppError)
  write_status task_uuid target message task =
      if can_transition_to task.status target
      then (do
        e ← env.update_status task_uuid target message task.output_path task.progress
        elim e [ none ↦ pure none | some x ↦ pure (some (other x)) ])
      else pure (some (errno invalid_task_status))

  write_found : Text → TaskStatus → Text → Result AppError Task → Op S (Option AppError)
  unfolding write_status
  write_found task_uuid target message (err e) = pure (some e)
  write_found task_uuid target message (ok t) = write_status task_uuid target message t

  pub update_transcode_task_status : Text → Text → Text → Op S (Option AppError)
  unfolding looked_up write_found
  update_transcode_task_status task_uuid status message =
      if is_empty task_uuid
      then pure (some (errno task_uuid_required))
      else (let (target, known) = new_task_status_from_string status in
          if known
          then (do
            found ← env.get_job task_uuid
            write_found task_uuid target message (looked_up found))
          else pure (some (errno invalid_task_status)))

  cancel_transcode_task : Text → Op S (Option AppError)
  cancel_transcode_task task_uuid =
      update_transcode_task_status task_uuid (value cancelled) (codes "cancelled by user")

  pub get_transcode_progress : Text → Op S (Result AppError ℤ)
  unfolding looked_up
  get_transcode_progress task_uuid = do
    found ← env.get_job task_uuid
    elim (looked_up found) [ err e ↦ pure (err e) | ok t ↦ pure (ok t.progress) ]

  -- The loop over the states, errors of a query passed over.
  pub collect : Text → ℤ → List TaskStatus → Op S (List Task)
  collect user limit [] s = ([], s)
  collect user limit (st ∷ rest) s =
      let (jobs, s') = env.query_by_status st limit s in
      let (later, s'') = collect user limit rest s' in
      (elim jobs [ err e ↦ later | ok list ↦ visible user list ++ later ], s'')

  -- The page and the total; `none` is a fault.
  pub list_transcode_tasks : Text → ℤ → ℤ → Op S (Option (List TranscodeTaskDto × ℕ))
  unfolding collect
  list_transcode_tasks user page size = do
    let p = page_or_default page
    let n = size_or_default size
    all ←
        collect user (to_int64 (n * p)) (processing ∷ pending ∷ completed ∷ failed ∷ cancelled ∷ [])
    elim (page_of p n all) [
      | none ↦ pure none
      | some slice ↦ pure (some (map new_task_dto slice, length all))
    ]
