-- ===== src/Service.antt =====
-- The run of one task (ddd/domain/service/transcode_service.go). The service's own state is the map
-- of the last times at which a task's progress was stored; beside it stands the state `S` that the
-- repository, the executor and the queue of HLS jobs act on. The mutex around the map makes each
-- access one step. An executor's run is the progress that it reports, in order, and its result; its
-- other effects on `S` come before the reports.
pub mod Variants
pub mod Run
use go_video_transcode_servi.Common.{
  ℕ, ◌+◌, ℤ, pos, negsuc, ltb_ℤ, Text, codes, text_eq, Bool, true, false, ◌||◌, leb, List, [], ◌∷◌,
  ◌++◌, Option, none, some, Error, plain, wrap, error_text, Result, ok, err, Op, ◌>>=◌, ◌>>◌, pure,
  is_empty, trim_space, if◌then◌else◌,
}
use go_video_transcode_servi.Runtime.{Runtime}
use go_video_transcode_servi.Status.{TaskStatus, processing, completed, failed}
use go_video_transcode_servi.Task.{
  Task, set_output_path, set_progress, set_error_message, transition_to,
}
use go_video_transcode_servi.Resolution.{ResolutionConfig, new_resolution_config}
use go_video_transcode_servi.Hls.{
  HlsConfig, HlsJob, new_hls_config, new_hls_job, set_source, set_request_id,
}
use go_video_transcode_servi.Store.{Repository}

-- A format to write, as the configuration gives it.
pub record OutputFormat : Type 0 where
  pub name : Text
  pub bitrate : Text

pub record Environment (S : Type 0) : Type 0 where
  pub repo : Repository S
  pub open repo use *
  pub execute : Task → Bool → Op S (List ℤ × Result Error Text)  -- executor.Execute
  pub save_progress : Option (Task → ℤ → Op S (Option Error))  -- progressSink
  pub create_hls_job : Option (HlsJob → Op S (Option Error))  -- hlsRepo
  pub enqueue_hls_job : HlsJob → Op S (Option Error)  -- DefaultHLSJobQueue().Enqueue
  pub now : Op S ℕ  -- time.Now, in nanoseconds
  pub new_uuid : Op S Text
  pub join : List Text → Text  -- filepath.Join
  pub request_id : Text  -- the context's
  pub skip_full_upload : Bool  -- cfg.Transcode.SkipFullUpload
  pub output_formats : List OutputFormat  -- cfg.Transcode.OutputFormats
  pub defaults : List (Text × Text)  -- the default variants, in the order of the map's iteration

-- lastPersist; a missing key has the zero time.
abbrev pub LastPersist : Type 0
LastPersist = Text → Option ℕ

-- Store a time, or delete the key.
abbrev pub put : Text → Option ℕ → LastPersist → LastPersist
put key entry m k = if text_eq k key then entry else m k

-- A call that leaves the map alone.
abbrev pub lift : {S A : Type 0} → Op S A → Op (LastPersist × S) A
lift op (m, s) = let (a, s') = op s in (a, (m, s'))

-- 0 to 99
abbrev pub clamp_running : ℤ → ℤ
clamp_running (negsuc n) = pos 0
clamp_running (pos n) = if ltb_ℤ (pos 99) (pos n) then pos 99 else pos n

abbrev minute : ℕ
minute = 60000000000

-- A minute has passed since the last time, or there is none.
abbrev is_due : Option ℕ → ℕ → Bool
is_due none now = true
is_due (some last) now = leb (last + minute) now

unfoldable pub is_taken : Text → List Text → Bool
is_taken key [] = false
is_taken key (k ∷ keys) = text_eq k key || is_taken key keys

-- A configured format as a variant; `none` if it is passed over.
unfoldable pub candidate : Runtime → OutputFormat → Option ResolutionConfig
candidate rt f =
    let name = trim_space f.name in
    let bitrate = trim_space f.bitrate in
    if is_empty name || is_empty bitrate
    then none
    else elim (new_resolution_config rt name bitrate) [ ok rc ↦ some rc | err e ↦ none ]

-- The variant with the keys in use behind it, unless its resolution is in use.
unfoldable pub admitted : List Text → Option ResolutionConfig → List ResolutionConfig × List Text
unfolding is_taken
admitted existed none = ([], existed)
admitted existed (some rc) =
    if is_taken rc.resolution existed then ([], existed) else (rc ∷ [], rc.resolution ∷ existed)

-- The loop over the configured formats.
unfoldable pub configured_variants :
    Runtime → List OutputFormat → List Text → List ResolutionConfig × List Text
unfolding candidate admitted
configured_variants rt [] existed = ([], existed)
configured_variants rt (f ∷ rest) existed =
    let (new, keys) = admitted existed (candidate rt f) in
    let (later, all_keys) = configured_variants rt rest keys in (new ++ later, all_keys)

-- The loop over the defaults.
unfoldable pub default_variants : Runtime → List (Text × Text) → List Text → List ResolutionConfig
unfolding is_taken
default_variants rt [] existed = []
default_variants rt ((resolution, bitrate) ∷ rest) existed =
    let later = default_variants rt rest existed in
    if is_taken resolution existed
    then later
    else elim (new_resolution_config rt resolution bitrate) [ ok rc ↦ rc ∷ later | err e ↦ later ]

unfoldable pub variants : Runtime → List OutputFormat → List (Text × Text) → List ResolutionConfig
unfolding configured_variants default_variants
variants rt formats defaults =
    let (configured, existed) = configured_variants rt formats [] in
    configured ++ default_variants rt defaults existed

module _ {S : Type 0} (rt : Runtime) (env : Environment S) where
  abbrev State : Type 0
  State = LastPersist × S

  -- A setter of the entity, which reads the clock.
  abbrev pub touched : {A : Type 0} → (ℕ → A) → Op State A
  touched change = do now ← lift env.now; pure (change now)

  pub update_job_status : TaskStatus → Text → Task → Op State (Option Error)
  update_job_status status message task =
      lift (env.update_status task.task_uuid status message task.output_path task.progress)

  -- The throttle: the time is noted if the progress is due.
  note_persist : Text → ℕ → Op State Bool
  note_persist key now (m, s) =
      let due = is_due (m key) now in (due, (if due then put key (some now) m else m, s))

  -- Errors are logged.
  store_progress : Task → ℤ → Bool → Op State Unit
  store_progress task pct false = pure tt
  store_progress task pct true = elim env.save_progress [
    | some save ↦ (do _ ← lift (save task pct); pure tt)
    | none ↦ (do _ ← lift (env.update_progress task.task_uuid pct); pure tt)
  ]

  -- `setProgress(task, float64(p), 100)`; the total is positive.
  pub set_running_progress : ℤ → Task → Op State Task
  unfolding note_persist store_progress
  set_running_progress p task = do
    let pct = clamp_running (rt.percent p)
    task' ← touched λ now. set_progress pct now task
    now ← lift env.now
    due ← note_persist task'.task_uuid now
    _ ← store_progress task' pct due
    pure task'

  -- The reports of a run in turn.
  pub report_all : List ℤ → Task → Op State Task
  unfolding set_running_progress
  report_all [] task s = (task, s)
  report_all (p ∷ ps) task s =
      let (task', s') = set_running_progress p task s in report_all ps task' s'

  clear_progress_throttle : Text → Op State Unit
  clear_progress_throttle key (m, s) = (tt, (put key none m, s))

  -- The task is marked as failed, in memory as far as its status lets it, and in the database.
  pub fail_run : Text → Task → Op State Task
  unfolding update_job_status
  fail_run message task = do
    moved ← touched λ now. (transition_to failed now task).0
    noted ← touched λ now. set_error_message message now moved
    _ ← update_job_status failed noted.error_message noted
    pure noted

  -- The HLS job behind a finished task.
  start_hls : (HlsJob → Op S (Option Error)) → Text → Task → HlsConfig → Op State Unit
  start_hls create input task hcfg = do
    uuid ← lift env.new_uuid
    let dir = env.join (codes "storage/hls" ∷ task.user_uuid ∷ task.video_uuid ∷ uuid ∷ [])
    fresh ← touched (new_hls_job uuid task.user_uuid task.video_uuid input dir hcfg)
    sourced ← touched λ now. set_source (some task.task_uuid) (codes "transcoded") now fresh
    let job = set_request_id env.request_id sourced
    _ ← lift (create job)
    _ ← lift (env.enqueue_hls_job job)
    pure tt

  -- The guards of the HLS job: variants, a repository, and a configuration of the variants.
  hls_behind : Text → Task → List ResolutionConfig → Op State Unit
  unfolding start_hls
  hls_behind input task [] = pure tt
  hls_behind input task (rc ∷ rest) = elim env.create_hls_job [
    | none ↦ pure tt
    | some create ↦ elim (new_hls_config rt true (rc ∷ rest)) [
      | err e ↦ pure tt
      | ok hcfg ↦ start_hls create input task hcfg
    ]
  ]

  -- The answer behind the final write of the task, whose error is the second argument.
  pub saved : Text → Option Error → Task → Op State (Task × Option Error)
  unfolding fail_run hls_behind
  saved key (some e) task = do
    task' ← fail_run (codes "更新任务完成状态失败: " ++ error_text e) task
    pure (task', some (wrap (codes "更新任务完成状态失败") e))
  saved key none task = do
    let input =
        if env.skip_full_upload || is_empty (trim_space key) then task.original_path else key
    _ ← hls_behind input task (variants rt env.output_formats env.defaults)
    pure (task, none)

  -- Behind the executor's run, whose result is the first argument.
  pub executed : Result Error Text → Task → Op State (Task × Option Error)
  unfolding saved
  executed (err e) task = do
    task' ← fail_run (error_text e) task
    pure (task', some (wrap (codes "转码执行失败") e))
  executed (ok key) task = do
    placed ← touched λ now. set_output_path (if env.skip_full_upload then [] else key) now task
    moved ← touched λ now. (transition_to completed now placed).0
    full ← touched λ now. set_progress (pos 100) now moved
    final ← touched λ now. set_error_message [] now full
    stored ← lift (env.update_job final)
    saved key stored final

  -- Behind the write of the status `processing`, whose error is the first argument.
  pub marked : Option Error → Task → Op State (Task × Option Error)
  unfolding report_all executed
  marked (some e) task = pure (task, some (wrap (codes "更新任务状态失败") e))
  marked none task = do
    run ← lift (env.execute task env.skip_full_upload)
    reported ← report_all run.0 task
    answer ← executed run.1 reported
    _ ← clear_progress_throttle task.task_uuid
    pure answer

  -- Behind the first transition, whose error is the first argument.
  pub entered : Option Error → Task → Op State (Task × Option Error)
  unfolding marked update_job_status
  entered (some e) task = pure (task, some e)
  entered none task = do
    reset ← touched λ now. set_progress (pos 0) now task
    clear ← touched λ now. set_error_message [] now reset
    stored ← update_job_status processing [] clear
    marked stored clear

  pub execute_transcode : Task → Op State (Task × Option Error)
  unfolding entered
  execute_transcode task = do
    moved ← touched λ now. transition_to processing now task
    entered moved.1 moved.0
