-- ===== src/Worker.antt =====
-- The workers (ddd/infrastructure/worker/transcode_worker.go): their statistics, what one does with
-- a task, and the manager. Every change of the statistics is made under the worker's lock, so it is
-- one step, and the goroutines of a worker interleave between such steps.
pub mod Counts
pub mod Manager
pub mod Loop
pub mod Recovery
use go_video_transcode_servi.Common.{
  ℕ, ◌+◌, ◌-◌, ◌%◌, ℤ, pos, leb_ℤ, pos_part, Text, codes, Bool, true, false, ◌||◌, List, [], ◌∷◌,
  ◌++◌, Option, none, some, Error, plain, wrap, Result, ok, err, Op, ◌>>=◌, ◌>>◌, pure,
  if◌then◌else◌,
}
use go_video_transcode_servi.Task.{Task, is_completed, is_failed, is_cancelled}

-- The counters are of 64 bits, unsigned. The number of running tasks, an int, is a natural number
-- here, so a step below 0 would stop at 0.
pub record WorkerStats : Type 0 where
  pub processed_tasks : ℕ
  pub successful_tasks : ℕ
  pub failed_tasks : ℕ
  pub currently_running : ℕ
  pub start_time : ℕ
  pub last_task_time : ℕ

abbrev increment : ℕ → ℕ
increment n = (n + 1) % 0x10000000000000000

-- The three changes that `processTask` makes.
unfoldable pub begin_task : ℕ → WorkerStats → WorkerStats
begin_task now st = record st { currently_running = st.currently_running + 1; last_task_time = now }

unfoldable pub count_result : Option Error → WorkerStats → WorkerStats
count_result none st = record st { successful_tasks = increment st.successful_tasks }
count_result (some e) st = record st { failed_tasks = increment st.failed_tasks }

unfoldable pub finish_task : WorkerStats → WorkerStats
finish_task st = record st {
  currently_running = st.currently_running - 1;
  processed_tasks = increment st.processed_tasks;
}

-- What a worker is given: the repository's `GetTranscodeJob` (`none` for no repository), the service
-- and the clock.
pub record WorkerServices (S : Type 0) : Type 0 where
  pub get_job : Option (Text → Op S (Result Error (Option Task)))
  pub execute_transcode : Task → Op S (Option Error)
  pub now : Op S ℕ

-- The task as the database has it, or else as it came.
abbrev refreshed : Task → Result Error (Option Task) → Task
refreshed task (ok (some fresh)) = fresh
refreshed task (ok none) = task
refreshed task (err e) = task

unfoldable pub refresh : {S : Type 0} → WorkerServices S → Task → Op S Task
refresh ws task = elim ws.get_job [
  | none ↦ pure task
  | some get ↦ (do found ← get task.task_uuid; pure (refreshed task found))
]

-- The part of `processTask` behind the check of the status.
unfoldable pub run_task : {S : Type 0} → WorkerServices S → Task → Op (WorkerStats × S) Unit
unfolding begin_task count_result finish_task
run_task ws task (st, s) =
    let (now, s1) = ws.now s in
    let begun = begin_task now st in
    let (failure, s2) = ws.execute_transcode task s1 in
    (tt, (finish_task (count_result failure begun), s2))

unfoldable pub process_task : {S : Type 0} → WorkerServices S → Task → Op (WorkerStats × S) Unit
unfolding refresh run_task
process_task ws task (st, s) =
    let (fresh, s') = refresh ws task s in
    if is_completed fresh || is_failed fresh || is_cancelled fresh
    then (tt, (st, s'))
    else run_task ws fresh (st, s')

-- A worker, without its queue and services.
pub record TranscodeWorker : Type 0 where
  pub id : Text
  pub worker_count : ℤ
  pub running : Bool
  pub stats : WorkerStats

unfoldable pub new_transcode_worker : Text → ℤ → ℕ → TranscodeWorker
new_transcode_worker id count now = record {
  id = id;
  worker_count = if leb_ℤ count (pos 0) then pos 1 else count;
  running = false;
  stats = record {
    processed_tasks = 0;
    successful_tasks = 0;
    failed_tasks = 0;
    currently_running = 0;
    start_time = now;
    last_task_time = 0;
  };
}

-- `Start`, with the number of goroutines that it launches.
unfoldable pub start : ℕ → TranscodeWorker → TranscodeWorker × Option Error × ℕ
start now w =
    if w.running
    then (w, some (plain (codes "worker " ++ (w.id ++ codes " is already running"))), 0)
    else (
      record w { running = true; stats = record w.stats { start_time = now } },
      none,
      pos_part w.worker_count,
    )

-- `Stop`, which waits for the goroutines and returns no error.
unfoldable pub stop : TranscodeWorker → TranscodeWorker
stop w = record w { running = false }

-- `StartAll`: the first error ends the loop. The workers share one reading of the clock.
unfoldable pub start_all : ℕ → List TranscodeWorker → List TranscodeWorker × Option Error
unfolding start
start_all now [] = ([], none)
start_all now (w ∷ ws) =
    let (w', failure, goroutines) = start now w in
    let (ws', later) = start_all now ws in
    elim failure [
      | some e ↦ (w' ∷ ws, some (wrap (codes "failed to start worker") e))
      | none ↦ (w' ∷ ws', later)
    ]

unfoldable pub stop_all : List TranscodeWorker → List TranscodeWorker
unfolding stop
stop_all [] = []
stop_all (w ∷ ws) = stop w ∷ stop_all ws
