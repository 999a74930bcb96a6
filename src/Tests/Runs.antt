-- ===== src/Tests/Runs.antt =====
-- The queue, the application, the run of a task and the worker at concrete inputs.
use go_video_transcode_servi.Common.{
  ℕ, ◌+◌, ◌≤◌, ◌%◌, pos, codes, true, false, ◌||◌, List, [], ◌∷◌, ◌++◌, ◌≡◌, ◌⊎◌, refl, none, some,
  plain, ok, canceled,
}
use go_video_transcode_servi.Task.{is_completed, is_failed, is_cancelled}
use go_video_transcode_servi.Queue
use go_video_transcode_servi.Queue.{
  Queue, Call, enqueues, dequeues, tries, closes, measures, new_queue, enqueue, dequeue,
  try_dequeue, close, get_metrics, run,
}
use go_video_transcode_servi.Queue.Fifo.{run_order}
use go_video_transcode_servi.Queue.Interleaved
use go_video_transcode_servi.Queue.Interleaved.{Flight}
use go_video_transcode_servi.App.{create_transcode_task, update_transcode_task_status}
use go_video_transcode_servi.App.Create.{Active, Outcome, create_transcode_task-Outcome}
use go_video_transcode_servi.App.Update.{Moves, update_transcode_task_status-Moves}
use go_video_transcode_servi.Service.{Environment, execute_transcode}
use go_video_transcode_servi.Worker.{
  WorkerStats, WorkerServices, begin_task, count_result, finish_task, new_transcode_worker, refresh,
  process_task,
}
use go_video_transcode_servi.Worker.Counts.{
  waiting, running, ◌⟶*◌, stay, step, begins, counts, finishes, Agree, all_waiting, ⟶*-counts,
  Counted, process_task-counts,
}
use go_video_transcode_servi.Tests.Memory.{
  Db, runtime, services, repository, status_laws, queue_laws, status_in, environment, empty_db,
}
use go_video_transcode_servi.Tests.Core.{task, request}

abbrev two_in : Queue ℕ
two_in =
    (run (new_queue (pos 3)) (enqueues true none (some 4) ∷ enqueues true none (some 5) ∷ [])).0

abbrev history : List (Call ℕ)
history =
    enqueues true none (some 6)
    ∷ enqueues true none (some 7)
    ∷ dequeues true none
    ∷ enqueues false (some canceled) (some 8)
    ∷ tries
    ∷ measures
    ∷ closes
    ∷ tries
    ∷ []

history_at : ((run two_in history).2 ≡ 4 ∷ 5 ∷ []) × ((run two_in history).0.items ≡ 6 ∷ [])
unfolding run Queue.step new_queue enqueue dequeue try_dequeue close get_metrics
history_at = (refl, refl)

run_order_example :
    (run two_in history).2 ++ (run two_in history).0.items ≡ two_in.items ++ (run two_in history).1
run_order_example = run_order two_in history

-- Two calls that send before the first of them counts, and one that receives in between.
abbrev in_flight : Flight ℕ
in_flight = record {
  queue = record {
    items = 7 ∷ [];
    capacity = 2;
    closed = false;
    enqueue_count = 1;
    dequeue_count = 0;
    max_size = 2;
    current_size = 0;
  };
  sent = 1;
  received = 1;
}

create_transcode_task-Outcome_example :
    Outcome
      (Active services empty_db)
      (codes "video")
      []
      (create_transcode_task runtime services request empty_db).1.waiting.items
      (create_transcode_task runtime services request empty_db).0
unfolding new_queue
create_transcode_task-Outcome_example =
    create_transcode_task-Outcome runtime services (λ db. db.waiting.items) queue_laws request
      empty_db

abbrev db : Db
db = record empty_db { rows = task ∷ [] }

update_transcode_task_status-Moves_example : Moves (status_in db (codes "t1")) (
    status_in
      (update_transcode_task_status runtime services (codes "t1") (codes "cancelled") [] db).1
      (codes "t1"))
unfolding services
update_transcode_task_status-Moves_example =
    update_transcode_task_status-Moves runtime services status_in status_laws (codes "t1")
      (codes "cancelled") [] db (codes "t1")

abbrev run_in : Environment Db
run_in = environment (ok (codes "key")) false

abbrev stats : WorkerStats
stats = (new_transcode_worker (codes "w") (pos 2) 7).stats

-- Two goroutines, whose changes interleave.
two_tasks :
    (stats, all_waiting 2)
    ⟶* (finish_task (count_result none (begin_task 9 (begin_task 8 stats))), waiting ∷ running ∷ [])
two_tasks = step _ _ _ (begins 8 stats [] (waiting ∷ [])) (
    step _ _ _ (begins 9 _ (running ∷ []) []) (
      step _ _ _ (counts none _ [] (running ∷ []))
        (step _ _ _ (finishes _ [] (running ∷ [])) (stay _))))

⟶*-counts_example :
    let st = finish_task (count_result none (begin_task 9 (begin_task 8 stats))) in
    Agree (st, waiting ∷ running ∷ []) × (st.currently_running ≤ 2)
unfolding new_transcode_worker
⟶*-counts_example =
    ⟶*-counts 2 stats (finish_task (count_result none (begin_task 9 (begin_task 8 stats))))
      (waiting ∷ running ∷ []) (refl, refl, refl, refl) two_tasks

unfoldable worker_services : WorkerServices Db
unfolding repository
worker_services = record {
  get_job = some repository.get_job;
  execute_transcode = λ t db. (some (plain (codes "no")), record db { clock = 99 });
  now = λ db. (db.clock, db);
}

process_task-counts_example :
    let (fresh, s') = refresh worker_services task db in
    let (failure, ended) = worker_services.execute_transcode fresh (worker_services.now s').1 in
    let (st', final) = (process_task worker_services task (stats, db)).1 in
    (((is_completed fresh || is_failed fresh || is_cancelled fresh) ≡ true)
      × (st' ≡ stats)
      × (final ≡ s'))
    ⊎ (((is_completed fresh || is_failed fresh || is_cancelled fresh) ≡ false)
        × (final ≡ ended)
        × (st'.currently_running ≡ stats.currently_running)
        × (st'.processed_tasks ≡ (stats.processed_tasks + 1) % 0x10000000000000000)
        × Counted stats st' failure)
process_task-counts_example = process_task-counts worker_services task stats db
