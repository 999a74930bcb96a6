-- ===== src/Tests/Process.antt =====
-- The goroutines of the consumer, the start of the process and the table of tasks at concrete inputs.
use go_video_transcode_servi.Common.{
  ◌+◌, ◌*◌, ℕ, suc, pos, Text, codes, text_eq, text_eq_iff, true, false, List, [], ◌∷◌, ◌≡◌, refl,
  Bool-cases, Option-cases, inl, inr, Option, none, some, Error, plain, Result, ok, err,
  if◌then◌else◌,
}
use go_video_transcode_servi.Consumer.Loops.{
  waiting_read, selecting, process_done, read_done, Loops, Action, consume, send, take, leave,
  handle, begin_stop, close_channel, end_stop, faulted, moved, put, started, consumed, left, begun,
  closed_by, ended, all_done, step, run,
}
use go_video_transcode_servi.Consumer.Loops.Invariant.{stops}
use go_video_transcode_servi.Consumer.Loops.Safe.{Fine, run-Inv}
use go_video_transcode_servi.Consumer.Loops.Committed.{Committed, Kept, run-Committed}
use go_video_transcode_servi.Consumer.Loops.Returns.{Enabled, AtMost, run-stop_returns}
use go_video_transcode_servi.Consumer.Loops.Stopped.{run-stop_again}
use go_video_transcode_servi.Plugins.{Component, ComponentPlugin, must_init_components}
use go_video_transcode_servi.Plugins.Lifecycle.{Initialised, must_init_components-Initialised}
use go_video_transcode_servi.Startup.{Host, Parts, run_app}
use go_video_transcode_servi.Startup.Order.{AtEnd, ClosedAtPanic, Closed, run_app-Closed}
use go_video_transcode_servi.TaskTable.{
  TranscodeTaskRow, TaskTable, update_hls_progress, update_hls_status, update_hls_output_path,
  update_hls_error, update_hls_completed, update_hls_failed,
}
use go_video_transcode_servi.TaskTable.Frames.{write_columns, Laws, Frame, hls_updates-Frame}
use go_video_transcode_servi.Tests.Memory.{Db, runtime, services, queue_laws, empty_db}
use go_video_transcode_servi.Tests.Messages.{policy, unmarshal}
use go_video_transcode_servi.Tests.Settings.{settings}

-- A message is read, sent, taken and handled, and then the consumer is stopped.
abbrev history : List Action
history =
    consume false (some (codes "{}"))
    ∷ send
    ∷ take 0
    ∷ handle 0 true
    ∷ begin_stop
    ∷ consume false none
    ∷ close_channel
    ∷ leave 0
    ∷ end_stop
    ∷ []

run-Inv_example :
    Fine (stops history 0) (run runtime services policy unmarshal history (started 1 empty_db))
run-Inv_example = run-Inv runtime services policy unmarshal history 1 empty_db

run-Committed_example :
    Committed
      (Kept runtime services
        (λ db. db.waiting.items)
        queue_laws
        policy
        unmarshal
        history
        (started 1 empty_db))
      (run runtime services policy unmarshal history (started 1 empty_db))
run-Committed_example =
    run-Committed runtime services (λ db. db.waiting.items) queue_laws policy unmarshal history 1
      empty_db refl refl

-- The consumer is stopped with nothing read.
abbrev stopped : List Action
stopped = begin_stop ∷ consume false none ∷ close_channel ∷ leave 0 ∷ end_stop ∷ []

abbrev behind_stop : Loops Db
behind_stop = record (started 1 empty_db) {
  canceled = true;
  closed = true;
  reader = read_done;
  process = put 0 process_done (λ _. selecting);
}

run_stopped : run runtime services policy unmarshal stopped (started 1 empty_db) ≡ moved behind_stop
unfolding run step begun consumed closed_by left ended all_done
run_stopped = refl

run-stop_again_example :
    run runtime services policy unmarshal (begin_stop ∷ close_channel ∷ []) behind_stop ≡ faulted
run-stop_again_example =
    run-stop_again runtime services policy unmarshal stopped 1 empty_db behind_stop run_stopped refl
      refl

abbrev in_stop : Loops Db
in_stop = record (started 1 empty_db) { canceled = true; stop = waiting_read }

run_begun :
    run runtime services policy unmarshal (begin_stop ∷ []) (started 1 empty_db) ≡ moved in_stop
unfolding run step begun
run_begun = refl

run-stop_returns_example :
    Enabled runtime services policy unmarshal in_stop
    × AtMost runtime services policy unmarshal (4 * 1 + 6 + 3 * 0) 4 (
        run runtime services policy unmarshal
          (consume false none ∷ close_channel ∷ leave 0 ∷ end_stop ∷ [])
          in_stop)
run-stop_returns_example =
    run-stop_returns runtime services policy unmarshal (begin_stop ∷ []) 1 empty_db in_stop
      (consume false none ∷ close_channel ∷ leave 0 ∷ end_stop ∷ []) run_begun refl (λ e. cc)

-- A component that counts its start and its stop.
abbrev component : Component ℕ
component = record { start = λ n. (none, suc n); stop = λ n. some (suc n) }

abbrev component_plugin : ComponentPlugin ℕ
component_plugin = record { name = codes "c"; create = λ n. (some component, n) }

must_init_components-Initialised_example :
    Initialised
      ((codes "c", component_plugin) ∷ [])
      []
      0
      (must_init_components ((codes "c", component_plugin) ∷ []) [] 0)
must_init_components-Initialised_example =
    must_init_components-Initialised ((codes "c", component_plugin) ∷ []) [] 0

-- A table: the row of each task.
abbrev Rows : Type 0
Rows = Text → Option TranscodeTaskRow

abbrev updated :
    (TranscodeTaskRow → TranscodeTaskRow) → Option TranscodeTaskRow → Option TranscodeTaskRow
updated f none = none
updated f (some r) = some (f r)

abbrev at_id : Text → (TranscodeTaskRow → TranscodeTaskRow) → Rows → Rows
at_id id f s k = if text_eq k id then updated f (s k) else s k

abbrev found_in : Option TranscodeTaskRow → Result Error TranscodeTaskRow
found_in none = err (plain (codes "record not found"))
found_in (some r) = ok r

abbrev table : TaskTable Rows
table = record {
  insert = λ r s. (none, at_id r.task_uuid (λ old. r) s);
  update_columns = λ id cs s. (none, at_id id (write_columns cs) s);
  update_nonzero = λ id r s. (none, at_id id (λ old. r) s);
  first = λ id s. (found_in (s id), s);
  find = λ asked limit s. (ok [], s);
}

table_laws : Laws table (λ s. s)
table_laws = record {
  others = λ id cs s k h. elim (Bool-cases (text_eq k id)) [
    | inl same ↦ absurd (h ((text_eq_iff k id).0 same))
    | inr differs ↦ rw differs refl
  ];
  self = λ id cs s. elim (Option-cases (s id)) [
    | inl missing ↦ inl (rw (missing, (text_eq_iff id id).1 refl) refl)
    | inr (r, there) ↦ inr (r, there, rw (there, (text_eq_iff id id).1 refl) refl)
  ];
}

hls_updates-Frame_example :
    Frame table (λ s. s) table_laws (codes "t1") (update_hls_progress table (codes "t1") (pos 40))
    × Frame table
        (λ s. s)
        table_laws
        (codes "t1")
        (update_hls_status table (codes "t1") (codes "x"))
    × Frame table
        (λ s. s)
        table_laws
        (codes "t1")
        (update_hls_output_path table (codes "t1") (codes "x"))
    × Frame table (λ s. s) table_laws (codes "t1") (update_hls_error table (codes "t1") (codes "x"))
    × Frame table (λ s. s) table_laws (codes "t1") (update_hls_completed table (codes "t1"))
    × Frame table
        (λ s. s)
        table_laws
        (codes "t1")
        (update_hls_failed table (codes "t1") (codes "x"))
hls_updates-Frame_example =
    hls_updates-Frame table (λ s. s) table_laws (codes "t1") (codes "x") (pos 40)

-- A host on which everything succeeds and counts.
abbrev host : Host ℕ
host = record {
  getenv = λ k. [];
  load = λ path n. (ok settings, n);
  look_path = λ bin. none;
  new_database = λ n. (none, suc n);
  close_database = λ n. suc n;
  listen = λ address n. (none, suc n);
  serve_http = λ port n. suc n;
  wait = λ n. suc n;
  graceful_stop = λ n. suc n;
  cancel_tasks = λ n. suc n;
  shutdown_http = λ n. (none, suc n);
  close_logger = λ n. suc n;
}

abbrev parts : Parts ℕ
parts = record {
  resources = [];
  services = [];
  components = (codes "c", component_plugin) ∷ [];
  controllers = [];
  tasks = λ n. record { tasks = []; started = false };
}

run_app-Closed_example :
    AtEnd runtime host parts
      (Closed runtime host parts 0)
      (ClosedAtPanic runtime host parts 0)
      (run_app runtime host parts 0)
run_app-Closed_example = run_app-Closed runtime host parts 0
