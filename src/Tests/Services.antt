-- ===== src/Tests/Services.antt =====
-- The gRPC server, the storage and the recovery of tasks at concrete inputs.
use go_video_transcode_servi.Common.{
  ℕ, suc, ◌*◌, pos, Text, codes, text_eq, true, List, [], ◌∷◌, ◌++◌, ◌≡◌, refl, Option, none, some,
  Error, plain, Op, is_empty, if◌then◌else◌,
}
use go_video_transcode_servi.Errno.{AppError, biz, database}
use go_video_transcode_servi.Status
use go_video_transcode_servi.Status.{processing}
use go_video_transcode_servi.Task.{Task, default_task}
use go_video_transcode_servi.Queue.{new_queue, enqueue}
use go_video_transcode_servi.Storage.{UploadObject, upload_each}
use go_video_transcode_servi.Storage.Batch.{Stops, upload_each-Stops}
use go_video_transcode_servi.GrpcServer.{CreateRequest, serve_create, serve_get, refuse_get}
use go_video_transcode_servi.App.Create.{Active}
use go_video_transcode_servi.GrpcServer.Answers.{Served, serve_create-Served, serve_get-missing}
use go_video_transcode_servi.Database.Missing.{over_table}
use go_video_transcode_servi.Worker.Recovery.{
  recover_stuck_tasks, recover_found, recover_each, recover_task, requeued,
}
use go_video_transcode_servi.Worker.Recovery.Queued.{Recovered, recover_stuck_tasks-queue}
use go_video_transcode_servi.Tests.Memory
use go_video_transcode_servi.Tests.Memory.{runtime, Db, services, queue_laws, empty_db}
use go_video_transcode_servi.Tests.Core.{task}
use go_video_transcode_servi.Tests.Stores.{table, table_laws, env}

-- An object without a type is refused.
abbrev upload : UploadObject → Op ℕ (Option Error)
upload o n = (if is_empty o.content_type then some (plain (codes "no type")) else none, suc n)

abbrev objects : List UploadObject
objects =
    record { local_path = codes "a"; object_key = codes "ka"; content_type = codes "video/mp4" }
    ∷ record { local_path = codes "b"; object_key = codes "kb"; content_type = [] }
    ∷ record { local_path = codes "c"; object_key = codes "kc"; content_type = codes "video/mp4" }
    ∷ []

upload_each-Stops_example : Stops upload objects 0 (upload_each upload objects 0)
upload_each-Stops_example = upload_each-Stops upload objects 0

abbrev request : CreateRequest
request = record {
  user_uuid = codes "user";
  video_uuid = codes "video";
  input_path = codes "uploads/in.mp4";
  target_resolution = codes "720p";
  target_bitrate = codes "2000k";
}

serve_create-Served_example :
    Served
      (Active services empty_db)
      (codes "video")
      empty_db.waiting.items
      (serve_create runtime (some services) request empty_db).1.waiting.items
      (serve_create runtime (some services) request empty_db).0
serve_create-Served_example =
    serve_create-Served runtime services (λ db. db.waiting.items) queue_laws request empty_db

abbrev text_of : AppError → Text
text_of e = codes "error"

serve_get-missing_example :
    (e : Error) × ((serve_get runtime text_of
        (λ p. p)
        (some (over_table runtime table env))
        (codes "gone")
        (λ k. none)).0
      ≡ refuse_get (codes "failed to get transcode task: " ++ text_of (biz database e)))
serve_get-missing_example =
    serve_get-missing runtime table (λ s. s) table_laws env text_of (λ p. p) (codes "gone")
      (λ k. none) (λ e. cc) refl

-- A task that has been in processing for more than an hour.
abbrev stuck : Task
stuck = record task { status = processing; updated_at = 1 }

abbrev stuck_db : Db
stuck_db = record { rows = stuck ∷ []; waiting = new_queue (pos 4); clock = 4000 * 1_000_000_000 }

abbrev recovered : Db
recovered = record {
  rows = record stuck { status = Status.pending; progress = pos 0; error_message = [] } ∷ [];
  waiting = (enqueue true none (some stuck) (new_queue (pos 4))).0;
  clock = suc (4000 * 1_000_000_000);
}

recovers : recover_stuck_tasks services stuck_db ≡ some recovered
unfolding recover_stuck_tasks recover_found recover_each recover_task requeued services
    Memory.repository Memory.with_status Status.same Memory.modify text_eq default_task
recovers = refl

recover_stuck_tasks-queue_example :
    Recovered
      (services.now (services.query_by_status processing (pos 100) stuck_db).1).0
      (services.query_by_status processing (pos 100) stuck_db).0
      stuck_db.waiting.items
      recovered.waiting.items
recover_stuck_tasks-queue_example =
    recover_stuck_tasks-queue services (λ db. db.waiting.items) queue_laws stuck_db recovered
      recovers
