-- ===== src/Tests/Stores.antt =====
-- A table in memory and an encoding of resolutions, with the laws that they satisfy; the repository,
-- the rows of HLS jobs, the queues, the loop and the configuration at concrete inputs.
use go_video_transcode_servi.Common.{
  ℕ, zero, suc, ◌+◌, ℤ, pos, Text, codes, text_eq, text_eq_iff, Bool, true, false, List, [], ◌∷◌,
  ◌++◌, ◌≡◌, ◌≢◌, ◌⊎◌, refl, sym, ap, arith, Option, none, some, Error, plain, canceled, Result, ok,
  err, inl, inr, Bool-cases, Option-cases, length, if◌then◌else◌, All,
}
use mathlib.Core.List.{append-nil}
use go_video_transcode_servi.Common
use go_video_transcode_servi.Resolution
use go_video_transcode_servi.Resolution.{ResolutionConfig, validate_config}
use go_video_transcode_servi.Hls.{HlsJob, new_hls_job, default_hls_config}
use go_video_transcode_servi.Task.{Task}
use go_video_transcode_servi.Queue.{Queue, new_queue, enqueues, dequeues, closes, run, Call}
use go_video_transcode_servi.HlsQueue.{run_jobs}
use go_video_transcode_servi.HlsQueue.Simulation.{forget, run_jobs-forget}
use go_video_transcode_servi.App
use go_video_transcode_servi.App.{get_transcode_task, get_transcode_progress}
use go_video_transcode_servi.Store.Laws.{StatusLaws}
use go_video_transcode_servi.Store.Row.{TranscodeJob}
use go_video_transcode_servi.Database.{JobTable, new_transcode_repository}
use go_video_transcode_servi.Database.Table.{TableLaws, write_columns}
use go_video_transcode_servi.Database.Refine.{row_status, new_transcode_repository-StatusLaws}
use go_video_transcode_servi.HlsDatabase.{Json, hls_to_entity, hls_to_po}
use go_video_transcode_servi.HlsDatabase.RoundTrip.{JsonLaws, Reread, hls_to_entity-hls_to_po}
use go_video_transcode_servi.Worker.{WorkerStats, WorkerServices, new_transcode_worker}
use go_video_transcode_servi.Worker.Loop.{
  Turn, live, live_turns, worker_loop, process_all, worker_loop-drains,
}
use go_video_transcode_servi.Tests.Memory.{runtime}
use go_video_transcode_servi.Tests.Core.{task}

-- A table: the row of each job.
abbrev pub Rows : Type 0
Rows = Text → Option TranscodeJob

abbrev updated : (TranscodeJob → TranscodeJob) → Option TranscodeJob → Option TranscodeJob
updated f none = none
updated f (some job) = some (f job)

abbrev at_id : Text → (TranscodeJob → TranscodeJob) → Rows → Rows
at_id id f s k = if text_eq k id then updated f (s k) else s k

abbrev found_in : Option TranscodeJob → Result Error TranscodeJob
found_in none = err (plain (codes "record not found"))
found_in (some job) = ok job

abbrev pub table : JobTable Rows
table = record {
  insert = λ job s. (none, at_id job.job_uuid (λ old. job) s);
  update_columns = λ id cs s. (none, at_id id (write_columns cs) s);
  update_nonzero = λ id job s. (none, at_id id (λ old. job) s);
  first = λ id s. (found_in (s id), s);
  find = λ status limit s. (ok [], s);
}

found_in_reads : (o : Option TranscodeJob) (job : TranscodeJob) → found_in o ≡ ok job → o ≡ some job
found_in_reads none job h = absurd (ground arith)
found_in_reads (some j) job h = ground arith

pub table_laws : TableLaws table (λ s. s)
table_laws = record {
  first_keeps = λ id s k. refl;
  first_reads = λ id s job h. found_in_reads (s id) job h;
  first_missing = λ id s h. (_, ap found_in h);
  columns_others = λ id cs s k h. elim (Bool-cases (text_eq k id)) [
    | inl same ↦ absurd (h ((text_eq_iff k id).0 same))
    | inr differs ↦ rw differs refl
  ];
  columns_self = λ id cs s. elim (Option-cases (s id)) [
    | inl missing ↦ inl (rw (missing, (text_eq_iff id id).1 refl) refl)
    | inr (job, there) ↦ inr (job, there, rw (there, (text_eq_iff id id).1 refl) refl)
  ];
}

new_transcode_repository-StatusLaws_example :
    StatusLaws (new_transcode_repository table runtime) (λ s id. row_status (s id))
new_transcode_repository-StatusLaws_example =
    new_transcode_repository-StatusLaws runtime table (λ s. s) table_laws

abbrev pub env : App.Services Rows
env = record {
  repo = new_transcode_repository table runtime;
  enqueue_task = λ t s. (none, s);
  now = λ s. (5, s);
  new_uuid = λ s. (codes "id", s);
}

-- Texts behind a 0 each, their characters one higher.
abbrev put_text : Text → Text → Text
put_text [] rest = rest
put_text (c ∷ t) rest = suc c ∷ put_text t rest

abbrev put_all : List ResolutionConfig → Text
put_all [] = []
put_all (rc ∷ rs) = 0 ∷ put_text rc.resolution (0 ∷ put_text rc.bitrate (put_all rs))

abbrev get_texts : Text → Text × List Text
get_texts [] = ([], [])
get_texts (zero ∷ s) = let (t, ts) = get_texts s in ([], t ∷ ts)
get_texts (suc c ∷ s) = let (t, ts) = get_texts s in (c ∷ t, ts)

abbrev pairs_of : List Text → List ResolutionConfig
pairs_of (r ∷ b ∷ ts) = record { resolution = r; bitrate = b } ∷ pairs_of ts
pairs_of _ = []

abbrev read_all : Text → Result Error (List ResolutionConfig)
read_all [] = err (plain (codes "unexpected end of JSON input"))
read_all (c ∷ s) = ok (pairs_of (get_texts s).1)

abbrev json : Json
json = record { marshal = λ rs. ok (1 ∷ put_all rs); unmarshal = read_all }

get_texts-put_text :
    (t rest : Text) → get_texts (put_text t rest) ≡ (t ++ (get_texts rest).0, (get_texts rest).1)
get_texts-put_text [] rest = refl
get_texts-put_text (c ∷ t) rest = rw (get_texts-put_text t rest) refl

get_texts-put_all : (rs : List ResolutionConfig) → (get_texts (put_all rs)).0 ≡ []
get_texts-put_all [] = refl
get_texts-put_all (rc ∷ rs) = refl

pairs_of-put_all : (rs : List ResolutionConfig) → pairs_of (get_texts (put_all rs)).1 ≡ rs
pairs_of-put_all [] = refl
pairs_of-put_all (rc ∷ rs) =
    rw
      (
        get_texts-put_text rc.resolution (0 ∷ put_text rc.bitrate (put_all rs)),
        get_texts-put_text rc.bitrate (put_all rs),
        get_texts-put_all rs,
        append-nil rc.resolution,
        append-nil rc.bitrate,
        pairs_of-put_all rs,
      )
      refl

json_laws : JsonLaws json
json_laws = record {
  marshals = λ rs. (1 ∷ put_all rs, refl);
  reads_back = λ rs text h.
      let e : 1 ∷ put_all rs ≡ text = cc h in rw (sym e) (λ empty. cc, ap ok (pairs_of-put_all rs));
}

abbrev variant : ResolutionConfig
variant = record { resolution = codes "720p"; bitrate = codes "2000k" }

variant_passes : validate_config runtime variant ≡ none
unfolding runtime validate_config Resolution.validate_resolution Resolution.is_listed
    Common.to_lower text_eq Resolution.validate_bitrate Resolution.bitrate_number Common.has_suffix
    Common.trim_suffix Common.read_digits
variant_passes = refl

abbrev stored_job : HlsJob
stored_job =
    new_hls_job (codes "j1") (codes "user") (codes "video") (codes "in.mp4") (codes "out")
      (record default_hls_config { resolutions = variant ∷ [] }) 3

hls_to_entity-hls_to_po_example :
    Reread 9 stored_job (hls_to_entity runtime json 9 (hls_to_po json stored_job))
unfolding new_hls_job default_hls_config
hls_to_entity-hls_to_po_example =
    hls_to_entity-hls_to_po runtime json 9 stored_job json_laws (variant_passes, tt)

abbrev jobs : List (Call ℕ)
jobs = enqueues true none (some 5) ∷ enqueues true none (some 6) ∷ dequeues true none ∷ closes ∷ []

run_jobs-forget_example : run_jobs (forget (new_queue (pos 1))) jobs ≡ (
  forget (run (new_queue (pos 1)) jobs).0,
  (run (new_queue (pos 1)) jobs).1,
  (run (new_queue (pos 1)) jobs).2,
)
run_jobs-forget_example = run_jobs-forget (new_queue (pos 1)) jobs

unfoldable worker : WorkerServices ℕ
worker = record { get_job = none; execute_transcode = λ t n. (none, suc n); now = λ n. (n, n) }

abbrev waiting : Queue Task
waiting = record (new_queue (pos 4)) { items = task ∷ task ∷ [] }

abbrev fresh : WorkerStats × ℕ
fresh = ((new_transcode_worker (codes "w") (pos 2) 7).stats, 0)

worker_loop-drains_example :
    let (q', c') = worker_loop worker (live_turns 2) (waiting, fresh) in
    (q'.items ≡ []) × (q'.closed ≡ false) × (c' ≡ process_all worker (task ∷ task ∷ []) fresh)
unfolding new_queue
worker_loop-drains_example = worker_loop-drains worker (task ∷ task ∷ []) waiting fresh refl refl

abbrev done : Turn
done = record live { at_check = some canceled }
