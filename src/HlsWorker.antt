-- ===== src/HlsWorker.antt =====
-- The HLS worker's handling of a job (ddd/infrastructure/worker/hls_worker.go). The source drops the
-- results of what it writes (to the database, to the other services and to the file system), so the
-- writes are a log of calls, in order; what it reads and the calls whose results decide on the way
-- are the fields of `JobIo`.
pub mod Calls
pub mod Local
use go_video_transcode_servi.Common.{
  ℕ, ◌==◌, ltb, pos, Text, codes, text_eq, Bool, true, false, not, ◌&&◌, List, [], ◌∷◌, ◌++◌,
  Option, none, some, Error, plain, error_text, Result, ok, err, length, take, is_empty, has_prefix,
  trim_prefix, trim_space, trim_left_by, trim_right_by, if◌then◌else◌, ℤ,
}
use go_video_transcode_servi.HlsStatus
use go_video_transcode_servi.Hls.{HlsJob}
use go_video_transcode_servi.Worker.{WorkerStats, begin_task, count_result, finish_task}

-- What the worker finds. A slicing that succeeds may have set the job's master playlist.
pub record JobIo : Type 0 where
  pub candidate : Option Text  -- deriveLocalCandidate, where it names a file
  pub local_input : Text  -- getLocalInputPath
  pub make_dir : Option Error  -- os.MkdirAll
  pub download : Option Error  -- storage.DownloadFile
  pub has_executor : Bool  -- hlsExecutor != nil
  pub slice : Text → Result Error (Option Text)  -- Slice, or GenerateHLSSlices
  pub objects : List Text  -- the files below the output directory
  pub upload : Option Error  -- storage.UploadObjects
  pub relative : Text → Option Text  -- filepath.Rel("storage", path)
  pub clean : Text → Text  -- filepath.Clean
  pub storage_base : Option Text  -- cfg.Public.StorageBase; `none` without a configuration
  pub has_client : Bool  -- DefaultVideoServiceClient() != nil
  pub has_reporter : Bool

pub data Call : Type 0 where
  sets_error sets_status sets_output : Text → Text → Call  -- UpdateHLSJobError, …Status, …Output
  sets_progress : Text → ℤ → Call
  -- one call of the client's method, which may call the service twice (Clients)
  tells_video : Text → Text → Text → Text → Text → Call  -- UpdateTranscodeResult
  reports_success reports_failure : Text → Text → Text → Call
  removes removes_all : Text → Call

unfoldable pub truncate_error : Text → ℕ → Text
truncate_error msg max =
    if max == 0 then msg else if ltb max (length msg) then take max msg else msg

abbrev is_slash : ℕ → Bool
is_slash c = c == b'/'

-- The URL of a key that is not blank, under a configuration's base.
url_under : Text → Text → Text
url_under storage_base object_key =
    let key = trim_prefix (trim_left_by is_slash object_key) (codes "transcode/") in
    let path = codes "/storage/transcode/" ++ key in
    let base = trim_space storage_base in
    let with_scheme =
      if not (has_prefix base (codes "http://")) && not (has_prefix base (codes "https://"))
      then codes "http://" ++ base
      else base in
    if is_empty base then path else trim_right_by is_slash with_scheme ++ path

pub build_file_url : Option Text → Text → Text
unfolding url_under
build_file_url none object_key = if is_empty (trim_space object_key) then [] else object_key
build_file_url (some base) object_key =
    if is_empty (trim_space object_key) then [] else url_under base object_key

-- The address of the master playlist; empty if there is none.
pub public_path : JobIo → Option Text → Text
unfolding build_file_url
public_path io none = []
public_path io (some master) =
    let key : Text = elim (io.relative master) [ none ↦ master | some r ↦ r ] in
    build_file_url io.storage_base
      (trim_left_by is_slash (if has_prefix master (codes "storage/") then key else master))

-- The task that the other services know the job by.
abbrev source_of : HlsJob → Text
source_of job = elim job.source_job_uuid [ some uuid ↦ uuid | none ↦ job.job_uuid ]

-- A failure that is only stored.
abbrev store_failure : HlsJob → Text → List Call
store_failure job msg = sets_error job.job_uuid msg ∷ sets_status job.job_uuid HlsStatus.failed ∷ []

unfoldable pub handle_failure : JobIo → HlsJob → Text → List Call
unfolding truncate_error
handle_failure io job text =
    let msg = truncate_error text 480 in
    store_failure job msg
    ++ ((if io.has_client
          then tells_video job.video_uuid (source_of job) HlsStatus.failed [] msg ∷ []
          else [])
        ++ (if io.has_reporter
            then reports_failure job.video_uuid (source_of job) msg ∷ []
            else []))

-- The callbacks of a success.
abbrev publish : JobIo → HlsJob → Text → List Call
publish io job url =
    (if io.has_client
      then tells_video job.video_uuid (source_of job) (codes "published") url [] ∷ []
      else [])
    ++ (if io.has_reporter then reports_success job.video_uuid (source_of job) url ∷ [] else [])

-- Behind the upload.
complete : JobIo → HlsJob → Text → List Call
complete io job url =
    (if is_empty url then [] else sets_output job.job_uuid url ∷ [])
    ++ (sets_progress job.job_uuid (pos 100)
        ∷ sets_status job.job_uuid HlsStatus.completed
        ∷ (if is_empty url then [] else publish io job url))

-- The local files that a success removes.
abbrev pub clean_up : JobIo → HlsJob → List Call
clean_up io job =
    let base = io.clean job.output_dir in
    (elim io.candidate [ some file ↦ removes file ∷ [] | none ↦ [] ])
    ++ (if not (is_empty base) && not (text_eq base (codes ".")) then removes_all base ∷ [] else [])

-- Behind the call of `UploadObjects`: the calls, and the error that the job has failed with.
upload_ended : JobIo → HlsJob → Option Text → Option Error → List Call × Option Error
unfolding complete
upload_ended io job master (some e) = (store_failure job (error_text e), some e)
upload_ended io job master none = (complete io job (public_path io master) ++ clean_up io job, none)

-- Behind the slicing, with the files that it has left.
uploaded : JobIo → HlsJob → Option Text → List Text → List Call × Option Error
unfolding upload_ended
uploaded io job master [] =
    let e = plain (codes "no hls files generated") in (store_failure job (error_text e), some e)
uploaded io job master (o ∷ os) = upload_ended io job master io.upload

-- The error of the slicing as text: that of the service is cut off before it is handled.
abbrev pub slice_error : JobIo → Error → Text
slice_error io e = if io.has_executor then error_text e else truncate_error (error_text e) 480

-- Behind the choice of the local input.
sliced : JobIo → HlsJob → Result Error (Option Text) → List Call × Option Error
unfolding uploaded handle_failure
sliced io job (err e) = (handle_failure io job (slice_error io e), some e)
sliced io job (ok master) = uploaded io job master io.objects

-- The input is downloaded: it is removed at the end, whatever happens.
downloaded : JobIo → HlsJob → Option Error → Option Error → List Call × Option Error
unfolding sliced
downloaded io job (some e) _ = (store_failure job (error_text e), some e)
downloaded io job none (some e) = (store_failure job (error_text e), some e)
downloaded io job none none =
    let (calls, failure) = sliced io job (io.slice io.local_input) in
    (calls ++ removes io.local_input ∷ [], failure)

pub handle_job : JobIo → HlsJob → Option Text → List Call × Option Error
unfolding downloaded
handle_job io job (some file) = sliced io job (io.slice file)
handle_job io job none = downloaded io job io.make_dir io.download

pub process_job : JobIo → HlsJob → ℕ → WorkerStats → List Call × WorkerStats
unfolding handle_job begin_task count_result finish_task
process_job io job now st =
    let (calls, failure) = handle_job io job io.candidate in
    (calls, finish_task (count_result failure (begin_task now st)))

-- One turn of the loop with a job: its status is written first.
pub work_on : JobIo → HlsJob → ℕ → WorkerStats → List Call × WorkerStats
unfolding process_job
work_on io job now st =
    let (calls, st') = process_job io job now st in
    (sets_status job.job_uuid HlsStatus.processing ∷ calls, st')
