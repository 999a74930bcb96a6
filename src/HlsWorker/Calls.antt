-- ===== src/HlsWorker/Calls.antt =====
-- What the calls of the HLS worker leave behind.
use mathlib.Core.List.{append-nil}
use go_video_transcode_servi.Common.{
  ℕ, ◌+◌, ◌%◌, Text, codes, List, [], ◌∷◌, ◌++◌, ◌≡◌, ◌⊎◌, refl, ap, ◌∙◌, arith, Option, none, some,
  Error, Result, ok, err, inl,
}
use go_video_transcode_servi.HlsStatus
use go_video_transcode_servi.Hls.{HlsJob}
use go_video_transcode_servi.Worker.{WorkerStats, begin_task, count_result, finish_task}
use go_video_transcode_servi.Worker.Counts.{Counted, success, failure_counted}
use go_video_transcode_servi.HlsWorker.{
  JobIo, Call, sets_error, sets_status, sets_output, sets_progress, tells_video, reports_success,
  reports_failure, removes, removes_all, handle_failure, complete, upload_ended, public_path,
  clean_up, slice_error, uploaded, sliced, downloaded, handle_job, process_job, work_on,
}

-- The statuses that a log writes, in order, each with the job that it is written for.
abbrev pub statuses : List Call → List (Text × Text)
statuses [] = []
statuses (sets_status id st ∷ cs) = (id, st) ∷ statuses cs
statuses (_ ∷ cs) = statuses cs

-- The states with which the client of the video service is called.
abbrev pub told : List Call → List Text
told [] = []
told (tells_video v t st url msg ∷ cs) = st ∷ told cs
told (_ ∷ cs) = told cs

statuses-append : (xs ys : List Call) → statuses (xs ++ ys) ≡ statuses xs ++ statuses ys
statuses-append [] ys = refl
statuses-append (sets_status id st ∷ xs) ys =
    ap (λ (l : List (Text × Text)). (id, st) ∷ l) (statuses-append xs ys)
statuses-append (sets_error _ _ ∷ xs) ys = statuses-append xs ys
statuses-append (sets_output _ _ ∷ xs) ys = statuses-append xs ys
statuses-append (sets_progress _ _ ∷ xs) ys = statuses-append xs ys
statuses-append (tells_video _ _ _ _ _ ∷ xs) ys = statuses-append xs ys
statuses-append (reports_success _ _ _ ∷ xs) ys = statuses-append xs ys
statuses-append (reports_failure _ _ _ ∷ xs) ys = statuses-append xs ys
statuses-append (removes _ ∷ xs) ys = statuses-append xs ys
statuses-append (removes_all _ ∷ xs) ys = statuses-append xs ys

-- The one status that a handled job ends with.
abbrev pub final_status : Option Error → Text
final_status none = HlsStatus.completed
final_status (some e) = HlsStatus.failed

statuses-complete :
    (io : JobIo) (job : HlsJob) (url : Text)
    → statuses (complete io job url) ≡ (job.job_uuid, HlsStatus.completed) ∷ []
unfolding complete
statuses-complete io job url = ground arith

statuses-handle_failure :
    (io : JobIo) (job : HlsJob) (text : Text)
    → statuses (handle_failure io job text) ≡ (job.job_uuid, HlsStatus.failed) ∷ []
unfolding handle_failure
statuses-handle_failure io job text = ground arith

statuses-clean_up : (io : JobIo) (job : HlsJob) → statuses (clean_up io job) ≡ []
statuses-clean_up io job = ground arith

upload_ended-statuses :
    (io : JobIo) (job : HlsJob) (master : Option Text) (stored : Option Error)
    → let (calls, failure) = upload_ended io job master stored in
      statuses calls ≡ (job.job_uuid, final_status failure) ∷ []
unfolding upload_ended
upload_ended-statuses io job master (some e) = refl
upload_ended-statuses io job master none =
    let url = public_path io master in
    statuses-append (complete io job url) (clean_up io job)
    ∙ ap (λ l. l ++ statuses (clean_up io job)) (statuses-complete io job url)
    ∙ ap (λ (l : List (Text × Text)). (job.job_uuid, HlsStatus.completed) ∷ l)
        (statuses-clean_up io job)

uploaded-statuses :
    (io : JobIo) (job : HlsJob) (master : Option Text) (objects : List Text)
    → let (calls, failure) = uploaded io job master objects in
      statuses calls ≡ (job.job_uuid, final_status failure) ∷ []
unfolding uploaded
uploaded-statuses io job master [] = refl
uploaded-statuses io job master (o ∷ os) = upload_ended-statuses io job master io.upload

sliced-statuses :
    (io : JobIo) (job : HlsJob) (r : Result Error (Option Text))
    → let (calls, failure) = sliced io job r in
      statuses calls ≡ (job.job_uuid, final_status failure) ∷ []
unfolding sliced
sliced-statuses io job (err e) = statuses-handle_failure io job (slice_error io e)
sliced-statuses io job (ok master) = uploaded-statuses io job master io.objects

downloaded-statuses :
    (io : JobIo) (job : HlsJob) (made fetched : Option Error)
    → let (calls, failure) = downloaded io job made fetched in
      statuses calls ≡ (job.job_uuid, final_status failure) ∷ []
unfolding downloaded
downloaded-statuses io job (some e) fetched = refl
downloaded-statuses io job none (some e) = refl
downloaded-statuses io job none none =
    let (calls, failure) = sliced io job (io.slice io.local_input) in
    statuses-append calls (removes io.local_input ∷ [])
    ∙ ap (λ l. l ++ []) (sliced-statuses io job (io.slice io.local_input))

handle_job-statuses :
    (io : JobIo) (job : HlsJob) (candidate : Option Text)
    → let (calls, failure) = handle_job io job candidate in
      statuses calls ≡ (job.job_uuid, final_status failure) ∷ []
unfolding handle_job
handle_job-statuses io job (some file) = sliced-statuses io job (io.slice file)
handle_job-statuses io job none = downloaded-statuses io job io.make_dir io.download

Counted-once :
    (failure : Option Error) (now : ℕ) (st : WorkerStats)
    → let st' = finish_task (count_result failure (begin_task now st)) in
      (st'.processed_tasks ≡ (st.processed_tasks + 1) % 0x10000000000000000)
      × (st'.currently_running ≡ st.currently_running)
      × Counted st st' failure
unfolding begin_task count_result finish_task
Counted-once none now st = (refl, omega arith, success refl refl refl)
Counted-once (some e) now st = (refl, omega arith, failure_counted (λ p. cc) refl refl)

-- A turn of the loop writes two statuses, both under the job's own identifier: processing first, and at the end completed or
-- failed. It counts as one processed task, with one more success in the first case and one more
-- failure in the second, and the number of running tasks is as before.
pub work_on-ends :
    (io : JobIo) (job : HlsJob) (now : ℕ) (st : WorkerStats)
    → let (calls, st') = work_on io job now st in
      let failure = (handle_job io job io.candidate).1 in
      (statuses calls
        ≡ (job.job_uuid, HlsStatus.processing) ∷ (job.job_uuid, final_status failure) ∷ [])
      × (st'.processed_tasks ≡ (st.processed_tasks + 1) % 0x10000000000000000)
      × (st'.currently_running ≡ st.currently_running)
      × Counted st st' failure
unfolding work_on process_job
work_on-ends io job now st =
    let counts = Counted-once (handle_job io job io.candidate).1 now st in
    (
      ap (λ (l : List (Text × Text)). (job.job_uuid, HlsStatus.processing) ∷ l)
          (handle_job-statuses io job io.candidate),
      counts.0,
      counts.1,
      counts.2,
    )

told-append : (xs ys : List Call) → told (xs ++ ys) ≡ told xs ++ told ys
told-append [] ys = refl
told-append (tells_video _ _ st _ _ ∷ xs) ys = ap (λ l. st ∷ l) (told-append xs ys)
told-append (sets_status _ _ ∷ xs) ys = told-append xs ys
told-append (sets_error _ _ ∷ xs) ys = told-append xs ys
told-append (sets_output _ _ ∷ xs) ys = told-append xs ys
told-append (sets_progress _ _ ∷ xs) ys = told-append xs ys
told-append (reports_success _ _ _ ∷ xs) ys = told-append xs ys
told-append (reports_failure _ _ _ ∷ xs) ys = told-append xs ys
told-append (removes _ ∷ xs) ys = told-append xs ys
told-append (removes_all _ ∷ xs) ys = told-append xs ys

-- How the client of the video service may be called for a job: not at all, with the state published if
-- the job has completed, or with the state failed if it has.
abbrev pub MayHear : Option Error → List Text → Type 0
MayHear none l = (l ≡ []) ⊎ (l ≡ codes "published" ∷ [])
MayHear (some e) l = (l ≡ []) ⊎ (l ≡ HlsStatus.failed ∷ [])

complete-told : (io : JobIo) (job : HlsJob) (url : Text) → MayHear none (told (complete io job url))
unfolding complete
complete-told io job url = ground arith

handle_failure-told :
    (io : JobIo) (job : HlsJob) (e : Error) (text : Text)
    → MayHear (some e) (told (handle_failure io job text))
unfolding handle_failure
handle_failure-told io job e text = ground arith

told-clean_up : (io : JobIo) (job : HlsJob) → told (clean_up io job) ≡ []
told-clean_up io job = ground arith

MayHear-append :
    (failure : Option Error) (xs ys : List Call)
    → told ys ≡ []
    → MayHear failure (told xs)
    → MayHear failure (told (xs ++ ys))
MayHear-append none xs ys silent h = ground (arith, told-append xs ys, append-nil (told xs))
MayHear-append (some e) xs ys silent h = ground (arith, told-append xs ys, append-nil (told xs))

upload_ended-told :
    (io : JobIo) (job : HlsJob) (master : Option Text) (stored : Option Error)
    → let (calls, failure) = upload_ended io job master stored in MayHear failure (told calls)
unfolding upload_ended
upload_ended-told io job master (some e) = inl refl
upload_ended-told io job master none =
    let url = public_path io master in
    MayHear-append none (complete io job url) (clean_up io job) (told-clean_up io job)
      (complete-told io job url)

uploaded-told :
    (io : JobIo) (job : HlsJob) (master : Option Text) (objects : List Text)
    → let (calls, failure) = uploaded io job master objects in MayHear failure (told calls)
unfolding uploaded
uploaded-told io job master [] = inl refl
uploaded-told io job master (o ∷ os) = upload_ended-told io job master io.upload

sliced-told :
    (io : JobIo) (job : HlsJob) (r : Result Error (Option Text))
    → let (calls, failure) = sliced io job r in MayHear failure (told calls)
unfolding sliced
sliced-told io job (err e) = handle_failure-told io job e (slice_error io e)
sliced-told io job (ok master) = uploaded-told io job master io.objects

downloaded-told :
    (io : JobIo) (job : HlsJob) (made fetched : Option Error)
    → let (calls, failure) = downloaded io job made fetched in MayHear failure (told calls)
unfolding downloaded
downloaded-told io job (some e) fetched = inl refl
downloaded-told io job none (some e) = inl refl
downloaded-told io job none none =
    let (calls, failure) = sliced io job (io.slice io.local_input) in
    MayHear-append failure calls (removes io.local_input ∷ []) refl
      (sliced-told io job (io.slice io.local_input))

-- For a job `UpdateTranscodeResult` of the client of the video service is called once at most: with the
-- state published only if the job has completed, and with the state failed only if it has. The client
-- may repeat such a call.
pub handle_job-MayHear :
    (io : JobIo) (job : HlsJob) (candidate : Option Text)
    → let (calls, failure) = handle_job io job candidate in MayHear failure (told calls)
unfolding handle_job
handle_job-MayHear io job (some file) = sliced-told io job (io.slice file)
handle_job-MayHear io job none = downloaded-told io job io.make_dir io.download
