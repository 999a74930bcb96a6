-- ===== src/App/Create.antt =====
-- `CreateTranscodeTask`: which task is handed out, and what reaches the queue.
use mathlib.Core.Path.{subst}
use go_video_transcode_servi.Common.{
  ◌⊎◌, ℤ, pos, Text, text_eq, text_eq_iff, sym, ◌≡◌, ◌≢◌, inl, inr, refl, ◌∙◌, arith, Option, none,
  some, Result, ok, err, List, [], ◌∷◌, ◌++◌, Bool-cases, Option-cases, is_empty, Error,
}
use go_video_transcode_servi.Runtime.{Runtime}
use go_video_transcode_servi.Status.{TaskStatus, pending, processing}
use go_video_transcode_servi.Params.{TranscodeParams, new_transcode_params}
use go_video_transcode_servi.Task.{Task, default_task}
use go_video_transcode_servi.Errno.{
  AppError, Errno, errno, biz, database, invalid_param, queue_is_full,
}
use go_video_transcode_servi.Request.{CreateTranscodeTaskReq, validate, check_hls}
use go_video_transcode_servi.Dto.{TranscodeTaskDto, new_task_dto}
use go_video_transcode_servi.App.{
  Services, find_video, answered, find_active, find_active_by_video, fail_created, enqueue_created,
  with_row, store_created, with_params, create_checked, create_new, create_or_existing,
  create_transcode_task,
}

-- What the queue and the database promise each other: a call to the database, the clock or the
-- source of identifiers leaves the queue alone, and `Enqueue` appends the task if it succeeds.
pub record QueueLaws {S : Type 0} (env : Services S) (queue : S → List Task) : Type 0 where
  pub query_keeps :
      (st : TaskStatus) (limit : ℤ) (s : S) → queue (env.query_by_status st limit s).1 ≡ queue s
  pub create_keeps : (t : Task) (s : S) → queue (env.create_job t s).1 ≡ queue s
  pub update_keeps :
      (id : Text) (st : TaskStatus) (message path : Text) (progress : ℤ) (s : S)
      → queue (env.update_status id st message path progress s).1 ≡ queue s
  pub now_keeps : (s : S) → queue (env.now s).1 ≡ queue s
  pub uuid_keeps : (s : S) → queue (env.new_uuid s).1 ≡ queue s
  pub enqueue_adds :
      (t : Task) (s : S)
      → (env.enqueue_task t s).0 ≡ none
      → queue (env.enqueue_task t s).1 ≡ queue s ++ t ∷ []
  pub enqueue_refuses :
      (t : Task) (s : S)
      → (env.enqueue_task t s).0 ≢ none
      → queue (env.enqueue_task t s).1 ≡ queue s

-- The task is one of a query's answer.
pub data Holds (t : Task) : List (Option Task) → Type 0 where
  here : {rest : List (Option Task)} → Holds t (some t ∷ rest)
  there : {o : Option Task} {rest : List (Option Task)} → Holds t rest → Holds t (o ∷ rest)

-- One of the queries for these states, made one behind the other from `s` on, answers with the task.
pub data Stored {S : Type 0} (env : Services S) (t : Task) : List TaskStatus → S → Type 0 where
  in_answer :
      {st : TaskStatus} {sts : List TaskStatus} {s : S} (list : List (Option Task))
      → (env.query_by_status st (pos 100) s).0 ≡ ok list
      → Holds t list
      → Stored env t (st ∷ sts) s
  behind :
      {st : TaskStatus} {sts : List TaskStatus} {s : S}
      → Stored env t sts (env.query_by_status st (pos 100) s).1
      → Stored env t (st ∷ sts) s

-- The task is stored as pending or in processing, as the database answers from `s` on.
abbrev pub Active : {S : Type 0} → Services S → S → Task → Type 0
Active env s t = Stored env t (pending ∷ processing ∷ []) s

-- The ways in which a call can end, by its answer and the queue before and after it.
pub data Outcome (stored : Task → Type 0) (video : Text) (before : List Task) (after : List Task)
    (answer : Result AppError TranscodeTaskDto) : Type 0 where
  -- a new pending task for the video, which is the one item added
  created :
      (t : Task)
      → answer ≡ ok (new_task_dto t)
      → t.status ≡ pending
      → t.video_uuid ≡ video
      → after ≡ before ++ t ∷ []
      → Outcome stored video before after answer
  -- a stored task for the video, with nothing added
  existing :
      (t : Task)
      → answer ≡ ok (new_task_dto t)
      → t.video_uuid ≡ video
      → stored t
      → after ≡ before
      → Outcome stored video before after answer
  refused :
      (e : AppError) → answer ≡ err e → after ≡ before → Outcome stored video before after answer

-- A task that is handed out: the one item added to the end of the queue, or one that is stored, with
-- the queue as it was.
abbrev pub HandedOut : (Task → Type 0) → List Task → List Task → Task → Type 0
HandedOut stored before after t = (after ≡ before ++ t ∷ []) ⊎ ((after ≡ before) × stored t)

find_video_sound :
    (video : Text) (l : List (Option Task)) (t : Task)
    → find_video video l ≡ some t
    → (t.video_uuid ≡ video) × Holds t l
unfolding find_video
find_video_sound video [] t h = cc
find_video_sound video (none ∷ l) t h = let (v, m) = find_video_sound video l t h in (v, there m)
find_video_sound video (some u ∷ l) t h = elim (Bool-cases (text_eq u.video_uuid video)) [
  | inl same ↦
      let e : u ≡ t = ground (arith, h, same) in
      (
        (text_eq_iff t.video_uuid video).0 (rw (← e) same),
        subst (λ v. Holds t (some v ∷ l)) (sym e) here,
      )
  | inr other ↦ let (v, m) = find_video_sound video l t (ground (arith, h, other)) in (v, there m)
]

validate-video : (req : CreateTranscodeTaskReq) → (validate req).0.video_uuid ≡ req.video_uuid
unfolding validate check_hls
validate-video req = ground arith

module _ {S : Type 0} (rt : Runtime) (env : Services S) (queue : S → List Task)
    (laws : QueueLaws env queue) where
  answered-keeps :
      (video : Text) (r : Result Error (List (Option Task))) (s : S) (later : Option Task × S)
      → queue later.1 ≡ queue s
      → queue (answered video r s later).1 ≡ queue s
  unfolding answered
  answered-keeps video (err e) s later h = h
  answered-keeps video (ok list) s later h = ground arith

  find_active-keeps :
      (video : Text) (sts : List TaskStatus) (s : S)
      → queue (find_active rt env video sts s).1 ≡ queue s
  unfolding find_active
  find_active-keeps video [] s = refl
  find_active-keeps video (st ∷ sts) s =
      answered-keeps video (env.query_by_status st (pos 100) s).0
        (env.query_by_status st (pos 100) s).1
        (find_active rt env video sts (env.query_by_status st (pos 100) s).1)
        (find_active-keeps video sts (env.query_by_status st (pos 100) s).1)
      ∙ laws.query_keeps st (pos 100) s

  answered_sound :
      (P : Task → Type 0) (video : Text) (r : Result Error (List (Option Task))) (s : S)
      (later : Option Task × S) (t : Task)
      → (later.0 ≡ some t → (t.video_uuid ≡ video) × P t)
      → ((list : List (Option Task)) → r ≡ ok list → Holds t list → P t)
      → (answered video r s later).0 ≡ some t
      → (t.video_uuid ≡ video) × P t
  unfolding answered
  answered_sound P video (err e) s later t p known h = p h
  answered_sound P video (ok list) s later t p known h =
      elim (Option-cases (find_video video list)) [
        | inl missing ↦ p (ground arith)
        | inr (u, hit) ↦
            let (v, m) = find_video_sound video list t (ground arith) in (v, known list refl m)
      ]

  find_active_sound :
      (video : Text) (sts : List TaskStatus) (s : S) (t : Task)
      → (find_active rt env video sts s).0 ≡ some t
      → (t.video_uuid ≡ video) × Stored env t sts s
  unfolding find_active
  find_active_sound video [] s t h = cc
  find_active_sound video (st ∷ sts) s t h =
      let (r, s') = env.query_by_status st (pos 100) s in
      answered_sound (λ u. Stored env u (st ∷ sts) s) video r s' (find_active rt env video sts s') t
        (λ found. let (v, m) = find_active_sound video sts s' t found in (v, behind m))
        (λ list e m. in_answer list e m) h

  find_active_by_video-facts :
      (video : Text) (s : S)
      → (queue (find_active_by_video rt env video s).1 ≡ queue s)
        × ((t : Task)
            → (find_active_by_video rt env video s).0 ≡ some t
            → (t.video_uuid ≡ video) × Active env s t)
  unfolding find_active_by_video
  find_active_by_video-facts video s = elim (Bool-cases (is_empty video)) [
    | inl blank ↦ rw blank (refl, λ t h. cc)
    | inr named ↦ rw named (
      find_active-keeps video (pending ∷ processing ∷ []) s,
      find_active_sound video (pending ∷ processing ∷ []) s,
    )
  ]

  fail_created-keeps :
      (t : Task) (e : Error) (s : S)
      → ((fail_created rt env t e s).0 ≡ err (errno queue_is_full))
        × (queue (fail_created rt env t e s).1 ≡ queue s)
  unfolding fail_created
  fail_created-keeps t e s =
      (refl, laws.update_keeps _ _ _ _ _ _ ∙ laws.now_keeps _ ∙ laws.now_keeps s)

  module _ (stored : Task → Type 0) where
    enqueue_created-Outcome :
        (t : Task) (s : S)
        → t.status ≡ pending
        → Outcome stored t.video_uuid
            (queue s)
            (queue (enqueue_created rt env t s).1)
            (enqueue_created rt env t s).0
    unfolding enqueue_created
    enqueue_created-Outcome t s p = elim (Option-cases (env.enqueue_task t s).0) [
      | inl accepted ↦ created t (ground arith) p refl (ground (arith, laws.enqueue_adds t s))
      | inr (e, full) ↦
          let (answer, kept) = fail_created-keeps t e (env.enqueue_task t s).1 in
          refused (errno queue_is_full) (ground arith) (ground (arith, laws.enqueue_refuses t s))
    ]

    with_row-Outcome :
        (t : Task) (failure : Option Error) (s : S)
        → t.status ≡ pending
        → Outcome stored t.video_uuid
            (queue s)
            (queue (with_row rt env t failure s).1)
            (with_row rt env t failure s).0
    unfolding with_row
    with_row-Outcome t none s p = enqueue_created-Outcome t s p
    with_row-Outcome t (some e) s p = refused (biz database e) refl refl

    store_created-Outcome :
        (t : Task) (s : S)
        → t.status ≡ pending
        → Outcome stored t.video_uuid
            (queue s)
            (queue (store_created rt env t s).1)
            (store_created rt env t s).0
    unfolding store_created
    store_created-Outcome t s p =
        rw (← laws.create_keeps t s)
          (with_row-Outcome t (env.create_job t s).0 (env.create_job t s).1 p)

    create_new-Outcome :
        (req : CreateTranscodeTaskReq) (params : TranscodeParams) (s : S)
        → Outcome stored req.video_uuid
            (queue s)
            (queue (create_new rt env req params s).1)
            (create_new rt env req params s).0
    unfolding create_new default_task
    create_new-Outcome req params s = rw (← laws.uuid_keeps s) (
        rw (← laws.now_keeps (env.new_uuid s).1)
          (store_created-Outcome _ (env.now (env.new_uuid s).1).1 refl))

    with_params-Outcome :
        (req : CreateTranscodeTaskReq) (params : Result Error TranscodeParams) (s : S)
        → Outcome stored req.video_uuid
            (queue s)
            (queue (with_params rt env req params s).1)
            (with_params rt env req params s).0
    unfolding with_params
    with_params-Outcome req (ok params) s = create_new-Outcome req params s
    with_params-Outcome req (err e) s = refused (biz invalid_param e) refl refl

    create_or_existing-Outcome :
        (req : CreateTranscodeTaskReq) (found : Option Task) (s : S)
        → ((t : Task) → found ≡ some t → (t.video_uuid ≡ req.video_uuid) × stored t)
        → Outcome stored req.video_uuid
            (queue s)
            (queue (create_or_existing rt env req found s).1)
            (create_or_existing rt env req found s).0
    unfolding create_or_existing
    create_or_existing-Outcome req (some t) s h = let (v, k) = h t refl in existing t refl v k refl
    create_or_existing-Outcome req none s h =
        with_params-Outcome req (new_transcode_params rt req.resolution req.bitrate) s

  create_checked-Outcome :
      (req : CreateTranscodeTaskReq) (invalid : Option Errno) (s : S)
      → Outcome
          (Active env s)
          req.video_uuid
          (queue s)
          (queue (create_checked rt env req invalid s).1)
          (create_checked rt env req invalid s).0
  unfolding create_checked
  create_checked-Outcome req (some e) s = refused (errno e) refl refl
  create_checked-Outcome req none s =
      let (kept, sound) = find_active_by_video-facts req.video_uuid s in
      let (found, s') = find_active_by_video rt env req.video_uuid s in
      rw (← kept) (create_or_existing-Outcome (Active env s) req found s' sound)

  -- A call that succeeds hands out a task for the video that was asked for: a new pending task, which
  -- has then been added to the end of the queue, or one that the database holds, and then the queue
  -- is as before. A call that fails, at whatever point, leaves the queue as it was.
  pub create_transcode_task-Outcome :
      (req : CreateTranscodeTaskReq) (s : S)
      → Outcome
          (Active env s)
          req.video_uuid
          (queue s)
          (queue (create_transcode_task rt env req s).1)
          (create_transcode_task rt env req s).0
  unfolding create_transcode_task
  create_transcode_task-Outcome req s =
      let result = create_checked rt env (validate req).0 (validate req).1 s in
      subst (λ video. Outcome (Active env s) video (queue s) (queue result.1) result.0)
        (validate-video req) (create_checked-Outcome (validate req).0 (validate req).1 s)
