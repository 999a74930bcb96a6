-- ===== src/Worker/Recovery/Queued.antt =====
-- What a recovery puts into the queue.
use go_video_transcode_servi.Common.{
  ℕ, ◌+◌, ◌≤◌, pos, false, Bool-cases, Option-cases, List, [], ◌∷◌, ◌++◌, ◌≡◌, ◌⊎◌, inl, inr, refl,
  sym, ap, ◌∙◌, arith, Option, none, some, Error, Result, ok, err, if◌then◌else◌,
}
use mathlib.Core.Option.{some_inj}
use mathlib.Core.Path.{subst}
use mathlib.Core.List.{append-nil, append_assoc}
use go_video_transcode_servi.Status.{pending, processing}
use go_video_transcode_servi.Task.{Task}
use go_video_transcode_servi.App.{Services}
use go_video_transcode_servi.App.Create.{QueueLaws}
use go_video_transcode_servi.Worker.Recovery.{
  is_recent, requeued, recover_task, recover_each, recover_found, recover_stuck_tasks,
}

-- In nanoseconds.
abbrev hour : ℕ
hour = 3600000000000

-- Some of the stuck tasks of a list, in its order: those untouched for an hour.
data StuckOf (now : ℕ) : List (Option Task) → List Task → Type 0 where
  none_left : StuckOf now [] []
  passed :
      {o : Option Task} {listed : List (Option Task)} {chosen : List Task}
      → StuckOf now listed chosen
      → StuckOf now (o ∷ listed) chosen
  chosen :
      (t : Task) {listed : List (Option Task)} {more : List Task}
      → t.updated_at + hour ≤ now
      → StuckOf now listed more
      → StuckOf now (some t ∷ listed) (t ∷ more)

-- The queue before and after a recovery at the time `now`.
pub Recovered : ℕ → Result Error (List (Option Task)) → List Task → List Task → Type 0
Recovered now (err e) before after = after ≡ before
Recovered now (ok ts) before after =
    (more : List Task) × StuckOf now ts more × (after ≡ before ++ more)

module _ {S : Type 0} (env : Services S) (queue : S → List Task) (laws : QueueLaws env queue) where
  requeued-queue :
      (t : Task) (failed : Option Error) (s : S)
      → (queue (requeued env t failed s) ≡ queue s)
        ⊎ (queue (requeued env t failed s) ≡ queue s ++ t ∷ [])
  unfolding requeued
  requeued-queue t (some e) s = inl refl
  requeued-queue t none s = elim (Option-cases (env.enqueue_task t s).0) [
    | inl taken ↦ inr (laws.enqueue_adds t s taken)
    | inr (e, full) ↦ inl (laws.enqueue_refuses t s (λ none_there. cc (none_there, full)))
  ]

  recover_task-queue :
      (t : Task) (s : S)
      → (queue (recover_task env t s) ≡ queue s)
        ⊎ (queue (recover_task env t s) ≡ queue s ++ t ∷ [])
  unfolding recover_task
  recover_task-queue t s =
      rw (← laws.update_keeps t.task_uuid pending [] t.output_path (pos 0) s) (requeued-queue t _ _)

  -- What becomes of one task of the list.
  step-queue :
      (now : ℕ) (t : Task) (s : S)
      → let s' = if is_recent now t then s else recover_task env t s in
        (queue s' ≡ queue s) ⊎ ((is_recent now t ≡ false) × (queue s' ≡ queue s ++ t ∷ []))
  step-queue now t s = elim (Bool-cases (is_recent now t)) [
    | inl recent ↦ rw recent (inl refl)
    | inr old ↦ elim (recover_task-queue t s) [
      | inl kept ↦ inl (rw old kept)
      | inr added ↦ inr (old, rw old added)
    ]
  ]

  untouched : (now : ℕ) (t : Task) → is_recent now t ≡ false → t.updated_at + hour ≤ now
  untouched now t old = ground arith

  -- Behind a task, from what the rest of the list does.
  grown :
      (now : ℕ) (t : Task) (ts : List (Option Task)) (more : List Task)
      (before middle after : List Task)
      → StuckOf now ts more
      → after ≡ middle ++ more
      → (middle ≡ before) ⊎ ((is_recent now t ≡ false) × (middle ≡ before ++ t ∷ []))
      → (all : List Task) × StuckOf now (some t ∷ ts) all × (after ≡ before ++ all)
  grown now t ts more before middle after stuck e (inl same) =
      (more, passed stuck, e ∙ ap (λ l. l ++ more) same)
  grown now t ts more before middle after stuck e (inr (old, added)) = (
    t ∷ more,
    chosen t (untouched now t old) stuck,
    e ∙ ap (λ l. l ++ more) added ∙ append_assoc before (t ∷ []) more,
  )

  recover_each-queue :
      (now : ℕ) (ts : List (Option Task)) (s s' : S)
      → recover_each env now ts s ≡ some s'
      → (more : List Task) × StuckOf now ts more × (queue s' ≡ queue s ++ more)
  unfolding recover_each
  recover_each-queue now [] s s' h =
      ([], none_left, ap queue (sym (some_inj.0 h)) ∙ sym (append-nil (queue s)))
  recover_each-queue now (none ∷ ts) s s' h = absurd (ground arith)
  recover_each-queue now (some t ∷ ts) s s' h =
      let s1 = if is_recent now t then s else recover_task env t s in
      let (more, stuck, e) = recover_each-queue now ts s1 s' h in
      grown now t ts more (queue s) (queue s1) (queue s') stuck e (step-queue now t s)

  found-queue :
      (found : Result Error (List (Option Task))) (s s' : S)
      → recover_found env found s ≡ some s'
      → Recovered (env.now s).0 found (queue s) (queue s')
  unfolding recover_found Recovered
  found-queue (err e) s s' h = ap queue (sym (some_inj.0 h))
  found-queue (ok ts) s s' h =
      let (now, s1) = env.now s in
      let (more, stuck, e) = recover_each-queue now ts s1 s' h in
      (more, stuck, e ∙ ap (λ l. l ++ more) (laws.now_keeps s))

  -- A recovery that does not fault adds to the end of the queue some of the tasks that are listed as
  -- processing, in the order of the list, each untouched for an hour at the time that the clock gives
  -- behind the query, and changes nothing else in it; a query that fails adds none.
  pub recover_stuck_tasks-queue :
      (s s' : S)
      → recover_stuck_tasks env s ≡ some s'
      → let (found, s1) = env.query_by_status processing (pos 100) s in
        Recovered (env.now s1).0 found (queue s) (queue s')
  unfolding recover_stuck_tasks
  recover_stuck_tasks-queue s s' h =
      subst
        (λ q.
          let (found, s1) = env.query_by_status processing (pos 100) s in
          Recovered (env.now s1).0 found q (queue s'))
        (laws.query_keeps processing (pos 100) s) (found-queue _ _ s' h)
