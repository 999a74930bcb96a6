-- ===== src/Consumer/Intake.antt =====
-- When the consumer pauses, and what a committed message has led to.
use go_video_transcode_servi.Common.{
  ℕ, suc, ◌+◌, ◌*◌, to_int64, ◌≤◌, leb, ℤ, Text, true, false, List, [], ◌∷◌, ◌≡◌, ◌⊎◌, ◌↔◌, refl,
  arith, Option, none, some, Error, Result, ok, err, Bool-cases, inl, inr, if◌then◌else◌,
}
use go_video_transcode_servi.Runtime.{Runtime}
use go_video_transcode_servi.Status.{processing}
use go_video_transcode_servi.Store.{Repository}
use go_video_transcode_servi.Task.{Task}
use go_video_transcode_servi.Dto.{new_task_dto}
use go_video_transcode_servi.App.{Services, create_transcode_task}
use go_video_transcode_servi.App.Create.{
  QueueLaws, Outcome, Active, HandedOut, created, existing, refused, create_transcode_task-Outcome,
}
use go_video_transcode_servi.Consumer.{
  KafkaTask, CommitPolicy, is_fresh, count_running, listed, limit_of, is_busy, should_pause,
  to_request, is_committed, handle_decoded, handle_message,
}

-- The fresh tasks of a list, all of them counted.
abbrev pub fresh : ℕ → ℕ → List (Option Task) → ℕ
fresh window now [] = 0
fresh window now (none ∷ rest) = fresh window now rest
fresh window now (some t ∷ rest) =
    let later = fresh window now rest in if is_fresh window now t then suc later else later

-- Ending the loop early does not change whether the limit is reached.
count_running_iff :
    (limit window now running : ℕ) (list : List (Option Task))
    → leb limit (count_running limit window now running list)
      ≡ leb limit (running + fresh window now list)
unfolding count_running
count_running_iff limit window now running [] = ground arith
count_running_iff limit window now running (none ∷ rest) =
    count_running_iff limit window now running rest
count_running_iff limit window now running (some t ∷ rest) =
    elim (Bool-cases (is_fresh window now t)) [
      | inl new ↦ rw new (ground (arith, count_running_iff limit window now (suc running) rest))
      | inr old ↦ rw old (ground (arith, count_running_iff limit window now running rest))
    ]

is_busy_iff :
    (limit window now : ℕ) (found : Result Error (List (Option Task))) (size : ℕ)
    → (is_busy limit window now found size ≡ true)
      ↔ ((limit ≤ fresh window now (listed found)) ⊎ (limit ≤ size))
unfolding is_busy
is_busy_iff limit window now found size =
    let e = count_running_iff limit window now 0 (listed found) in ground (arith, e)

-- The consumer asks for the tasks in processing, twice its limit at most, which is at least 1. It pauses
-- exactly if of those listed, none where the query fails, as many as the limit have been touched within
-- the window, or the queue then holds as many.
pub should_pause_iff :
    {S : Type 0} (repo : Repository S) (queue_size : S → ℕ) (max : ℤ) (window now : ℕ) (s : S)
    → let (found, s') = repo.query_by_status processing (to_int64 (limit_of max * 2)) s in
      ((should_pause (some repo) queue_size max window now s).0 ≡ true)
      ↔ ((limit_of max ≤ fresh window now (listed found)) ⊎ (limit_of max ≤ queue_size s'))
unfolding should_pause
should_pause_iff repo queue_size max window now s =
    let (found, s') = repo.query_by_status processing (to_int64 (limit_of max * 2)) s in
    is_busy_iff (limit_of max) window now found (queue_size s')

module _ {S : Type 0} (rt : Runtime) (env : Services S) (queue : S → List Task)
    (laws : QueueLaws env queue) where
  -- The application's call for the message succeeds from `s` on, with a task for its video: the one item
  -- that is added to the end of the queue, or one that the repository lists as pending or
  -- processing, with the queue as it was.
  pub record Accepted (m : KafkaTask) (s : S) : Type 0 where
    pub task : Task
    pub answer : (create_transcode_task rt env (to_request m) s).0 ≡ ok (new_task_dto task)
    pub video : task.video_uuid ≡ m.video_uuid
    pub handed :
        HandedOut
          (Active env s)
          (queue s)
          (queue (create_transcode_task rt env (to_request m) s).1)
          task

  Outcome-Accepted :
      (policy : CommitPolicy) (m : KafkaTask) (s : S)
      → policy.commit_on_process_error ≡ false
      → is_committed policy (create_transcode_task rt env (to_request m) s).0 ≡ true
      → Outcome
          (Active env s)
          m.video_uuid
          (queue s)
          (queue (create_transcode_task rt env (to_request m) s).1)
          (create_transcode_task rt env (to_request m) s).0
      → Accepted m s
  Outcome-Accepted policy m s off h (created t e p v q) = record {
    task = t;
    answer = e;
    video = v;
    handed = inl q;
  }
  Outcome-Accepted policy m s off h (existing t e v k q) = record {
    task = t;
    answer = e;
    video = v;
    handed = inr (q, k);
  }
  Outcome-Accepted policy m s off h (refused x e q) = absurd (ground arith)

  -- Where errors are not committed, a message that is committed has a body that could be read, and
  -- there is a task for its video: one that has been added to the end of the queue, or one
  -- that the repository lists as pending or processing, with the queue as it was.
  pub handle_message-Accepted :
      (policy : CommitPolicy) (unmarshal : Text → Result Error KafkaTask) (body : Text) (s : S)
      → policy.commit_on_decode_error ≡ false
      → policy.commit_on_process_error ≡ false
      → (handle_message rt env policy unmarshal body s).0 ≡ true
      → (m : KafkaTask) × (unmarshal body ≡ ok m) × Accepted m s
  unfolding handle_message handle_decoded to_request
  handle_message-Accepted policy unmarshal body s no_decode no_process h = go (unmarshal body) h
    where
      go :
          (r : Result Error KafkaTask)
          → (handle_decoded rt env policy r s).0 ≡ true
          → (m : KafkaTask) × (r ≡ ok m) × Accepted m s
      go (err e) c = absurd (ground arith)
      go (ok m) c = (
        m,
        refl,
        Outcome-Accepted policy m s no_process c
            (create_transcode_task-Outcome rt env queue laws (to_request m) s),
      )
