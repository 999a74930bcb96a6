-- ===== src/HlsQueue/Simulation.antt =====
-- The queue of HLS jobs is the task queue without its counts.
use go_video_transcode_servi.Common.{List, [], ◌∷◌, ◌≡◌, refl, arith}
use go_video_transcode_servi.Queue
use go_video_transcode_servi.Queue.{
  Queue, Call, enqueues, dequeues, tries, closes, measures, enqueue, dequeue, try_dequeue, close,
  get_metrics, run,
}
use go_video_transcode_servi.HlsQueue.{
  HlsQueue, step_jobs, run_jobs, enqueue_job, dequeue_job, try_dequeue_job, close_jobs,
}

module _ {ℓ} {A : Type ℓ} where
  abbrev pub forget : Queue A → HlsQueue A
  forget q = record { items = q.items; capacity = q.capacity; closed = q.closed }

  forget-step :
      (q : Queue A) (c : Call A)
      → step_jobs (forget q) c ≡ (forget (Queue.step q c).0, (Queue.step q c).1, (Queue.step q c).2)
  unfolding step_jobs Queue.step enqueue_job dequeue_job try_dequeue_job close_jobs enqueue dequeue
      try_dequeue close get_metrics
  forget-step q (enqueues pick ctx a) = ground arith
  forget-step q (dequeues pick ctx) = ground arith
  forget-step q tries = ground arith
  forget-step q closes = ground arith
  forget-step q measures = refl

  -- Over any history of calls the queue of HLS jobs does what the task queue does: it takes in and
  -- hands out the same items in the same order, and ends with the same items, the counts forgotten.
  pub run_jobs-forget :
      (q : Queue A) (cs : List (Call A))
      → run_jobs (forget q) cs ≡ (forget (run q cs).0, (run q cs).1, (run q cs).2)
  unfolding run_jobs run
  run_jobs-forget q [] = refl
  run_jobs-forget q (c ∷ cs) =
      rw (forget-step q c) (rw (run_jobs-forget (Queue.step q c).0 cs) refl)
