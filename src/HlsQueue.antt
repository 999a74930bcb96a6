-- ===== src/HlsQueue.antt =====
-- The bounded queue of HLS jobs (ddd/infrastructure/queue/hls_job_queue.go), which keeps no counts.
-- A call is one step, on the channel; as in Queue, `pick` chooses where two cases of a select are ready.
pub mod Simulation
use go_video_transcode_servi.Common.{
  ℕ, ℤ, pos, leb_ℤ, ltb_ℤ, pos_part, codes, Bool, true, false, ltb, ◌==◌, ◌&&◌, List, [], ◌∷◌, ◌++◌,
  Option, none, some, Error, plain, Result, ok, err, length, if◌then◌else◌,
}
use go_video_transcode_servi.Queue.{
  Context, queue_closed, queue_full, Call, enqueues, dequeues, tries, closes, measures,
}

pub record HlsQueue {ℓ} (A : Type ℓ) : Type ℓ where
  pub items : List A
  pub capacity : ℕ
  pub closed : Bool

abbrev job_nil : Error
job_nil = plain (codes "job cannot be nil")

-- The capacity of the default queue, from the configured one (`none` without a configuration).
unfoldable default_hls_capacity : Option ℤ → ℤ
default_hls_capacity none = pos 100
default_hls_capacity (some configured) = if ltb_ℤ (pos 0) configured then configured else pos 100

module _ {ℓ} {A : Type ℓ} where
  unfoldable new_hls_queue : ℤ → HlsQueue A
  new_hls_queue capacity = record {
    items = [];
    capacity = if leb_ℤ capacity (pos 0) then 100 else pos_part capacity;
    closed = false;
  }

  abbrev send_job : A → HlsQueue A → HlsQueue A
  send_job a q = record q { items = q.items ++ a ∷ [] }

  select_send_job : Bool → Context → A → HlsQueue A → HlsQueue A × Option Error
  select_send_job pick none a q =
      if ltb (length q.items) q.capacity then (send_job a q, none) else (q, some queue_full)
  select_send_job pick (some e) a q =
      if ltb (length q.items) q.capacity && pick then (send_job a q, none) else (q, some e)

  enqueue_job_open : Bool → Context → Option A → HlsQueue A → HlsQueue A × Option Error
  unfolding select_send_job
  enqueue_job_open pick ctx none q = (q, some job_nil)
  enqueue_job_open pick ctx (some a) q = select_send_job pick ctx a q

  unfoldable pub enqueue_job : Bool → Context → Option A → HlsQueue A → HlsQueue A × Option Error
  unfolding enqueue_job_open
  enqueue_job pick ctx job q =
      if q.closed then (q, some queue_closed) else enqueue_job_open pick ctx job q

  receive_job : Bool → Context → List A → HlsQueue A → Option (HlsQueue A × Result Error A)
  receive_job pick none [] q = none
  receive_job pick none (a ∷ rest) q = some (record q { items = rest }, ok a)
  receive_job pick (some e) [] q = some (q, err e)
  receive_job pick (some e) (a ∷ rest) q =
      if pick then some (record q { items = rest }, ok a) else some (q, err e)

  -- `none` while the call waits.
  unfoldable pub dequeue_job : Bool → Context → HlsQueue A → Option (HlsQueue A × Result Error A)
  unfolding receive_job
  dequeue_job pick ctx q =
      if q.closed then some (q, err queue_closed) else receive_job pick ctx q.items q

  try_receive_job : List A → HlsQueue A → HlsQueue A × Option A
  try_receive_job [] q = (q, none)
  try_receive_job (a ∷ rest) q = (record q { items = rest }, some a)

  unfoldable pub try_dequeue_job : HlsQueue A → HlsQueue A × Result Error (Option A)
  unfolding try_receive_job
  try_dequeue_job q =
      if q.closed
      then (q, err queue_closed)
      else (let (q', a) = try_receive_job q.items q in (q', ok a))

  unfoldable size_of_jobs : HlsQueue A → ℕ
  size_of_jobs q = if q.closed then 0 else length q.items

  unfoldable has_no_jobs : HlsQueue A → Bool
  unfolding size_of_jobs
  has_no_jobs q = size_of_jobs q == 0

  unfoldable pub close_jobs : HlsQueue A → HlsQueue A
  close_jobs q = if q.closed then q else record q { closed = true }

  abbrev taken_job : Result Error A → List A
  taken_job (ok a) = a ∷ []
  taken_job (err e) = []

  abbrev tried_job : Result Error (Option A) → List A
  tried_job (ok (some a)) = a ∷ []
  tried_job (ok none) = []
  tried_job (err e) = []

  abbrev offered_job : Option A → Option Error → List A
  offered_job (some a) none = a ∷ []
  offered_job _ _ = []

  -- The effect of a call, as that of a task queue is recorded. There are no metrics to read.
  unfoldable pub step_jobs : HlsQueue A → Call A → HlsQueue A × List A × List A
  unfolding enqueue_job dequeue_job try_dequeue_job close_jobs
  step_jobs q (enqueues pick ctx a) =
      let (q', e) = enqueue_job pick ctx a q in (q', offered_job a e, [])
  step_jobs q (dequeues pick ctx) = elim (dequeue_job pick ctx q) [
    | none ↦ (q, [], [])
    | some (q', r) ↦ (q', [], taken_job r)
  ]
  step_jobs q tries = let (q', r) = try_dequeue_job q in (q', [], tried_job r)
  step_jobs q closes = (close_jobs q, [], [])
  step_jobs q measures = (q, [], [])

  unfoldable pub run_jobs : HlsQueue A → List (Call A) → HlsQueue A × List A × List A
  run_jobs q [] = (q, [], [])
  run_jobs q (c ∷ cs) =
      let (q', put, got) = step_jobs q c in
      let (r, puts, gots) = run_jobs q' cs in (r, put ++ puts, got ++ gots)
