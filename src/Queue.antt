-- ===== src/Queue.antt =====
-- The bounded queue in memory (ddd/infrastructure/queue/task_queue.go, with the copy for HLS jobs in
-- hls_job_queue.go). The channel is the list of its items, oldest first. The functions of the calls
-- are what a call does by itself: the operation on the channel, then the count of it, which are two
-- steps. What calls do that interleave between these steps is in Queue/Interleaved. What a select does
-- when more than one case is ready is the argument `pick`.
pub mod Fifo
pub mod Interleaved
pub mod Priority
use go_video_transcode_servi.Common.{
  ℕ, zero, suc, ◌+◌, ◌/◌, ℤ, pos, negsuc, leb_ℤ, pos_part, Text, codes, Bool, true, false, ltb, leb,
  ◌==◌, List, [], ◌∷◌, ◌++◌, Option, none, some, Error, plain, Result, ok, err, length,
  if◌then◌else◌, ◌&&◌,
}

pub record Queue {ℓ} (A : Type ℓ) : Type ℓ where
  pub items : List A
  pub capacity : ℕ
  pub closed : Bool
  pub enqueue_count : ℕ  -- uint64, which no run of the service exhausts
  pub dequeue_count : ℕ
  pub max_size : ℕ
  pub current_size : ℕ

-- A context: what `Err` returns, so `some` once the context is done.
abbrev pub Context : Type 0
Context = Option Error

abbrev pub queue_closed : Error
queue_closed = plain (codes "queue is closed")

abbrev pub queue_full : Error
queue_full = plain (codes "queue is full")

abbrev task_nil : Error
task_nil = plain (codes "task cannot be nil")

module _ {ℓ} {A : Type ℓ} where
  unfoldable pub new_queue : ℤ → Queue A
  new_queue capacity =
      let n = if leb_ℤ capacity (pos 0) then 1000 else pos_part capacity in
      record {
        items = [];
        capacity = n;
        closed = false;
        enqueue_count = 0;
        dequeue_count = 0;
        max_size = n;
        current_size = 0;
      }

  abbrev has_room : Queue A → Bool
  has_room q = ltb (length q.items) q.capacity

  -- The channel takes an item.
  abbrev pub put_item : A → Queue A → Queue A
  put_item a q = record q { items = q.items ++ a ∷ [] }

  -- updateEnqueueMetrics, under the lock of the metrics.
  abbrev pub count_enqueue : Queue A → Queue A
  count_enqueue q = record q { enqueue_count = suc q.enqueue_count }

  -- The channel hands out its oldest item, and keeps the rest.
  abbrev pub take_item : List A → Queue A → Queue A
  take_item rest q = record q { items = rest }

  -- updateDequeueMetrics, under the lock of the metrics.
  abbrev pub count_dequeue : Queue A → Queue A
  count_dequeue q = record q { dequeue_count = suc q.dequeue_count }

  -- The case of the select that sends: the channel takes the item, then the count goes up.
  abbrev pub send : A → Queue A → Queue A
  send a q = count_enqueue (put_item a q)

  -- `select` with a default: send, or see that the context is done, or find the channel full. `pick`
  -- chooses the send where both are ready.
  select_send : Bool → Context → A → Queue A → Queue A × Option Error
  select_send pick none a q = if has_room q then (send a q, none) else (q, some queue_full)
  select_send pick (some e) a q = if has_room q && pick then (send a q, none) else (q, some e)

  enqueue_open : Bool → Context → Option A → Queue A → Queue A × Option Error
  unfolding select_send
  enqueue_open pick ctx none q = (q, some task_nil)
  enqueue_open pick ctx (some a) q = select_send pick ctx a q

  unfoldable pub enqueue : Bool → Context → Option A → Queue A → Queue A × Option Error
  unfolding enqueue_open
  enqueue pick ctx task q =
      if q.closed then (q, some queue_closed) else enqueue_open pick ctx task q

  -- The case of a select that receives: the channel hands out an item, then the count goes up.
  receive : Queue A → A → List A → Queue A
  receive q a rest = count_dequeue (take_item rest q)

  -- `none` while the call waits: the channel is empty and the context not done.
  select_receive : Bool → Context → List A → Queue A → Option (Queue A × Result Error A)
  unfolding receive
  select_receive pick none [] q = none
  select_receive pick none (a ∷ rest) q = some (receive q a rest, ok a)
  select_receive pick (some e) [] q = some (q, err e)
  select_receive pick (some e) (a ∷ rest) q =
      if pick then some (receive q a rest, ok a) else some (q, err e)

  unfoldable pub dequeue : Bool → Context → Queue A → Option (Queue A × Result Error A)
  unfolding select_receive
  dequeue pick ctx q =
      if q.closed then some (q, err queue_closed) else select_receive pick ctx q.items q

  try_receive : List A → Queue A → Queue A × Option A
  unfolding receive
  try_receive [] q = (q, none)
  try_receive (a ∷ rest) q = (receive q a rest, some a)

  -- `ok none` is the answer (nil, nil) of an empty queue.
  unfoldable pub try_dequeue : Queue A → Queue A × Result Error (Option A)
  unfolding try_receive
  try_dequeue q =
      if q.closed
      then (q, err queue_closed)
      else (let (q', a) = try_receive q.items q in (q', ok a))

  unfoldable pub size : Queue A → ℕ
  size q = if q.closed then 0 else length q.items

  unfoldable is_empty_queue : Queue A → Bool
  unfolding size
  is_empty_queue q = size q == 0

  -- `Close` never fails, and a second call does nothing.
  unfoldable pub close : Queue A → Queue A
  close q = if q.closed then q else record q { closed = true }

  -- The size is read first, and then written under the lock of the metrics.
  unfoldable pub get_metrics : Queue A → Queue A
  unfolding size
  get_metrics q = record q { current_size = size q }

-- The calls, as a history of the queue records them, each behind the one before.
pub data Call {ℓ} (A : Type ℓ) : Type ℓ where
  enqueues : Bool → Context → Option A → Call A
  dequeues : Bool → Context → Call A
  tries closes measures : Call A

module _ {ℓ} {A : Type ℓ} where
  abbrev taken : Result Error A → List A
  taken (ok a) = a ∷ []
  taken (err e) = []

  abbrev tried : Result Error (Option A) → List A
  tried (ok (some a)) = a ∷ []
  tried (ok none) = []
  tried (err e) = []

  abbrev offered : Option A → Option Error → List A
  offered (some a) none = a ∷ []
  offered _ _ = []

  -- A call's effect: the queue after it, what it put in and what it took out. A `Dequeue` that waits
  -- leaves the queue as it is.
  unfoldable pub step : Queue A → Call A → Queue A × List A × List A
  unfolding enqueue dequeue try_dequeue close get_metrics
  step q (enqueues pick ctx a) = let (q', e) = enqueue pick ctx a q in (q', offered a e, [])
  step q (dequeues pick ctx) = elim (dequeue pick ctx q) [
    | none ↦ (q, [], [])
    | some (q', r) ↦ (q', [], taken r)
  ]
  step q tries = let (q', r) = try_dequeue q in (q', [], tried r)
  step q closes = (close q, [], [])
  step q measures = (get_metrics q, [], [])

  unfoldable pub run : Queue A → List (Call A) → Queue A × List A × List A
  run q [] = (q, [], [])
  run q (c ∷ cs) =
      let (q', put, got) = step q c in
      let (r, puts, gots) = run q' cs in (r, put ++ puts, got ++ gots)
