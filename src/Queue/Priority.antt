-- ===== src/Queue/Priority.antt =====
-- `PriorityTaskQueue` of task_queue.go: three queues, and a task's priority chooses one.
use go_video_transcode_servi.Common.{
  ℕ, suc, ◌+◌, ◌-◌, ◌*◌, ◌/◌, ℤ, pos, negsuc, leb_ℤ, Bool, false, List, [], ◌∷◌, ◌++◌, ◌≡◌, arith,
  Option, none, some, Error, Result, ok, err, if◌then◌else◌, ltb,
}
use go_video_transcode_servi.Queue.{Queue, Context, new_queue, enqueue, dequeue, try_dequeue, close}

record PriorityQueue {ℓ} (A : Type ℓ) : Type ℓ where
  pub high : Queue A
  pub normal : Queue A
  pub low : Queue A

-- Go's division truncates to zero.
abbrev third : ℤ → ℤ
third (pos n) = pos (n / 3)
third (negsuc n) = if ltb n 2 then pos 0 else negsuc (suc n / 3 - 1)

module _ {ℓ} {A : Type ℓ} where
  unfoldable new_priority_queue : ℤ → PriorityQueue A
  new_priority_queue capacity = record {
    high = new_queue (third capacity);
    normal = new_queue (third capacity);
    low = new_queue (third capacity);
  }

  unfoldable enqueue_with_priority :
      Bool → Context → Option A → ℤ → PriorityQueue A → PriorityQueue A × Option Error
  enqueue_with_priority pick ctx task priority pq =
      if leb_ℤ (pos 8) priority
      then (let (q, e) = enqueue pick ctx task pq.high in (record pq { high = q }, e))
      else if leb_ℤ (pos 5) priority
      then (let (q, e) = enqueue pick ctx task pq.normal in (record pq { normal = q }, e))
      else (let (q, e) = enqueue pick ctx task pq.low in (record pq { low = q }, e))

  dequeue_low : Bool → Context → PriorityQueue A → Option (PriorityQueue A × Result Error A)
  dequeue_low pick ctx pq = elim (dequeue pick ctx pq.low) [
    | none ↦ none
    | some (q, r) ↦ some (record pq { low = q }, r)
  ]

  -- The answer of a `TryDequeue`, if it is a task.
  abbrev found : Result Error (Option A) → Option A
  found (ok a) = a
  found (err e) = none

  dequeue_normal : Bool → Context → PriorityQueue A → Option (PriorityQueue A × Result Error A)
  unfolding dequeue_low
  dequeue_normal pick ctx pq =
      let (q, r) = try_dequeue pq.normal in
      elim (found r) [
        | some a ↦ some (record pq { normal = q }, ok a)
        | none ↦ dequeue_low pick ctx (record pq { normal = q })
      ]

  -- `none` while the call waits, which it does on the lowest queue alone.
  dequeue_by_priority : Bool → Context → PriorityQueue A → Option (PriorityQueue A × Result Error A)
  unfolding dequeue_normal
  dequeue_by_priority pick ctx pq =
      let (q, r) = try_dequeue pq.high in
      elim (found r) [
        | some a ↦ some (record pq { high = q }, ok a)
        | none ↦ dequeue_normal pick ctx (record pq { high = q })
      ]

  -- Closing a queue never fails, so no error is collected.
  close_all : PriorityQueue A → PriorityQueue A
  close_all pq = record { high = close pq.high; normal = close pq.normal; low = close pq.low }

-- What a priority queue holds, in the order in which it hands out.
abbrev in_order {ℓ} : {A : Type ℓ} → PriorityQueue A → List A
in_order pq = pq.high.items ++ (pq.normal.items ++ pq.low.items)

abbrev IsOpen {ℓ} : {A : Type ℓ} → PriorityQueue A → Type 0
IsOpen pq = (pq.high.closed ≡ false) × (pq.normal.closed ≡ false) × (pq.low.closed ≡ false)

module _ {A : Type 0} where
  -- An answer that hands out the first item in order and keeps the order of the rest.
  abbrev HandsOut : PriorityQueue A → Option (PriorityQueue A × Result Error A) → Type 0
  HandsOut pq none = in_order pq ≡ []
  HandsOut pq (some (pq', err e)) = ⊥
  HandsOut pq (some (pq', ok a)) = in_order pq ≡ a ∷ in_order pq'

  -- On open queues with a live context the call hands out the oldest task of the highest queue that
  -- holds one, and keeps the order of the rest; it waits exactly if all three are empty.
  dequeue_by_priority-HandsOut :
      (pick : Bool) (pq : PriorityQueue A)
      → IsOpen pq
      → HandsOut pq (dequeue_by_priority pick none pq)
  unfolding dequeue_by_priority try_dequeue dequeue
  dequeue_by_priority-HandsOut pick pq h = ground arith

-- The three queues together have room for three times the third of the capacity that is asked for;
-- but where that is below 3, the third is 0 and each queue falls back to 1000.
new_priority_queue-capacity :
    (A : Type 0) (c : ℕ)
    → let pq = new_priority_queue {A = A} (pos c) in
      pq.high.capacity + pq.normal.capacity + pq.low.capacity
      ≡ (if ltb c 3 then 3000 else 3 * (c / 3))
unfolding new_priority_queue new_queue
new_priority_queue-capacity A c = ground arith
