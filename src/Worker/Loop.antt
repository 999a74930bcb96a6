-- ===== src/Worker/Loop.antt =====
-- `workerLoop`: the turns of one goroutine over the task queue. A turn reads the context twice, in
-- the select and in `Dequeue`, and it may have been cancelled in between.
use go_video_transcode_servi.Common.{
  ℕ, zero, suc, Bool, true, false, List, [], ◌∷◌, ◌≡◌, refl, ap, sym, ◌∙◌, arith, Option, none,
  some, Error, plain, wrap, canceled, deadline_exceeded, Result, ok, err, length, ◌++◌, Bool-cases,
  inl, inr, if◌then◌else◌,
}
use go_video_transcode_servi.Task.{Task}
use go_video_transcode_servi.Queue.{Queue, Context, dequeue}
use go_video_transcode_servi.Queue.Fifo.{dequeue_head}
use go_video_transcode_servi.Worker.{WorkerStats, WorkerServices, process_task}

pub record Turn : Type 0 where
  pub at_check : Context
  pub at_dequeue : Context
  pub pick : Bool  -- whether the select of `Dequeue` takes a task where it could

-- errors.Is(err, context.Canceled) || errors.Is(err, context.DeadlineExceeded)
abbrev is_context_error : Error → Bool
is_context_error canceled = true
is_context_error deadline_exceeded = true
is_context_error (plain t) = false
is_context_error (wrap t e) = is_context_error e

-- What a goroutine acts on: the queue, the statistics and the state of the services.
abbrev LoopState : Type 0 → Type 0
LoopState S = Queue Task × (WorkerStats × S)

module _ {S : Type 0} (ws : WorkerServices S) where
  -- Behind `Dequeue`: the state, and whether the loop goes on. A turn that waits is tried again.
  dequeued : Option (Queue Task × Result Error Task) → LoopState S → LoopState S × Bool
  dequeued none (q, c) = ((q, c), true)
  dequeued (some (q', err e)) (q, c) = ((q', c), if is_context_error e then false else true)
  dequeued (some (q', ok task)) (q, c) = ((q', (process_task ws task c).1), true)

  turn : Turn → LoopState S → LoopState S × Bool
  unfolding dequeued
  turn t (q, c) = elim t.at_check [
    | some e ↦ ((q, c), false)
    | none ↦ dequeued (dequeue t.pick t.at_dequeue q) (q, c)
  ]

  -- The turns of a schedule, up to the end of the loop.
  pub worker_loop : List Turn → LoopState S → LoopState S
  unfolding turn
  worker_loop [] s = s
  worker_loop (t ∷ ts) s =
      let (s', goes_on) = turn t s in elim goes_on [ true ↦ worker_loop ts s' | false ↦ s' ]

  -- The tasks in turn, each processed.
  abbrev pub process_all : List Task → WorkerStats × S → WorkerStats × S
  process_all [] c = c
  process_all (t ∷ ts) c = process_all ts (process_task ws t c).1

abbrev pub live : Turn
live = record { at_check = none; at_dequeue = none; pick = true }

abbrev pub live_turns : ℕ → List Turn
live_turns zero = []
live_turns (suc n) = live ∷ live_turns n

live_step :
    {S : Type 0} (ws : WorkerServices S) (q : Queue Task) (t : Task) (rest : List Task)
    (c : WorkerStats × S)
    → q.closed ≡ false
    → q.items ≡ t ∷ rest
    → turn ws live (q, c) ≡ (
      (record q { items = rest; dequeue_count = suc q.dequeue_count }, (process_task ws t c).1),
      true,
    )
unfolding turn dequeued
live_step ws q t rest c o e = ap (λ d. dequeued ws d (q, c)) (dequeue_head q t rest o e)

goes_on :
    {S : Type 0} (ws : WorkerServices S) (t : Turn) (ts : List Turn) (s s' : LoopState S)
    → turn ws t s ≡ (s', true)
    → worker_loop ws (t ∷ ts) s ≡ worker_loop ws ts s'
unfolding worker_loop
goes_on ws t ts s s' h = ground arith

-- On an open queue with a live context, as many turns as there are tasks empty the queue, and each
-- task has been processed, in the order of the queue.
pub worker_loop-drains :
    {S : Type 0} (ws : WorkerServices S) (tasks : List Task) (q : Queue Task) (c : WorkerStats × S)
    → q.closed ≡ false
    → q.items ≡ tasks
    → let (q', c') = worker_loop ws (live_turns (length tasks)) (q, c) in
      (q'.items ≡ []) × (q'.closed ≡ false) × (c' ≡ process_all ws tasks c)
unfolding worker_loop
worker_loop-drains ws [] q c o e = (e, o, refl)
worker_loop-drains ws (t ∷ rest) q c o e =
    rw (goes_on ws live (live_turns (length rest)) (q, c) _ (live_step ws q t rest c o e)) (
      worker_loop-drains ws rest (record q { items = rest; dequeue_count = suc q.dequeue_count })
        (process_task ws t c).1 o refl)

stops_at :
    {S : Type 0} (ws : WorkerServices S) (t : Turn) (ts : List Turn) (s s' : LoopState S)
    → turn ws t s ≡ (s', false)
    → worker_loop ws (t ∷ ts) s ≡ s'
unfolding worker_loop
stops_at ws t ts s s' h = ground arith

done_turn :
    {S : Type 0} (ws : WorkerServices S) (t : Turn) (s : LoopState S) (e : Error)
    → t.at_check ≡ some e
    → turn ws t s ≡ (s, false)
unfolding turn
done_turn ws t (q, c) e h = ground arith

-- The loop ends once its context is done: whatever has run before, the turn that finds the context
-- done and all the turns that would follow it change nothing.
worker_loop-ends :
    {S : Type 0} (ws : WorkerServices S) (before after : List Turn) (t : Turn) (e : Error)
    (s : LoopState S)
    → t.at_check ≡ some e
    → worker_loop ws (before ++ t ∷ after) s ≡ worker_loop ws before s
unfolding worker_loop
worker_loop-ends ws [] after t e s h = stops_at ws t after s s (done_turn ws t s e h)
worker_loop-ends ws (b ∷ before) after t e s h =
    let s' = (turn ws b s).0 in
    elim (Bool-cases (turn ws b s).1) [
      | inl on ↦
          goes_on ws b (before ++ t ∷ after) s s' (ap (λ g. (s', g)) on)
          ∙ worker_loop-ends ws before after t e s' h
          ∙ sym (goes_on ws b before s s' (ap (λ g. (s', g)) on))
      | inr off ↦
          stops_at ws b (before ++ t ∷ after) s s' (ap (λ g. (s', g)) off)
          ∙ sym (stops_at ws b before s s' (ap (λ g. (s', g)) off))
    ]
