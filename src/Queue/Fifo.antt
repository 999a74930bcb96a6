-- ===== src/Queue/Fifo.antt =====
-- The queue against its contract: first in, first out, and what is closed stays as it is.
use mathlib.Core.List.{append-nil, append_assoc}
use go_video_transcode_servi.Common.{
  ◌<◌, Bool, true, false, List, [], ◌∷◌, ◌++◌, ◌≡◌, ◌≢◌, refl, ap, sym, ◌∙◌, arith, Option, none,
  some, length, ◌↔◌, suc, ok,
}
use go_video_transcode_servi.Queue.{
  Queue, Context, enqueue, dequeue, Call, enqueues, dequeues, tries, closes, measures, step, run,
}

module _ {ℓ} {A : Type ℓ} where
  -- A call moves items only at the two ends: what is taken with what stays is what was there with
  -- what is put in, in order.
  step_order :
      (q : Queue A) (c : Call A) → (step q c).2 ++ (step q c).0.items ≡ q.items ++ (step q c).1
  unfolding step
  step_order q (enqueues pick ctx a) = ground (arith, append-nil q.items)
  step_order q (dequeues pick ctx) = ground (arith, append-nil q.items)
  step_order q tries = ground (arith, append-nil q.items)
  step_order q closes = ground (arith, append-nil q.items)
  step_order q measures = ground (arith, append-nil q.items)

  -- First in, first out, with no item lost or made up: over any history what was taken out, in order,
  -- followed by what is still there, is what was there followed by what was put in.
  pub run_order :
      (q : Queue A) (cs : List (Call A))
      → (run q cs).2 ++ (run q cs).0.items ≡ q.items ++ (run q cs).1
  unfolding run
  run_order q [] = rw append-nil
  run_order q (c ∷ cs) =
      let (q', put, got) = step q c in
      let (r, puts, gots) = run q' cs in
      append_assoc got gots r.items
      ∙ ap (λ l. got ++ l) (run_order q' cs)
      ∙ sym (append_assoc got q'.items puts)
      ∙ ap (λ l. l ++ puts) (step_order q c)
      ∙ append_assoc q.items put puts

  closed_step :
      (q : Queue A) (c : Call A)
      → q.closed ≡ true
      → ((step q c).0.closed ≡ true)
        × ((step q c).0.items ≡ q.items)
        × ((step q c).1 ≡ [])
        × ((step q c).2 ≡ [])
  unfolding step
  closed_step q (enqueues pick ctx none) h = ground arith
  closed_step q (enqueues pick ctx (some a)) h = ground arith
  closed_step q (dequeues pick ctx) h = ground arith
  closed_step q tries h = ground arith
  closed_step q closes h = ground arith
  closed_step q measures h = ground arith

  -- A closed queue takes in nothing and hands out nothing, whatever is called: what it holds when it
  -- is closed stays in it.
  run-closed :
      (q : Queue A) (cs : List (Call A))
      → q.closed ≡ true
      → ((run q cs).0.items ≡ q.items) × ((run q cs).1 ≡ []) × ((run q cs).2 ≡ [])
  unfolding run
  run-closed q [] h = (refl, refl, refl)
  run-closed q (c ∷ cs) h = ground (arith, closed_step q c h, run-closed (step q c).0 cs)

  -- With a live context `Enqueue` of a task succeeds exactly on an open queue with room.
  enqueue_accepts_iff :
      (pick : Bool) (a : A) (q : Queue A)
      → ((enqueue pick none (some a) q).1 ≡ none)
        ↔ ((q.closed ≡ false) × (length q.items < q.capacity))
  unfolding enqueue
  enqueue_accepts_iff pick a q = (λ h. ground arith, λ h. ground arith)

  -- A call of `Enqueue` that fails, for any reason, leaves the queue as it was.
  enqueue_fails_unchanged :
      (pick : Bool) (ctx : Context) (task : Option A) (q : Queue A)
      → (enqueue pick ctx task q).1 ≢ none
      → (enqueue pick ctx task q).0 ≡ q
  unfolding enqueue
  enqueue_fails_unchanged pick ctx none q h = ground arith
  enqueue_fails_unchanged pick none (some a) q h = ground arith
  enqueue_fails_unchanged pick (some e) (some a) q h = ground arith

  -- With a live context `Dequeue` takes the oldest item of an open queue.
  pub dequeue_head :
      (q : Queue A) (a : A) (rest : List A)
      → q.closed ≡ false
      → q.items ≡ a ∷ rest
      → dequeue true none q
        ≡ some (record q { items = rest; dequeue_count = suc q.dequeue_count }, ok a)
  unfolding dequeue
  dequeue_head q a rest o e = ground arith
