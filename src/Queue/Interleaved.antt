-- ===== src/Queue/Interleaved.antt =====
-- The queue under calls that interleave (ddd/infrastructure/queue/task_queue.go). A call holds the
-- lock of the queue for reading, which many calls do at once, and its operation on the channel and the
-- count of it are two steps; Close holds it for writing, so that no call stands between its two steps.
use mathlib.Core.Path.{subst}
use go_video_transcode_servi.Common.{
  ℕ, suc, ◌+◌, ◌≤◌, ◌<◌, Bool, true, false, List, ◌∷◌, ◌≡◌, refl, sym, arith, none, some, length,
  ok,
}
use go_video_transcode_servi.Queue.Fifo.{dequeue_head}
use go_video_transcode_servi.Queue.{
  Queue, enqueue, dequeue, close, put_item, count_enqueue, send, take_item, count_dequeue,
}

-- The queue, with the numbers of calls that have sent and that have received, but not yet counted.
pub record Flight {ℓ} (A : Type ℓ) : Type ℓ where
  pub queue : Queue A
  pub sent : ℕ
  pub received : ℕ

-- A queue that no call is using.
abbrev pub at_rest {ℓ} : {A : Type ℓ} → Queue A → Flight A
at_rest q = record { queue = q; sent = 0; received = 0 }

-- One step of one of the calls, in any order among them.
infix 20 ◌⟶◌
pub data ◌⟶◌ {ℓ} {A : Type ℓ} : Flight A → Flight A → Type ℓ where
  puts :
      (a : A) (f : Flight A)
      → f.queue.closed ≡ false
      → length f.queue.items < f.queue.capacity
      → f ⟶ record f { queue = put_item a f.queue; sent = suc f.sent }
  counts_put :
      (f : Flight A) (n : ℕ)
      → f.sent ≡ suc n
      → f ⟶ record f { queue = count_enqueue f.queue; sent = n }
  takes :
      (a : A) (rest : List A) (f : Flight A)
      → f.queue.closed ≡ false
      → f.queue.items ≡ a ∷ rest
      → f ⟶ record f { queue = take_item rest f.queue; received = suc f.received }
  counts_take :
      (f : Flight A) (n : ℕ)
      → f.received ≡ suc n
      → f ⟶ record f { queue = count_dequeue f.queue; received = n }
  closes : (f : Flight A) → f.sent ≡ 0 → f.received ≡ 0 → f ⟶ record f { queue = close f.queue }
  -- the write of GetMetrics, of a size that has been read before
  measures : (f : Flight A) (n : ℕ) → f ⟶ record f { queue = record f.queue { current_size = n } }

infix 20 ◌⟶*◌
pub data ◌⟶*◌ {ℓ} {A : Type ℓ} : Flight A → Flight A → Type ℓ where
  stay : (f : Flight A) → f ⟶* f
  step : (f g h : Flight A) → f ⟶ g → g ⟶* h → f ⟶* h

-- What holds at every moment.
pub record Accounted {ℓ} {A : Type ℓ} (f : Flight A) : Type ℓ where
  pub fits : length f.queue.items ≤ f.queue.capacity
  pub counted :
      f.queue.enqueue_count + f.sent ≡ f.queue.dequeue_count + f.received + length f.queue.items
  pub sized : f.queue.max_size ≡ f.queue.capacity
  pub positive : 0 < f.queue.capacity
  pub settled : f.queue.closed ≡ true → f.sent + f.received ≡ 0

module _ {ℓ} {A : Type ℓ} where
  -- A call of `Enqueue` that succeeds by itself is a send and the count of it.
  enqueue-steps :
      (pick : Bool) (a : A) (q : Queue A)
      → q.closed ≡ false
      → length q.items < q.capacity
      → at_rest q ⟶* at_rest (enqueue pick none (some a) q).0
  unfolding enqueue
  enqueue-steps pick a q o room =
      let sends : (enqueue pick none (some a) q).0 ≡ send a q = ground arith in
      subst (λ r. at_rest q ⟶* at_rest r) (sym sends)
        (step _ _ _ (puts a (at_rest q) o room) (step _ _ _ (counts_put _ 0 refl) (stay _)))

  -- A call of `Dequeue` that takes an item by itself is a receive and the count of it.
  dequeue-steps :
      (q : Queue A) (a : A) (rest : List A)
      → q.closed ≡ false
      → q.items ≡ a ∷ rest
      → (q' : Queue A) × (dequeue true none q ≡ some (q', ok a)) × (at_rest q ⟶* at_rest q')
  dequeue-steps q a rest o e = (
    count_dequeue (take_item rest q),
    dequeue_head q a rest o e,
    step _ _ _ (takes a rest (at_rest q) o e) (step _ _ _ (counts_take _ 0 refl) (stay _)),
  )
