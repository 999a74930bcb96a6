-- ===== src/Worker/Counts.antt =====
-- The counts of a worker whose goroutines interleave, and those of one task.
use go_video_transcode_servi.Common.{
  ℕ, zero, suc, ◌+◌, ◌%◌, ◌≤◌, true, false, ◌||◌, List, [], ◌∷◌, ◌++◌, length, length-append, ◌≡◌,
  ◌≢◌, ◌⊎◌, refl, sym, ap, ◌∙◌, arith, Option, none, some, Error, Bool-cases, Option-cases, inl,
  inr,
}
use go_video_transcode_servi.Task.{Task, is_completed, is_failed, is_cancelled}
use go_video_transcode_servi.Worker.{
  WorkerStats, WorkerServices, begin_task, count_result, finish_task, refresh, run_task,
  process_task,
}

-- Where a goroutine stands: between tasks, running one, or behind the count of its result.
pub data Phase : Type 0 where
  waiting running counted : Phase

-- One change of the statistics by one of the goroutines, in any order among them.
infix 20 ◌⟶◌
pub data ◌⟶◌ : WorkerStats × List Phase → WorkerStats × List Phase → Type 0 where
  begins :
      (now : ℕ) (st : WorkerStats) (before after : List Phase)
      → (st, before ++ waiting ∷ after) ⟶ (begin_task now st, before ++ running ∷ after)
  counts :
      (failure : Option Error) (st : WorkerStats) (before after : List Phase)
      → (st, before ++ running ∷ after) ⟶ (count_result failure st, before ++ counted ∷ after)
  finishes :
      (st : WorkerStats) (before after : List Phase)
      → (st, before ++ counted ∷ after) ⟶ (finish_task st, before ++ waiting ∷ after)

infix 20 ◌⟶*◌
pub data ◌⟶*◌ : WorkerStats × List Phase → WorkerStats × List Phase → Type 0 where
  stay : (c : WorkerStats × List Phase) → c ⟶* c
  step : (c d e : WorkerStats × List Phase) → c ⟶ d → d ⟶* e → c ⟶* e

abbrev pub busy : List Phase → ℕ
busy [] = 0
busy (waiting ∷ ps) = busy ps
busy (running ∷ ps) = suc (busy ps)
busy (counted ∷ ps) = suc (busy ps)

abbrev unfinished : List Phase → ℕ
unfinished [] = 0
unfinished (waiting ∷ ps) = unfinished ps
unfinished (running ∷ ps) = unfinished ps
unfinished (counted ∷ ps) = suc (unfinished ps)

-- The statistics agree with the goroutines: the running tasks are the busy goroutines, and the
-- results that are counted are the finished tasks and those about to be, modulo 2^64.
pub record Agree (c : WorkerStats × List Phase) : Type 0 where
  pub live : c.0.currently_running ≡ busy c.1
  pub results :
      (c.0.successful_tasks + c.0.failed_tasks) % 0x10000000000000000
      ≡ (c.0.processed_tasks + unfinished c.1) % 0x10000000000000000

busy-append : (ps qs : List Phase) → busy (ps ++ qs) ≡ busy ps + busy qs
busy-append [] qs = omega arith
busy-append (waiting ∷ ps) qs = busy-append ps qs
busy-append (running ∷ ps) qs = omega (arith, busy-append ps qs)
busy-append (counted ∷ ps) qs = omega (arith, busy-append ps qs)

unfinished-append : (ps qs : List Phase) → unfinished (ps ++ qs) ≡ unfinished ps + unfinished qs
unfinished-append [] qs = omega arith
unfinished-append (waiting ∷ ps) qs = unfinished-append ps qs
unfinished-append (running ∷ ps) qs = unfinished-append ps qs
unfinished-append (counted ∷ ps) qs = omega (arith, unfinished-append ps qs)

busy_le_length : (ps : List Phase) → busy ps ≤ length ps
busy_le_length [] = omega arith
busy_le_length (waiting ∷ ps) = omega (arith, busy_le_length ps)
busy_le_length (running ∷ ps) = omega (arith, busy_le_length ps)
busy_le_length (counted ∷ ps) = omega (arith, busy_le_length ps)

⟶-Agree : (c d : WorkerStats × List Phase) → c ⟶ d → Agree c → Agree d
unfolding begin_task count_result finish_task
⟶-Agree _ _ (begins now st ps qs) a = record {
  live = ground (arith, a.live, busy-append ps (waiting ∷ qs), busy-append ps (running ∷ qs));
  results =
      ground (
        arith,
        a.results,
        unfinished-append ps (waiting ∷ qs),
        unfinished-append ps (running ∷ qs),
      );
}
⟶-Agree _ _ (counts none st ps qs) a = record {
  live = ground (arith, a.live, busy-append ps (running ∷ qs), busy-append ps (counted ∷ qs));
  results =
      ground (
        arith,
        a.results,
        unfinished-append ps (running ∷ qs),
        unfinished-append ps (counted ∷ qs),
      );
}
⟶-Agree _ _ (counts (some e) st ps qs) a = record {
  live = ground (arith, a.live, busy-append ps (running ∷ qs), busy-append ps (counted ∷ qs));
  results =
      ground (
        arith,
        a.results,
        unfinished-append ps (running ∷ qs),
        unfinished-append ps (counted ∷ qs),
      );
}
⟶-Agree _ _ (finishes st ps qs) a = record {
  live = ground (arith, a.live, busy-append ps (counted ∷ qs), busy-append ps (waiting ∷ qs));
  results =
      ground (
        arith,
        a.results,
        unfinished-append ps (counted ∷ qs),
        unfinished-append ps (waiting ∷ qs),
      );
}

⟶-length : (c d : WorkerStats × List Phase) → c ⟶ d → length d.1 ≡ length c.1
⟶-length _ _ (begins now st ps qs) =
    omega (arith, length-append ps (waiting ∷ qs), length-append ps (running ∷ qs))
⟶-length _ _ (counts failure st ps qs) =
    omega (arith, length-append ps (running ∷ qs), length-append ps (counted ∷ qs))
⟶-length _ _ (finishes st ps qs) =
    omega (arith, length-append ps (counted ∷ qs), length-append ps (waiting ∷ qs))

⟶*-Agree : (c d : WorkerStats × List Phase) → c ⟶* d → Agree c → Agree d × (length d.1 ≡ length c.1)
⟶*-Agree _ _ (stay c) a = (a, refl)
⟶*-Agree _ _ (step c d e first rest) a =
    let (agree, same_length) = ⟶*-Agree d e rest (⟶-Agree c d first a) in
    (agree, same_length ∙ ⟶-length c d first)

-- Goroutines that all wait.
abbrev pub all_waiting : ℕ → List Phase
all_waiting zero = []
all_waiting (suc n) = waiting ∷ all_waiting n

all_waiting-counts :
    (n : ℕ)
    → (busy (all_waiting n) ≡ 0) × (unfinished (all_waiting n) ≡ 0) × (length (all_waiting n) ≡ n)
all_waiting-counts zero = (refl, refl, refl)
all_waiting-counts (suc n) =
    ((all_waiting-counts n).0, (all_waiting-counts n).1, ap (λ k. suc k) (all_waiting-counts n).2)

-- However the changes of `n` goroutines interleave, from statistics that are all zero: the number of
-- running tasks is that of the busy goroutines, so at most `n`, and it does not become negative; and
-- the successful and the failed tasks together are the processed ones and those whose goroutine has
-- yet to finish, modulo 2^64.
pub ⟶*-counts :
    (n : ℕ) (st st' : WorkerStats) (ps : List Phase)
    → (st.currently_running ≡ 0)
      × (st.processed_tasks ≡ 0)
      × (st.successful_tasks ≡ 0)
      × (st.failed_tasks ≡ 0)
    → (st, all_waiting n) ⟶* (st', ps)
    → Agree (st', ps) × (st'.currently_running ≤ n)
⟶*-counts n st st' ps zeros path =
    let (b, u, l) = all_waiting-counts n in
    let (agree, same_length) =
      ⟶*-Agree (st, all_waiting n) (st', ps) path
        (record {
          live = zeros.0 ∙ sym b;
          results = omega (arith, zeros.1, zeros.2, zeros.3, u);
        }) in
    (agree, omega (arith, agree.live, busy_le_length ps, same_length, l))

-- What one task does to the statistics: nothing, or one task more that is processed, and one more
-- that has succeeded or has failed.
pub data Counted (st st' : WorkerStats) (failure : Option Error) : Type 0 where
  success :
      failure ≡ none
      → st'.successful_tasks ≡ (st.successful_tasks + 1) % 0x10000000000000000
      → st'.failed_tasks ≡ st.failed_tasks
      → Counted st st' failure
  failure_counted :
      failure ≢ none
      → st'.failed_tasks ≡ (st.failed_tasks + 1) % 0x10000000000000000
      → st'.successful_tasks ≡ st.successful_tasks
      → Counted st st' failure

run_task-counts :
    {S : Type 0} (ws : WorkerServices S) (task : Task) (st : WorkerStats) (s : S)
    → let (failure, ended) = ws.execute_transcode task (ws.now s).1 in
      let (st', final) = (run_task ws task (st, s)).1 in
      (final ≡ ended)
      × (st'.currently_running ≡ st.currently_running)
      × (st'.processed_tasks ≡ (st.processed_tasks + 1) % 0x10000000000000000)
      × Counted st st' failure
unfolding run_task begin_task count_result finish_task
run_task-counts ws task st s = elim (Option-cases (ws.execute_transcode task (ws.now s).1).0) [
  | inl good ↦ rw good (refl, omega arith, refl, success refl refl refl)
  | inr (e, bad) ↦ rw bad (refl, omega arith, refl, failure_counted (λ p. cc) refl refl)
]

process_task-ended :
    {S : Type 0} (ws : WorkerServices S) (task : Task) (st : WorkerStats) (s : S)
    → let fresh = (refresh ws task s).0 in
      (is_completed fresh || is_failed fresh || is_cancelled fresh) ≡ true
      → (process_task ws task (st, s)).1 ≡ (st, (refresh ws task s).1)
unfolding process_task
process_task-ended ws task st s h = rw h refl

process_task-live :
    {S : Type 0} (ws : WorkerServices S) (task : Task) (st : WorkerStats) (s : S)
    → let fresh = (refresh ws task s).0 in
      (is_completed fresh || is_failed fresh || is_cancelled fresh) ≡ false
      → process_task ws task (st, s) ≡ run_task ws fresh (st, (refresh ws task s).1)
unfolding process_task
process_task-live ws task st s h = rw h refl

-- A task that the database has as completed, failed or cancelled is not run: the statistics and the
-- state stay as they are behind the look-up. Any other is run once, in the state behind the look-up
-- and a reading of the clock; one more task counts as processed, one more as a success or as a
-- failure, as the run ends without or with an error, and the number of running tasks is as before.
pub process_task-counts :
    {S : Type 0} (ws : WorkerServices S) (task : Task) (st : WorkerStats) (s : S)
    → let (fresh, s') = refresh ws task s in
      let (failure, ended) = ws.execute_transcode fresh (ws.now s').1 in
      let (st', final) = (process_task ws task (st, s)).1 in
      (((is_completed fresh || is_failed fresh || is_cancelled fresh) ≡ true)
        × (st' ≡ st)
        × (final ≡ s'))
      ⊎ (((is_completed fresh || is_failed fresh || is_cancelled fresh) ≡ false)
          × (final ≡ ended)
          × (st'.currently_running ≡ st.currently_running)
          × (st'.processed_tasks ≡ (st.processed_tasks + 1) % 0x10000000000000000)
          × Counted st st' failure)
process_task-counts ws task st s =
    let (fresh, s') = refresh ws task s in
    elim (Bool-cases (is_completed fresh || is_failed fresh || is_cancelled fresh)) [
      | inl ended ↦
          let same = process_task-ended ws task st s ended in
          inl (ended, ap (λ c. c.0) same, ap (λ c. c.1) same)
      | inr live ↦
          let run = run_task-counts ws fresh st s' in
          rw (process_task-live ws task st s live) (inr (live, run.0, run.1, run.2, run.3))
    ]
