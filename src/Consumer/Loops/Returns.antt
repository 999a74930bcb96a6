-- ===== src/Consumer/Loops/Returns.antt =====
-- That `Stop` returns: once the context is cancelled each action uses something up, and while `Stop`
-- waits some action is possible.
use go_video_transcode_servi.Common.{
  ◌&&◌, ℕ, zero, suc, ◌+◌, ◌*◌, ◌≤◌, ◌<◌, ltb, lt→ltb, ltb→lt, length, Text, Bool, true, false,
  List, [], ◌∷◌, ◌≡◌, ◌≢◌, ◌⊎◌, inl, inr, refl, arith, none, Error, Result, if_elim, Bool-cases,
}
use mathlib.Core.Path.{subst}
use go_video_transcode_servi.Runtime.{Runtime}
use go_video_transcode_servi.App.{Services}
use go_video_transcode_servi.Consumer.{KafkaTask, CommitPolicy}
use go_video_transcode_servi.Consumer.Loops.{
  ReaderPc, reading, read_done, sending, ProcessPc, selecting, process_done, handling, StopPc,
  not_stopping, waiting_read, waiting_process, Loops, Action, consume, send, give_up, take, leave,
  handle, begin_stop, close_channel, end_stop, Outcome, blocked, faulted, moved, started, consumed,
  gave_up, left, closed_by, ended, handled, is_done, all_done, and_then, step, run,
}
use go_video_transcode_servi.Consumer.Loops.Invariant.{stops, Inv, counted}
use go_video_transcode_servi.Consumer.Loops.Safe.{Fine, run-Inv}
use go_video_transcode_servi.Consumer.Loops.Weight.{
  reader_weight, weights_bound, stop_weight, weight, cost, Used, process_Lower, consumed-Used,
  sent-Used, gave_up-Used, took-Used, left-Used, begun-Used, closed_by-Used, ended-Used,
}

stop_weight_bound : (pc : StopPc) → stop_weight pc ≤ 2
stop_weight_bound not_stopping = omega arith
stop_weight_bound waiting_read = omega arith
stop_weight_bound waiting_process = omega arith

reader_weight_bound : (pc : ReaderPc) → reader_weight pc ≤ 4
reader_weight_bound reading = omega arith
reader_weight_bound read_done = omega arith
reader_weight_bound (sending m) = omega arith

-- Whether an action is possible, by its outcome.
abbrev is_possible : {S : Type 0} → Outcome S → Bool
is_possible blocked = false
is_possible faulted = false
is_possible (moved l) = true

-- The processing loops have ended, or one of them has not.
some_left :
    (n : ℕ) (process : ℕ → ProcessPc)
    → (all_done n process ≡ true) ⊎ ((i : ℕ) × (i < n) × (process i ≢ process_done))
unfolding all_done
some_left zero process = inl refl
some_left (suc n) process = go (process n) refl (some_left n process)
  where
    go :
        (pc : ProcessPc)
        → process n ≡ pc
        → (all_done n process ≡ true) ⊎ ((i : ℕ) × (i < n) × (process i ≢ process_done))
        → ((is_done (process n) && all_done n process) ≡ true)
          ⊎ ((i : ℕ) × (i < suc n) × (process i ≢ process_done))
    go pc e (inr (i, h, k)) = inr (i, omega (arith, h), k)
    go process_done e (inl all) = inl (rw (e, all) refl)
    go selecting e (inl all) = inr (n, omega arith, λ f. cc)
    go (handling m) e (inl all) = inr (n, omega arith, λ f. cc)

counted_add : (a : Action) (n : ℕ) → counted a n ≡ counted a 0 + n
counted_add begin_stop n = omega arith
counted_add (consume p g) n = omega arith
counted_add send n = omega arith
counted_add give_up n = omega arith
counted_add (take i) n = omega arith
counted_add (leave i) n = omega arith
counted_add (handle i c) n = omega arith
counted_add close_channel n = omega arith
counted_add end_stop n = omega arith

stops_add : (rest : List Action) (n : ℕ) → stops rest n ≡ stops rest 0 + n
stops_add [] n = omega arith
stops_add (a ∷ rest) n =
    omega (arith, stops_add rest (counted a n), stops_add rest (counted a 0), counted_add a n)

stops-counted :
    (rest : List Action) (a : Action) → stops rest (counted a 0) ≡ stops rest 0 + counted a 0
stops-counted rest a = stops_add rest (counted a 0)

module _ {S : Type 0} (rt : Runtime) (env : Services S) (policy : CommitPolicy)
    (unmarshal : Text → Result Error KafkaTask) where
  handled-Used :
      (l : Loops S)
      → l.canceled ≡ true
      → (i : ℕ) (commits : Bool) (pc : ProcessPc) → i < l.max
      → l.process i ≡ pc
      → Used 0 l (handled rt env policy unmarshal i commits pc l)
  unfolding handled
  handled-Used l done i commits selecting h e = tt
  handled-Used l done i commits process_done h e = tt
  handled-Used l done i commits (handling m) h e =
      process_Lower l done i (handling m) selecting h e (omega arith)

  step-Used :
      (l : Loops S)
      → l.canceled ≡ true
      → (a : Action) → Used (cost a) l (step rt env policy unmarshal a l)
  unfolding step
  step-Used l done (consume paused got) = consumed-Used l done l.reader paused got refl
  step-Used l done send = sent-Used l done l.reader refl
  step-Used l done give_up = gave_up-Used l done l.reader refl
  step-Used l done (take i) =
      if_elim (Used 0 l) (ltb i l.max)
        (λ h. took-Used l done i (l.process i) l.channel (ltb→lt _ _ h) refl refl) (λ _. tt)
  step-Used l done (leave i) =
      if_elim (Used 0 l) (ltb i l.max) (λ h. left-Used l done i (l.process i) (ltb→lt _ _ h) refl)
        (λ _. tt)
  step-Used l done (handle i commits) =
      if_elim (Used 0 l) (ltb i l.max)
        (λ h. handled-Used l done i commits (l.process i) (ltb→lt _ _ h) refl) (λ _. tt)
  step-Used l done begin_stop = begun-Used l done l.stop refl
  step-Used l done close_channel = closed_by-Used l done l.stop l.reader refl
  step-Used l done end_stop = ended-Used l done l.stop refl

  -- A history of `k` actions from `l` on, with what the calls of `Stop` add.
  abbrev Spent : ℕ → ℕ → Loops S → Outcome S → Type 0
  Spent c k l blocked = Unit {0}
  Spent c k l faulted = Unit {0}
  Spent c k l (moved l') = k + weight l' ≤ weight l + 3 * c

  and_then-Spent :
      (l : Loops S) (c d k : ℕ) (o : Outcome S) (next : Loops S → Outcome S)
      → Used (3 * c) l o
      → ((l1 : Loops S) → l1.canceled ≡ true → Spent d k l1 (next l1))
      → Spent (d + c) (suc k) l (and_then o next)
  and_then-Spent l c d k blocked next u later = tt
  and_then-Spent l c d k faulted next u later = tt
  and_then-Spent l c d k (moved l1) next (u, done) later = both (next l1) (later l1 done)
    where
      both : (o : Outcome S) → Spent d k l1 o → Spent (d + c) (suc k) l o
      both blocked h = tt
      both faulted h = tt
      both (moved l2) h = omega (arith, h, u)

  run-Spent :
      (more : List Action) (l : Loops S)
      → l.canceled ≡ true
      → Spent (stops more 0) (length more) l (run rt env policy unmarshal more l)
  unfolding run
  run-Spent [] l done = omega arith
  run-Spent (a ∷ more) l done = rw (stops-counted more a) (
      and_then-Spent l (counted a 0) (stops more 0) (length more) (step rt env policy unmarshal a l)
        (run rt env policy unmarshal more) (step-Used l done a) (run-Spent more))

  -- Some action is possible.
  abbrev pub Enabled : Loops S → Type 0
  Enabled l = (a : Action) × (is_possible (step rt env policy unmarshal a l) ≡ true)

  reader-Enabled :
      (l : Loops S)
      → l.canceled ≡ true
      → l.closed ≡ false
      → l.stop ≡ waiting_read
      → (pc : ReaderPc) → l.reader ≡ pc
      → Enabled l
  unfolding step consumed gave_up closed_by
  reader-Enabled l done open_now w reading e = (consume false none, rw e refl)
  reader-Enabled l done open_now w (sending m) e = (give_up, rw (e, done) refl)
  reader-Enabled l done open_now w read_done e = (close_channel, rw (w, e, open_now) refl)

  process-Enabled :
      (l : Loops S)
      → l.canceled ≡ true
      → (i : ℕ) → i < l.max
      → l.process i ≢ process_done
      → (pc : ProcessPc) → l.process i ≡ pc
      → Enabled l
  unfolding step left handled
  process-Enabled l done i h n process_done e = absurd (n e)
  process-Enabled l done i h n selecting e = (leave i, rw (lt→ltb _ _ h, e, done) refl)
  process-Enabled l done i h n (handling m) e = (handle i true, rw (lt→ltb _ _ h, e) refl)

  stop-Enabled :
      (n : ℕ) (l : Loops S) (v : Inv n l)
      → n ≤ 1
      → (pc : StopPc) → l.stop ≡ pc
      → l.stop ≢ not_stopping
      → Enabled l
  unfolding step ended
  stop-Enabled n l v once not_stopping e w = absurd (w e)
  stop-Enabled n l v once waiting_read e w = elim (Bool-cases l.closed) [
    | inl shut ↦ absurd (omega (arith, once, v.closing shut e))
    | inr open_now ↦ reader-Enabled l (v.canceling w) open_now e l.reader refl
  ]
  stop-Enabled n l v once waiting_process e w = elim (some_left l.max l.process) [
    | inl all ↦ (end_stop, rw (e, all) refl)
    | inr (i, h, k) ↦ process-Enabled l (v.canceling w) i h k (l.process i) refl
  ]

  -- If it leads to a state, there have been `k` actions at most.
  abbrev pub AtMost : ℕ → ℕ → Outcome S → Type 0
  AtMost k len blocked = Unit {0}
  AtMost k len faulted = Unit {0}
  AtMost k len (moved l') = len ≤ k

  Spent-AtMost :
      (c k : ℕ) (l : Loops S)
      → length l.channel ≤ l.max
      → (o : Outcome S) → Spent c k l o
      → AtMost (4 * l.max + 6 + 3 * c) k o
  Spent-AtMost c k l room blocked h = tt
  Spent-AtMost c k l room faulted h = tt
  Spent-AtMost c k l room (moved l') h = omega (
    arith,
    h,
    room,
    weights_bound l.max l.process,
    reader_weight_bound l.reader,
    stop_weight_bound l.stop,
  )

  -- Where `Stop` has been called once and has not returned, whatever the goroutines have done: some action
  -- is possible; and a history from there on has no more than four actions for each place of the channel
  -- and six, and three for each call of `Stop` in it. So `Stop` returns.
  pub run-stop_returns :
      (rest : List Action) (max : ℕ) (app : S) (l : Loops S) (more : List Action)
      → run rt env policy unmarshal rest (started max app) ≡ moved l
      → stops rest 0 ≡ 1
      → l.stop ≢ not_stopping
      → Enabled l
        × AtMost
            (4 * l.max + 6 + 3 * stops more 0)
            (length more)
            (run rt env policy unmarshal more l)
  run-stop_returns rest max app l more e once w =
      let v : Inv (stops rest 0) l =
        subst (Fine (stops rest 0)) e (run-Inv rt env policy unmarshal rest max app) in
      (
        stop-Enabled (stops rest 0) l v (omega (arith, once)) l.stop refl w,
        Spent-AtMost (stops more 0) (length more) l v.room _ (run-Spent more l (v.canceling w)),
      )
