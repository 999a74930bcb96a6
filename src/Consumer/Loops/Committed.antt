-- ===== src/Consumer/Loops/Committed.antt =====
-- What a committed message has led to, in every history of the consumer's goroutines.
use go_video_transcode_servi.Common.{
  ℕ, ltb, length, Text, Bool, false, ◌&&◌, List, [], ◌∷◌, ◌++◌, ◌≡◌, true, arith, refl, ap, sym,
  ◌∙◌, Option, none, some, Error, Result, ok, All, if_elim,
}
use mathlib.Core.List.{append_assoc}
use go_video_transcode_servi.Runtime.{Runtime}
use go_video_transcode_servi.Task.{Task}
use go_video_transcode_servi.App.{Services}
use go_video_transcode_servi.App.Create.{QueueLaws}
use go_video_transcode_servi.Consumer.{KafkaTask, CommitPolicy, handle_message}
use go_video_transcode_servi.Consumer.Intake.{Accepted, handle_message-Accepted}
use go_video_transcode_servi.Consumer.Loops.{
  ReaderPc, reading, read_done, sending, ProcessPc, selecting, process_done, handling, StopPc,
  not_stopping, waiting_read, waiting_process, Loops, Action, consume, send, give_up, take, leave,
  handle, begin_stop, close_channel, end_stop, Outcome, blocked, faulted, moved, started, consumed,
  sent, gave_up, took, left, begun, closed_by, ended, handled, all_done, and_then, step, run,
}

All-snoc : (P : Text → Type 0) (xs : List Text) (x : Text) → All P xs → P x → All P (xs ++ x ∷ [])
All-snoc P [] x h p = (p, tt)
All-snoc P (y ∷ xs) x h p = (h.0, All-snoc P xs x h.1 p)

moved_inj : {S : Type 0} {a b : Loops S} → moved a ≡ moved b → a ≡ b
moved_inj e = cc

-- If it leads to a state, that has committed nothing but messages of the kind.
abbrev pub Committed : {S : Type 0} → (Text → Type 0) → Outcome S → Type 0
Committed P blocked = Unit {0}
Committed P faulted = Unit {0}
Committed P (moved l) = All P l.committed

module _ {S : Type 0} (P : Text → Type 0) (l : Loops S) (v : All P l.committed) where
  consumed-Committed :
      (pc : ReaderPc) (paused : Bool) (got : Option Text) → Committed P (consumed pc paused got l)
  unfolding consumed
  consumed-Committed read_done paused got = tt
  consumed-Committed (sending m) paused got = tt
  consumed-Committed reading paused none =
      if_elim (λ (k : Loops S). All P k.committed) l.canceled (λ _. v) (λ _. v)
  consumed-Committed reading paused (some m) =
      if_elim (λ (k : Loops S). All P k.committed) l.canceled (λ _. v)
        λ _. if_elim (λ (k : Loops S). All P k.committed) paused (λ _. v) (λ _. v)

  sent-Committed : (pc : ReaderPc) → Committed P (sent pc l)
  unfolding sent
  sent-Committed reading = tt
  sent-Committed read_done = tt
  sent-Committed (sending m) =
      if_elim (Committed P) l.closed (λ _. tt)
        λ _. if_elim (Committed P) (ltb (length l.channel) l.max) (λ _. v) (λ _. tt)

  gave_up-Committed : (pc : ReaderPc) → Committed P (gave_up pc l)
  unfolding gave_up
  gave_up-Committed reading = tt
  gave_up-Committed read_done = tt
  gave_up-Committed (sending m) = if_elim (Committed P) l.canceled (λ _. v) (λ _. tt)

  took-Committed : (i : ℕ) (pc : ProcessPc) (queued : List Text) → Committed P (took i pc queued l)
  unfolding took
  took-Committed i process_done queued = tt
  took-Committed i (handling m) queued = tt
  took-Committed i selecting [] = if_elim (Committed P) l.closed (λ _. v) (λ _. tt)
  took-Committed i selecting (m ∷ rest) = v

  left-Committed : (i : ℕ) (pc : ProcessPc) → Committed P (left i pc l)
  unfolding left
  left-Committed i process_done = tt
  left-Committed i (handling m) = tt
  left-Committed i selecting = if_elim (Committed P) l.canceled (λ _. v) (λ _. tt)

  stop-Committed :
      (pc : StopPc) (reader : ReaderPc)
      → Committed P (begun pc l) × Committed P (closed_by pc reader l) × Committed P (ended pc l)
  unfolding begun closed_by ended
  stop-Committed not_stopping reader = (v, tt, tt)
  stop-Committed waiting_read reading = (tt, tt, tt)
  stop-Committed waiting_read (sending m) = (tt, tt, tt)
  stop-Committed waiting_read read_done =
      (tt, if_elim (Committed P) l.closed (λ _. tt) (λ _. v), tt)
  stop-Committed waiting_process reader =
      (tt, tt, if_elim (Committed P) (all_done l.max l.process) (λ _. v) (λ _. tt))

run-append :
    {S : Type 0} (rt : Runtime) (env : Services S) (policy : CommitPolicy)
    (unmarshal : Text → Result Error KafkaTask) (xs : List Action) (a : Action) (l l1 l2 : Loops S)
    → run rt env policy unmarshal xs l ≡ moved l1
    → step rt env policy unmarshal a l1 ≡ moved l2
    → run rt env policy unmarshal (xs ++ a ∷ []) l ≡ moved l2
unfolding run
run-append rt env policy unmarshal [] a l l1 l2 e f =
    let same : l ≡ l1 = moved_inj e in rw (same, f) refl
run-append {S = S} rt env policy unmarshal (x ∷ xs) a l l1 l2 e f =
    go (step rt env policy unmarshal x l)
      (λ l0 h. run-append rt env policy unmarshal xs a l0 l1 l2 h f) e
  where
    go :
        (o : Outcome S)
        → ((l0 : Loops S)
            → run rt env policy unmarshal xs l0 ≡ moved l1
            → run rt env policy unmarshal (xs ++ a ∷ []) l0 ≡ moved l2)
        → and_then o (run rt env policy unmarshal xs) ≡ moved l1
        → and_then o (run rt env policy unmarshal (xs ++ a ∷ [])) ≡ moved l2
    go blocked later h = absurd (ground (arith, h))
    go faulted later h = absurd (ground (arith, h))
    go (moved l0) later h = later l0 h

module _ {S : Type 0} (rt : Runtime) (env : Services S) (queue : S → List Task)
    (laws : QueueLaws env queue) (policy : CommitPolicy)
    (unmarshal : Text → Result Error KafkaTask) where
  -- The message of an action of the history that handles it and commits: it could be read, and in the
  -- state that the earlier actions lead to the application's call for it succeeds with a task.
  pub record Kept (rest : List Action) (start : Loops S) (m : Text) : Type 0 where
    pub earlier : List Action
    pub loop : ℕ
    pub later : List Action
    pub then_at : Loops S
    pub body : KafkaTask
    pub part : rest ≡ earlier ++ handle loop true ∷ later
    pub reached : run rt env policy unmarshal earlier start ≡ moved then_at
    pub holds : then_at.process loop ≡ handling m
    pub read : unmarshal m ≡ ok body
    pub accepted : Accepted rt env queue laws body then_at.app

  handled-Committed :
      (P : Text → Type 0) (l : Loops S)
      → All P l.committed
      → (i : ℕ) (commits : Bool) (pc : ProcessPc)
      → ((m : Text)
          → pc ≡ handling m
          → (handle_message rt env policy unmarshal m l.app).0 ≡ true
          → commits ≡ true
          → P m)
      → Committed P (handled rt env policy unmarshal i commits pc l)
  unfolding handled
  handled-Committed P l v i commits selecting new = tt
  handled-Committed P l v i commits process_done new = tt
  handled-Committed P l v i commits (handling m) new =
      if_elim (All P) ((handle_message rt env policy unmarshal m l.app).0 && commits)
        (λ both. All-snoc P l.committed m v (new m refl (ground arith) (ground arith))) (λ _. v)

  step-Committed :
      (P : Text → Type 0) (l : Loops S)
      → All P l.committed
      → (a : Action)
      → ((i : ℕ) (commits : Bool) (m : Text)
          → a ≡ handle i commits
          → l.process i ≡ handling m
          → (handle_message rt env policy unmarshal m l.app).0 ≡ true
          → commits ≡ true
          → P m)
      → Committed P (step rt env policy unmarshal a l)
  unfolding step
  step-Committed P l v (consume paused got) new = consumed-Committed _ l v l.reader paused got
  step-Committed P l v send new = sent-Committed _ l v l.reader
  step-Committed P l v give_up new = gave_up-Committed _ l v l.reader
  step-Committed P l v (take i) new =
      if_elim (Committed P) (ltb i l.max) (λ _. took-Committed _ l v i (l.process i) l.channel)
        (λ _. tt)
  step-Committed P l v (leave i) new =
      if_elim (Committed P) (ltb i l.max) (λ _. left-Committed _ l v i (l.process i)) (λ _. tt)
  step-Committed P l v (handle i commits) new =
      if_elim (Committed P) (ltb i l.max)
        (λ _. handled-Committed P l v i commits (l.process i) (λ m. new i commits m refl)) (λ _. tt)
  step-Committed P l v begin_stop new = (stop-Committed _ l v l.stop l.reader).0
  step-Committed P l v close_channel new = (stop-Committed _ l v l.stop l.reader).1
  step-Committed P l v end_stop new = (stop-Committed _ l v l.stop l.reader).2

  and_then-Committed :
      (P : Text → Type 0) (o : Outcome S) (k : Loops S → Outcome S)
      → Committed P o
      → ((l : Loops S) → o ≡ moved l → All P l.committed → Committed P (k l))
      → Committed P (and_then o k)
  and_then-Committed P blocked k h keep = tt
  and_then-Committed P faulted k h keep = tt
  and_then-Committed P (moved l) k h keep = keep l refl h

  module _ (no_decode : policy.commit_on_decode_error ≡ false)
      (no_process : policy.commit_on_process_error ≡ false) (all : List Action)
      (start : Loops S) where
    run-keeps :
        (earlier rest : List Action) (l : Loops S)
        → all ≡ earlier ++ rest
        → run rt env policy unmarshal earlier start ≡ moved l
        → All (Kept all start) l.committed
        → Committed (Kept all start) (run rt env policy unmarshal rest l)
    unfolding run
    run-keeps earlier [] l part reached v = v
    run-keeps earlier (a ∷ rest) l part reached v =
        and_then-Committed (Kept all start) (step rt env policy unmarshal a l)
          (run rt env policy unmarshal rest)
          (step-Committed (Kept all start) l v a λ i commits m e holds wanted yes.
            let (k, read, accepted) =
              handle_message-Accepted rt env queue laws policy unmarshal m l.app no_decode
                no_process wanted in
            record {
              earlier = earlier;
              loop = i;
              later = rest;
              then_at = l;
              body = k;
              part = part ∙ ap (λ b. earlier ++ b ∷ rest) (e ∙ ap (handle i) yes);
              reached = reached;
              holds = holds;
              read = read;
              accepted = accepted;
            })
          λ l1 e w.
            run-keeps (earlier ++ a ∷ []) rest l1 (part ∙ sym (append_assoc earlier (a ∷ []) rest))
              (run-append rt env policy unmarshal earlier a start l l1 reached e) w

  -- Where errors are not committed, whatever the goroutines do in whatever order, each message that has
  -- been committed was handled by one of the actions: it could be read, and in the state that the earlier
  -- actions had led to the application's call for it succeeded, with a task for its video that was added
  -- to the end of the queue, or one that the repository lists as pending or processing, with the
  -- queue left as it was.
  pub run-Committed :
      (rest : List Action) (max : ℕ) (app : S)
      → policy.commit_on_decode_error ≡ false
      → policy.commit_on_process_error ≡ false
      → Committed (Kept rest (started max app)) (run rt env policy unmarshal rest (started max app))
  unfolding run
  run-Committed rest max app no_decode no_process =
      run-keeps no_decode no_process rest (started max app) [] rest (started max app) refl refl tt
