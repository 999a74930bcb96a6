-- ===== src/Consumer/Loops/Safe.antt =====
-- What holds of the consumer's goroutines in every history.
use go_video_transcode_servi.Common.{
  ℕ, suc, ◌≤◌, ltb, length, Text, Bool, List, [], ◌∷◌, ◌≡◌, refl, arith, Option, none, some, Error,
  Result, if_elim,
}
use go_video_transcode_servi.Runtime.{Runtime}
use go_video_transcode_servi.App.{Services}
use go_video_transcode_servi.Consumer.{KafkaTask, CommitPolicy}
use go_video_transcode_servi.Consumer.Loops.{
  ReaderPc, reading, read_done, sending, ProcessPc, selecting, process_done, handling, StopPc,
  not_stopping, waiting_read, waiting_process, Loops, Action, consume, send, give_up, take, leave,
  handle, begin_stop, close_channel, end_stop, Outcome, blocked, faulted, moved, started, consumed,
  sent, gave_up, took, left, begun, closed_by, ended, handled, all_done, and_then, step, run,
}
use go_video_transcode_servi.Consumer.Loops.Invariant.{
  counted, stops, le-stops, Inv, started-Inv, process_Inv, done_Inv, fetched_Inv, sent_Inv,
  gave_up_Inv, took_Inv,
}

-- What an action with `n` calls of `Stop` behind it may lead to.
abbrev pub Fine : {S : Type 0} → ℕ → Outcome S → Type 0
Fine n blocked = Unit {0}
Fine n faulted = 2 ≤ n
Fine n (moved l) = Inv n l

module _ {S : Type 0} (n : ℕ) (l : Loops S) (v : Inv n l) where
  consumed-Fine :
      (pc : ReaderPc) (paused : Bool) (got : Option Text)
      → l.reader ≡ pc
      → Fine n (consumed pc paused got l)
  unfolding consumed
  consumed-Fine read_done paused got e = tt
  consumed-Fine (sending m) paused got e = tt
  consumed-Fine reading paused none e = if_elim (Inv n) l.canceled (λ _. done_Inv n l v e) (λ _. v)
  consumed-Fine reading paused (some m) e =
      if_elim (Inv n) l.canceled (λ _. done_Inv n l v e)
        λ _. if_elim (Inv n) paused (λ _. v) λ _. fetched_Inv n l v m e

  sent-Fine : (pc : ReaderPc) → l.reader ≡ pc → Fine n (sent pc l)
  unfolding sent
  sent-Fine reading e = tt
  sent-Fine read_done e = tt
  sent-Fine (sending m) e =
      if_elim (Fine n) l.closed (λ shut. absurd (ground (arith, v.closed_late shut)))
        (λ _.
          if_elim (Fine n) (ltb (length l.channel) l.max) (λ fits. sent_Inv n l v m e fits)
            (λ _. tt))

  gave_up-Fine : (pc : ReaderPc) → l.reader ≡ pc → Fine n (gave_up pc l)
  unfolding gave_up
  gave_up-Fine reading e = tt
  gave_up-Fine read_done e = tt
  gave_up-Fine (sending m) e = if_elim (Fine n) l.canceled (λ _. gave_up_Inv n l v m e) (λ _. tt)

  took-Fine :
      (i : ℕ) (pc : ProcessPc) (queued : List Text)
      → l.channel ≡ queued
      → Fine n (took i pc queued l)
  unfolding took
  took-Fine i process_done queued e = tt
  took-Fine i (handling m) queued e = tt
  took-Fine i selecting [] e = if_elim (Fine n) l.closed (λ _. process_Inv n l v _) (λ _. tt)
  took-Fine i selecting (m ∷ rest) e = took_Inv n l v i m rest e

  left-Fine : (i : ℕ) (pc : ProcessPc) → Fine n (left i pc l)
  unfolding left
  left-Fine i process_done = tt
  left-Fine i (handling m) = tt
  left-Fine i selecting = if_elim (Fine n) l.canceled (λ _. process_Inv n l v _) (λ _. tt)

  begun-Fine : (pc : StopPc) → Fine (suc n) (begun pc l)
  unfolding begun
  begun-Fine waiting_read = tt
  begun-Fine waiting_process = tt
  begun-Fine not_stopping = record {
    order = v.order;
    room = v.room;
    closed_late = λ c. ground (arith, v.closed_late c);
    closing = λ c w. omega (arith, (v.closed_late c).1);
    stopping = λ h. omega arith;
    canceling = λ h. refl;
    kept = v.kept;
    kept_all = v.kept_all;
    one_given_up = v.one_given_up;
  }

  closed_by-Fine :
      (pc : StopPc) (reader : ReaderPc)
      → l.stop ≡ pc
      → l.reader ≡ reader
      → Fine n (closed_by pc reader l)
  unfolding closed_by
  closed_by-Fine waiting_read reading e r = tt
  closed_by-Fine waiting_read (sending m) e r = tt
  closed_by-Fine waiting_process reader e r = tt
  closed_by-Fine not_stopping reader e r = tt
  closed_by-Fine waiting_read read_done e r =
      if_elim (Fine n) l.closed (λ shut. v.closing shut e)
        (λ _. record {
          order = v.order;
          room = v.room;
          closed_late = λ c. (r, v.stopping (λ h. cc));
          closing = λ c w. cc;
          stopping = λ h. v.stopping (λ h. cc);
          canceling = λ h. v.canceling (λ h. cc);
          kept = v.kept;
          kept_all = v.kept_all;
          one_given_up = v.one_given_up;
        })

  ended-Fine : (pc : StopPc) → Fine n (ended pc l)
  unfolding ended
  ended-Fine waiting_read = tt
  ended-Fine not_stopping = tt
  ended-Fine waiting_process =
      if_elim (Fine n) (all_done l.max l.process)
        (λ _. record {
          order = v.order;
          room = v.room;
          closed_late = v.closed_late;
          closing = λ c w. cc;
          stopping = λ h. absurd (h refl);
          canceling = λ h. absurd (h refl);
          kept = v.kept;
          kept_all = v.kept_all;
          one_given_up = v.one_given_up;
        })
        (λ _. tt)

module _ {S : Type 0} (rt : Runtime) (env : Services S) (policy : CommitPolicy)
    (unmarshal : Text → Result Error KafkaTask) where
  handled-Fine :
      (n : ℕ) (l : Loops S) (v : Inv n l) (i : ℕ) (commits : Bool) (pc : ProcessPc)
      → Fine n (handled rt env policy unmarshal i commits pc l)
  unfolding handled
  handled-Fine n l v i commits selecting = tt
  handled-Fine n l v i commits process_done = tt
  handled-Fine n l v i commits (handling m) = record {
    order = v.order;
    room = v.room;
    closed_late = v.closed_late;
    closing = v.closing;
    stopping = v.stopping;
    canceling = v.canceling;
    kept = v.kept;
    kept_all = v.kept_all;
    one_given_up = v.one_given_up;
  }

  step-Fine :
      (n : ℕ) (l : Loops S) (v : Inv n l) (a : Action)
      → Fine (counted a n) (step rt env policy unmarshal a l)
  unfolding step
  step-Fine n l v (consume paused got) = consumed-Fine n l v l.reader paused got refl
  step-Fine n l v send = sent-Fine n l v l.reader refl
  step-Fine n l v give_up = gave_up-Fine n l v l.reader refl
  step-Fine n l v (take i) =
      if_elim (Fine n) (ltb i l.max) (λ _. took-Fine n l v i (l.process i) l.channel refl) (λ _. tt)
  step-Fine n l v (leave i) =
      if_elim (Fine n) (ltb i l.max) (λ _. left-Fine n l v i (l.process i)) (λ _. tt)
  step-Fine n l v (handle i commits) =
      if_elim (Fine n) (ltb i l.max) (λ _. handled-Fine n l v i commits (l.process i)) (λ _. tt)
  step-Fine n l v begin_stop = begun-Fine n l v l.stop
  step-Fine n l v close_channel = closed_by-Fine n l v l.stop l.reader refl refl
  step-Fine n l v end_stop = ended-Fine n l v l.stop

  and_then-Fine :
      (m n : ℕ) (o : Outcome S) (k : Loops S → Outcome S)
      → m ≤ n
      → Fine m o
      → ((l : Loops S) → Inv m l → Fine n (k l))
      → Fine n (and_then o k)
  and_then-Fine m n blocked k h f keep = tt
  and_then-Fine m n faulted k h f keep = omega (arith, h, f)
  and_then-Fine m n (moved l) k h f keep = keep l f

  run-Fine :
      (rest : List Action) (n : ℕ) (l : Loops S)
      → Inv n l
      → Fine (stops rest n) (run rt env policy unmarshal rest l)
  unfolding run
  run-Fine [] n l v = v
  run-Fine (a ∷ rest) n l v =
      and_then-Fine (counted a n) (stops rest (counted a n)) (step rt env policy unmarshal a l)
        (run rt env policy unmarshal rest) (le-stops rest (counted a n)) (step-Fine n l v a)
        (run-Fine rest (counted a n))

  -- Whatever happens in whatever order: unless `Stop` is called twice nothing panics, and the messages
  -- taken from the channel, those in it, the one that the reader holds and the one that it has given
  -- up, of which there is one at most, are those fetched, in order; the channel never holds more than
  -- `max`, and is closed only behind the reader's end.
  pub run-Inv :
      (rest : List Action) (max : ℕ) (app : S)
      → Fine (stops rest 0) (run rt env policy unmarshal rest (started max app))
  run-Inv rest max app = run-Fine rest 0 (started max app) (started-Inv max app)
