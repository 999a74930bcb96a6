-- ===== src/Consumer/Loops.antt =====
-- The goroutines of the consumer: `consumeLoop`, the `processLoop`s, of which there are `max`, and
-- `Stop`, over the channel between them. An action is what one of them does next; a history is any
-- sequence of actions. The application's call is one action, as is a turn of `consumeLoop` up to its
-- select.
pub mod Invariant
pub mod Safe
pub mod Weight
pub mod Returns
pub mod Committed
pub mod Stopped
use go_video_transcode_servi.Common.{
  ℕ, zero, suc, ◌+◌, ◌==◌, ltb, length, Text, Bool, true, false, ◌&&◌, List, [], ◌∷◌, ◌++◌, Option,
  none, some, Error, Result, if◌then◌else◌,
}
use go_video_transcode_servi.Runtime.{Runtime}
use go_video_transcode_servi.App.{Services}
use go_video_transcode_servi.Consumer.{KafkaTask, CommitPolicy, handle_message}

-- Where `consumeLoop` stands: at its head, in its select with a message, or behind its end.
pub data ReaderPc : Type 0 where
  reading read_done : ReaderPc
  sending : Text → ReaderPc

-- Where a `processLoop` stands: in its select, with a message, or behind its end.
pub data ProcessPc : Type 0 where
  selecting process_done : ProcessPc
  handling : Text → ProcessPc

-- Where `Stop` stands: not running, or in one of its two waits.
pub data StopPc : Type 0 where
  not_stopping waiting_read waiting_process : StopPc

-- A message is its body. The last four lists are the history: what has been fetched, given up by the
-- reader, taken from the channel and committed.
pub record Loops (S : Type 0) : Type 0 where
  pub max : ℕ
  pub canceled : Bool  -- c.ctx is done
  pub channel : List Text
  pub closed : Bool
  pub reader : ReaderPc
  pub process : ℕ → ProcessPc
  pub stop : StopPc
  pub app : S
  pub fetched : List Text
  pub given_up : List Text
  pub taken : List Text
  pub committed : List Text

pub data Action : Type 0 where
  consume : Bool → Option Text → Action  -- with the answers of shouldPause and FetchMessage
  send give_up : Action  -- the cases of the reader's select
  take leave : ℕ → Action  -- the cases of the select of a processLoop
  handle : ℕ → Bool → Action  -- with whether CommitMessages would succeed
  begin_stop close_channel end_stop : Action  -- Stop, up to and behind its waits

-- `blocked` is an action that is not possible now, `faulted` a panic.
pub data Outcome (S : Type 0) : Type 0 where
  blocked faulted : Outcome S
  moved : Loops S → Outcome S

abbrev pub put : ℕ → ProcessPc → (ℕ → ProcessPc) → ℕ → ProcessPc
put i pc process j = if i == j then pc else process j

abbrev pub is_done : ProcessPc → Bool
is_done process_done = true
is_done selecting = false
is_done (handling m) = false

-- wgProc.Wait() is through.
unfoldable pub all_done : ℕ → (ℕ → ProcessPc) → Bool
all_done zero process = true
all_done (suc n) process = is_done (process n) && all_done n process

module _ {S : Type 0} where
  -- A turn of `consumeLoop` from its head.
  unfoldable pub consumed : ReaderPc → Bool → Option Text → Loops S → Outcome S
  consumed read_done paused got l = blocked
  consumed (sending m) paused got l = blocked
  consumed reading paused none l = moved (if l.canceled then record l { reader = read_done } else l)
  consumed reading paused (some m) l = moved (
      if l.canceled
      then record l { reader = read_done }
      else if paused
      then l
      else record l { reader = sending m; fetched = l.fetched ++ m ∷ [] })

  -- A send panics on a closed channel and waits on a full one.
  pub sent : ReaderPc → Loops S → Outcome S
  sent reading l = blocked
  sent read_done l = blocked
  sent (sending m) l =
      if l.closed
      then faulted
      else if ltb (length l.channel) l.max
      then moved (record l { reader = reading; channel = l.channel ++ m ∷ [] })
      else blocked

  pub gave_up : ReaderPc → Loops S → Outcome S
  gave_up reading l = blocked
  gave_up read_done l = blocked
  gave_up (sending m) l =
      if l.canceled
      then moved (record l { reader = read_done; given_up = l.given_up ++ m ∷ [] })
      else blocked

  -- A receive waits on an empty channel, unless it is closed.
  pub took : ℕ → ProcessPc → List Text → Loops S → Outcome S
  took i process_done queued l = blocked
  took i (handling m) queued l = blocked
  took i selecting [] l =
      if l.closed then moved (record l { process = put i process_done l.process }) else blocked
  took i selecting (m ∷ rest) l = moved (record l {
    channel = rest;
    process = put i (handling m) l.process;
    taken = l.taken ++ m ∷ [];
  })

  unfoldable pub left : ℕ → ProcessPc → Loops S → Outcome S
  left i process_done l = blocked
  left i (handling m) l = blocked
  left i selecting l =
      if l.canceled then moved (record l { process = put i process_done l.process }) else blocked

  unfoldable pub begun : StopPc → Loops S → Outcome S
  begun waiting_read l = blocked
  begun waiting_process l = blocked
  begun not_stopping l = moved (record l { canceled = true; stop = waiting_read })

  -- Behind wgRead.Wait(). To close a closed channel panics.
  unfoldable pub closed_by : StopPc → ReaderPc → Loops S → Outcome S
  closed_by waiting_read read_done l =
      if l.closed then faulted else moved (record l { closed = true; stop = waiting_process })
  closed_by waiting_read reading l = blocked
  closed_by waiting_read (sending m) l = blocked
  closed_by waiting_process reader l = blocked
  closed_by not_stopping reader l = blocked

  unfoldable pub ended : StopPc → Loops S → Outcome S
  unfolding all_done
  ended waiting_process l =
      if all_done l.max l.process then moved (record l { stop = not_stopping }) else blocked
  ended waiting_read l = blocked
  ended not_stopping l = blocked

  abbrev pub and_then : Outcome S → (Loops S → Outcome S) → Outcome S
  and_then blocked k = blocked
  and_then faulted k = faulted
  and_then (moved l) k = k l

  -- Behind `startInternal`.
  abbrev pub started : ℕ → S → Loops S
  started max app = record {
    max = max;
    canceled = false;
    channel = [];
    closed = false;
    reader = reading;
    process = λ _. selecting;
    stop = not_stopping;
    app = app;
    fetched = [];
    given_up = [];
    taken = [];
    committed = [];
  }

module _ {S : Type 0} (rt : Runtime) (env : Services S) (policy : CommitPolicy)
    (unmarshal : Text → Result Error KafkaTask) where
  handled : ℕ → Bool → ProcessPc → Loops S → Outcome S
  handled i commits selecting l = blocked
  handled i commits process_done l = blocked
  handled i commits (handling m) l =
      let (wanted, app) = handle_message rt env policy unmarshal m l.app in
      moved (record l {
        process = put i selecting l.process;
        app = app;
        committed = if wanted && commits then l.committed ++ m ∷ [] else l.committed;
      })

  unfoldable pub step : Action → Loops S → Outcome S
  unfolding consumed sent gave_up took left begun closed_by ended handled
  step (consume paused got) l = consumed l.reader paused got l
  step send l = sent l.reader l
  step give_up l = gave_up l.reader l
  step (take i) l = if ltb i l.max then took i (l.process i) l.channel l else blocked
  step (leave i) l = if ltb i l.max then left i (l.process i) l else blocked
  step (handle i commits) l = if ltb i l.max then handled i commits (l.process i) l else blocked
  step begin_stop l = begun l.stop l
  step close_channel l = closed_by l.stop l.reader l
  step end_stop l = ended l.stop l

  -- A history, which ends with an action that is not possible or a panic.
  unfoldable pub run : List Action → Loops S → Outcome S
  unfolding step
  run [] l = moved l
  run (a ∷ rest) l = and_then (step a l) (run rest)
