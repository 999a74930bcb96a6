-- ===== src/Consumer/Loops/Stopped.antt =====
-- What a second call of `Stop` does. `StopAll` of pkg/task calls it, and then `Shutdown` of pkg/manager.
use go_video_transcode_servi.Common.{ℕ, Text, true, List, [], ◌∷◌, ◌≡◌, arith, Error, Result}
use mathlib.Core.Path.{subst}
use go_video_transcode_servi.Runtime.{Runtime}
use go_video_transcode_servi.App.{Services}
use go_video_transcode_servi.Consumer.{KafkaTask, CommitPolicy}
use go_video_transcode_servi.Consumer.Loops.{
  not_stopping, read_done, Loops, Action, begin_stop, close_channel, faulted, moved, started, begun,
  closed_by, step, run,
}
use go_video_transcode_servi.Consumer.Loops.Invariant.{stops, Inv}
use go_video_transcode_servi.Consumer.Loops.Safe.{Fine, run-Inv}

module _ {S : Type 0} (rt : Runtime) (env : Services S) (policy : CommitPolicy)
    (unmarshal : Text → Result Error KafkaTask) where
  stop_closed :
      (l : Loops S)
      → l.closed ≡ true
      → l.stop ≡ not_stopping
      → l.reader ≡ read_done
      → run rt env policy unmarshal (begin_stop ∷ close_channel ∷ []) l ≡ faulted
  unfolding run step begun closed_by
  stop_closed l c s r = ground arith

  -- After any history in which `Stop` has returned, another call of it panics at its close of the channel.
  pub run-stop_again :
      (rest : List Action) (max : ℕ) (app : S) (l : Loops S)
      → run rt env policy unmarshal rest (started max app) ≡ moved l
      → l.closed ≡ true
      → l.stop ≡ not_stopping
      → run rt env policy unmarshal (begin_stop ∷ close_channel ∷ []) l ≡ faulted
  run-stop_again rest max app l e c s =
      let v : Inv (stops rest 0) l =
        subst (Fine (stops rest 0)) e (run-Inv rt env policy unmarshal rest max app) in
      stop_closed l c s (v.closed_late c).0
