-- ===== src/Worker/Manager.antt =====
-- Starting and stopping all workers.
use go_video_transcode_servi.Common.{
  ℕ, true, false, List, [], ◌∷◌, ◌≡◌, ◌↔◌, refl, arith, none, All, Bool-cases, inl, inr,
}
use go_video_transcode_servi.Worker.{TranscodeWorker, start_all, stop_all}

abbrev IsStopped : TranscodeWorker → Type 0
IsStopped w = w.running ≡ false

abbrev IsRunning : TranscodeWorker → Type 0
IsRunning w = w.running ≡ true

start_all-IsStopped :
    (now : ℕ) (ws : List TranscodeWorker) → (start_all now ws).1 ≡ none → All IsStopped ws
unfolding start_all
start_all-IsStopped now [] h = tt
start_all-IsStopped now (w ∷ ws) h = elim (Bool-cases w.running) [
  | inl busy ↦ absurd (ground arith)
  | inr idle ↦ (idle, start_all-IsStopped now ws (ground arith))
]

-- From stopped workers, `StartAll` succeeds, and all of them run.
start_all-IsRunning :
    (now : ℕ) (ws : List TranscodeWorker)
    → All IsStopped ws
    → ((start_all now ws).1 ≡ none) × All IsRunning (start_all now ws).0
unfolding start_all
start_all-IsRunning now [] a = (refl, tt)
start_all-IsRunning now (w ∷ ws) a =
    rw a.0 ((start_all-IsRunning now ws a.1).0, (refl, (start_all-IsRunning now ws a.1).1))

stop_all-IsStopped : (ws : List TranscodeWorker) → All IsStopped (stop_all ws)
unfolding stop_all
stop_all-IsStopped [] = tt
stop_all-IsStopped (w ∷ ws) = (refl, stop_all-IsStopped ws)

-- `StartAll` succeeds exactly on workers that are all stopped, and then all run; after `StopAll` it
-- always succeeds.
start_all_iff :
    (now : ℕ) (ws : List TranscodeWorker)
    → (((start_all now ws).1 ≡ none) ↔ (All IsStopped ws × All IsRunning (start_all now ws).0))
      × ((start_all now (stop_all ws)).1 ≡ none)
start_all_iff now ws = (
  (
    λ h.
        let stopped = start_all-IsStopped now ws h in
        (stopped, (start_all-IsRunning now ws stopped).1),
    λ a. (start_all-IsRunning now ws a.0).0,
  ),
  (start_all-IsRunning now (stop_all ws) (stop_all-IsStopped ws)).0,
)
