-- ===== src/TaskManager/Order.antt =====
-- The order in which tasks are stopped.
use go_video_transcode_servi.Common.{
  Bool, true, false, List, [], ◌∷◌, ◌++◌, ◌≡◌, refl, ap, none, some,
}
use go_video_transcode_servi.TaskManager.{
  BackgroundTask, Manager, register, start_each, start_tasks, stop_each, stop_tasks,
}

module _ {S : Type 0} where
  stop_each-append :
      (ts us : List (BackgroundTask S)) (s : S)
      → stop_each (ts ++ us) s ≡ stop_each ts (stop_each us s)
  unfolding stop_each
  stop_each-append [] us s = refl
  stop_each-append (t ∷ ts) us s = ap t.stop (stop_each-append ts us s)

  -- What is said below, of a manager in parts.
  AgainIn : (S → S) → Manager S → BackgroundTask S → S → Type 0
  AgainIn cancel m t s =
      let ((m1, failed), s1) = start_tasks m s in
      let (m2, s2) = stop_tasks cancel (register (some t) m1) s1 in
      (start_tasks m1 s1 ≡ ((m1, none), s1))
      × (s2 ≡ stop_each m1.tasks (t.stop (cancel s1)))
      × ((start_tasks m2 s2).0.1 ≡ (start_each (m1.tasks ++ t ∷ []) s2).0)

  again_in :
      (cancel : S → S) (ts : List (BackgroundTask S)) (started : Bool) (t : BackgroundTask S)
      (s : S)
      → AgainIn cancel (record { tasks = ts; started = started }) t s
  unfolding AgainIn start_tasks stop_tasks register start_each stop_each
  again_in cancel ts true t s = (refl, stop_each-append ts (t ∷ []) (cancel s), refl)
  again_in cancel ts false t s =
      (refl, stop_each-append ts (t ∷ []) (cancel (start_each ts s).1), refl)

  -- Once `StartAll` has been called, whether a task has failed to start or not, another call does
  -- nothing; `StopAll` stops a task that is registered then before all others, those that never
  -- started included, and lets `StartAll` begin again with the first.
  start_tasks-again :
      (cancel : S → S) (m : Manager S) (t : BackgroundTask S) (s : S)
      → let ((m1, failed), s1) = start_tasks m s in
        let (m2, s2) = stop_tasks cancel (register (some t) m1) s1 in
        (start_tasks m1 s1 ≡ ((m1, none), s1))
        × (s2 ≡ stop_each m1.tasks (t.stop (cancel s1)))
        × ((start_tasks m2 s2).0.1 ≡ (start_each (m1.tasks ++ t ∷ []) s2).0)
  unfolding AgainIn
  start_tasks-again cancel m t s = again_in cancel m.tasks m.started t s
