-- ===== src/App/Update.antt =====
-- `UpdateTranscodeTaskStatus` and `CancelTranscodeTask`: the stored status follows the diagram.
use go_video_transcode_servi.Common.{
  Text, text_eq, text_eq_iff, ◌≡◌, ◌≢◌, ◌⊎◌, inl, inr, refl, ◌∙◌, arith, Option, none, some, Result,
  ok, err, Bool-cases, is_empty, if◌then◌else◌, Error,
}
use go_video_transcode_servi.Runtime.{Runtime}
use go_video_transcode_servi.Status.{TaskStatus, new_task_status_from_string, can_transition_to}
use go_video_transcode_servi.Status.Machine.{◌⟶◌, ⟶-known, can_transition_to_iff}
use go_video_transcode_servi.Task.{Task}
use go_video_transcode_servi.Store.Laws.{StatusLaws}
use go_video_transcode_servi.App.{
  Services, write_status, write_found, looked_up, update_transcode_task_status,
}

-- From one state of the store to another the status of a job stays or moves along one edge.
pub data Moves (before : Option TaskStatus) (after : Option TaskStatus) : Type 0 where
  stays : after ≡ before → Moves before after
  steps : {a b : TaskStatus} → before ≡ some a → after ≡ some b → a ⟶ b → Moves before after

module _ {S : Type 0} (rt : Runtime) (env : Services S) (status_in : S → Text → Option TaskStatus)
    (laws : StatusLaws env.repo status_in) where
  text-cases : (k id : Text) → (k ≡ id) ⊎ (k ≢ id)
  text-cases k id = elim (Bool-cases (text_eq k id)) [
    | inl e ↦ inl ((text_eq_iff k id).0 e)
    | inr e ↦ inr (λ p. cc (e, (text_eq_iff k id).1 p))
  ]

  -- The store after `write_status`.
  write_status-state :
      (id : Text) (target : TaskStatus) (message : Text) (t : Task) (s : S)
      → (write_status rt env id target message t s).1 ≡ (
          if can_transition_to t.status target
          then (env.update_status id target message t.output_path t.progress s).1
          else s)
  unfolding write_status
  write_status-state id target message t s = ground arith

  update-Moves :
      (id : Text) (target : TaskStatus) (message : Text) (t : Task) (s : S) (k : Text)
      → t.status ⟶ target
      → status_in s id ≡ some t.status
      → Moves
          (status_in s k)
          (status_in (env.update_status id target message t.output_path t.progress s).1 k)
  update-Moves id target message t s k edge e = elim (text-cases k id) [
    | inl p ↦
        rw p (elim (laws.update_self id target message t.output_path t.progress s (⟶-known edge)) [
          | inl kept ↦ stays kept
          | inr (_, written) ↦ steps e written edge
        ])
    | inr p ↦ stays (laws.update_others id target message t.output_path t.progress s k p)
  ]

  write-Moves :
      (id : Text) (target : TaskStatus) (message : Text) (t : Task) (s : S) (k : Text)
      → status_in s id ≡ some t.status
      → Moves (status_in s k) (status_in (write_status rt env id target message t s).1 k)
  write-Moves id target message t s k e = elim (Bool-cases (can_transition_to t.status target)) [
    | inl yes_ ↦
        rw (write_status-state id target message t s)
          (rw yes_ (update-Moves id target message t s k ((can_transition_to_iff _ _).0 yes_) e))
    | inr no_ ↦ rw (write_status-state id target message t s) (rw no_ (stays refl))
  ]

  found-Moves :
      (id : Text) (target : TaskStatus) (message : Text) (s : S) (k : Text)
      (r : Result Error (Option Task))
      → (env.get_job id s).0 ≡ r
      → Moves
          (status_in s k)
          (status_in (write_found rt env id target message (looked_up r) (env.get_job id s).1).1 k)
  unfolding write_found looked_up
  found-Moves id target message s k (err e) h = stays (laws.get_keeps id s k)
  found-Moves id target message s k (ok none) h = stays (laws.get_keeps id s k)
  found-Moves id target message s k (ok (some t)) h = rw (← laws.get_keeps id s k) (
      write-Moves id target message t (env.get_job id s).1 k
        (laws.get_keeps id s id ∙ laws.get_reads id s t h))

  update-state :
      (id status message : Text) (s : S)
      → let (target, known) = new_task_status_from_string status in
        let (found, s') = env.get_job id s in
        (update_transcode_task_status rt env id status message s).1 ≡ (
          if is_empty id
          then s
          else if known
          then (write_found rt env id target message (looked_up found) s').1
          else s)
  unfolding update_transcode_task_status
  update-state id status message s = ground arith

  -- Whatever is asked for, and whether a database call fails or not, the stored status of every job
  -- stays as it was or moves along one edge of the diagram.
  pub update_transcode_task_status-Moves :
      (id status message : Text) (s : S) (k : Text)
      → Moves
          (status_in s k)
          (status_in (update_transcode_task_status rt env id status message s).1 k)
  update_transcode_task_status-Moves id status message s k =
      rw (update-state id status message s) (elim (Bool-cases (is_empty id)) [
        | inl blank ↦ rw blank (stays refl)
        | inr named ↦ rw named (elim (Bool-cases (new_task_status_from_string status).1) [
          | inl known ↦ rw known (found-Moves id _ message s k _ refl)
          | inr unknown ↦ rw unknown (stays refl)
        ])
      ])
