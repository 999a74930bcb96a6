-- ===== src/Task/Lifecycle.antt =====
-- What any sequence of `TransitionTo` calls does to a task.
use go_video_transcode_servi.Common.{
  ℕ, suc, ◌+◌, ◌≤◌, ◌<◌, true, List, [], ◌∷◌, ◌≡◌, ◌≢◌, refl, arith, none, some, Bool-cases, ◌⊎◌,
  inl, inr,
}
use go_video_transcode_servi.Status.{TaskStatus, can_transition_to}
use go_video_transcode_servi.Status.Machine.{
  ◌⟶◌, can_transition_to_iff, is_terminal, changes_left, ⟶-changes_left,
}
use go_video_transcode_servi.Task.{Task, transition_to}

-- Many callers, each with a target and the time of its call; the answer counts the accepted calls.
unfoldable transition_all : List (TaskStatus × ℕ) → Task → Task × ℕ
transition_all [] t = (t, 0)
transition_all ((target, now) ∷ rest) t =
    let (t', e) = transition_to target now t in
    let (u, n) = transition_all rest t' in (u, elim e [ none ↦ suc n | some _ ↦ n ])

-- An accepted call follows an edge of the diagram and sets the state; a refused one changes nothing.
transition_to-cases :
    (target : TaskStatus) (now : ℕ) (t : Task)
    → let (t', e) = transition_to target now t in
      ((e ≡ none) × (t.status ⟶ target) × (t'.status ≡ target) × (t'.updated_at ≡ now))
      ⊎ ((e ≢ none) × (t' ≡ t) × ¬ (t.status ⟶ target))
unfolding transition_to
transition_to-cases target now t = elim (Bool-cases (can_transition_to t.status target)) [
  | inl h ↦ rw h (inl (refl, (can_transition_to_iff t.status target).0 h, refl, refl))
  | inr h ↦
      rw h (inr (λ p. cc, refl, λ step. cc (h, (can_transition_to_iff t.status target).1 step)))
]

step_bound :
    (target : TaskStatus) (now : ℕ) (t : Task)
    → (transition_to target now t).1 ≡ none
    → changes_left (transition_to target now t).0.status < changes_left t.status
step_bound target now t e = elim (transition_to-cases target now t) [
  | inl (_, edge, s, _) ↦ rw s (⟶-changes_left edge)
  | inr (ne, _, _) ↦ absurd (ne e)
]

step_refused :
    (target : TaskStatus) (now : ℕ) (t : Task)
    → (transition_to target now t).1 ≢ none
    → (transition_to target now t).0 ≡ t
step_refused target now t h = elim (transition_to-cases target now t) [
  | inl (accepted, _, _, _) ↦ absurd (h accepted)
  | inr (_, same_task, _) ↦ same_task
]

-- Over any history of calls the accepted ones and the changes still possible stay within the changes
-- possible at the start; from `pending` at most two calls are ever accepted.
transition_all_bound :
    (calls : List (TaskStatus × ℕ)) (t : Task)
    → (transition_all calls t).1 + changes_left (transition_all calls t).0.status
      ≤ changes_left t.status
unfolding transition_all
transition_all_bound [] t = omega arith
transition_all_bound ((target, now) ∷ rest) t = ground (
  arith,
  step_bound target now t,
  step_refused target now t,
  transition_all_bound rest (transition_to target now t).0,
)

terminal_refuses :
    (target : TaskStatus) (now : ℕ) (t : Task)
    → is_terminal t.status ≡ true
    → ((transition_to target now t).0 ≡ t) × ((transition_to target now t).1 ≢ none)
terminal_refuses target now t h = elim (transition_to-cases target now t) [
  | inl (_, edge, _, _) ↦ absurd (no_edge t.status edge h)
  | inr (ne, same_task, _) ↦ (same_task, ne)
]
  where
    no_edge : (s : TaskStatus) → s ⟶ target → is_terminal s ≡ true → ⊥
    no_edge s edge h = ground (arith, ⟶-changes_left edge)

-- A completed, failed or cancelled task refuses every call of any history and stays as it was.
transition_all-terminal :
    (calls : List (TaskStatus × ℕ)) (t : Task)
    → is_terminal t.status ≡ true
    → transition_all calls t ≡ (t, 0)
unfolding transition_all
transition_all-terminal [] t h = refl
transition_all-terminal ((target, now) ∷ rest) t h =
    ground (arith, terminal_refuses target now t h, transition_all-terminal rest t h)

step_frame :
    (target : TaskStatus) (now : ℕ) (t : Task)
    → record (transition_to target now t).0 { status = t.status; updated_at = t.updated_at } ≡ t
unfolding transition_to
step_frame target now t = ground arith

-- Whatever the calls, nothing but the state and the time of the update changes.
transition_all-frame :
    (calls : List (TaskStatus × ℕ)) (t : Task)
    → record (transition_all calls t).0 { status = t.status; updated_at = t.updated_at } ≡ t
unfolding transition_all
transition_all-frame [] t = refl
transition_all-frame ((target, now) ∷ rest) t =
    ground
      (arith, step_frame target now t, transition_all-frame rest (transition_to target now t).0)
