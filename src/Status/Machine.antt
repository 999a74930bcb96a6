-- ===== src/Status/Machine.antt =====
-- The state diagram behind `CanTransitionTo`, and the strings of the states.
use go_video_transcode_servi.Common.{
  ℕ, ◌<◌, Text, codes, text_eq, text_eq_iff, Bool, true, false, ◌≡◌, ◌≢◌, ◌↔◌, refl, arith,
}
use go_video_transcode_servi.Status.{
  TaskStatus, pending, processing, completed, failed, cancelled, unset, value,
  new_task_status_from_string, is_valid, can_transition_to,
}

-- The allowed edges.
infix 40 ◌⟶◌
pub data ◌⟶◌ : TaskStatus → TaskStatus → Type 0 where
  start : pending ⟶ processing
  reject : pending ⟶ failed
  drop : pending ⟶ cancelled
  finish : processing ⟶ completed
  break : processing ⟶ failed
  stop : processing ⟶ cancelled

ruleset edges = (start, reject, drop, finish, break, stop)

allowed : {s t : TaskStatus} → s ⟶ t → can_transition_to s t ≡ true
unfolding can_transition_to
allowed start = refl
allowed reject = refl
allowed drop = refl
allowed finish = refl
allowed break = refl
allowed stop = refl

edge : (s t : TaskStatus) → can_transition_to s t ≡ true → s ⟶ t
unfolding can_transition_to
edge s t h = grind (arith, edges)

-- `CanTransitionTo` says yes exactly on the six edges of the diagram.
pub can_transition_to_iff : (s t : TaskStatus) → (can_transition_to s t ≡ true) ↔ (s ⟶ t)
can_transition_to_iff s t = (edge s t, allowed)

abbrev pub is_terminal : TaskStatus → Bool
is_terminal completed = true
is_terminal failed = true
is_terminal cancelled = true
is_terminal _ = false

-- How many changes are still possible.
abbrev pub changes_left : TaskStatus → ℕ
changes_left pending = 2
changes_left processing = 1
changes_left _ = 0

-- A terminal state has no successor, and each allowed change uses up one of at most two.
pub ⟶-changes_left : {s t : TaskStatus} → s ⟶ t → changes_left t < changes_left s
⟶-changes_left start = omega arith
⟶-changes_left reject = omega arith
⟶-changes_left drop = omega arith
⟶-changes_left finish = omega arith
⟶-changes_left break = omega arith
⟶-changes_left stop = omega arith

-- No edge leads to the zero value.
pub ⟶-known : {s t : TaskStatus} → s ⟶ t → t ≢ unset
⟶-known start = λ e. cc
⟶-known reject = λ e. cc
⟶-known drop = λ e. cc
⟶-known finish = λ e. cc
⟶-known break = λ e. cc
⟶-known stop = λ e. cc

-- Reading back the string of a state of the set gives that state without an error.
pub new_task_status_from_string-value :
    (s : TaskStatus) → s ≢ unset → new_task_status_from_string (value s) ≡ (s, true)
unfolding new_task_status_from_string text_eq
new_task_status_from_string-value pending h = refl
new_task_status_from_string-value processing h = refl
new_task_status_from_string-value completed h = refl
new_task_status_from_string-value failed h = refl
new_task_status_from_string-value cancelled h = refl
new_task_status_from_string-value unset h = absurd (h refl)

from_string_sound :
    (v : Text) (s : TaskStatus)
    → new_task_status_from_string v ≡ (s, true)
    → (value s ≡ v) × (s ≢ unset)
unfolding new_task_status_from_string
from_string_sound v s h = ground (
  arith,
  text_eq_iff (codes "pending") v,
  text_eq_iff v (codes "pending"),
  text_eq_iff (codes "processing") v,
  text_eq_iff (codes "completed") v,
  text_eq_iff (codes "failed") v,
  text_eq_iff (codes "cancelled") v,
)

-- A string is read without an error exactly if it is the string of the state that is returned, and
-- that state is one of the five.
new_task_status_from_string_iff :
    (v : Text) (s : TaskStatus)
    → (new_task_status_from_string v ≡ (s, true)) ↔ ((value s ≡ v) × (s ≢ unset))
new_task_status_from_string_iff v s =
    (from_string_sound v s, λ h. rw (← h.0) (new_task_status_from_string-value s h.1))

-- `IsValid` holds of the five states and not of the zero value.
is_valid_iff : (s : TaskStatus) → (is_valid s ≡ true) ↔ (s ≢ unset)
unfolding is_valid text_eq
is_valid_iff pending = ground arith
is_valid_iff processing = ground arith
is_valid_iff completed = ground arith
is_valid_iff failed = ground arith
is_valid_iff cancelled = ground arith
is_valid_iff unset = ground arith
