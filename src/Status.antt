-- ===== src/Status.antt =====
-- Task states (ddd/domain/vo/task_status.go). `TaskStatus` is a struct around one unexported
-- string, so its values are the five of the package and the zero value, here `unset`.
pub mod Machine
use go_video_transcode_servi.Common.{
  ℕ, Text, codes, text_eq, text_eq_iff, Bool, true, false, ◌&&◌, ◌||◌, not, List, [], ◌∷◌, ◌≡◌, ◌≢◌,
  ◌↔◌, refl, arith, if◌then◌else◌, ◌⊎◌, inl, inr, none, some, Option,
}

pub data TaskStatus : Type 0 where
  pending processing completed failed cancelled unset : TaskStatus

-- The string of a state: the field `value`, and the methods `String` and `Value`.
abbrev pub value : TaskStatus → Text
value pending = codes "pending"
value processing = codes "processing"
value completed = codes "completed"
value failed = codes "failed"
value cancelled = codes "cancelled"
value unset = []

-- Go's == on two states
unfoldable pub same : TaskStatus → TaskStatus → Bool
same pending pending = true
same processing processing = true
same completed completed = true
same failed failed = true
same cancelled cancelled = true
same unset unset = true
same _ _ = false

abbrev task_status_set : List TaskStatus
task_status_set = pending ∷ processing ∷ completed ∷ failed ∷ cancelled ∷ []

find_value : Text → List TaskStatus → TaskStatus
find_value v [] = pending
find_value v (s ∷ rest) = if text_eq (value s) v then s else find_value v rest

unfoldable new_task_status : Text → TaskStatus
unfolding find_value
new_task_status v = find_value v task_status_set

-- The result beside the error is the fallback state, which the source returns too.
unfoldable pub new_task_status_from_string : Text → TaskStatus × Bool
unfolding new_task_status same
new_task_status_from_string v =
    let s = new_task_status v in (s, not (same s pending && not (text_eq v (value pending))))

any_value : TaskStatus → List TaskStatus → Bool
any_value s [] = false
any_value s (t ∷ rest) = text_eq (value s) (value t) || any_value s rest

unfoldable pub is_valid : TaskStatus → Bool
unfolding any_value
is_valid s = any_value s task_status_set

unfoldable pub can_transition_to : TaskStatus → TaskStatus → Bool
unfolding same
can_transition_to pending target =
    same target processing || same target failed || same target cancelled
can_transition_to processing target =
    same target completed || same target failed || same target cancelled
can_transition_to completed target = false
can_transition_to failed target = false
can_transition_to cancelled target = false
can_transition_to unset target = false

same_iff : (s t : TaskStatus) → (same s t ≡ true) ↔ (s ≡ t)
unfolding same
same_iff s t = ground arith
