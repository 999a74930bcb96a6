-- ===== src/Dto.antt =====
-- The view of a task that the service hands out (ddd/application/dto/transcode_task_dto.go).
-- float64(progress) is exact for every percentage, so the progress stays an integer.
use go_video_transcode_servi.Common.{
  ℕ, ℤ, Text, List, [], ◌∷◌, Option, none, some, ◌+◌, ◌/◌, ◌%◌, ltb, if◌then◌else◌, ◌==◌,
}
use go_video_transcode_servi.Status.{value}
use go_video_transcode_servi.Params.{TranscodeParams}
use go_video_transcode_servi.Task.{Task}

pub record TranscodeTaskDto : Type 0 where
  pub task_uuid : Text
  pub user_uuid : Text
  pub video_uuid : Text
  pub video_push_uuid : Text
  pub original_path : Text
  pub output_path : Text
  pub status : Text
  pub progress : ℤ
  pub error_message : Text
  pub created_at : ℕ
  pub updated_at : ℕ
  pub params : TranscodeParams

unfoldable pub new_task_dto : Task → TranscodeTaskDto
new_task_dto t = record {
  task_uuid = t.task_uuid;
  user_uuid = t.user_uuid;
  video_uuid = t.video_uuid;
  video_push_uuid = t.video_push_uuid;
  original_path = t.original_path;
  output_path = t.output_path;
  status = value t.status;
  progress = t.progress;
  error_message = t.error_message;
  created_at = t.created_at;
  updated_at = t.updated_at;
  params = t.params;
}

record TranscodeTaskListDto : Type 0 where
  pub tasks : List TranscodeTaskDto
  pub total : ℕ
  pub page : ℕ
  pub size : ℕ
  pub total_pages : ℕ

unfoldable task_dtos : List (Option Task) → List TranscodeTaskDto
unfolding new_task_dto
task_dtos [] = []
task_dtos (none ∷ rest) = task_dtos rest
task_dtos (some t ∷ rest) = new_task_dto t ∷ task_dtos rest

-- `none` is the fault of a division by zero.
unfoldable new_task_list_dto : List (Option Task) → ℕ → ℕ → ℕ → Option TranscodeTaskListDto
unfolding task_dtos
new_task_list_dto entities total page size =
    let whole = total / size in
    let pages = if ltb 0 (total % size) then whole + 1 else whole in
    if size == 0
    then none
    else some (record {
      tasks = task_dtos entities;
      total = total;
      page = page;
      size = size;
      total_pages = pages;
    })
