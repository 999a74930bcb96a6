-- ===== src/HttpServer/Posted.antt =====
-- What the HTTP interface answers to the creation of a task.
use go_video_transcode_servi.Common.{List, ◌∷◌, ◌≡◌, none, some, Error, Result, ok}
use go_video_transcode_servi.Runtime.{Runtime}
use go_video_transcode_servi.Task.{Task}
use go_video_transcode_servi.Errno.{AppError, response_code}
use go_video_transcode_servi.Request.{CreateTranscodeTaskReq}
use go_video_transcode_servi.Dto.{TranscodeTaskDto, new_task_dto}
use go_video_transcode_servi.App.Create.{HandedOut}
use go_video_transcode_servi.Gin
use go_video_transcode_servi.Rest.{Response, Encoding}
use go_video_transcode_servi.Rest.Answers.{Sent}

-- One answer more: with a task, which is the one item added to the queue or leaves the queue as it was,
-- or with an error and the queue as it was.
pub data Posted (enc : Encoding TranscodeTaskDto) (bound : Result Error CreateTranscodeTaskReq)
    (stored : Task → Type 0) (before after : List Task)
    (c c' : Gin.Context (Response TranscodeTaskDto)) : Type 0 where
  made :
      (req : CreateTranscodeTaskReq) (t : Task) (resp : Response TranscodeTaskDto)
      → bound ≡ ok req
      → t.video_uuid ≡ req.video_uuid
      → c'.answers ≡ (200, resp) ∷ c.answers
      → resp.code ≡ 200
      → Sent enc c.query (new_task_dto t) resp
      → HandedOut stored before after t
      → Posted enc bound stored before after c c'
  not_made :
      (e : AppError) (resp : Response TranscodeTaskDto)
      → c'.answers ≡ (500, resp) ∷ c.answers
      → resp.code ≡ response_code (some e)
      → resp.data_of ≡ none
      → after ≡ before
      → Posted enc bound stored before after c c'
