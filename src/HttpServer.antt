-- ===== src/HttpServer.antt =====
-- The HTTP controller (ddd/adapter/http/transcode_controller.go). `bind` is ShouldBindJSON.
pub mod Posted
use go_video_transcode_servi.Common.{Result, ok, err, some, Op, ◌>>=◌, ◌>>◌, pure, Error}
use go_video_transcode_servi.Runtime.{Runtime}
use go_video_transcode_servi.Errno.{AppError, other}
use go_video_transcode_servi.Request.{CreateTranscodeTaskReq}
use go_video_transcode_servi.Dto.{TranscodeTaskDto}
use go_video_transcode_servi.App.{Services, create_transcode_task}
use go_video_transcode_servi.Gin
use go_video_transcode_servi.Rest.{Response, Encoding, rest_success, rest_failed}

module _ {S : Type 0} (rt : Runtime) (env : Services S) (enc : Encoding TranscodeTaskDto) where
  abbrev HttpContext : Type 0
  HttpContext = Gin.Context (Response TranscodeTaskDto)

  answered : Result AppError TranscodeTaskDto → HttpContext → HttpContext
  answered (err e) c = rest_failed enc e c
  answered (ok dto) c = rest_success enc (some dto) c

  pub post_task : Result Error CreateTranscodeTaskReq → HttpContext → Op S HttpContext
  unfolding answered
  post_task (err e) c = pure (rest_failed enc (other e) c)
  post_task (ok req) c = do made ← create_transcode_task rt env req; pure (answered made c)
