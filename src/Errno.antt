-- ===== src/Errno.antt =====
-- The error codes (pkg/errno/code.go), as the application's methods return them. A pointer to one of
-- the package's variables is the constructor, so `==` and errors.Is on them are equality.
use go_video_transcode_servi.Common.{ℕ, Error, Option, none, some}

pub data Errno : Type 0 where
  success parameter_invalid invalid_param unauthorized not_found internal_server database unknown :
      Errno
  missing_param file_name_illegal file_size_illegal upload_illegal minio_bucket_not_exist : Errno
  upload_chunk_loading upload_error chunk_incomplete : Errno
  task_not_found invalid_task_status task_exists worker_not_available queue_is_full : Errno
  user_uuid_required video_uuid_required task_uuid_required original_path_required : Errno
  resolution_required bitrate_required status_required : Errno
  hls_resolutions_required invalid_hls_resolution hls_bitrate_required hls_generation_failed : Errno

unfoldable pub code_of : Errno → ℕ
code_of success = 200
code_of parameter_invalid = 400
code_of invalid_param = 400
code_of unauthorized = 401
code_of not_found = 404
code_of internal_server = 500
code_of database = 501
code_of unknown = 510
code_of missing_param = 20001
code_of file_name_illegal = 20002
code_of file_size_illegal = 20003
code_of upload_illegal = 20004
code_of minio_bucket_not_exist = 20006
code_of upload_chunk_loading = 20005
code_of upload_error = 20006
code_of chunk_incomplete = 20007
code_of task_not_found = 20008
code_of invalid_task_status = 20009
code_of task_exists = 20010
code_of worker_not_available = 20011
code_of queue_is_full = 20012
code_of user_uuid_required = 20013
code_of video_uuid_required = 20014
code_of task_uuid_required = 20015
code_of original_path_required = 20016
code_of resolution_required = 20017
code_of bitrate_required = 20018
code_of status_required = 20019
code_of hls_resolutions_required = 20020
code_of invalid_hls_resolution = 20021
code_of hls_bitrate_required = 20022
code_of hls_generation_failed = 20023

-- An `error` of the application: a code itself, a BizError around another error (whose caller and
-- stack are left out), or an error passed on as it came.
pub data AppError : Type 0 where
  errno : Errno → AppError
  biz : Errno → Error → AppError
  other : Error → AppError

-- `AssertBizError(err).Code()`, the code of a response. A pointer to an Errno is no BizError.
unfoldable pub response_code : Option AppError → ℕ
unfolding code_of
response_code none = code_of success
response_code (some (errno e)) = code_of unknown
response_code (some (biz e origin)) = code_of e
response_code (some (other e)) = code_of unknown
