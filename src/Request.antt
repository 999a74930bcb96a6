-- ===== src/Request.antt =====
-- The requests of the application and their checks (ddd/application/cqe/trascode_task_cqe.go).
-- `Validate` fills in defaults, so it returns the request beside its error.
pub mod Complete
use go_video_transcode_servi.Common.{
  ℕ, ℤ, pos, leb_ℤ, ltb_ℤ, ◌≤ℤ◌, ◌<ℤ◌, Text, codes, Bool, true, false, ◌||◌, List, [], ◌∷◌, ◌≡◌,
  ◌≢◌, refl, arith, Option, none, some, is_empty, if◌then◌else◌, All, ◌↔◌, Bool-cases, inl, inr,
}
use go_video_transcode_servi.Errno.{
  Errno, user_uuid_required, video_uuid_required, task_uuid_required, original_path_required,
  resolution_required, bitrate_required, status_required, hls_resolutions_required,
  invalid_hls_resolution, hls_bitrate_required,
}

pub record HlsResolutionConfig : Type 0 where
  pub width : ℤ
  pub height : ℤ
  pub bitrate : Text

pub record CreateTranscodeTaskReq : Type 0 where
  pub user_uuid : Text
  pub video_uuid : Text
  pub video_push_uuid : Text
  pub original_path : Text
  pub resolution : Text
  pub bitrate : Text
  pub enable_hls : Bool
  pub hls_resolutions : List HlsResolutionConfig
  pub segment_duration : ℤ
  pub list_size : ℤ
  pub hls_format : Text

unfoldable pub check_hls_resolutions : List HlsResolutionConfig → Option Errno
check_hls_resolutions [] = none
check_hls_resolutions (res ∷ rest) =
    let others = check_hls_resolutions rest in
    if leb_ℤ res.width (pos 0) || leb_ℤ res.height (pos 0)
    then some invalid_hls_resolution
    else if is_empty res.bitrate
    then some hls_bitrate_required
    else others

-- What `Validate` writes into a request that enables HLS.
abbrev hls_defaults : CreateTranscodeTaskReq → CreateTranscodeTaskReq
hls_defaults req = record req {
  segment_duration = if leb_ℤ req.segment_duration (pos 0) then pos 4 else req.segment_duration;
  list_size = if leb_ℤ req.list_size (pos 0) then pos 0 else req.list_size;
  hls_format = if is_empty req.hls_format then codes "hls" else req.hls_format;
}

unfoldable pub check_hls :
    List HlsResolutionConfig → CreateTranscodeTaskReq → CreateTranscodeTaskReq × Option Errno
unfolding check_hls_resolutions
check_hls [] req = (req, some hls_resolutions_required)
check_hls (r ∷ rest) req = elim (check_hls_resolutions (r ∷ rest)) [
  | some e ↦ (req, some e)
  | none ↦ (hls_defaults req, none)
]

unfoldable pub validate : CreateTranscodeTaskReq → CreateTranscodeTaskReq × Option Errno
validate req =
    if is_empty req.user_uuid
    then (req, some user_uuid_required)
    else if is_empty req.video_uuid
    then (req, some video_uuid_required)
    else if is_empty req.original_path
    then (req, some original_path_required)
    else if is_empty req.resolution
    then (req, some resolution_required)
    else if is_empty req.bitrate
    then (req, some bitrate_required)
    else if req.enable_hls
    then check_hls req.hls_resolutions req
    else (req, none)

record ListTranscodeTasksReq : Type 0 where
  pub user_uuid : Text
  pub video_uuid : Text
  pub status : Text
  pub page : ℤ
  pub size : ℤ

unfoldable validate_list : ListTranscodeTasksReq → ListTranscodeTasksReq × Option Errno
validate_list req = if is_empty req.user_uuid then (req, some user_uuid_required) else (
  record req {
    page = if leb_ℤ req.page (pos 0) then pos 1 else req.page;
    size = if leb_ℤ req.size (pos 0) || ltb_ℤ (pos 100) req.size then pos 10 else req.size;
  },
  none,
)

-- The check that the requests with a task and a user share (query, cancel, progress).
unfoldable validate_task_user : Text → Text → Option Errno
validate_task_user task_uuid user_uuid =
    if is_empty task_uuid
    then some task_uuid_required
    else if is_empty user_uuid
    then some user_uuid_required
    else none

-- `UpdateTranscodeTaskStatusReq.Validate`
unfoldable validate_update : Text → Text → Text → Option Errno
validate_update task_uuid user_uuid status =
    if is_empty task_uuid
    then some task_uuid_required
    else if is_empty user_uuid
    then some user_uuid_required
    else if is_empty status
    then some status_required
    else none
