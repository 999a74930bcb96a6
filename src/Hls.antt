-- ===== src/Hls.antt =====
-- The configuration of an HLS job (ddd/domain/vo/hls_config.go) and the job
-- (ddd/domain/entity/hls_job.go).
pub mod Valid
use go_video_transcode_servi.Common.{
  ℕ, suc, ◌+◌, ℤ, pos, negsuc, ltb_ℤ, leb_ℤ, Text, codes, text_eq, Bool, true, false, ◌&&◌, ◌||◌,
  not, List, [], ◌∷◌, ◌++◌, length, Option, none, some, Error, plain, wrap, Result, ok, err,
  is_empty, itoa, if◌then◌else◌,
}
use go_video_transcode_servi.HlsStatus
use go_video_transcode_servi.Runtime.{Runtime}
use go_video_transcode_servi.Resolution.{ResolutionConfig, validate_config}

unfoldable pub is_valid_hls_status : Text → Bool
is_valid_hls_status s =
    text_eq s HlsStatus.disabled
    || text_eq s HlsStatus.pending
    || text_eq s HlsStatus.processing
    || text_eq s HlsStatus.completed
    || text_eq s HlsStatus.failed

pub record HlsConfig : Type 0 where
  pub enable_hls : Bool
  pub resolutions : List ResolutionConfig
  pub segment_duration : ℤ
  pub list_size : ℤ
  pub format : Text
  pub status : Text
  pub progress : ℤ
  pub output_path : Text
  pub error_message : Text

-- An error at index `i`, which is named in the message.
abbrev at_index : ℕ → Error → Error
at_index i e = wrap (codes "分辨率配置[" ++ (itoa i ++ codes "]无效")) e

-- The loop over the resolutions, from index `i` on.
unfoldable pub check_resolutions : Runtime → ℕ → List ResolutionConfig → Option Error
check_resolutions rt i [] = none
check_resolutions rt i (rc ∷ rest) =
    let later = check_resolutions rt (suc i) rest in
    elim (validate_config rt rc) [ some e ↦ some (at_index i e) | none ↦ later ]

abbrev pub no_resolutions : Bool → List ResolutionConfig → Bool
no_resolutions enable [] = enable
no_resolutions enable (rc ∷ rest) = false

unfoldable pub new_hls_config : Runtime → Bool → List ResolutionConfig → Result Error HlsConfig
unfolding check_resolutions
new_hls_config rt enable resolutions =
    if no_resolutions enable resolutions
    then err (plain (codes "启用HLS时必须指定至少一个分辨率配置"))
    else elim (check_resolutions rt 0 resolutions) [
      | some e ↦ err e
      | none ↦ ok (record {
        enable_hls = enable;
        resolutions = resolutions;
        segment_duration = pos 4;
        list_size = pos 0;
        format = codes "mpegts";
        status = if enable then HlsStatus.pending else HlsStatus.disabled;
        progress = pos 0;
        output_path = [];
        error_message = [];
      })
    ]

unfoldable pub default_hls_config : HlsConfig
default_hls_config = record {
  enable_hls = true;
  resolutions = [];
  segment_duration = pos 10;
  list_size = pos 0;
  format = codes "mpegts";
  status = HlsStatus.disabled;
  progress = pos 0;
  output_path = [];
  error_message = [];
}

-- The checks behind those of the resolutions.
unfoldable pub validate_settings : HlsConfig → Option Error
unfolding is_valid_hls_status
validate_settings hc =
    if leb_ℤ hc.segment_duration (pos 0) || ltb_ℤ (pos 60) hc.segment_duration
    then some (plain (codes "切片时长必须在1-60秒之间"))
    else if ltb_ℤ hc.list_size (pos 0)
    then some (plain (codes "播放列表大小不能为负数"))
    else if not (text_eq hc.format (codes "mpegts")) && not (text_eq hc.format (codes "fmp4"))
    then some (plain (codes "HLS格式必须是mpegts或fmp4"))
    else if not (is_valid_hls_status hc.status)
    then some (plain (codes "无效的HLS状态: " ++ hc.status))
    else if ltb_ℤ hc.progress (pos 0) || ltb_ℤ (pos 100) hc.progress
    then some (plain (codes "进度必须在0-100之间"))
    else none

unfoldable pub validate_hls_config : Runtime → HlsConfig → Option Error
unfolding check_resolutions validate_settings
validate_hls_config rt hc =
    if no_resolutions hc.enable_hls hc.resolutions
    then some (plain (codes "启用HLS时必须指定至少一个分辨率配置"))
    else elim (check_resolutions rt 0 hc.resolutions) [
      | some e ↦ some e
      | none ↦ validate_settings hc
    ]

abbrev pub set_hls_status : Text → HlsConfig → HlsConfig
set_hls_status status hc = record hc { status = status }

-- A percentage, cut off at both ends.
abbrev pub clamp_percent : ℤ → ℤ
clamp_percent (negsuc n) = pos 0
clamp_percent (pos n) = if ltb_ℤ (pos 100) (pos n) then pos 100 else pos n

unfoldable pub set_hls_progress : ℤ → HlsConfig → HlsConfig
set_hls_progress progress hc = record hc { progress = clamp_percent progress }

-- FromJSON, over `json.Unmarshal` into a list of resolutions.
unfoldable pub from_json :
    Runtime
    → (Text → Result Error (List ResolutionConfig))
    → Text
    → HlsConfig
    → HlsConfig × Option Error
unfolding check_resolutions
from_json rt unmarshal [] hc = (record hc { resolutions = [] }, none)
from_json rt unmarshal (c ∷ json) hc = elim (unmarshal (c ∷ json)) [
  | err e ↦ (hc, some (wrap (codes "解析分辨率配置失败") e))
  | ok parsed ↦ elim (check_resolutions rt 0 parsed) [
    | some e ↦ (hc, some e)
    | none ↦ (record hc { resolutions = parsed }, none)
  ]
]

has_resolution : Text → List ResolutionConfig → Bool
has_resolution resolution [] = false
has_resolution resolution (rc ∷ rest) =
    text_eq rc.resolution resolution || has_resolution resolution rest

-- HLSJobEntity
pub record HlsJob : Type 0 where
  pub id : ℕ
  pub job_uuid : Text
  pub user_uuid : Text
  pub video_uuid : Text
  pub source_job_uuid : Option Text
  pub source_type : Text
  pub input_path : Text
  pub output_dir : Text
  pub master_playlist : Option Text
  pub status : Text
  pub progress : ℤ
  pub config : HlsConfig
  pub error_message : Text
  pub created_at : ℕ
  pub updated_at : ℕ
  pub request_id : Text

unfoldable pub new_hls_job : Text → Text → Text → Text → Text → HlsConfig → ℕ → HlsJob
new_hls_job job_uuid user_uuid video_uuid input_path output_dir cfg now = record {
  id = 0;
  job_uuid = job_uuid;
  user_uuid = user_uuid;
  video_uuid = video_uuid;
  source_job_uuid = none;
  source_type = [];
  input_path = input_path;
  output_dir = output_dir;
  master_playlist = none;
  status = HlsStatus.pending;
  progress = pos 0;
  config = cfg;
  error_message = [];
  created_at = now;
  updated_at = now;
  request_id = [];
}

abbrev pub set_source : Option Text → Text → ℕ → HlsJob → HlsJob
set_source source type_name now job = record job {
  source_job_uuid = source;
  source_type = type_name;
  updated_at = now;
}

abbrev pub set_request_id : Text → HlsJob → HlsJob
set_request_id id job = record job { request_id = id }

-- The other setters of the job, at the time `now`.
abbrev pub set_job_status : Text → ℕ → HlsJob → HlsJob
set_job_status status now job = record job { status = status; updated_at = now }

abbrev pub set_job_progress : ℤ → ℕ → HlsJob → HlsJob
set_job_progress p now job = record job { progress = clamp_percent p; updated_at = now }

abbrev set_job_input_path : Text → ℕ → HlsJob → HlsJob
set_job_input_path path now job = record job { input_path = path; updated_at = now }

abbrev pub set_job_master_playlist : Text → ℕ → HlsJob → HlsJob
set_job_master_playlist path now job = record job { master_playlist = some path; updated_at = now }

abbrev pub set_job_output_dir : Text → ℕ → HlsJob → HlsJob
set_job_output_dir dir now job = record job { output_dir = dir; updated_at = now }

abbrev pub set_job_error : Text → ℕ → HlsJob → HlsJob
set_job_error msg now job = record job { error_message = msg; updated_at = now }
