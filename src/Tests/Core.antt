-- ===== src/Tests/Core.antt =====
-- The values, entities, requests and rows at concrete inputs.
use go_video_transcode_servi.Common.{
  pos, Text, codes, true, List, [], ◌∷◌, text_eq, trim_space, to_lower, has_suffix, trim_suffix,
  read_digits, ◌≡◌, ◌≢◌, ◌↔◌, refl, none, some, ok,
}
use go_video_transcode_servi.Params.{TranscodeParams}
use go_video_transcode_servi.Task.{Task, default_task}
use go_video_transcode_servi.Request.{CreateTranscodeTaskReq}
use go_video_transcode_servi.Resolution.{
  ResolutionConfig, validate_resolution, new_resolution_config, is_listed, validate_bitrate,
  bitrate_number,
}
use go_video_transcode_servi.Hls.{
  HlsConfig, new_hls_config, validate_hls_config, default_hls_config,
}
use go_video_transcode_servi.Hls.Valid.{IsValid, validate_hls_config_iff}
use go_video_transcode_servi.Service.{
  variants, configured_variants, default_variants, admitted, candidate, is_taken, OutputFormat,
}
use go_video_transcode_servi.Service.Variants.{variants-new_hls_config}
use go_video_transcode_servi.Store.Row.{to_entity, to_po, to_entity-to_po}
use go_video_transcode_servi.Tests.Memory.{runtime}

abbrev params_720 : TranscodeParams
params_720 = record { resolution = codes "720p"; bitrate = codes "2000k" }

abbrev pub task : Task
task =
    default_task (codes "user") (codes "video") (codes "push") (codes "in.mp4") params_720
      (codes "t1") 5

abbrev pub request : CreateTranscodeTaskReq
request = record {
  user_uuid = codes "user";
  video_uuid = codes "video";
  video_push_uuid = [];
  original_path = codes "in.mp4";
  resolution = codes "720p";
  bitrate = codes "2000k";
  enable_hls = true;
  hls_resolutions = record { width = pos 1280; height = pos 720; bitrate = codes "2000k" } ∷ [];
  segment_duration = pos 0;
  list_size = pos 0;
  hls_format = [];
}

abbrev config_720 : ResolutionConfig
config_720 = record { resolution = codes "720p"; bitrate = codes "2000k" }

-- The configuration of `DefaultHLSConfig` enables HLS and is refused.
default_config_refused : validate_hls_config runtime default_hls_config ≢ none
unfolding validate_hls_config default_hls_config
default_config_refused = λ e. cc

validate_hls_config_iff_example :
    (validate_hls_config runtime default_hls_config ≡ none) ↔ IsValid runtime default_hls_config
validate_hls_config_iff_example = validate_hls_config_iff runtime default_hls_config

abbrev formats : List OutputFormat
formats = record { name = codes " 720p "; bitrate = codes "2500k" } ∷ []

abbrev defaults : List (Text × Text)
defaults =
    (codes "480p", codes "1000k")
    ∷ (codes "1080p", codes "4000k")
    ∷ (codes "720p", codes "2000k")
    ∷ []

variants_at : variants runtime formats defaults ≡ (
    record { resolution = codes "720p"; bitrate = codes "2500k" }
    ∷ record { resolution = codes "480p"; bitrate = codes "1000k" }
    ∷ record { resolution = codes "1080p"; bitrate = codes "4000k" }
    ∷ [])
unfolding variants configured_variants default_variants admitted candidate is_taken trim_space
    new_resolution_config runtime validate_resolution is_listed to_lower text_eq validate_bitrate
    bitrate_number has_suffix trim_suffix read_digits
variants_at = refl

variants-new_hls_config_example :
    (hc : HlsConfig) × (new_hls_config runtime true (variants runtime formats defaults) ≡ ok hc)
    × (hc.resolutions ≡ variants runtime formats defaults)
    × (hc.enable_hls ≡ true)
    × (validate_hls_config runtime hc ≡ none)
variants-new_hls_config_example =
    variants-new_hls_config runtime formats defaults (λ e. cc (e, variants_at))

to_entity-to_po_example : to_entity runtime (some (to_po task)) ≡ some task
unfolding default_task
to_entity-to_po_example = to_entity-to_po runtime task (λ e. cc)
