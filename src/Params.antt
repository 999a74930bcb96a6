-- ===== src/Params.antt =====
-- Parameters of a transcode (ddd/domain/vo/transcode_params.go).
use go_video_transcode_servi.Common.{
  Text, codes, text_eq, List, [], ◌∷◌, ◌++◌, none, some, Error, Result, ok, err, is_empty,
  trim_space, if◌then◌else◌,
}
use go_video_transcode_servi.Runtime.{Runtime}
use go_video_transcode_servi.Resolution.{validate_resolution, validate_bitrate}

pub record TranscodeParams : Type 0 where
  pub resolution : Text
  pub bitrate : Text

unfoldable pub new_transcode_params : Runtime → Text → Text → Result Error TranscodeParams
new_transcode_params rt resolution bitrate = elim (validate_resolution rt resolution) [
  | some e ↦ err e
  | none ↦ elim (validate_bitrate rt bitrate) [
    | some e ↦ err e
    | none ↦ ok (record { resolution = resolution; bitrate = bitrate })
  ]
]

-- The switch on the resolution.
unfoldable size_args : Text → List Text
size_args resolution =
    if text_eq resolution (codes "480p")
    then codes "-s" ∷ codes "854x480" ∷ []
    else if text_eq resolution (codes "720p")
    then codes "-s" ∷ codes "1280x720" ∷ []
    else if text_eq resolution (codes "1080p")
    then codes "-s" ∷ codes "1920x1080" ∷ []
    else if text_eq resolution (codes "1440p")
    then codes "-s" ∷ codes "2560x1440" ∷ []
    else if text_eq resolution (codes "2160p")
    then codes "-s" ∷ codes "3840x2160" ∷ []
    else []

unfoldable pub get_ffmpeg_args : TranscodeParams → Text → Text → List Text
unfolding size_args
get_ffmpeg_args tp video_codec preset =
    let codec = if is_empty (trim_space video_codec) then codes "libx264" else video_codec in
    let speed = if is_empty (trim_space preset) then codes "medium" else preset in
    (codes "-c:v" ∷ codec ∷ codes "-preset" ∷ speed ∷ codes "-crf" ∷ codes "23" ∷ [])
    ++ (size_args tp.resolution ++ codes "-b:v" ∷ tp.bitrate ∷ [])
