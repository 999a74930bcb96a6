-- ===== src/HlsService/Command.antt =====
-- The FFmpeg command of a variant (ddd/domain/service/hls_service.go).
use go_video_transcode_servi.Common.{
  ℤ, pos, ltb_ℤ, Text, codes, Bool, not, ◌&&◌, List, [], ◌∷◌, ◌++◌, ok, err, is_empty, trim_space,
  to_lower, contains, replace_all, equal_fold, itoa_ℤ, if◌then◌else◌,
}
use go_video_transcode_servi.Runtime.{Runtime}
use go_video_transcode_servi.Config.{FfmpegConfig}
use go_video_transcode_servi.Resolution.{ResolutionConfig, parse_resolution_height}
use go_video_transcode_servi.Hls.{HlsConfig}

unfoldable pub playlist_name : ResolutionConfig → Text
playlist_name rc = codes "playlist_" ++ (rc.resolution ++ codes ".m3u8")

abbrev pub segment_pattern : ResolutionConfig → Text
segment_pattern rc = codes "segment_" ++ (rc.resolution ++ codes "_%03d.ts")

-- The filter that scales to the height; none where the height cannot be read.
scale_filter : Runtime → ResolutionConfig → Text
scale_filter rt rc = elim (parse_resolution_height rt rc.resolution) [
  | err e ↦ []
  | ok height ↦ codes "scale=-2:" ++ itoa_ℤ height
]

abbrev with_format : Text → Text → Text
with_format filter suffix = if contains filter (codes "format=") then filter else filter ++ suffix

-- The arguments before the input.
decode_args : FfmpegConfig → List Text
decode_args ffmpeg =
    let accel = trim_space ffmpeg.hardware_accel in
    let cuda = equal_fold accel (codes "cuda") in
    if ffmpeg.use_hardware_decode && cuda
    then codes "-hwaccel"
      ∷ codes "cuda"
      ∷ codes "-hwaccel_output_format"
      ∷ codes "cuda"
      ∷ codes "-c:v"
      ∷ codes "h264_cuvid"
      ∷ []
    else if not (is_empty accel) && not cuda
    then codes "-hwaccel" ∷ accel ∷ []
    else []

abbrev codec_of : FfmpegConfig → Text
codec_of ffmpeg =
    if is_empty (trim_space ffmpeg.video_codec) then codes "libx264" else ffmpeg.video_codec

-- The filter or the pixel format.
filter_args : Bool → Text → List Text
filter_args nvenc scale =
    if nvenc
    then (if is_empty scale
        then []
        else codes "-vf"
          ∷ with_format (replace_all scale (codes "scale=") (codes "scale_npp="))
              (codes ":format=nv12")
          ∷ [])
    else if is_empty scale
    then codes "-pix_fmt" ∷ codes "yuv420p" ∷ []
    else codes "-vf" ∷ with_format scale (codes ",format=yuv420p") ∷ []

-- max(1, threads), where a negative number of threads counts as 0
abbrev at_least_one : ℤ → ℤ
at_least_one threads = if ltb_ℤ (pos 1) threads then threads else pos 1

pub hls_args :
    Runtime → FfmpegConfig → HlsConfig → ResolutionConfig → Text → Text → Text → List Text
unfolding decode_args filter_args scale_filter
hls_args rt ffmpeg hc rc input segment_path playlist_path =
    let codec = codec_of ffmpeg in
    let nvenc = contains (to_lower rt.lower_table codec) (codes "nvenc") in
    decode_args ffmpeg
    ++ ((codes "-probesize"
          ∷ codes "5M"
          ∷ codes "-analyzeduration"
          ∷ codes "5M"
          ∷ codes "-i"
          ∷ input
          ∷ codes "-c:v"
          ∷ codec
          ∷ codes "-c:a"
          ∷ codes "aac"
          ∷ [])
        ++ (filter_args nvenc (scale_filter rt rc)
            ++ (codes "-b:v"
                ∷ rc.bitrate
                ∷ codes "-b:a"
                ∷ codes "128k"
                ∷ codes "-threads"
                ∷ itoa_ℤ (at_least_one ffmpeg.threads)
                ∷ codes "-sc_threshold"
                ∷ codes "0"
                ∷ codes "-keyint_min"
                ∷ codes "48"
                ∷ codes "-g"
                ∷ codes "48"
                ∷ codes "-force_key_frames"
                ∷ (codes "expr:gte(t,n*" ++ (itoa_ℤ hc.segment_duration ++ codes ")"))
                ∷ codes "-hls_flags"
                ∷ codes "independent_segments"
                ∷ codes "-hls_time"
                ∷ itoa_ℤ hc.segment_duration
                ∷ codes "-hls_list_size"
                ∷ itoa_ℤ hc.list_size
                ∷ codes "-hls_segment_filename"
                ∷ segment_path
                ∷ codes "-f"
                ∷ codes "hls"
                ∷ playlist_path
                ∷ [])))
