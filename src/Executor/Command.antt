-- ===== src/Executor/Command.antt =====
-- The FFmpeg command of a transcode.
pub mod Flags
use go_video_transcode_servi.Common.{
  ℕ, ℤ, pos, ltb_ℤ, leb_ℤ, Text, codes, text_eq, List, [], ◌∷◌, ◌++◌, Bool, true, false, not, ◌&&◌,
  ◌||◌, Option, none, some, is_empty, trim_space, to_lower, contains, equal_fold, itoa_ℤ,
  if◌then◌else◌,
}
use go_video_transcode_servi.Runtime.{Runtime}
use go_video_transcode_servi.Config.{FfmpegConfig}
use go_video_transcode_servi.Params.{TranscodeParams, get_ffmpeg_args}

-- A program and its arguments.
pub record CommandLine : Type 0 where
  pub program : Text
  pub arguments : List Text

-- What the configuration decides; the defaults stand without one.
record Choices : Type 0 where
  video_codec : Text
  video_preset : Text
  hardware_accel : Text
  threads : ℤ
  use_hw_decode : Bool
  dec_threads : ℤ
  dec_surfaces : ℤ

-- The value if it is not blank.
abbrev nonblank : Text → Text → Text
nonblank value default = if is_empty (trim_space value) then default else value

-- The value if it is positive.
abbrev positive : ℤ → ℤ
positive n = if ltb_ℤ (pos 0) n then n else pos 0

choices_of : Option FfmpegConfig → Choices
choices_of none = record {
  video_codec = codes "libx264";
  video_preset = codes "medium";
  hardware_accel = [];
  threads = pos 0;
  use_hw_decode = false;
  dec_threads = pos 0;
  dec_surfaces = pos 0;
}
choices_of (some c) = record {
  video_codec = nonblank c.video_codec (codes "libx264");
  video_preset = nonblank c.video_preset (codes "medium");
  hardware_accel = nonblank c.hardware_accel [];
  threads = positive c.threads;
  use_hw_decode = c.use_hardware_decode && equal_fold (nonblank c.hardware_accel []) (codes "cuda");
  dec_threads = positive c.decoder_threads;
  dec_surfaces = positive c.cuvid_surfaces;
}

-- The decoder of the input's codec.
decoder_args : Runtime → Text → List Text
decoder_args rt input_codec =
    let low = to_lower rt.lower_table input_codec in
    if text_eq low (codes "h264") || text_eq low (codes "avc1")
    then codes "-c:v" ∷ codes "h264_cuvid" ∷ []
    else if text_eq low (codes "hevc") || text_eq low (codes "hvc1") || text_eq low (codes "hev1")
    then codes "-c:v" ∷ codes "hevc_cuvid" ∷ []
    else []

input_args : Runtime → Choices → Text → List Text
unfolding decoder_args
input_args rt ch input_codec =
    let accel = ch.hardware_accel in
    if ch.use_hw_decode
    then (codes "-hwaccel" ∷ codes "cuda" ∷ codes "-hwaccel_output_format" ∷ codes "cuda" ∷ [])
      ++ (decoder_args rt input_codec
          ++ ((if ltb_ℤ (pos 0) ch.dec_surfaces
                then codes "-surfaces" ∷ itoa_ℤ ch.dec_surfaces ∷ []
                else [])
              ++ (codes "-threads"
                  ∷ itoa_ℤ (if leb_ℤ ch.dec_threads (pos 0) then pos 1 else ch.dec_threads)
                  ∷ [])))
    else if not (is_empty accel) && not (equal_fold accel (codes "cuda"))
    then codes "-hwaccel" ∷ accel ∷ []
    else []

-- The loops that drop a flag with its value; a flag at the very end stays.
unfoldable pub strip_flag : Text → List Text → List Text
strip_flag flag [] = []
strip_flag flag (a ∷ []) = a ∷ []
strip_flag flag (a ∷ v ∷ rest) =
    let without = strip_flag flag rest in
    let kept = a ∷ strip_flag flag (v ∷ rest) in if text_eq a flag then without else kept

-- The arguments of the parameters: NVENC has no -crf, and CUDA scales by a filter.
unfoldable base_args : Runtime → Choices → TranscodeParams → List Text
unfolding strip_flag get_ffmpeg_args
base_args rt ch params =
    let args = get_ffmpeg_args params ch.video_codec ch.video_preset in
    let nvenc = contains (to_lower rt.lower_table ch.video_codec) (codes "nvenc") in
    let rated = if nvenc then strip_flag (codes "-crf") args else args in
    if equal_fold ch.hardware_accel (codes "cuda") then strip_flag (codes "-s") rated else rated

-- The size as the filter writes it; empty for another resolution.
filter_size : Text → Text
filter_size resolution =
    if text_eq resolution (codes "480p")
    then codes "854:480"
    else if text_eq resolution (codes "720p")
    then codes "1280:720"
    else if text_eq resolution (codes "1080p")
    then codes "1920:1080"
    else if text_eq resolution (codes "1440p")
    then codes "2560:1440"
    else if text_eq resolution (codes "2160p")
    then codes "3840:2160"
    else []

scale_args : Choices → Text → List Text
unfolding filter_size
scale_args ch resolution =
    let size = filter_size (trim_space resolution) in
    let filter = codes "scale_npp=" ++ (size ++ codes ":format=yuv420p") in
    if equal_fold ch.hardware_accel (codes "cuda") && not (is_empty size)
    then codes "-vf" ∷ (if ch.use_hw_decode then filter else codes "hwupload_cuda," ++ filter) ∷ []
    else []

-- The threads of the encoder, unless the hardware decodes.
thread_args : Choices → List Text
thread_args ch =
    if not ch.use_hw_decode && ltb_ℤ (pos 0) ch.threads
    then codes "-threads" ∷ itoa_ℤ ch.threads ∷ []
    else []

binary_of : Option FfmpegConfig → Text
binary_of none = codes "ffmpeg"
binary_of (some c) = if is_empty c.binary_path then codes "ffmpeg" else c.binary_path

unfoldable pub build_ffmpeg_command :
    Runtime → Option FfmpegConfig → TranscodeParams → Text → Text → Text → CommandLine
unfolding choices_of input_args base_args scale_args thread_args binary_of
build_ffmpeg_command rt config params input_codec input output =
    let ch = choices_of config in
    record {
      program = binary_of config;
      arguments =
          input_args rt ch input_codec
          ++ ((codes "-probesize"
                ∷ codes "5M"
                ∷ codes "-analyzeduration"
                ∷ codes "5M"
                ∷ codes "-i"
                ∷ input
                ∷ codes "-progress"
                ∷ codes "pipe:2"
                ∷ codes "-nostats"
                ∷ [])
              ++ (base_args rt ch params
                  ++ (scale_args ch params.resolution
                      ++ (thread_args ch
                          ++ (codes "-c:a"
                              ∷ codes "aac"
                              ∷ codes "-b:a"
                              ∷ codes "128k"
                              ∷ codes "-y"
                              ∷ output
                              ∷ [])))));
    }
