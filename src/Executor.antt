-- ===== src/Executor.antt =====
-- The FFmpeg executor (ddd/infrastructure/executor/ffmpeg_executor.go): the life of a transcode's
-- files. FFmpeg, ffprobe, the file system and the storage are fields of `ExecutorIo`.
pub mod Command
pub mod Progress
pub mod Cleanup
use go_video_transcode_servi.Common.{
  ℕ, ℤ, Text, codes, List, [], ◌∷◌, ◌++◌, Bool, true, false, Option, none, some, Error, plain, wrap,
  Result, ok, err, Op, ◌>>=◌, ◌>>◌, pure, is_empty, trim_space, trim_prefix, split_at,
  if◌then◌else◌,
}
use go_video_transcode_servi.Runtime.{Runtime}
use go_video_transcode_servi.Config.{FfmpegConfig}
use go_video_transcode_servi.Task.{Task}
use go_video_transcode_servi.HlsWorker.{build_file_url}
use go_video_transcode_servi.Executor.Command.{CommandLine, build_ffmpeg_command}
use go_video_transcode_servi.Executor.Progress.{Floats, scan_progress}

-- How a run of FFmpeg ends: before it starts; by the context, with the lines read so far; or by itself.
pub data Ran : Type 0 where
  no_pipe no_start : Error → Ran
  stopped : List Text → Error → Ran
  exited : List Text → Option Error → Ran

pub record Storage (S : Type 0) : Type 0 where
  pub download : Text → Text → Op S (Option Error)
  pub upload : Text → Text → Text → Op S (Result Error Text)

pub record ExecutorIo (S : Type 0) : Type 0 where
  pub config : Option (FfmpegConfig × Text)  -- Transcode.FFmpeg and Public.StorageBase
  pub storage : Option (Storage S)
  pub system_temp : Text  -- os.TempDir
  pub join : List Text → Text  -- filepath.Join
  pub base_of : Text → Text  -- filepath.Base
  pub dir_of : Text → Text  -- filepath.Dir
  pub make_dir : Text → Op S (Option Error)
  pub remove : Text → S → S
  pub output : Text → List Text → Op S (Result Error Text)  -- exec.Command(…).Output
  pub run : CommandLine → Op S Ran
  pub floats : Floats

pub record TranscodeOptions (S : Type 0) : Type 0 where
  pub skip_upload : Bool
  pub progress_cb : Option (ℤ → S → S)

module _ {S : Type 0} (rt : Runtime) (io : ExecutorIo S) where
  abbrev duration_of : Result Error Text → ℕ
  duration_of (err e) = io.floats.lit 0
  duration_of (ok out) = elim (rt.parse_float (trim_space out)) [
    | none ↦ io.floats.lit 0
    | some v ↦ v
  ]

  -- The duration in seconds; 0 on any failure.
  probe_duration_seconds : Text → Op S ℕ
  probe_duration_seconds input = do
    out ← io.output (codes "ffprobe") (
        codes "-v"
        ∷ codes "error"
        ∷ codes "-show_entries"
        ∷ codes "format=duration"
        ∷ codes "-of"
        ∷ codes "default=noprint_wrappers=1:nokey=1"
        ∷ input
        ∷ [])
    pure (duration_of out)

  abbrev parts_of : Result Error Text → Text × Text
  parts_of (err e) = ([], [])
  parts_of (ok out) =
      let (codec, rest) = split_at b',' (trim_space out) in
      (trim_space codec, elim rest [ [] ↦ [] | pix_fmt ∷ more ↦ trim_space pix_fmt ])

  -- The codec and the pixel format; empty on a failure.
  probe_video_codec : Text → Op S (Text × Text)
  probe_video_codec input = do
    out ← io.output (codes "ffprobe") (
        codes "-v"
        ∷ codes "error"
        ∷ codes "-probesize"
        ∷ codes "5M"
        ∷ codes "-analyzeduration"
        ∷ codes "5M"
        ∷ codes "-select_streams"
        ∷ codes "v:0"
        ∷ codes "-show_entries"
        ∷ codes "stream=codec_name,pix_fmt"
        ∷ codes "-of"
        ∷ codes "csv=p=0"
        ∷ input
        ∷ [])
    pure (parts_of out)

  ended : ℕ → Option (ℤ → S → S) → Ran → S → Option Error × S
  unfolding scan_progress
  ended duration cb (no_pipe e) s = (some (wrap (codes "创建FFmpeg stderr管道失败") e), s)
  ended duration cb (no_start e) s = (some (wrap (codes "启动FFmpeg命令失败") e), s)
  ended duration cb (stopped lines e) s =
      (some e, (scan_progress rt io.floats duration cb lines ([], s)).1)
  ended duration cb (exited lines e) s =
      (e, (scan_progress rt io.floats duration cb lines ([], s)).1)

  -- The lines that FFmpeg writes are read while it runs.
  execute_ffmpeg_command : CommandLine → ℕ → Option (ℤ → S → S) → Op S (Option Error)
  unfolding ended
  execute_ffmpeg_command cmd duration cb s =
      let (ran, s') = io.run cmd s in ended duration cb ran s'

  abbrev object_key_of : Task → Text → Text
  object_key_of task local_output =
      let key = trim_prefix task.output_path (codes "/") in
      if is_empty key then io.base_of local_output else key

  abbrev storage_base : Option (FfmpegConfig × Text) → Option Text
  storage_base none = none
  storage_base (some c) = some c.1

  -- Behind the call of `UploadTranscodedFile`: the key and the address.
  uploaded : Text → Result Error Text → Op S (Result Error (Text × Text))
  uploaded local_output (err e) s = (err (wrap (codes "upload output") e), s)
  uploaded local_output (ok key) s =
      (ok (key, build_file_url (storage_base io.config) key), io.remove local_output s)

  -- Behind FFmpeg.
  encoded :
      Task → Bool → Text → Option (Storage S) → Option Error → Op S (Result Error (Text × Text))
  unfolding uploaded
  encoded task skip local_output storage (some e) s = (err e, s)
  encoded task true local_output storage none s = (ok ([], []), io.remove local_output s)
  encoded task false local_output none none s =
      (err (plain (codes "storage gateway not configured")), s)
  encoded task false local_output (some storage) none s =
      let (result, s') =
        storage.upload local_output (object_key_of task local_output) (codes "video/mp4") s in
      uploaded local_output result s'

  -- The work between the download of the input and its removal.
  transcode_local : Task → TranscodeOptions S → Text → Text → Op S (Result Error (Text × Text))
  unfolding probe_duration_seconds probe_video_codec execute_ffmpeg_command encoded
  transcode_local task opts local_input local_output s =
      let (duration, s1) = probe_duration_seconds local_input s in
      let (probed, s2) = probe_video_codec local_input s1 in
      let ffmpeg : Option FfmpegConfig = elim io.config [ none ↦ none | some c ↦ some c.0 ] in
      let cmd = build_ffmpeg_command rt ffmpeg task.params probed.0 local_input local_output in
      let (failed, s3) = execute_ffmpeg_command cmd duration opts.progress_cb s2 in
      encoded task opts.skip_upload local_output io.storage failed s3

  -- Behind the download: the input is removed at the end, whatever happens.
  downloaded :
      Task → TranscodeOptions S → Text → Text → Option Error → Op S (Result Error (Text × Text))
  unfolding transcode_local
  downloaded task opts local_input local_output (some e) s =
      (err (wrap (codes "download input") e), s)
  downloaded task opts local_input local_output none s =
      let (result, s') = transcode_local task opts local_input local_output s in
      (result, io.remove local_input s')

  abbrev pub fetch : Task → Text → Option (Storage S) → Op S (Option Error)
  fetch task local_input none = pure none
  fetch task local_input (some storage) = storage.download task.original_path local_input

  abbrev temp_dir_of : Option (FfmpegConfig × Text) → Text
  temp_dir_of none = io.system_temp
  temp_dir_of (some c) = if is_empty (trim_space c.0.temp_dir) then io.system_temp else c.0.temp_dir

  pub local_input_path : Task → Text
  local_input_path task = io.join (
      temp_dir_of io.config
      ∷ codes "inputs"
      ∷ (codes "input_" ++ (task.task_uuid ++ (codes "_" ++ io.base_of task.original_path)))
      ∷ [])

  pub local_output_path : Task → Text
  local_output_path task =
      io.join (temp_dir_of io.config ∷ trim_prefix task.output_path (codes "/") ∷ [])

  -- The two directories are made first.
  directories_made : Task → TranscodeOptions S → Option Error → Op S (Result Error (Text × Text))
  unfolding downloaded
  directories_made task opts (some e) s = (err (wrap (codes "create output dir") e), s)
  directories_made task opts none s =
      let (failed, s') = fetch task (local_input_path task) io.storage s in
      downloaded task opts (local_input_path task) (local_output_path task) failed s'

  inputs_made : Task → TranscodeOptions S → Option Error → Op S (Result Error (Text × Text))
  unfolding directories_made
  inputs_made task opts (some e) s = (err (wrap (codes "create temp dir") e), s)
  inputs_made task opts none s =
      let (made, s') = io.make_dir (io.dir_of (local_output_path task)) s in
      directories_made task opts made s'

  -- `none` is the nil task. The answer is the object's key and its public address.
  pub execute : Option Task → TranscodeOptions S → Op S (Result Error (Text × Text))
  unfolding inputs_made
  execute none opts s = (err (plain (codes "nil task")), s)
  execute (some task) opts s =
      let (made, s') = io.make_dir (io.dir_of (local_input_path task)) s in
      inputs_made task opts made s'
