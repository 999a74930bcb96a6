-- ===== src/Tests/Videos.antt =====
-- The slicing of a video and the FFmpeg executor at concrete inputs.
use go_video_transcode_servi.Common.{
  ℕ, suc, ◌≤◌, ◌+◌, ◌*◌, ◌/◌, ℤ, pos, ◌==◌, not, Text, codes, true, false, List, [], ◌∷◌, ◌++◌, ◌≡◌,
  refl, arith, none, some, ok, All, has_prefix, read_digits, trim_prefix,
}
use go_video_transcode_servi.Resolution.{ResolutionConfig}
use go_video_transcode_servi.Hls.{HlsJob, new_hls_job, default_hls_config}
use go_video_transcode_servi.HlsService.{HlsIo, generate_output_dir, generate_hls_slices}
use go_video_transcode_servi.HlsService.Slices.{Outcome, generate_hls_slices-Outcome}
use go_video_transcode_servi.Config.{FfmpegConfig}
use go_video_transcode_servi.Executor.{
  ExecutorIo, TranscodeOptions, exited, execute, local_input_path, local_output_path,
}
use go_video_transcode_servi.Executor.Progress.{Floats, scan_progress}
use go_video_transcode_servi.Executor.Progress.Tail.{last, untold, scan_progress-captured}
use go_video_transcode_servi.Executor.Progress.Percent.{scan_progress-percents}
use go_video_transcode_servi.Executor.Cleanup.{Ended, execute-Ended}
use go_video_transcode_servi.Tests.Memory.{runtime}
use go_video_transcode_servi.Tests.Core.{task}

abbrev pub ffmpeg : FfmpegConfig
ffmpeg = record {
  binary_path = codes "/usr/bin/ffmpeg";
  temp_dir = codes "/tmp";
  max_concurrent_tasks = pos 2;
  timeout = pos 60;
  video_codec = codes "h264_nvenc";
  hardware_accel = codes "cuda";
  video_preset = codes "p4";
  threads = pos 2;
  use_hardware_decode = true;
  decoder_threads = pos 0;
  cuvid_surfaces = pos 8;
}

abbrev four_k : ResolutionConfig
four_k = record { resolution = codes "4k"; bitrate = codes "8000k" }

-- The state counts the calls.
abbrev hls_io : HlsIo ℕ
hls_io = record {
  ffmpeg = ffmpeg;
  make_dir = λ dir n. (none, suc n);
  run_command = λ program args n. ((none, codes "done"), suc n);
  write_file = λ path content n. (none, suc n);
  update_progress = some (λ id p n. (none, suc n));
  now = λ n. (n, n);
  join = λ parts. codes "dir";
}

abbrev job : HlsJob
job =
    new_hls_job (codes "j1") (codes "user") (codes "video") (codes "in.mp4") (codes "out")
      (record default_hls_config { resolutions = four_k ∷ [] }) 3

generate_hls_slices-Outcome_example :
    Outcome runtime hls_io
      (generate_output_dir runtime hls_io job)
      job
      (generate_hls_slices runtime hls_io job (codes "in.mp4") 0).0
generate_hls_slices-Outcome_example =
    generate_hls_slices-Outcome runtime hls_io job (codes "in.mp4") 0

-- Numbers stand for the floats that they read as; no line has a clock.
abbrev floats : Floats
floats = record {
  lit = λ n. n;
  is_positive = λ v. not (v == 0);
  plus = λ a b. a + b;
  times = λ a b. a * b;
  over = λ a b. a / b;
  to_int = λ v. pos v;
  parsed = λ s. 0;
  find_time = λ s. none;
}

abbrev lines : List Text
lines =
    codes "frame=1"
    ∷ codes "out_time_ms=2000000"
    ∷ codes "out_time_ms=90000000"
    ∷ codes "error"
    ∷ []

abbrev note : ℤ → List ℤ → List ℤ
note p ps = p ∷ ps

lines_at :
    scan_progress runtime floats 4 (some note) lines ([], [])
    ≡ (codes "frame=1" ∷ codes "error" ∷ [], pos 99 ∷ pos 0 ∷ [])
unfolding runtime read_digits scan_progress has_prefix trim_prefix
lines_at = refl

scan_progress-captured_example :
    (scan_progress runtime floats 4 (some note) lines ([], [])).0
    ≡ last 200 ([] ++ untold runtime floats 4 lines)
scan_progress-captured_example =
    scan_progress-captured runtime floats 4 (some note) lines [] [] (omega arith)

abbrev AllPercent : List ℤ → Type 0
AllPercent ps = All (λ p. (n : ℕ) × (n ≤ 99) × (p ≡ pos n)) ps

scan_progress-percents_example :
    AllPercent (scan_progress runtime floats 4 (some note) lines ([], [])).1
scan_progress-percents_example =
    scan_progress-percents runtime floats 4 note AllPercent (λ p s small h. ((p, small, refl), h))
      lines [] [] tt

-- The state is the list of removed files.
abbrev executor_io : ExecutorIo (List Text)
executor_io = record {
  config = some (ffmpeg, codes "cdn.example.org");
  storage =
      some (record {
        download = λ key path s. (none, s);
        upload = λ path key type_name s. (ok key, s);
      });
  system_temp = codes "/tmp";
  join = λ parts. elim parts [ [] ↦ [] | p ∷ ps ↦ p ++ codes "/file" ];
  base_of = λ path. path;
  dir_of = λ path. path;
  make_dir = λ path s. (none, s);
  remove = λ path s. path ∷ s;
  output = λ program args s. (ok (codes "4"), s);
  run = λ cmd s. (exited lines none, s);
  floats = floats;
}

abbrev options : TranscodeOptions (List Text)
options = record { skip_upload = false; progress_cb = none }

execute-Ended_example :
    (s' : List Text) × ((execute runtime executor_io (some task) options []).1
      ≡ executor_io.remove (local_input_path runtime executor_io task) s')
    × Ended runtime executor_io false
        (local_output_path runtime executor_io task)
        ((execute runtime executor_io (some task) options []).0, s')
execute-Ended_example = execute-Ended runtime executor_io task options [] refl refl refl
