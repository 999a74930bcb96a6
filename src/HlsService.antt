-- ===== src/HlsService.antt =====
-- The segmenting of a video (ddd/domain/service/hls_service.go): the FFmpeg command of a resolution,
-- the entries of the master playlist, and the order of the work. Running a command and the file
-- system are parameters.
pub mod Command
pub mod Slices
pub mod Playlist
use go_video_transcode_servi.Common.{
  ℕ, zero, suc, ◌+◌, ◌*◌, ◌/◌, ◌-◌, to_int64, ltb, ℤ, pos, negsuc, ltb_ℤ, pos_part, Text, codes,
  Bool, true, false, not, ◌&&◌, List, [], ◌∷◌, ◌++◌, length, Option, none, some, Error, plain, wrap,
  error_text, Result, ok, err, on_ok, Op, ◌>>=◌, ◌>>◌, pure, is_empty, trim_space, to_lower,
  contains, replace_all, equal_fold, itoa, itoa_ℤ, if◌then◌else◌,
}
use go_video_transcode_servi.HlsStatus
use go_video_transcode_servi.Runtime.{Runtime}
use go_video_transcode_servi.Config.{FfmpegConfig}
use go_video_transcode_servi.Resolution.{
  ResolutionConfig, parse_bitrate_to_bps, parse_resolution_height,
}
use go_video_transcode_servi.Hls.{
  HlsConfig, HlsJob, set_hls_status, set_job_status, set_job_progress, set_job_master_playlist,
  set_job_output_dir, set_job_error,
}
use go_video_transcode_servi.HlsService.Command.{playlist_name, segment_pattern, hls_args}

-- The service's configuration and what it calls. The output of a command is a text.
pub record HlsIo (S : Type 0) : Type 0 where
  pub ffmpeg : FfmpegConfig  -- cfg.Transcode.FFmpeg
  pub make_dir : Text → Op S (Option Error)
  pub run_command : Text → List Text → Op S (Option Error × Text)
  pub write_file : Text → Text → Op S (Option Error)
  pub update_progress : Option (Text → ℤ → Op S (Option Error))  -- hlsRepo
  pub now : Op S ℕ
  pub join : List Text → Text  -- filepath.Join

abbrev pub value_or : ℤ → Result Error ℤ → ℤ
value_or default (ok v) = v
value_or default (err e) = default

-- n / 9, which drops the fraction; the product that it divides wraps around.
abbrev ninth_of : ℤ → ℤ
ninth_of (pos n) = pos (n / 9)
ninth_of (negsuc n) = if ltb n 8 then pos 0 else negsuc (suc n / 9 - 1)

unfoldable pub width_of : ℤ → ℤ
width_of height = if ltb_ℤ (pos 0) height then ninth_of (to_int64 (pos_part height * 16)) else pos 0

unfoldable pub create_master_playlist_entry : Runtime → ResolutionConfig → Text → Text
unfolding width_of
create_master_playlist_entry rt rc playlist_path =
    let bitrate = value_or (pos 0) (parse_bitrate_to_bps rt rc.bitrate) in
    let height = value_or (pos 0) (parse_resolution_height rt rc.resolution) in
    codes "#EXT-X-STREAM-INF:BANDWIDTH="
    ++ (itoa_ℤ bitrate
        ++ (codes ",RESOLUTION="
            ++ (itoa_ℤ (width_of height)
                ++ (codes "x" ++ (itoa_ℤ height ++ (codes "\n" ++ playlist_path))))))

-- The lines of the entries.
entry_lines : List Text → Text
entry_lines [] = []
entry_lines (entry ∷ rest) = entry ++ (codes "\n" ++ entry_lines rest)

unfoldable pub master_playlist_content : List Text → Text
unfolding entry_lines
master_playlist_content entries = codes "#EXTM3U\n#EXT-X-VERSION:3\n\n" ++ entry_lines entries

module _ {S : Type 0} (rt : Runtime) (io : HlsIo S) where
  pub generate_output_dir : HlsJob → Text
  generate_output_dir job =
      io.join (codes "storage/hls" ∷ job.user_uuid ∷ job.video_uuid ∷ job.job_uuid ∷ [])

  -- A setter of the job, which reads the clock.
  abbrev at_now : (ℕ → HlsJob) → Op S HlsJob
  at_now change = do time ← io.now; pure (change time)

  abbrev set_job_error_at : Text → HlsJob → ℕ → HlsJob
  set_job_error_at msg job time = set_job_error msg time job

  abbrev slice_failed : ResolutionConfig → Error → Text
  slice_failed rc e = codes "生成" ++ (rc.resolution ++ (codes "分辨率切片失败: " ++ error_text e))

  -- The error of the write is logged.
  stored_progress : Option (Text → ℤ → Op S (Option Error)) → ℤ → HlsJob → Op S HlsJob
  stored_progress none progress job = pure job
  stored_progress (some update) progress job = do _ ← update job.job_uuid progress; pure job

  update_hls_progress : ℤ → HlsJob → Op S HlsJob
  unfolding stored_progress
  update_hls_progress progress job = do
    job' ← at_now λ time. set_job_progress progress time job
    stored_progress io.update_progress progress job'

  -- The playlist's name, or the error of the command with its output.
  generate_resolution_hls : HlsJob → Text → Text → ResolutionConfig → Op S (Result Error Text)
  generate_resolution_hls job input output_dir rc = do
    let playlist = io.join (output_dir ∷ playlist_name rc ∷ [])
    let segment = io.join (output_dir ∷ segment_pattern rc ∷ [])
    let binary =
        if is_empty (trim_space io.ffmpeg.binary_path)
        then codes "ffmpeg"
        else io.ffmpeg.binary_path
    done ← io.run_command binary (hls_args rt io.ffmpeg job.config rc input segment playlist)
    elim done.0 [
      | none ↦ pure (ok (playlist_name rc))
      | some e ↦
          pure (
            err
              (wrap (codes "FFmpeg执行失败") (plain (error_text e ++ (codes ", output: " ++ done.1)))))
    ]

  -- Behind the slicing of a variant, with what the loop over the rest gives.
  variant_made :
      ResolutionConfig
      → HlsJob
      → S
      → Result Error Text
      → (HlsJob × Result Error (List Text)) × S
      → (HlsJob × Result Error (List Text)) × S
  variant_made rc job s (err e) later =
      let (job', s') = at_now (set_job_error_at (slice_failed rc e) job) s in ((job', err e), s')
  variant_made rc job s (ok name) later =
      let entry = create_master_playlist_entry rt rc name in
      ((later.0.0, on_ok (λ entries. entry ∷ entries) later.0.1), later.1)

  -- The loop over the resolutions, from index `i` of `total`: the job, and the entries or the error.
  slices_from :
      Text
      → Text
      → ℕ
      → ℕ
      → List ResolutionConfig
      → HlsJob
      → Op S (HlsJob × Result Error (List Text))
  unfolding generate_resolution_hls update_hls_progress variant_made
  slices_from input dir total i [] job s = ((job, ok []), s)
  slices_from input dir total i (rc ∷ rest) job s =
      let (made, s1) = generate_resolution_hls job input dir rc s in
      let (job1, s2) = update_hls_progress (pos ((i + 1) * 100 / total)) job s1 in
      variant_made rc job s1 made (slices_from input dir total (suc i) rest job1 s2)

  playlist_made : Text → Text → HlsJob → Option Error → Op S (HlsJob × Option Error)
  playlist_made dir path job (some e) = do
    job' ← at_now (set_job_error_at (codes "生成master playlist失败: " ++ error_text e) job)
    pure (job', some e)
  playlist_made dir path job none = do
    job1 ← at_now λ time. set_job_master_playlist path time job
    job2 ← at_now λ time. set_job_output_dir dir time job1
    job3 ← at_now λ time. set_job_status HlsStatus.completed time job2
    pure (job3, none)

  -- Behind the loop: the playlist is written, and the job is completed.
  playlist_written : Text → HlsJob → Result Error (List Text) → Op S (HlsJob × Option Error)
  unfolding master_playlist_content playlist_made
  playlist_written dir job (err e) s = ((job, some e), s)
  playlist_written dir job (ok entries) s =
      let path = io.join (dir ∷ codes "master.m3u8" ∷ []) in
      let (written, s1) = io.write_file path (master_playlist_content entries) s in
      playlist_made dir path job written s1

  -- The whole function. The configuration belongs to the job.
  pub generate_hls_slices : HlsJob → Text → Op S (HlsJob × Option Error)
  unfolding update_hls_progress generate_output_dir slices_from playlist_written
  generate_hls_slices job input s =
      let dir = generate_output_dir job in
      let (made, s1) = io.make_dir dir s in
      let started = record job { config = set_hls_status HlsStatus.processing job.config } in
      let (job1, s2) = update_hls_progress (pos 0) started s1 in
      let rs = job.config.resolutions in
      let ((job2, entries), s3) = slices_from input dir (length rs) 0 rs job1 s2 in
      let done = playlist_written dir job2 entries s3 in
      if not job.config.enable_hls
      then ((job, some (plain (codes "HLS is not enabled for job " ++ job.job_uuid))), s)
      else elim made [ some e ↦ ((job, some (wrap (codes "创建输出目录失败") e)), s1) | none ↦ done ]

  answer_of : HlsJob → Option Error → Result Error Text
  answer_of job (some e) = err e
  answer_of job none = ok (elim job.master_playlist [ some path ↦ path | none ↦ [] ])

  -- The executor's contract: the path of the master playlist.
  pub slice : HlsJob → Op S (HlsJob × Result Error Text)
  unfolding generate_hls_slices answer_of
  slice job s =
      let ((job', failed), s') = generate_hls_slices job job.input_path s in
      ((job', answer_of job' failed), s')
