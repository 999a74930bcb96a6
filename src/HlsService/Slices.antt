-- ===== src/HlsService/Slices.antt =====
-- The outcome of the slicing of a job.
use go_video_transcode_servi.Common.{
  ℕ, suc, ◌+◌, ◌*◌, ◌/◌, ℤ, pos, Text, codes, List, [], ◌∷◌, length, map, Option, none, some, Error,
  Result, ok, err, Op, ◌⊎◌, sym, ap, ◌∙◌, ◌≡◌, refl, arith, inl, inr, Bool, true, false, not,
  if◌then◌else◌, wrap,
}
use native.Mathlib.Nat.{mul-div_cancel_left}
use go_video_transcode_servi.HlsStatus
use go_video_transcode_servi.Runtime.{Runtime}
use go_video_transcode_servi.Resolution.{ResolutionConfig}
use go_video_transcode_servi.Hls.{HlsJob, clamp_percent, set_hls_status}
use go_video_transcode_servi.HlsService.Command.{playlist_name}
use go_video_transcode_servi.HlsService.{
  HlsIo, create_master_playlist_entry, update_hls_progress, stored_progress,
  generate_resolution_hls, variant_made, slices_from, playlist_made, playlist_written,
  master_playlist_content, generate_hls_slices, generate_output_dir,
}

-- The entries that the variants of a job have.
entries_of : Runtime → List ResolutionConfig → List Text
entries_of rt rs = map (λ rc. create_master_playlist_entry rt rc (playlist_name rc)) rs

-- The percentage at the end: that of the last variant, and none without a variant.
abbrev final_progress : List ResolutionConfig → ℤ
final_progress [] = pos 0
final_progress (rc ∷ rest) = pos 100

-- What the loop leaves alone.
record Untouched (before after : HlsJob) : Type 0 where
  status : after.status ≡ before.status
  playlist : after.master_playlist ≡ before.master_playlist
  dir : after.output_dir ≡ before.output_dir

Untouched-trans : (a b c : HlsJob) → Untouched a b → Untouched b c → Untouched a c
Untouched-trans a b c u v = record {
  status = v.status ∙ u.status;
  playlist = v.playlist ∙ u.playlist;
  dir = v.dir ∙ u.dir;
}

last_percent : (i total : ℕ) → i + 1 ≡ total → clamp_percent (pos ((i + 1) * 100 / total)) ≡ pos 100
last_percent i total e =
    ap (λ n. clamp_percent (pos ((i + 1) * 100 / n))) (sym e)
    ∙ ap (λ n. clamp_percent (pos n)) (mul-div_cancel_left 100 (omega arith))

-- The progress behind the loop over the rest, which a shorter rest leaves alone.
abbrev progress_behind : List ResolutionConfig → ℤ → ℤ
progress_behind [] before = before
progress_behind (rc ∷ rest) before = pos 100

progress_behind_last :
    (rest : List ResolutionConfig) (p : ℤ)
    → (rest ≡ [] → p ≡ pos 100)
    → progress_behind rest p ≡ pos 100
progress_behind_last [] p h = h refl
progress_behind_last (rc ∷ rest) p h = refl

progress_behind_final :
    (rs : List ResolutionConfig) (p : ℤ) → p ≡ pos 0 → progress_behind rs p ≡ final_progress rs
progress_behind_final [] p h = h
progress_behind_final (rc ∷ rs) p h = refl

module _ {S : Type 0} (rt : Runtime) (io : HlsIo S) where
  stored_progress_self :
      (update : Option (Text → ℤ → Op S (Option Error))) (p : ℤ) (job : HlsJob) (s : S)
      → (stored_progress rt io update p job s).0 ≡ job
  unfolding stored_progress
  stored_progress_self none p job s = refl
  stored_progress_self (some update) p job s = refl

  update_hls_progress-progress :
      (p : ℤ) (job : HlsJob) (s : S)
      → ((update_hls_progress rt io p job s).0.progress ≡ clamp_percent p)
        × Untouched job (update_hls_progress rt io p job s).0
  unfolding update_hls_progress
  update_hls_progress-progress p job s =
      rw (stored_progress_self io.update_progress p _ _)
        (refl, record { status = refl; playlist = refl; dir = refl })

  generate_resolution_hls-name :
      (job : HlsJob) (input dir name : Text) (rc : ResolutionConfig) (s : S)
      → (generate_resolution_hls rt io job input dir rc s).0 ≡ ok name
      → name ≡ playlist_name rc
  unfolding generate_resolution_hls
  generate_resolution_hls-name job input dir name rc s h = ground arith

  -- How the loop ends from index `i`.
  Ends : List ResolutionConfig → HlsJob → HlsJob × Result Error (List Text) → Type 0
  Ends rs job r =
      Untouched job r.0
      × (((r.1 ≡ ok (entries_of rt rs)) × (r.0.progress ≡ progress_behind rs job.progress))
          ⊎ ((e : Error) × (r.1 ≡ err e)))

  variant_made-Ends :
      (rc : ResolutionConfig) (rest : List ResolutionConfig) (job job1 : HlsJob) (s : S)
      → (made : Result Error Text) → (later : (HlsJob × Result Error (List Text)) × S)
      → ((name : Text) → made ≡ ok name → name ≡ playlist_name rc)
      → Untouched job job1
      → (rest ≡ [] → job1.progress ≡ pos 100)
      → Ends rest job1 later.0
      → Ends (rc ∷ rest) job (variant_made rt io rc job s made later).0
  unfolding variant_made Ends entries_of
  variant_made-Ends rc rest job job1 s (err e) later n u p ends =
      (record { status = refl; playlist = refl; dir = refl }, inr (e, refl))
  variant_made-Ends rc rest job job1 s (ok name) later n u p (v, inl (made, reached)) = (
    Untouched-trans job job1 later.0.0 u v,
    inl (rw (made, n name refl) refl, reached ∙ progress_behind_last rest job1.progress p),
  )
  variant_made-Ends rc rest job job1 s (ok name) later n u p (v, inr (e, failed)) =
      (Untouched-trans job job1 later.0.0 u v, inr (e, rw failed refl))

  slices_from-Ends :
      (input dir : Text) (total i : ℕ) (rs : List ResolutionConfig) (job : HlsJob) (s : S)
      → i + length rs ≡ total
      → Ends rs job (slices_from rt io input dir total i rs job s).0
  unfolding slices_from Ends entries_of
  slices_from-Ends input dir total i [] job s h =
      (record { status = refl; playlist = refl; dir = refl }, inl (refl, refl))
  slices_from-Ends input dir total i (rc ∷ rest) job s h =
      let (made, s1) = generate_resolution_hls rt io job input dir rc s in
      let (job1, s2) = update_hls_progress rt io (pos ((i + 1) * 100 / total)) job s1 in
      let moved = update_hls_progress-progress (pos ((i + 1) * 100 / total)) job s1 in
      variant_made-Ends rc rest job job1 s1 made
        (slices_from rt io input dir total (suc i) rest job1 s2)
        (λ name q. generate_resolution_hls-name job input dir name rc s q) moved.1
        (λ e. moved.0 ∙ last_percent i total (omega (arith, h, ap length e)))
        (slices_from-Ends input dir total (suc i) rest job1 s2 (omega arith))

  -- A job whose slicing succeeds, with a state at which the playlist was written.
  record Completed (before after : HlsJob) (dir : Text) : Type 0 where
    pub status : after.status ≡ HlsStatus.completed
    pub progress : after.progress ≡ final_progress before.config.resolutions
    pub playlist : after.master_playlist ≡ some (io.join (dir ∷ codes "master.m3u8" ∷ []))
    pub output : after.output_dir ≡ dir
    pub content :
        (s : S) × ((io.write_file
            (io.join (dir ∷ codes "master.m3u8" ∷ []))
            (master_playlist_content (entries_of rt before.config.resolutions))
            s).0
          ≡ none)

  pub Outcome : Text → HlsJob → HlsJob × Option Error → Type 0
  Outcome dir before r =
      ((r.1 ≡ none) × Completed before r.0 dir)
      ⊎ ((e : Error) × (r.1 ≡ some e)
          × (r.0.status ≡ before.status)
          × (r.0.master_playlist ≡ before.master_playlist)
          × (r.0.output_dir ≡ before.output_dir))

  playlist_made-Outcome :
      (dir : Text) (before job : HlsJob) (written : Option Error) (s s0 : S)
      → Untouched before job
      → job.progress ≡ final_progress before.config.resolutions
      → (io.write_file
          (io.join (dir ∷ codes "master.m3u8" ∷ []))
          (master_playlist_content (entries_of rt before.config.resolutions))
          s0).0
        ≡ written
      → Outcome dir before
          (playlist_made rt io dir (io.join (dir ∷ codes "master.m3u8" ∷ [])) job written s).0
  unfolding playlist_made Outcome
  playlist_made-Outcome dir before job (some e) s s0 u p w =
      inr (e, refl, u.status, u.playlist, u.dir)
  playlist_made-Outcome dir before job none s s0 u p w = inl (
    refl,
    record { status = refl; progress = p; playlist = refl; output = refl; content = (s0, w) },
  )

  playlist_written-Outcome :
      (dir : Text) (before mid : HlsJob) (r : HlsJob × Result Error (List Text)) (s : S)
      → Untouched before mid
      → mid.progress ≡ pos 0
      → Ends before.config.resolutions mid r
      → Outcome dir before (playlist_written rt io dir r.0 r.1 s).0
  unfolding playlist_written Ends Outcome
  playlist_written-Outcome dir before mid (job, r) s u p (v, inl (made, reached)) = rw made (
      playlist_made-Outcome dir before job _ _ s (Untouched-trans before mid job u v)
        (reached ∙ progress_behind_final before.config.resolutions mid.progress p) refl)
  playlist_written-Outcome dir before mid (job, r) s u p (v, inr (e, failed)) =
      let w = Untouched-trans before mid job u v in
      rw failed (inr (e, refl, w.status, w.playlist, w.dir))

  -- Behind the checks.
  checked-Outcome :
      (dir : Text) (job : HlsJob) (enabled : Bool) (made : Option Error)
      (done : (HlsJob × Option Error) × S) (disabled : Error) (s s1 : S)
      → Outcome dir job done.0
      → (let r : (HlsJob × Option Error) × S =
            if not enabled then ((job, some disabled), s) else elim made [
              | some e ↦ ((job, some (wrap (codes "创建输出目录失败") e)), s1)
              | none ↦ done
            ] in
          Outcome dir job r.0)
  unfolding Outcome
  checked-Outcome dir job false made done disabled s s1 o = inr (disabled, refl, refl, refl, refl)
  checked-Outcome dir job true none done disabled s s1 o = o
  checked-Outcome dir job true (some e) done disabled s s1 o = inr (_, refl, refl, refl, refl)

  -- The slicing of a job ends in one of two ways, whatever its commands and the file system answer. It
  -- completes the job, with the playlist of one entry for each variant in order, a progress of 100
  -- (of 0 without a variant), and the output directory; or it answers an error, and the job's status,
  -- playlist and output directory are those it came with.
  pub generate_hls_slices-Outcome :
      (job : HlsJob) (input : Text) (s : S)
      → Outcome (generate_output_dir rt io job) job (generate_hls_slices rt io job input s).0
  unfolding generate_hls_slices
  generate_hls_slices-Outcome job input s =
      let dir = generate_output_dir rt io job in
      let rs = job.config.resolutions in
      let (made, s1) = io.make_dir dir s in
      let started = record job { config = set_hls_status HlsStatus.processing job.config } in
      let (job1, s2) = update_hls_progress rt io (pos 0) started s1 in
      let (r, s3) = slices_from rt io input dir (length rs) 0 rs job1 s2 in
      let (moved, u) = update_hls_progress-progress (pos 0) started s1 in
      checked-Outcome dir job job.config.enable_hls made _ _ s s1 (
        playlist_written-Outcome dir job job1 r s3
          (record { status = u.status; playlist = u.playlist; dir = u.dir }) moved
          (slices_from-Ends input dir (length rs) 0 rs job1 s2 (omega arith)))
