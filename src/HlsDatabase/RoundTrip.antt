-- ===== src/HlsDatabase/RoundTrip.antt =====
-- An HLS job that is stored and read again.
use go_video_transcode_servi.Common.{
  ℕ, pos, Text, List, [], ◌∷◌, ◌≡◌, ◌≢◌, refl, ap, ◌∙◌, arith, Option, none, some, ok, All,
}
use go_video_transcode_servi.HlsStatus
use go_video_transcode_servi.Runtime.{Runtime}
use go_video_transcode_servi.Resolution.{ResolutionConfig, validate_config}
use go_video_transcode_servi.Hls.{
  HlsConfig, HlsJob, default_hls_config, set_hls_progress, clamp_percent, from_json, new_hls_job,
}
use go_video_transcode_servi.Hls.Valid.{each-check_resolutions}
use go_video_transcode_servi.HlsDatabase.{
  Json, hls_to_entity, hls_to_po, to_json, with_profiles, with_output, value_of,
}

-- encoding/json reads back what it has written, which is no empty text.
pub record JsonLaws (json : Json) : Type 0 where
  pub marshals : (rs : List ResolutionConfig) → (text : Text) × (json.marshal rs ≡ ok text)
  pub reads_back :
      (rs : List ResolutionConfig) (text : Text)
      → json.marshal rs ≡ ok text
      → (text ≢ []) × (json.unmarshal text ≡ ok rs)

-- What stays of a job, and what does not.
pub record Reread (now : ℕ) (e read : HlsJob) : Type 0 where
  pub names :
      (read.job_uuid ≡ e.job_uuid)
      × (read.user_uuid ≡ e.user_uuid)
      × (read.video_uuid ≡ e.video_uuid)
  pub paths : (read.input_path ≡ e.input_path) × (read.output_dir ≡ e.output_dir)
  pub variants : read.config.resolutions ≡ e.config.resolutions
  pub settings :
      (read.config.segment_duration ≡ e.config.segment_duration)
      × (read.config.list_size ≡ e.config.list_size)
      × (read.config.format ≡ e.config.format)
  -- the status and the progress go into the configuration
  pub configured :
      (read.config.status ≡ e.status) × (read.config.progress ≡ clamp_percent e.progress)
  -- and the job itself starts again, without its source
  pub restarted :
      (read.status ≡ HlsStatus.pending)
      × (read.progress ≡ pos 0)
      × (read.id ≡ 0)
      × (read.created_at ≡ now)
  pub orphaned :
      (read.source_job_uuid ≡ none) × (read.request_id ≡ []) × (read.master_playlist ≡ none)

from_json-read :
    (rt : Runtime) (json : Json) (rs : List ResolutionConfig) (text : Text) (hc : HlsConfig)
    → JsonLaws json
    → json.marshal rs ≡ ok text
    → All (λ rc. validate_config rt rc ≡ none) rs
    → (from_json rt json.unmarshal text hc).0 ≡ record hc { resolutions = rs }
unfolding from_json
from_json-read rt json rs [] hc laws e a = absurd ((laws.reads_back rs [] e).0 refl)
from_json-read rt json rs (c ∷ text) hc laws e a =
    ground (arith, (laws.reads_back rs (c ∷ text) e).1, each-check_resolutions rt 0 rs a)

with_profiles-read :
    (rt : Runtime) (json : Json) (rs : List ResolutionConfig) (hc : HlsConfig)
    → JsonLaws json
    → All (λ rc. validate_config rt rc ≡ none) rs
    → (with_profiles rt json (value_of (json.marshal rs)) hc).resolutions ≡ rs
with_profiles-read rt json rs hc laws a =
    let (text, written) = laws.marshals rs in
    rw written
      (ap (λ (c : HlsConfig). c.resolutions) (from_json-read rt json rs text hc laws written a))

-- The output path apart, the configuration is as before.
with_output-frame :
    (path : Option Text) (hc : HlsConfig)
    → record (with_output path hc) { output_path = hc.output_path } ≡ hc
with_output-frame none hc = refl
with_output-frame (some path) hc = refl

-- A stored HLS job whose resolutions pass their check comes back with its names, its paths and its
-- settings; its status and its progress come back in the configuration alone, and the job itself is
-- pending again, without its identifier, its source and its playlist.
pub hls_to_entity-hls_to_po :
    (rt : Runtime) (json : Json) (now : ℕ) (e : HlsJob)
    → JsonLaws json
    → All (λ rc. validate_config rt rc ≡ none) e.config.resolutions
    → Reread now e (hls_to_entity rt json now (hls_to_po json e))
unfolding hls_to_entity hls_to_po to_json new_hls_job default_hls_config set_hls_progress
hls_to_entity-hls_to_po rt json now e laws a =
    let hc = e.config in
    let frame = with_output-frame e.master_playlist in
    record {
      names = (refl, refl, refl);
      paths = (refl, refl);
      variants =
          ap (λ (c : HlsConfig). c.resolutions) (frame _)
          ∙ with_profiles-read rt json hc.resolutions default_hls_config laws a;
      settings = (
        ap (λ (c : HlsConfig). c.segment_duration) (frame _),
        ap (λ (c : HlsConfig). c.list_size) (frame _),
        ap (λ (c : HlsConfig). c.format) (frame _),
      );
      configured = (
        ap (λ (c : HlsConfig). c.status) (frame _),
        ap (λ (c : HlsConfig). c.progress) (frame _),
      );
      restarted = (refl, refl, refl, refl);
      orphaned = (refl, refl, refl);
    }
