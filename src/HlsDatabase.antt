-- ===== src/HlsDatabase.antt =====
-- The stored HLS jobs: the row (ddd/infrastructure/database/po/hls_job.go), its conversion
-- (convertor/hls_job_convertor.go), the DAO over a table (dao/hls_job_dao.go) and the repository
-- (persistence/hls_repo_impl.go). gorm and encoding/json are parameters.
pub mod RoundTrip
use go_video_transcode_servi.Common.{
  ℕ, ℤ, pos, ltb_ℤ, pos_part, Text, codes, List, [], ◌∷◌, Option, none, some, Error, Result, ok,
  err, on_ok, Op, ◌>>=◌, ◌>>◌, pure, if◌then◌else◌, map, length,
}
use go_video_transcode_servi.Runtime.{Runtime}
use go_video_transcode_servi.Resolution.{ResolutionConfig}
use go_video_transcode_servi.Hls.{
  HlsConfig, HlsJob, default_hls_config, set_hls_status, set_hls_progress, from_json, new_hls_job,
}

pub record HlsRow : Type 0 where
  pub id : ℕ
  pub created_at : ℕ
  pub updated_at : ℕ
  pub job_uuid : Text
  pub user_uuid : Text
  pub video_uuid : Text
  pub source_job_uuid : Option Text
  pub source_type : Text
  pub input_path : Text
  pub output_dir : Text
  pub master_playlist : Option Text
  pub profiles_json : Option Text
  pub status : Text
  pub progress : ℤ
  pub segment_duration : ℤ
  pub list_size : ℤ
  pub format : Text
  pub variant_count : ℕ
  pub error_message : Option Text
  pub started_at : Option ℕ
  pub completed_at : Option ℕ

-- encoding/json on a list of resolutions
pub record Json : Type 0 where
  pub marshal : List ResolutionConfig → Result Error Text
  pub unmarshal : Text → Result Error (List ResolutionConfig)

-- ToJSON
unfoldable pub to_json : Json → HlsConfig → Result Error Text
to_json json hc = json.marshal hc.resolutions

-- The configuration with the profiles of a row; an error is passed over.
abbrev pub with_profiles : Runtime → Json → Option Text → HlsConfig → HlsConfig
with_profiles rt json none cfg = cfg
with_profiles rt json (some profiles) cfg = (from_json rt json.unmarshal profiles cfg).0

abbrev pub with_output : Option Text → HlsConfig → HlsConfig
with_output none cfg = cfg
with_output (some path) cfg = record cfg { output_path = path }

-- `now` is the time that `NewHLSJobEntity` reads.
unfoldable pub hls_to_entity : Runtime → Json → ℕ → HlsRow → HlsJob
unfolding new_hls_job default_hls_config
hls_to_entity rt json now row =
    let profiled = with_profiles rt json row.profiles_json default_hls_config in
    let sized = record profiled {
      segment_duration = row.segment_duration;
      list_size = row.list_size;
      format = row.format;
    } in
    let cfg = set_hls_status row.status (set_hls_progress row.progress sized) in
    new_hls_job row.job_uuid row.user_uuid row.video_uuid row.input_path row.output_dir
      (with_output row.master_playlist cfg) now

abbrev pub value_of : Result Error Text → Option Text
value_of (ok v) = some v
value_of (err e) = none

unfoldable pub hls_to_po : Json → HlsJob → HlsRow
unfolding to_json
hls_to_po json e = record {
  id = e.id;
  created_at = e.created_at;
  updated_at = e.updated_at;
  job_uuid = e.job_uuid;
  user_uuid = e.user_uuid;
  video_uuid = e.video_uuid;
  source_job_uuid = none;
  source_type = [];
  input_path = e.input_path;
  output_dir = e.output_dir;
  master_playlist = e.master_playlist;
  profiles_json = value_of (to_json json e.config);
  status = e.status;
  progress = e.progress;
  segment_duration = e.config.segment_duration;
  list_size = e.config.list_size;
  format = e.config.format;
  variant_count = length e.config.resolutions;
  error_message = none;
  started_at = none;
  completed_at = none;
}

data HlsColumn : Type 0 where
  progress_column : ℤ → HlsColumn
  status_column master_playlist_column error_message_column : Text → HlsColumn

-- gorm's calls on the table `hls_jobs`
record HlsTable (S : Type 0) : Type 0 where
  pub insert : HlsRow → Op S (Option Error)
  pub update_column : Text → HlsColumn → Op S (Option Error)  -- Where("job_uuid = ?").Update
  pub first : Text → Op S (Result Error HlsRow)
  pub find : Text → Option ℕ → Op S (Result Error (List HlsRow))

-- `HLSJobRepository`
pub record HlsRepository (S : Type 0) : Type 0 where
  pub create_hls_job : HlsJob → Op S (Option Error)
  pub update_hls_job_progress : Text → ℤ → Op S (Option Error)
  pub update_hls_job_status : Text → Text → Op S (Option Error)
  pub update_hls_job_output : Text → Text → Op S (Option Error)
  pub update_hls_job_error : Text → Text → Op S (Option Error)
  pub get_hls_job : Text → Op S (Result Error HlsJob)
  pub query_hls_jobs_by_status : Text → ℤ → Op S (Result Error (List HlsJob))

module _ {S : Type 0} (table : HlsTable S) where
  hls_dao_create : HlsRow → Op S (Option Error)
  hls_dao_create row = table.insert row

  hls_dao_update_progress : Text → ℤ → Op S (Option Error)
  hls_dao_update_progress job_uuid progress =
      table.update_column job_uuid (progress_column progress)

  hls_dao_update_status : Text → Text → Op S (Option Error)
  hls_dao_update_status job_uuid status = table.update_column job_uuid (status_column status)

  hls_dao_update_output : Text → Text → Op S (Option Error)
  hls_dao_update_output job_uuid master =
      table.update_column job_uuid (master_playlist_column master)

  hls_dao_update_error : Text → Text → Op S (Option Error)
  hls_dao_update_error job_uuid msg = table.update_column job_uuid (error_message_column msg)

  hls_dao_find_by_job_uuid : Text → Op S (Result Error HlsRow)
  hls_dao_find_by_job_uuid job_uuid = table.first job_uuid

  hls_dao_query_by_status : Text → ℤ → Op S (Result Error (List HlsRow))
  hls_dao_query_by_status status limit =
      table.find status (if ltb_ℤ (pos 0) limit then some (pos_part limit) else none)

  unfoldable new_hls_repository : Runtime → Json → Op S ℕ → HlsRepository S
  unfolding hls_dao_create hls_dao_update_progress hls_dao_update_status hls_dao_update_output
      hls_dao_update_error hls_dao_find_by_job_uuid hls_dao_query_by_status
  new_hls_repository rt json now = record {
    create_hls_job = λ job. hls_dao_create (hls_to_po json job);
    update_hls_job_progress = λ job_uuid progress. hls_dao_update_progress job_uuid progress;
    update_hls_job_status = λ job_uuid status. hls_dao_update_status job_uuid status;
    update_hls_job_output = λ job_uuid master. hls_dao_update_output job_uuid master;
    update_hls_job_error = λ job_uuid msg. hls_dao_update_error job_uuid msg;
    get_hls_job = λ job_uuid. (do
      found ← hls_dao_find_by_job_uuid job_uuid
      time ← now
      pure (on_ok (hls_to_entity rt json time) found));
    query_hls_jobs_by_status = λ status limit. (do
      found ← hls_dao_query_by_status status limit
      time ← now
      pure (on_ok (λ rows. map (hls_to_entity rt json time) rows) found));
  }
