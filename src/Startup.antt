-- ===== src/Startup.antt =====
-- The life of the process (app/app.go). The file of the configuration, the environment, the network and
-- the wait for a signal are parameters; log lines are left out. logger.Fatal ends the process with the
-- code 1 at once, so that nothing deferred is run; a panic runs what is deferred.
pub mod Order
use go_video_transcode_servi.Common.{
  ℕ, Text, codes, text_eq, trim_space, to_lower, is_empty, contains, Bool, true, false, not, ◌&&◌,
  ◌||◌, List, [], ◌∷◌, ◌++◌, Option, none, some, Error, Result, ok, err, Op, ◌>>=◌, ◌>>◌, pure,
  itoa_ℤ, if◌then◌else◌,
}
use go_video_transcode_servi.Runtime.{Runtime}
use go_video_transcode_servi.Config.{Config}
use go_video_transcode_servi.TaskManager
use go_video_transcode_servi.TaskManager.{start_tasks, stop_tasks}
use go_video_transcode_servi.Plugins.{
  Resource, ResourcePlugin, Component, ComponentPlugin, ServicePlugin, ControllerPlugin,
  must_init_resources, must_init_services, must_init_components, register_all_routes, shutdown,
  close_resources,
}

-- An environment variable, or a default where it is empty.
get_env : (Text → Text) → Text → Text → Text
get_env getenv key default_value =
    let value = getenv key in if is_empty value then default_value else value

pub resolve_config_path : Runtime → (Text → Text) → Text
resolve_config_path rt getenv =
    let path = getenv (codes "CONFIG_PATH") in
    let named = to_lower rt.lower_table (trim_space (getenv (codes "CONFIG_ENV"))) in
    let env = if is_empty named then codes "dev" else named in
    if not (is_empty path)
    then path
    else if text_eq env (codes "prod") || text_eq env (codes "production")
    then codes "configs/config_prod.yaml"
    else if text_eq env (codes "dev") || text_eq env (codes "development")
    then codes "configs/config.dev.yaml"
    else codes "configs/config." ++ (env ++ codes ".yaml")

-- The binary that is looked for.
pub ffmpeg_bin : Text → Text
ffmpeg_bin configured = if is_empty (trim_space configured) then codes "ffmpeg" else configured

-- Whether the log warns of a missing encoder: `encoders` is the output of FFmpeg, unless it fails.
warns_of_nvenc : Runtime → Text → Result Error Text → Bool
warns_of_nvenc rt codec (err e) = false
warns_of_nvenc rt codec (ok encoders) =
    contains (to_lower rt.lower_table codec) (codes "nvenc")
    && not (contains (to_lower rt.lower_table encoders) (codes "nvenc"))

-- What the process acts on.
pub record Host (S : Type 0) : Type 0 where
  pub getenv : Text → Text
  pub load : Text → Op S (Result Error Config)  -- config.Load, SetGlobalConfig, NewLogger
  pub look_path : Text → Option Error
  pub new_database : Op S (Option Error)
  pub close_database : S → S
  pub listen : Text → Op S (Option Error)  -- and the goroutine that serves gRPC
  pub serve_http : Text → S → S
  pub wait : S → S  -- until the signal
  pub graceful_stop : S → S
  pub cancel_tasks : S → S
  pub shutdown_http : Op S (Option Error)
  pub close_logger : S → S

-- How the process ends: with a code, by a panic, or by the end of Run.
pub data Exit : Type 0 where
  exited panicked finished : Exit

-- The plugins, in the order in which the maps are visited, and the tasks that are registered when the
-- components have been started.
pub record Parts (S : Type 0) : Type 0 where
  pub resources : List (Text × ResourcePlugin S)
  pub services : List (Text × ServicePlugin S)
  pub components : List (Text × ComponentPlugin S)
  pub controllers : List (Text × ControllerPlugin S)
  pub tasks : S → TaskManager.Manager S

module _ {S : Type 0} (rt : Runtime) (host : Host S) (parts : Parts S) where
  -- Behind the components.
  left_http : Option Error → S → Exit × S
  left_http (some e) s = (exited, s)
  left_http none s = (finished, host.close_logger s)

  components_down : Option S → S → Exit × S
  unfolding left_http
  components_down none s = (panicked, s)
  components_down (some s') s = let (failed, s'') = host.shutdown_http s' in left_http failed s''

  -- From the signal on; `s` is the state at the end of the tasks.
  shut_down : TaskManager.Manager S → List (Component S) → S → Exit × S
  unfolding components_down
  shut_down m components s =
      let (m', s') = stop_tasks host.cancel_tasks m (host.graceful_stop s) in
      components_down (shutdown components s') s'

  routed : Text → TaskManager.Manager S → List (Component S) → Option (Unit {0}) → S → Exit × S
  unfolding shut_down
  routed port m components none s = (panicked, s)
  routed port m components (some _) s = shut_down m components (host.wait (host.serve_http port s))

  listening :
      TaskManager.Manager S → List (Component S) → List (S → S) → Option Error → S → Exit × S
  unfolding routed
  listening m components services (some e) s = (exited, s)
  listening m components services none s =
      let (made, s') = register_all_routes parts.controllers services s in
      routed (get_env host.getenv (codes "PORT") (codes "8083")) m components made s'

  -- A failure of the tasks is logged.
  components_up : Config → List (S → S) → Option (List (Component S)) → S → Exit × S
  unfolding listening
  components_up cfg services none s = (panicked, s)
  components_up cfg services (some components) s =
      let ((m, failed), s1) = start_tasks (parts.tasks s) s in
      let (refused, s2) =
        host.listen (cfg.grpc_server.host ++ (codes ":" ++ itoa_ℤ cfg.grpc_server.port)) s1 in
      listening m components services refused s2

  services_up : Config → Option (List (S → S)) → S → Exit × S
  unfolding components_up
  services_up cfg none s = (panicked, s)
  services_up cfg (some services) s =
      let (components, s') = must_init_components parts.components [] s in
      components_up cfg services components s'

  -- The deferred calls, the last one first; os.Exit passes them over.
  deferred : (S → S) → Exit × S → Exit × S
  deferred f (exited, s) = (exited, s)
  deferred f (panicked, s) = (panicked, f s)
  deferred f (finished, s) = (finished, f s)

  database_up : Config → Option Error → S → Exit × S
  unfolding services_up deferred
  database_up cfg (some e) s = (exited, s)
  database_up cfg none s =
      let (services, s') = must_init_services parts.services [] s in
      deferred host.close_database (services_up cfg services s')

  -- A panic of the resources is before their deferred call.
  resources_up : Config → Option (List (Resource S)) → S → Exit × S
  unfolding database_up deferred
  resources_up cfg none s = (panicked, s)
  resources_up cfg (some resources) s =
      let (failed, s') = host.new_database s in
      deferred (close_resources resources) (database_up cfg failed s')

  found_ffmpeg : Config → Option Error → S → Exit × S
  unfolding resources_up
  found_ffmpeg cfg (some e) s = (exited, s)
  found_ffmpeg cfg none s =
      let (resources, s') = must_init_resources parts.resources [] s in
      resources_up cfg resources s'

  loaded : Result Error Config → S → Exit × S
  unfolding found_ffmpeg
  loaded (err e) s = (exited, s)
  loaded (ok cfg) s = found_ffmpeg cfg (host.look_path (ffmpeg_bin cfg.ffmpeg.binary_path)) s

  pub run_app : S → Exit × S
  unfolding loaded
  run_app s = let (cfg, s') = host.load (resolve_config_path rt host.getenv) s in loaded cfg s'
