-- ===== src/Startup/Order.antt =====
-- The order in which the process goes down.
use go_video_transcode_servi.Common.{
  Text, List, [], ◌≡◌, refl, Option, none, some, Error, Result, ok, err,
}
use go_video_transcode_servi.Runtime.{Runtime}
use go_video_transcode_servi.Config.{Config}
use go_video_transcode_servi.TaskManager
use go_video_transcode_servi.TaskManager.{start_tasks, stop_tasks}
use go_video_transcode_servi.Plugins.{
  must_init_resources, must_init_services, must_init_components, register_all_routes, Resource,
  Component, shutdown, close_resources,
}
use go_video_transcode_servi.Plugins.Lifecycle.{
  Started, Initialised, all_started, failed, must_init_components-Initialised,
}
use go_video_transcode_servi.Startup.{
  Host, Exit, exited, panicked, finished, Parts, left_http, components_down, shut_down, routed,
  listening, components_up, services_up, deferred, database_up, resources_up, found_ffmpeg, loaded,
  run_app, resolve_config_path, ffmpeg_bin,
}

module _ {S : Type 0} (rt : Runtime) (host : Host S) (parts : Parts S) where
  -- From the services on until the signal: the components have been created and started, the start of the
  -- tasks has been called,
  -- the gRPC server listens, the routes are registered, and the HTTP server serves.
  pub record Up (services : List (S → S)) (before running : S) : Type 0 where
    pub components : List (Component S)
    pub started : S
    pub tasks : TaskManager.Manager S
    pub failure : Option Error
    pub tasked : S
    pub address : Text
    pub listening : S
    pub ready : S
    pub port : Text
    pub up : Started parts.components before components started
    pub tasks_up : start_tasks (parts.tasks started) started ≡ ((tasks, failure), tasked)
    pub listens : host.listen address tasked ≡ (none, listening)
    pub routes : register_all_routes parts.controllers services listening ≡ (some tt, ready)
    pub signalled : running ≡ host.wait (host.serve_http port ready)

  -- From the signal on: the gRPC server, the tasks and the components are stopped, then the HTTP server,
  -- then the logger is closed.
  pub record Down (services : List (S → S)) (before last : S) : Type 0 where
    pub running : S
    pub life : Up services before running
    pub stopped : S
    pub quiet : S
    pub down :
        shutdown life.components
          (stop_tasks host.cancel_tasks life.tasks (host.graceful_stop running)).1
        ≡ some stopped
    pub http : host.shutdown_http stopped ≡ (none, quiet)
    pub logger : last ≡ host.close_logger quiet

  -- A panic behind the services, and the state that it leaves.
  pub data Broken (services : List (S → S)) (before last : S) : Type 0 where
    -- a component is not created or does not start
    not_started :
        must_init_components parts.components [] before ≡ (none, last) → Broken services before last
    -- a controller does not register its routes, with the components started
    not_routed :
        (components : List (Component S)) (started listening : S)
        → Started parts.components before components started
        → register_all_routes parts.controllers services listening ≡ (none, last)
        → Broken services before last
    -- a component does not stop, behind the signal, the gRPC server and the tasks
    not_stopped :
        (running : S) (u : Up services before running)
        → last ≡ (stop_tasks host.cancel_tasks u.tasks (host.graceful_stop running)).1
        → shutdown u.components last ≡ none
        → Broken services before last

  -- A claim about the states in which Run comes to its end, and one about those in which it has
  -- panicked.
  abbrev pub AtEnd : (S → Type 0) → (S → Type 0) → Exit × S → Type 0
  AtEnd P Q (exited, s) = Unit {0}
  AtEnd P Q (panicked, s) = Q s
  AtEnd P Q (finished, s) = P s

  module _ (services : List (S → S)) (before : S) where
    module _ (running : S) (u : Up services before running) where
      left_http-Down :
          (stopped : S)
          → shutdown u.components
              (stop_tasks host.cancel_tasks u.tasks (host.graceful_stop running)).1
            ≡ some stopped
          → (answer : Option Error × S) → host.shutdown_http stopped ≡ answer
          → AtEnd
              (Down services before)
              (Broken services before)
              (left_http rt host parts answer.0 answer.1)
      unfolding left_http
      left_http-Down stopped d (some e, quiet) h = tt
      left_http-Down stopped d (none, quiet) h = record {
        running = running;
        life = u;
        stopped = stopped;
        quiet = quiet;
        down = d;
        http = h;
        logger = refl;
      }

      components_down-Down :
          (o : Option S)
          → shutdown u.components
              (stop_tasks host.cancel_tasks u.tasks (host.graceful_stop running)).1
            ≡ o
          → AtEnd (Down services before) (Broken services before) (
              components_down rt host parts o
                (stop_tasks host.cancel_tasks u.tasks (host.graceful_stop running)).1)
      unfolding components_down
      components_down-Down none e = not_stopped running u refl e
      components_down-Down (some stopped) e =
          left_http-Down stopped e (host.shutdown_http stopped) refl

    module _ (components : List (Component S)) (started : S)
        (up : Started parts.components before components started) (address : Text) where
      routed-Down :
          (port : Text) (tasks : TaskManager.Manager S) (failure : Option Error)
          (tasked listening : S)
          → start_tasks (parts.tasks started) started ≡ ((tasks, failure), tasked)
          → host.listen address tasked ≡ (none, listening)
          → (made : Option (Unit {0}) × S)
          → register_all_routes parts.controllers services listening ≡ made
          → AtEnd
              (Down services before)
              (Broken services before)
              (routed rt host parts port tasks components made.0 made.1)
      unfolding routed shut_down
      routed-Down port tasks failure tasked listening t l (none, ready) r =
          not_routed components started listening up r
      routed-Down port tasks failure tasked listening t l (some _, ready) r =
          components_down-Down (host.wait (host.serve_http port ready))
            (record {
              components = components;
              started = started;
              tasks = tasks;
              failure = failure;
              tasked = tasked;
              address = address;
              listening = listening;
              ready = ready;
              port = port;
              up = up;
              tasks_up = t;
              listens = l;
              routes = r;
              signalled = refl;
            })
            _ refl

      listening-Down :
          (tasks : TaskManager.Manager S) (failure : Option Error) (tasked : S)
          → start_tasks (parts.tasks started) started ≡ ((tasks, failure), tasked)
          → (answer : Option Error × S) → host.listen address tasked ≡ answer
          → AtEnd
              (Down services before)
              (Broken services before)
              (listening rt host parts tasks components services answer.0 answer.1)
      unfolding listening
      listening-Down tasks failure tasked t (some e, s) l = tt
      listening-Down tasks failure tasked t (none, s) l =
          routed-Down _ tasks failure tasked s t l _ refl

    services_up-Down :
        (cfg : Config)
        → AtEnd
            (Down services before)
            (Broken services before)
            (services_up rt host parts cfg (some services) before)
    unfolding services_up components_up
    services_up-Down cfg = go _ (must_init_components-Initialised parts.components [] before) refl
      where
        go :
            (r : Option (List (Component S)) × S)
            → Initialised parts.components [] before r
            → must_init_components parts.components [] before ≡ r
            → AtEnd
                (Down services before)
                (Broken services before)
                (components_up rt host parts cfg services r.0 r.1)
        go r (all_started components started up) e =
            listening-Down components started up _ _ _ _ refl _ refl
        go r (failed done name p rest components s1 s2 v k f) e = not_started e

  -- What holds at the end is carried through a deferred call.
  deferred-AtEnd :
      (P Q P' Q' : S → Type 0) (f : S → S) (r : Exit × S)
      → ((s : S) → P s → P' (f s))
      → ((s : S) → Q s → Q' (f s))
      → AtEnd P Q r
      → AtEnd P' Q' (deferred rt host parts f r)
  unfolding deferred
  deferred-AtEnd P Q P' Q' f (exited, s) step fall h = tt
  deferred-AtEnd P Q P' Q' f (panicked, s) step fall h = fall s h
  deferred-AtEnd P Q P' Q' f (finished, s) step fall h = step s h

  -- From the connection of the database on; it is closed behind the rest.
  pub record DatabaseClosed (opened last : S) : Type 0 where
    pub services : List (S → S)
    pub before : S
    pub at_end : S
    pub made : must_init_services parts.services [] opened ≡ (some services, before)
    pub down : Down services before at_end
    pub closed : last ≡ host.close_database at_end

  -- A panic of the services, or behind them.
  abbrev BrokenBehind : Option (List (S → S)) → S → S → Type 0
  BrokenBehind none before last = last ≡ before
  BrokenBehind (some services) before last = Broken services before last

  -- A panic behind the connection of the database, which is closed.
  pub record DatabaseClosedAtPanic (opened last : S) : Type 0 where
    pub made : Option (List (S → S))
    pub before : S
    pub at_panic : S
    pub services : must_init_services parts.services [] opened ≡ (made, before)
    pub broken : BrokenBehind made before at_panic
    pub closed : last ≡ host.close_database at_panic

  database_up-Closed :
      (cfg : Config) (opened : S)
      → AtEnd
          (DatabaseClosed opened)
          (DatabaseClosedAtPanic opened)
          (database_up rt host parts cfg none opened)
  unfolding database_up services_up deferred
  database_up-Closed cfg opened = go (must_init_services parts.services [] opened) refl
    where
      go :
          (r : Option (List (S → S)) × S)
          → must_init_services parts.services [] opened ≡ r
          → AtEnd
              (DatabaseClosed opened)
              (DatabaseClosedAtPanic opened)
              (deferred rt host parts host.close_database (services_up rt host parts cfg r.0 r.1))
      go (none, before) e = record {
        made = none;
        before = before;
        at_panic = before;
        services = e;
        broken = refl;
        closed = refl;
      }
      go (some services, before) e =
          deferred-AtEnd (Down services before) (Broken services before) (DatabaseClosed opened)
            (DatabaseClosedAtPanic opened) host.close_database _
            (λ last d. record {
              services = services;
              before = before;
              at_end = last;
              made = e;
              down = d;
              closed = refl;
            })
            (λ last b. record {
              made = some services;
              before = before;
              at_panic = last;
              services = e;
              broken = b;
              closed = refl;
            })
            (services_up-Down services before cfg)

  -- From the load of the configuration on; the resources are closed last.
  pub record Closed (first last : S) : Type 0 where
    pub cfg : Config
    pub loaded_at : S
    pub resources : List (Resource S)
    pub filled : S
    pub opened : S
    pub at_end : S
    pub load : host.load (resolve_config_path rt host.getenv) first ≡ (ok cfg, loaded_at)
    pub has_ffmpeg : host.look_path (ffmpeg_bin cfg.ffmpeg.binary_path) ≡ none
    pub resources_up : must_init_resources parts.resources [] loaded_at ≡ (some resources, filled)
    pub connected : host.new_database filled ≡ (none, opened)
    pub life : DatabaseClosed opened at_end
    pub closed : last ≡ close_resources resources at_end

  -- A panic: of the resources, where there is nothing to close yet, or behind the connection of the
  -- database, where the database and then the resources are closed.
  pub data ClosedAtPanic (first last : S) : Type 0 where
    no_resources :
        (cfg : Config) (loaded_at : S)
        → host.load (resolve_config_path rt host.getenv) first ≡ (ok cfg, loaded_at)
        → must_init_resources parts.resources [] loaded_at ≡ (none, last)
        → ClosedAtPanic first last
    connected :
        (cfg : Config) (loaded_at filled opened at_panic : S) (resources : List (Resource S))
        → host.load (resolve_config_path rt host.getenv) first ≡ (ok cfg, loaded_at)
        → must_init_resources parts.resources [] loaded_at ≡ (some resources, filled)
        → host.new_database filled ≡ (none, opened)
        → DatabaseClosedAtPanic opened at_panic
        → last ≡ close_resources resources at_panic
        → ClosedAtPanic first last

  module _ (first : S) (cfg : Config) (loaded_at : S)
      (load : host.load (resolve_config_path rt host.getenv) first ≡ (ok cfg, loaded_at))
      (has_ffmpeg : host.look_path (ffmpeg_bin cfg.ffmpeg.binary_path) ≡ none) where
    connected-Closed :
        (resources : List (Resource S)) (filled : S)
        → must_init_resources parts.resources [] loaded_at ≡ (some resources, filled)
        → (answer : Option Error × S) → host.new_database filled ≡ answer
        → AtEnd (Closed first) (ClosedAtPanic first) (
            deferred rt host parts
              (close_resources resources)
              (database_up rt host parts cfg answer.0 answer.1))
    unfolding database_up deferred
    connected-Closed resources filled r (some e, opened) c = tt
    connected-Closed resources filled r (none, opened) c =
        deferred-AtEnd (DatabaseClosed opened) (DatabaseClosedAtPanic opened) (Closed first)
          (ClosedAtPanic first) (close_resources resources) _
          (λ last d. record {
            cfg = cfg;
            loaded_at = loaded_at;
            resources = resources;
            filled = filled;
            opened = opened;
            at_end = last;
            load = load;
            has_ffmpeg = has_ffmpeg;
            resources_up = r;
            connected = c;
            life = d;
            closed = refl;
          })
          (λ last d. connected cfg loaded_at filled opened last resources load r c d refl)
          (database_up-Closed cfg opened)

    resources_up-Closed :
        (made : Option (List (Resource S)) × S)
        → must_init_resources parts.resources [] loaded_at ≡ made
        → AtEnd (Closed first) (ClosedAtPanic first) (resources_up rt host parts cfg made.0 made.1)
    unfolding resources_up
    resources_up-Closed (none, s) e = no_resources cfg loaded_at load e
    resources_up-Closed (some resources, s) e = connected-Closed resources s e _ refl

  found-Closed :
      (first : S) (cfg : Config) (s : S)
      → host.load (resolve_config_path rt host.getenv) first ≡ (ok cfg, s)
      → (missing : Option Error) → host.look_path (ffmpeg_bin cfg.ffmpeg.binary_path) ≡ missing
      → AtEnd (Closed first) (ClosedAtPanic first) (found_ffmpeg rt host parts cfg missing s)
  unfolding found_ffmpeg
  found-Closed first cfg s l (some e) f = tt
  found-Closed first cfg s l none f = resources_up-Closed first cfg s l f _ refl

  loaded-Closed :
      (first : S) (answer : Result Error Config × S)
      → host.load (resolve_config_path rt host.getenv) first ≡ answer
      → AtEnd (Closed first) (ClosedAtPanic first) (loaded rt host parts answer.0 answer.1)
  unfolding loaded
  loaded-Closed first (err e, s) l = tt
  loaded-Closed first (ok cfg, s) l = found-Closed first cfg s l _ refl

  -- Where Run comes to its end, the resources have been opened, the database has been connected, the
  -- services have been made, the components started, the start of the tasks has been called, whose
  -- failure is only logged, and the servers were up, in this order; behind the signal the gRPC server,
  -- the tasks, the components and the HTTP server have been stopped in this order, then the logger, the
  -- database and the resources closed. Where Run panics behind the connection of the database, because
  -- the services are not made, the components do not start or register, or one of them does not stop
  -- behind the signal, the database and then the resources are closed as well.
  pub run_app-Closed : (s : S) → AtEnd (Closed s) (ClosedAtPanic s) (run_app rt host parts s)
  unfolding run_app
  run_app-Closed s = loaded-Closed s _ refl
