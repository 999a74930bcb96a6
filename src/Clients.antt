-- ===== src/Clients.antt =====
-- The clients of the upload and the video service and the reporters (ddd/infrastructure/grpc). Dialling
-- and the stubs' calls are parameters.
pub mod Retry
use go_video_transcode_servi.Common.{
  ℤ, pos, negsuc, ltb_ℤ, leb_ℤ, Text, codes, Bool, true, false, not, ◌&&◌, List, [], ◌∷◌, ◌++◌,
  Option, none, some, Error, plain, wrap, Result, ok, err, Op, ◌>>=◌, ◌>>◌, pure, is_empty, itoa_ℤ,
  if◌then◌else◌,
}
use go_video_transcode_servi.Config.{DependencyConfig, GrpcClientConfig}

resolve_address : Text → Text → ℤ → Text → ℤ → Text
resolve_address addr host port service_name default_port =
    let p = if ltb_ℤ (pos 0) default_port && leb_ℤ port (pos 0) then default_port else port in
    if not (is_empty addr)
    then addr
    else if not (is_empty host)
    then host ++ (codes ":" ++ itoa_ℤ p)
    else if is_empty service_name
    then codes "localhost:" ++ itoa_ℤ default_port
    else service_name ++ (codes ":" ++ itoa_ℤ p)

-- The stub and the connection stand for each other: whether there is one.
pub record Client : Type 0 where
  pub connected : Bool
  pub timeout : ℤ
  pub address : Text

-- The client of a dependency, before it connects.
pub new_client : DependencyConfig → GrpcClientConfig → Client
unfolding resolve_address
new_client dep grpc =
    let timeout = if leb_ℤ dep.timeout (pos 0) then grpc.timeout else dep.timeout in
    record {
      connected = false;
      timeout = if leb_ℤ timeout (pos 0) then pos 30_000_000_000 else timeout;
      address = resolve_address dep.address dep.host dep.port dep.service_name dep.port;
    }

-- UpdateTranscodeResultRequest and UpdateTranscodeStatusRequest; the duration and the size are 0.
pub record TranscodeResult : Type 0 where
  pub video_uuid : Text
  pub task_uuid : Text
  pub status : Text
  pub video_url : Text
  pub error_message : Text

-- Whether the service says that it succeeded, and its message.
abbrev pub Response : Type 0
Response = Bool × Text

pub record Remote (S : Type 0) : Type 0 where
  pub dial : Text → ℤ → Op S (Option Error)
  pub hang_up : S → S  -- conn.Close()
  pub call : TranscodeResult → Op S (Result Error Response)

module _ {S : Type 0} (remote : Remote S) where
  -- The video service's client.
  dialled : Client → Option Error → Client × Option Error
  dialled c (some e) = (c, some (wrap (codes "dial video-service") e))
  dialled c none = (record c { connected = true }, none)

  unfoldable pub connect : Client → Op S (Client × Option Error)
  unfolding dialled
  connect c s =
      let (failed, s') = remote.dial c.address c.timeout s in
      if is_empty c.address
      then ((c, some (plain (codes "video-service address is empty"))), s)
      else (dialled c failed, s')

  abbrev hung_up : Bool → S → S
  hung_up true s = remote.hang_up s
  hung_up false s = s

  -- The old connection is closed first, the stub is kept until there is a new one.
  unfoldable pub reconnect : Client → Op S (Client × Option Error)
  unfolding connect
  reconnect c s = connect c (hung_up c.connected s)

  -- Behind a call that has failed: a second one follows a successful reconnection.
  retried : TranscodeResult → Error → Client × Option Error → Op S (Client × Result Error Response)
  retried req e (c, some lost) s = ((c, err e), s)
  retried req e (c, none) s = let (answer, s') = remote.call req s in ((c, answer), s')

  called : TranscodeResult → Client → Result Error Response → Op S (Client × Result Error Response)
  unfolding retried
  called req c (ok answer) s = ((c, ok answer), s)
  called req c (err e) s = let (again, s') = reconnect c s in retried req e again s'

  ready : TranscodeResult → Client × Option Error → Op S (Client × Result Error Response)
  unfolding called
  ready req (c, some e) s = ((c, err (wrap (codes "video service unavailable") e)), s)
  ready req (c, none) s = let (answer, s') = remote.call req s in called req c answer s'

  abbrev connected_or : Bool → Client → S → (Client × Option Error) × S
  connected_or true c s = ((c, none), s)
  connected_or false c s = connect c s

  -- The video service's client connects on demand.
  pub update_transcode_result : TranscodeResult → Client → Op S (Client × Result Error Response)
  unfolding ready
  update_transcode_result req c s =
      let (connection, s') = connected_or c.connected c s in ready req connection s'

  -- The upload service's does not, and tries once.
  update_transcode_status : TranscodeResult → Client → Op S (Result Error Response)
  update_transcode_status req c s =
      let called_once = remote.call req s in
      if c.connected
      then called_once
      else (err (plain (codes "upload service client not initialised")), s)

-- The message of a service that has not succeeded.
reported : Result Error Response → Option Error
reported (err e) = some e
reported (ok (success, message)) =
    if success then none else some (plain (codes "upload-service returned failure: " ++ message))

module _ {S : Type 0} (remote : Remote S) where
  -- The reporter to the upload service; `none` is the nil client.
  report_success : Option Client → Text → Text → Text → Op S (Option Error)
  unfolding reported
  report_success none video task url =
      pure (some (plain (codes "upload service client is not initialised")))
  report_success (some c) video task url = do
    answer ←
        update_transcode_status remote
          (record {
            video_uuid = video;
            task_uuid = task;
            status = codes "Published";
            video_url = url;
            error_message = [];
          })
          c
    pure (reported answer)

  report_failure : Option Client → Text → Text → Text → Op S (Option Error)
  unfolding reported
  report_failure none video task message =
      pure (some (plain (codes "upload service client is not initialised")))
  report_failure (some c) video task message = do
    answer ←
        update_transcode_status remote
          (record {
            video_uuid = video;
            task_uuid = task;
            status = codes "Failed";
            video_url = [];
            error_message = if is_empty message then codes "transcode failed" else message;
          })
          c
    pure (reported answer)

-- The reporter to both services, each where there is a client; their answers are dropped.
module _ {S : Type 0} (upload video : Remote S) where
  abbrev tell_upload : Option Client → TranscodeResult → S → S
  tell_upload none req s = s
  tell_upload (some c) req s = (update_transcode_status upload req c s).1

  abbrev tell_video : Option Client → TranscodeResult → S → Option Client × S
  tell_video none req s = (none, s)
  tell_video (some c) req s =
      let ((c', answer), s') = update_transcode_result video req c s in (some c', s')

  -- The video service's client, which may have connected, comes back.
  dual_report : Option Client → Option Client → TranscodeResult → S → Option Client × S
  dual_report u v req s = tell_video v req (tell_upload u req s)

  dual_report_success : Option Client → Option Client → Text → Text → Text → S → Option Client × S
  unfolding dual_report
  dual_report_success u v video_uuid task url s =
      dual_report u v
        (record {
          video_uuid = video_uuid;
          task_uuid = task;
          status = codes "Published";
          video_url = url;
          error_message = [];
        })
        s

  dual_report_failure : Option Client → Option Client → Text → Text → Text → S → Option Client × S
  unfolding dual_report
  dual_report_failure u v video_uuid task message s =
      dual_report u v
        (record {
          video_uuid = video_uuid;
          task_uuid = task;
          status = codes "Failed";
          video_url = [];
          error_message = message;
        })
        s
