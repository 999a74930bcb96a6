-- ===== src/Consumer/Settings.antt =====
-- What the consumer takes from the configuration (`startInternal`, `shouldPause`), the headers of a
-- message, and the context in which it is handled (`processLoop`). Durations are in nanoseconds.
use go_video_transcode_servi.Common.{
  second, positive_or, or_text, ◌*◌, ℤ, pos, ltb_ℤ, leb_ℤ, Text, codes, text_eq, Bool, List, [],
  ◌∷◌, Option, none, some, is_empty, to_lower, equal_fold, if◌then◌else◌,
}
use go_video_transcode_servi.Runtime.{Runtime}
use go_video_transcode_servi.Config.{Config}
use go_video_transcode_servi.Consumer.{CommitPolicy}
use go_video_transcode_servi.RequestId.{CallContext, context_with_request_id}

record ConsumerSettings : Type 0 where
  pub max : ℤ
  pub interval : ℤ
  pub group : Text
  pub topic : Text
  pub policy : CommitPolicy

configured : Option Config → ConsumerSettings → ConsumerSettings
configured none c = c
configured (some cfg) c = record {
  max = positive_or cfg.worker.max_concurrent_tasks c.max;
  interval = positive_or cfg.worker.task_poll_interval c.interval;
  group = or_text cfg.kafka.group_id c.group;
  topic = or_text cfg.kafka.transcode_tasks_topic c.topic;
  policy = record {
    commit_on_decode_error = cfg.kafka.commit_on_decode_error;
    commit_on_process_error = cfg.kafka.commit_on_process_error;
  };
}

-- The part of `startInternal` before the reader and the goroutines, of which there are `max`.
start_settings : Option Config → ConsumerSettings → ConsumerSettings
unfolding configured
start_settings cfg c =
    let found = configured cfg c in
    record found {
      max = if leb_ℤ found.max (pos 0) then pos 1 else found.max;
      interval = if leb_ℤ found.interval (pos 0) then pos second else found.interval;
    }

-- The window in which a task in processing counts as running.
window_of : Option Config → ℤ
window_of none = pos (5 * second)
window_of (some cfg) =
    let window = positive_or cfg.worker.heartbeat_interval (pos (5 * second)) in
    let poll = cfg.worker.task_poll_interval in
    if ltb_ℤ (pos 0) poll then (if ltb_ℤ window poll then poll else window) else window

-- The value of the first header whose key passes a test.
unfoldable pub first_header : (Text → Bool) → List (Text × Text) → Option Text
first_header test [] = none
first_header test ((k, v) ∷ rest) =
    let later = first_header test rest in if test k then some v else later

-- The key itself, then the key in any case, and for the request also with its prefix.
unfoldable pub header_value : Runtime → List (Text × Text) → Text → Text
unfolding first_header
header_value rt headers key =
    let alt = to_lower rt.lower_table key in
    let prefixed : Text =
      if text_eq alt (codes "request-id")
      then (elim (first_header (λ k. equal_fold k (codes "x-request-id")) headers) [
        | some v ↦ v
        | none ↦ []
      ])
      else [] in
    elim (first_header (λ k. text_eq k key) headers) [
      | some v ↦ v
      | none ↦ elim (first_header (λ k. text_eq (to_lower rt.lower_table k) alt) headers) [
        | some v ↦ v
        | none ↦ prefixed
      ]
    ]

-- The context in which `processLoop` calls the application: with the identifier of the message's
-- headers, if there is one.
unfoldable pub message_context : Runtime → Text → CallContext → List (Text × Text) → CallContext
unfolding header_value context_with_request_id
message_context rt uuid ctx headers =
    let rid = header_value rt headers (codes "request-id") in
    if is_empty rid then ctx else (context_with_request_id uuid ctx rid).0
