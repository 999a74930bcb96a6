-- ===== src/Kafka/Carried.antt =====
-- The identifier of a request on its way through Kafka.
use go_video_transcode_servi.Common.{text_eq, Text, codes, ◌≡◌, ◌∙◌, refl, some}
use go_video_transcode_servi.Runtime.{Runtime}
use go_video_transcode_servi.RequestId.{CallContext, request_id_from_context}
use go_video_transcode_servi.RequestId.Carried.{IsId, not_blank, with_id, read_with}
use go_video_transcode_servi.Consumer.Settings.{first_header, header_value, message_context}
use go_video_transcode_servi.Kafka.{message_of}

header_value-message_of :
    (rt : Runtime) (ctx : CallContext) (key value : Text)
    → header_value rt (message_of (some ctx) key value).headers (codes "request-id")
      ≡ request_id_from_context (some ctx)
unfolding header_value first_header message_of text_eq
header_value-message_of rt ctx key value = refl

-- The application is called for a message in a context with the identifier of the context in which the
-- message has been produced.
pub message_context-carries :
    (rt : Runtime) (uuid : Text) (at_producer at_consumer : CallContext) (key value : Text)
    → IsId (request_id_from_context (some at_producer))
    → request_id_from_context (
        some
          (message_context rt uuid at_consumer (message_of (some at_producer) key value).headers))
      ≡ request_id_from_context (some at_producer)
unfolding message_context
message_context-carries rt uuid at_producer at_consumer key value u =
    rw (header_value-message_of rt at_producer key value) (
      rw (not_blank _ u.0)
        let id = request_id_from_context (some at_producer) in
          let kept = with_id uuid at_consumer id u in
          read_with uuid at_consumer id (rw kept u.0) ∙ kept)
