-- ===== src/RequestId.antt =====
-- The identifier of a request (pkg/grpcutil/request_id.go, pkg/middleware/request_context.go,
-- GetRequestId of pkg/restapi/request.go): how it is put into a context, read from one, and passed on
-- by the interceptors of gRPC. A new UUID is an argument; the duration of a call is left out of the log.
pub mod Carried
use go_video_transcode_servi.Common.{
  Text, codes, Bool, true, false, not, List, [], ◌∷◌, ◌++◌, Option, none, some, Error, Result, ok,
  err, Op, trim_space, is_empty, if◌then◌else◌,
}
use go_video_transcode_servi.Gin
use go_video_transcode_servi.Gin.{text, as_text, get, set}

-- What the code keeps in a context.Context: the values of its two keys, which differ in their type, and
-- the metadata of calls that go out and of the call that came in. The keys of the latter are in lower case.
pub record CallContext : Type 0 where
  pub typed_id : Option Text  -- Value(requestIDContextKey)
  pub request_id : Option Text  -- Value(RequestIDContextKey)
  pub outgoing : List (Text × Text)
  pub incoming : Option (Text → List Text)

abbrev pub metadata_key : Text
metadata_key = codes "x-request-id"

-- `uuid` is the new identifier, if one is needed.
unfoldable pub context_with_request_id : Text → CallContext → Text → CallContext × Text
context_with_request_id uuid ctx request_id =
    let trimmed = trim_space request_id in
    let id = if is_empty trimmed then uuid else trimmed in
    (
      record ctx {
        typed_id = some id;
        request_id = some id;
        outgoing = ctx.outgoing ++ (metadata_key, id) ∷ [];
      },
      id,
    )

-- The first value of the metadata.
abbrev pub first_or_empty : List Text → Text
first_or_empty [] = []
first_or_empty (v ∷ rest) = v

abbrev incoming_id : Option (Text → List Text) → Text
incoming_id none = []
incoming_id (some md) = first_or_empty (md metadata_key)

-- A value that is there and not empty, or another.
abbrev nonempty_or : Option Text → Text → Text
nonempty_or none other = other
nonempty_or (some []) other = other
nonempty_or (some (c ∷ s)) other = c ∷ s

-- `none` is the nil context.
unfoldable pub request_id_from_context : Option CallContext → Text
request_id_from_context none = []
request_id_from_context (some ctx) =
    nonempty_or ctx.typed_id (nonempty_or ctx.request_id (incoming_id ctx.incoming))

-- A line of the log: its level, the request and the method.
pub data Logged : Type 0 where
  warned : Text → Text → Error → Logged
  informed : Text → Text → Logged

abbrev pub call_log : {A : Type 0} → Text → Text → Result Error A → Logged
call_log id method (err e) = warned id method e
call_log id method (ok a) = informed id method

-- A call that goes out: `invoker` gets the new context.
pub unary_client_interceptor :
    {S A : Type 0}
    → Text
    → Text
    → (CallContext → Op S (Result Error A))
    → CallContext
    → Op S (Result Error A × Logged)
unfolding context_with_request_id request_id_from_context
unary_client_interceptor uuid method invoker ctx s =
    let (ctx', id) = context_with_request_id uuid ctx (request_id_from_context (some ctx)) in
    let (answer, s') = invoker ctx' s in ((answer, call_log id method answer), s')

-- A call that comes in; the second part of the answer is the header that goes back.
pub unary_server_interceptor :
    {S A : Type 0}
    → Text
    → Text
    → (CallContext → Op S (Result Error A))
    → CallContext
    → Op S (Result Error A × (Text × Text) × Logged)
unfolding context_with_request_id request_id_from_context
unary_server_interceptor uuid method handler ctx s =
    let (ctx', id) = context_with_request_id uuid ctx (request_id_from_context (some ctx)) in
    let (answer, s') = handler ctx' s in
    ((answer, (metadata_key, id), call_log id method answer), s')

-- The identifier of an HTTP request: from its header or new, under three keys, in the context of the
-- request and in the header of the response. Setting a header replaces it.
request_context_middleware :
    {B : Type 0} → Text → Text → Gin.Context B → CallContext → Gin.Context B × CallContext
unfolding context_with_request_id
request_context_middleware new_id uuid c ctx =
    let user_uuid = c.header (codes "X-User-UUID") in
    let given = c.header (codes "X-Request-ID") in
    let id = if is_empty given then new_id else given in
    let c1 = if is_empty user_uuid then c else set (codes "user_uuid") (text user_uuid) c in
    let c2 = set metadata_key (text id) (set (codes "request_id") (text id) c1) in
    (
      record c2 { response_headers = (codes "X-Request-ID", id) ∷ c2.response_headers },
      (context_with_request_id uuid ctx id).0,
    )

-- restapi.GetRequestId
unfoldable pub get_request_id : {B : Type 0} → Gin.Context B → Text
get_request_id c = elim (as_text (get metadata_key c)) [ none ↦ [] | some id ↦ id ]
