-- ===== src/Tests/Web.antt =====
-- The HTTP interface, the tokens, the identifiers of requests and the discovery at concrete inputs.
use go_video_transcode_servi.Common.{
  ℕ, zero, suc, ℤ, pos, negsuc, pos_part, neg_part, leb_ℤ, ltb_ℤ, ◌≤ℤ◌, length, Text, codes, Bool,
  true, false, ◌&&◌, [], ◌∷◌, ◌++◌, ◌≡◌, ◌↔◌, inr, refl, ap, ◌∙◌, arith, Option, none, some, Error,
  plain, Result, ok, err, Op, trim_space, if◌then◌else◌,
}
use go_video_transcode_servi.Dto.{TranscodeTaskDto}
use go_video_transcode_servi.Gin
use go_video_transcode_servi.Jwt.{
  RegisteredClaims, Claims, UuidClaims, Token, Library, JwtUtil, Readings, registered_claims,
  generate_refresh_token_with_uuid, validate_access_token_with_uuid,
  validate_refresh_token_with_uuid,
}
use go_video_transcode_servi.Jwt.Tokens.{InTime, Laws, validate-generate_with_uuid}
use go_video_transcode_servi.Auth.{auth_middleware}
use go_video_transcode_servi.Auth.Guard.{Guarded, auth_middleware-Guarded}
use go_video_transcode_servi.Rest.{Encoding}
use go_video_transcode_servi.HttpServer.Posted.{Posted}
use go_video_transcode_servi.RequestId.{
  CallContext, call_log, context_with_request_id, request_id_from_context,
}
use go_video_transcode_servi.RequestId.Carried.{IsId, call, call-carries, with-Consistent}
use go_video_transcode_servi.Kafka.{message_of}
use go_video_transcode_servi.Kafka.Carried.{message_context-carries}
use go_video_transcode_servi.Consumer.Settings.{message_context}
use go_video_transcode_servi.Registry.{Etcd, get_service_address, parse_service_address}
use go_video_transcode_servi.Registry.Addresses.{
  Answered, get_service_address-Answered, Plain, parse_service_address_iff,
}
use go_video_transcode_servi.Tests.Core
use go_video_transcode_servi.Tests.Memory.{runtime}

-- A library that writes the claims down as numbers and reads them back in their time.
abbrev written : ℕ → RegisteredClaims → Text → Text
written user_id r user_uuid =
    user_id
    ∷ pos_part r.expires_at
    ∷ neg_part r.expires_at
    ∷ pos_part r.issued_at
    ∷ neg_part r.issued_at
    ∷ pos_part r.not_before
    ∷ neg_part r.not_before
    ∷ user_uuid

abbrev whole : ℕ → ℕ → ℤ
whole a zero = pos a
whole a (suc n) = negsuc n

whole-parts : (z : ℤ) → whole (pos_part z) (neg_part z) ≡ z
whole-parts (pos n) = refl
whole-parts (negsuc n) = refl

abbrev in_time : RegisteredClaims → ℤ → Bool
in_time r now = leb_ℤ r.not_before now && ltb_ℤ now r.expires_at

abbrev read : Text → Option UuidClaims
read (user_id ∷ a ∷ b ∷ c ∷ d ∷ e ∷ f ∷ user_uuid) = some (record {
  user_uuid = user_uuid;
  user_id = user_id;
  registered = record { expires_at = whole a b; issued_at = whole c d; not_before = whole e f };
})
read _ = none

abbrev expired_error : Error
expired_error = plain (codes "token is expired")

abbrev accepted : ℤ → Option UuidClaims → Result Error (Token UuidClaims)
accepted now none = err (plain (codes "token is malformed"))
accepted now (some c) =
    if in_time c.registered now then ok (record { claims = c; valid = true }) else err expired_error

abbrev plain_token : Result Error (Token UuidClaims) → Result Error (Token Claims)
plain_token (err e) = err e
plain_token (ok t) = ok (record {
  claims = record { user_id = t.claims.user_id; registered = t.claims.registered };
  valid = t.valid;
})

abbrev signed : Text → Result Error Text
signed t = ok t

abbrev library : Library
library = record {
  numeric_date = λ t. t;
  sign_uuid = λ c key. signed (written c.user_id c.registered c.user_uuid);
  sign = λ c key. signed (written c.user_id c.registered []);
  parse_uuid = λ f now t. accepted now (read t);
  parse = λ f now t. plain_token (accepted now (read t));
}

read-written :
    (user_id : ℕ) (r : RegisteredClaims) (user_uuid : Text)
    → read (written user_id r user_uuid)
      ≡ some (record { user_uuid = user_uuid; user_id = user_id; registered = r })
read-written user_id r user_uuid =
    simp (whole-parts r.expires_at, whole-parts r.issued_at, whole-parts r.not_before) refl

in_time-true : (r : RegisteredClaims) (now : ℤ) → InTime r now → in_time r now ≡ true
in_time-true r now (a, b) = ground arith

in_time-late : (r : RegisteredClaims) (now : ℤ) → r.expires_at ≤ℤ now → in_time r now ≡ false
in_time-late r now h = ground arith

-- What is read of a token that has been written.
accepted-written :
    (user_id : ℕ) (r : RegisteredClaims) (user_uuid t : Text) (now : ℤ)
    → signed (written user_id r user_uuid) ≡ ok t
    → accepted now (read t)
      ≡ accepted now (some (record { user_uuid = user_uuid; user_id = user_id; registered = r }))
accepted-written user_id r user_uuid t now e =
    let same : written user_id r user_uuid ≡ t = cc in
    rw (← same) (ap (accepted now) (read-written user_id r user_uuid))

library_laws : Laws library
library_laws = record {
  parse_uuid_signed = λ c key f now t e _ h.
      accepted-written c.user_id c.registered c.user_uuid t now e
      ∙ rw (in_time-true c.registered now h) refl;
  parse_uuid_plain = λ c key f now t e _ h.
      accepted-written c.user_id c.registered [] t now e
      ∙ rw (in_time-true c.registered now h) refl;
  expired = λ c key f now t e h.
      let a : accepted now (read t) ≡ err expired_error =
        accepted-written c.user_id c.registered c.user_uuid t now e
        ∙ rw (in_time-late c.registered now h) refl in
      ((expired_error, a), (expired_error, ap plain_token a));
}

abbrev jwt : JwtUtil
jwt = record { secret_key = codes "key"; access_token_ttl = pos 100; refresh_token_ttl = pos 1000 }

abbrev readings : Readings
readings = record { for_expiry = pos 7; for_issue = pos 6; for_start = pos 5 }

abbrev refresh_token : Text
refresh_token = written 3 (registered_claims library (pos 1000) readings) (codes "user")

refresh_token_made :
    generate_refresh_token_with_uuid library jwt readings (codes "user") 3 ≡ ok refresh_token
unfolding generate_refresh_token_with_uuid
refresh_token_made = refl

validate-generate_with_uuid_example :
    (validate_access_token_with_uuid library jwt (pos 500) refresh_token ≡ ok (codes "user", 3))
    × (validate_refresh_token_with_uuid library jwt (pos 500) refresh_token ≡ ok (codes "user", 3))
validate-generate_with_uuid_example =
    validate-generate_with_uuid library library_laws jwt refresh_token (pos 500) readings 3
      (codes "user") (pos 1000) (inr (refl, refresh_token_made)) (omega arith, omega arith)

-- A request with the token and no keys.
abbrev request : {B : Type 0} → Gin.Context B
request = record {
  header = λ k. codes "Bearer " ++ refresh_token;
  query = λ k. [];
  keys = [];
  response_headers = [];
  answers = [];
  aborted = false;
}

auth_middleware-Guarded_example :
    Guarded
      (λ r. r)
      library
      jwt
      (pos 500)
      request
      (auth_middleware (λ r. r) library jwt (pos 500) request)
auth_middleware-Guarded_example = auth_middleware-Guarded (λ r. r) library jwt (pos 500) request

abbrev call_context : CallContext
call_context = record {
  typed_id = none;
  request_id = some (codes "request-1");
  outgoing = [];
  incoming = none;
}

-- A handler that answers with the identifier and counts its calls.
abbrev handler : CallContext → Op ℕ (Result Error Text)
handler ctx n = (ok (request_id_from_context (some ctx)), suc n)

abbrev uuid : Text
uuid = codes "uuid-1"

uuid-IsId : IsId uuid
unfolding trim_space
uuid-IsId = (λ e. cc, refl)

-- The context of a request, with its identifier.
abbrev made_context : CallContext
made_context = (context_with_request_id uuid call_context (codes "r1")).0

call-carries_example :
    let used =
      (context_with_request_id uuid made_context (request_id_from_context (some made_context))).1 in
    (at_handler : CallContext) × (request_id_from_context (some at_handler) ≡ used)
    × (call uuid (codes "uuid-2") (codes "/Get") handler made_context 0 ≡ (
      ((handler at_handler 0).0, call_log used (codes "/Get") (handler at_handler 0).0),
      (handler at_handler 0).1,
    ))
call-carries_example =
    call-carries uuid (codes "uuid-2") (codes "/Get") handler made_context 0 uuid-IsId
      (with-Consistent uuid call_context (codes "r1") uuid-IsId refl)

producer-IsId : IsId (request_id_from_context (some call_context))
unfolding trim_space request_id_from_context
producer-IsId = (λ e. cc, refl)

message_context-carries_example :
    request_id_from_context (
      some (
        message_context runtime uuid call_context
          (message_of (some call_context) (codes "k") (codes "v")).headers))
    ≡ request_id_from_context (some call_context)
message_context-carries_example =
    message_context-carries runtime uuid call_context call_context (codes "k") (codes "v")
      producer-IsId

abbrev encoding : Encoding TranscodeTaskDto
encoding = record { marshal = λ dto. dto.task_uuid; checksum = λ b. length b; message_of = λ e. [] }

-- etcd with two instances of every service; the state counts the calls.
abbrev etcd : Etcd ℕ
etcd = record {
  grant = λ ttl n. (ok 1, suc n);
  put = λ key value lease n. (none, suc n);
  keep_alive = λ lease n. n;
  cancel = λ n. n;
  revoke = λ lease n. (none, suc n);
  close = λ n. (none, n);
  get_prefix = λ key n. (ok (codes "a:1" ∷ codes "b:2" ∷ []), suc n);
}

get_service_address-Answered_example :
    Answered etcd (codes "video") [] 0 (get_service_address etcd (codes "video") 13 [] 0)
get_service_address-Answered_example = get_service_address-Answered etcd (codes "video") 13 [] 0

parse_service_address_iff_example :
    (parse_service_address (codes "host:80") ≡ ok (codes "host", codes "80")) ↔ (
      (codes "host:80" ≡ codes "host" ++ b':' ∷ codes "80")
      × Plain (codes "host")
      × Plain (codes "80"))
parse_service_address_iff_example =
    parse_service_address_iff (codes "host:80") (codes "host") (codes "80")
