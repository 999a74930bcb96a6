-- ===== src/Auth.antt =====
-- The authentication of HTTP requests (pkg/middleware/auth.go, auth_component.go). A handler takes the
-- context and gives it back; c.Next() is the end of it, since the chain goes on unless it is aborted.
pub mod Guard
use go_video_transcode_servi.Common.{
  ℕ, ℤ, Text, codes, Bool, true, false, Option, none, some, Error, Result, ok, err, has_prefix,
  trim_prefix, is_empty, if◌then◌else◌,
}
use go_video_transcode_servi.Gin.{text, number, Context, as_text, as_number, get, set, json, abort}
use go_video_transcode_servi.Jwt.{Library, JwtUtil, validate_access_token_with_uuid}

-- The body of a refusal.
pub record Refusal : Type 0 where
  pub code : ℕ
  pub message : Text
  pub error : Text

abbrev pub bearer : Text
bearer = codes "Bearer "

-- Whether there is a value.
abbrev found : {A : Type 0} → Option A → Bool
found none = false
found (some a) = true

module _ {B : Type 0} where
  unfoldable pub refuse : (Refusal → B) → Text → Context B → Context B
  refuse body error c =
      abort (json 401 (body (record { code = 401; message = codes "未授权"; error = error })) c)

  -- The keys of a user; an empty identifier is not set.
  unfoldable pub set_user : Text → ℕ → Context B → Context B
  set_user user_uuid user_id c =
      set (codes "user_id") (number user_id)
        (if is_empty user_uuid then c else set (codes "user_uuid") (text user_uuid) c)

  -- Behind the check of the token.
  validated : (Refusal → B) → Result Error (Text × ℕ) → Context B → Context B
  unfolding refuse set_user
  validated body (err e) c = refuse body (codes "无效的访问令牌") c
  validated body (ok (user_uuid, user_id)) c = set_user user_uuid user_id c

  pub auth_middleware : (Refusal → B) → Library → JwtUtil → ℤ → Context B → Context B
  unfolding refuse validated
  auth_middleware body lib j now c =
      let auth_header = c.header (codes "Authorization") in
      let token = trim_prefix auth_header bearer in
      if is_empty auth_header
      then refuse body (codes "缺少Authorization头") c
      else if has_prefix auth_header bearer
      then (if is_empty token
          then refuse body (codes "缺少访问令牌") c
          else validated body (validate_access_token_with_uuid lib j now token) c)
      else refuse body (codes "无效的Authorization格式") c

  optional : Result Error (Text × ℕ) → Context B → Context B
  unfolding set_user
  optional (err e) c = c
  optional (ok (user_uuid, user_id)) c = set_user user_uuid user_id c

  optional_auth_middleware : Library → JwtUtil → ℤ → Context B → Context B
  unfolding optional
  optional_auth_middleware lib j now c =
      let auth_header = c.header (codes "Authorization") in
      let token = trim_prefix auth_header bearer in
      if is_empty auth_header
      then c
      else if has_prefix auth_header bearer
      then (if is_empty token
          then c
          else optional (validate_access_token_with_uuid lib j now token) c)
      else c

  -- The pair of a value and a test is an option.
  unfoldable pub get_user_uuid : Context B → Option Text
  get_user_uuid c = as_text (get (codes "user_uuid") c)

  unfoldable pub get_user_id : Context B → Option ℕ
  get_user_id c = as_number (get (codes "user_id") c)

  unfoldable pub is_authenticated : Context B → Bool
  unfolding get_user_uuid get_user_id
  is_authenticated c = if found (get_user_uuid c) then true else found (get_user_id c)
