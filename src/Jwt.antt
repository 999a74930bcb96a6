-- ===== src/Jwt.antt =====
-- The tokens (pkg/utils/jwt.go). The library jwt is a parameter: how it signs, and how it parses with
-- a function that is given the token's method and answers with the key. Times are in nanoseconds, and
-- each call of time.Now() has its own.
pub mod Tokens
use go_video_transcode_servi.Common.{
  ℕ, ℤ, add_ℤ, Text, codes, Bool, Error, plain, Result, ok, err, [], if◌then◌else◌,
}

-- A date is whole seconds.
pub record RegisteredClaims : Type 0 where
  pub expires_at : ℤ
  pub issued_at : ℤ
  pub not_before : ℤ

pub record Claims : Type 0 where
  pub user_id : ℕ
  pub registered : RegisteredClaims

pub record UuidClaims : Type 0 where
  pub user_uuid : Text
  pub user_id : ℕ
  pub registered : RegisteredClaims

pub record Token (C : Type 0) : Type 0 where
  pub claims : C
  pub valid : Bool

-- *jwt.SigningMethodHMAC, or another method.
pub data Method : Type 0 where
  hmac other_method : Method

abbrev pub KeyFunc : Type 0
KeyFunc = Method → Result Error Text

-- Signing is NewWithClaims(SigningMethodHS256, claims).SignedString(key); parsing reads the clock.
pub record Library : Type 0 where
  pub numeric_date : ℤ → ℤ  -- NewNumericDate
  pub sign_uuid : UuidClaims → Text → Result Error Text
  pub sign : Claims → Text → Result Error Text
  pub parse_uuid : KeyFunc → ℤ → Text → Result Error (Token UuidClaims)  -- ParseWithClaims
  pub parse : KeyFunc → ℤ → Text → Result Error (Token Claims)

pub record JwtUtil : Type 0 where
  pub secret_key : Text
  pub access_token_ttl : ℤ
  pub refresh_token_ttl : ℤ

new_jwt_util : Text → ℤ → ℤ → JwtUtil
new_jwt_util secret access refresh = record {
  secret_key = secret;
  access_token_ttl = access;
  refresh_token_ttl = refresh;
}

-- The three readings of the clock.
pub record Readings : Type 0 where
  pub for_expiry : ℤ
  pub for_issue : ℤ
  pub for_start : ℤ

module _ (lib : Library) where
  abbrev pub registered_claims : ℤ → Readings → RegisteredClaims
  registered_claims ttl now = record {
    expires_at = lib.numeric_date (add_ℤ now.for_expiry ttl);
    issued_at = lib.numeric_date now.for_issue;
    not_before = lib.numeric_date now.for_start;
  }

  pub generate_access_token_with_uuid : JwtUtil → Readings → Text → ℕ → Result Error Text
  generate_access_token_with_uuid j now user_uuid user_id =
      lib.sign_uuid
        (record {
          user_uuid = user_uuid;
          user_id = user_id;
          registered = registered_claims j.access_token_ttl now;
        })
        j.secret_key

  unfoldable pub generate_refresh_token_with_uuid :
      JwtUtil → Readings → Text → ℕ → Result Error Text
  generate_refresh_token_with_uuid j now user_uuid user_id =
      lib.sign_uuid
        (record {
          user_uuid = user_uuid;
          user_id = user_id;
          registered = registered_claims j.refresh_token_ttl now;
        })
        j.secret_key

  pub generate_access_token : JwtUtil → Readings → ℕ → Result Error Text
  generate_access_token j now user_id =
      lib.sign (record { user_id = user_id; registered = registered_claims j.access_token_ttl now })
        j.secret_key

  pub generate_refresh_token : JwtUtil → Readings → ℕ → Result Error Text
  generate_refresh_token j now user_id =
      lib.sign
        (record { user_id = user_id; registered = registered_claims j.refresh_token_ttl now })
        j.secret_key

  -- The function that answers with the key.
  unfoldable pub key_of : JwtUtil → KeyFunc
  key_of j hmac = ok j.secret_key
  key_of j other_method = err (plain (codes "无效的签名方法"))

  abbrev invalid_token : Error
  invalid_token = plain (codes "无效的令牌")

  -- The older format, without an identifier; the claims have the type that was asked for.
  old_format : Result Error (Token Claims) → Result Error (Text × ℕ)
  old_format (err e) = err e
  old_format (ok t) = if t.valid then ok ([], t.claims.user_id) else err invalid_token

  -- The newer format, before the older one is tried.
  new_format : Result Error (Token UuidClaims) → Result Error (Text × ℕ) → Result Error (Text × ℕ)
  new_format (err e) older = older
  new_format (ok t) older = if t.valid then ok (t.claims.user_uuid, t.claims.user_id) else older

  validate_token_with_uuid : JwtUtil → ℤ → Text → Result Error (Text × ℕ)
  unfolding old_format new_format key_of
  validate_token_with_uuid j now token =
      new_format (lib.parse_uuid (key_of j) now token) (old_format (lib.parse (key_of j) now token))

  pub validate_access_token_with_uuid : JwtUtil → ℤ → Text → Result Error (Text × ℕ)
  unfolding validate_token_with_uuid
  validate_access_token_with_uuid j now token = validate_token_with_uuid j now token

  pub validate_refresh_token_with_uuid : JwtUtil → ℤ → Text → Result Error (Text × ℕ)
  unfolding validate_token_with_uuid
  validate_refresh_token_with_uuid j now token = validate_token_with_uuid j now token

  id_of : Result Error (Token Claims) → Result Error ℕ
  id_of (err e) = err e
  id_of (ok t) = if t.valid then ok t.claims.user_id else err invalid_token

  validate_token : JwtUtil → ℤ → Text → Result Error ℕ
  unfolding id_of key_of
  validate_token j now token = id_of (lib.parse (key_of j) now token)

  validate_access_token : JwtUtil → ℤ → Text → Result Error ℕ
  unfolding validate_token
  validate_access_token j now token = validate_token j now token

  validate_refresh_token : JwtUtil → ℤ → Text → Result Error ℕ
  unfolding validate_token
  validate_refresh_token j now token = validate_token j now token
