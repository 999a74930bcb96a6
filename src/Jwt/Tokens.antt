-- ===== src/Jwt/Tokens.antt =====
-- Which tokens are accepted.
use go_video_transcode_servi.Common.{
  ℕ, ℤ, ◌≤ℤ◌, ◌<ℤ◌, Text, true, [], ◌≡◌, ◌⊎◌, inl, inr, refl, Error, ok, err,
}
use go_video_transcode_servi.Jwt.{
  RegisteredClaims, Claims, UuidClaims, hmac, KeyFunc, Library, JwtUtil, Readings,
  registered_claims, generate_access_token_with_uuid, generate_refresh_token_with_uuid,
  generate_access_token, generate_refresh_token, key_of, old_format, new_format,
  validate_token_with_uuid, validate_access_token_with_uuid, validate_refresh_token_with_uuid,
}

-- A token is accepted from its start on and before its expiry.
abbrev pub InTime : RegisteredClaims → ℤ → Type 0
InTime r now = (r.not_before ≤ℤ now) × (now <ℤ r.expires_at)

-- What the library says of a token that it has signed: with the same key it comes back in its time,
-- and is refused from its expiry on. A token without an identifier reads as one with an empty one.
pub record Laws (lib : Library) : Type 0 where
  pub parse_uuid_signed :
      (c : UuidClaims) (key : Text) (f : KeyFunc) (now : ℤ) (t : Text)
      → lib.sign_uuid c key ≡ ok t
      → f hmac ≡ ok key
      → InTime c.registered now
      → lib.parse_uuid f now t ≡ ok (record { claims = c; valid = true })
  pub parse_uuid_plain :
      (c : Claims) (key : Text) (f : KeyFunc) (now : ℤ) (t : Text)
      → lib.sign c key ≡ ok t
      → f hmac ≡ ok key
      → InTime c.registered now
      → lib.parse_uuid f now t
        ≡ ok (record {
          claims = record { user_uuid = []; user_id = c.user_id; registered = c.registered };
          valid = true;
        })
  pub expired :
      (c : UuidClaims) (key : Text) (f : KeyFunc) (now : ℤ) (t : Text)
      → lib.sign_uuid c key ≡ ok t
      → c.registered.expires_at ≤ℤ now
      → ((e : Error) × (lib.parse_uuid f now t ≡ err e))
        × ((e : Error) × (lib.parse f now t ≡ err e))

module _ (lib : Library) (laws : Laws lib) (j : JwtUtil) (t : Text) (now : ℤ) where
  signed_uuid :
      (c : UuidClaims)
      → lib.sign_uuid c j.secret_key ≡ ok t
      → InTime c.registered now
      → validate_token_with_uuid lib j now t ≡ ok (c.user_uuid, c.user_id)
  unfolding validate_token_with_uuid new_format key_of
  signed_uuid c made h =
      rw (laws.parse_uuid_signed c j.secret_key (key_of lib j) now t made refl h) refl

  signed_plain :
      (c : Claims)
      → lib.sign c j.secret_key ≡ ok t
      → InTime c.registered now
      → validate_token_with_uuid lib j now t ≡ ok ([], c.user_id)
  unfolding validate_token_with_uuid new_format key_of
  signed_plain c made h =
      rw (laws.parse_uuid_plain c j.secret_key (key_of lib j) now t made refl h) refl

  module _ (r : Readings) (user_id : ℕ) where
    -- A token that is generated with an identifier, for access or for a refresh, is accepted in its
    -- time as either, with the identifier and the number that it was generated for.
    pub validate-generate_with_uuid :
        (user_uuid : Text) (ttl : ℤ)
        → ((ttl ≡ j.access_token_ttl)
            × (generate_access_token_with_uuid lib j r user_uuid user_id ≡ ok t))
          ⊎ ((ttl ≡ j.refresh_token_ttl)
              × (generate_refresh_token_with_uuid lib j r user_uuid user_id ≡ ok t))
        → InTime (registered_claims lib ttl r) now
        → (validate_access_token_with_uuid lib j now t ≡ ok (user_uuid, user_id))
          × (validate_refresh_token_with_uuid lib j now t ≡ ok (user_uuid, user_id))
    unfolding validate_access_token_with_uuid validate_refresh_token_with_uuid
        generate_access_token_with_uuid generate_refresh_token_with_uuid
    validate-generate_with_uuid user_uuid ttl (inl (e, made)) h =
        let a = signed_uuid _ made (rw (← e) h) in (a, a)
    validate-generate_with_uuid user_uuid ttl (inr (e, made)) h =
        let a = signed_uuid _ made (rw (← e) h) in (a, a)

    -- A token of the older format, for access or for a refresh, is accepted in its time too, without
    -- an identifier.
    validate-generate :
        (ttl : ℤ)
        → ((ttl ≡ j.access_token_ttl) × (generate_access_token lib j r user_id ≡ ok t))
          ⊎ ((ttl ≡ j.refresh_token_ttl) × (generate_refresh_token lib j r user_id ≡ ok t))
        → InTime (registered_claims lib ttl r) now
        → validate_access_token_with_uuid lib j now t ≡ ok ([], user_id)
    unfolding validate_access_token_with_uuid generate_access_token generate_refresh_token
    validate-generate ttl (inl (e, made)) h = signed_plain _ made (rw (← e) h)
    validate-generate ttl (inr (e, made)) h = signed_plain _ made (rw (← e) h)

    -- From its expiry on a token with an identifier is refused.
    validate-expired :
        (user_uuid : Text)
        → generate_access_token_with_uuid lib j r user_uuid user_id ≡ ok t
        → (registered_claims lib j.access_token_ttl r).expires_at ≤ℤ now
        → (e : Error) × (validate_access_token_with_uuid lib j now t ≡ err e)
    unfolding validate_access_token_with_uuid validate_token_with_uuid new_format old_format
        generate_access_token_with_uuid key_of
    validate-expired user_uuid made h =
        let ((d, first), (e, second)) = laws.expired _ j.secret_key (key_of lib j) now t made h in
        (e, rw (first, second) refl)
