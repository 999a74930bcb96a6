-- ===== src/Auth/Guard.antt =====
-- Who passes the authentication.
use go_video_transcode_servi.Common.{
  ℕ, ℤ, Text, codes, Bool, true, false, [], ◌∷◌, ◌++◌, ◌≡◌, ◌≢◌, refl, arith, Option, some, Error,
  Result, ok, err, has_prefix, drop_prefix, trim_prefix, is_empty, text_eq, if_elim, if◌then◌else◌,
}
use go_video_transcode_servi.Gin.{Context, get_key}
use go_video_transcode_servi.Jwt.{Library, JwtUtil, validate_access_token_with_uuid}
use go_video_transcode_servi.Auth.{
  Refusal, bearer, refuse, set_user, validated, auth_middleware, get_user_uuid, get_user_id,
  is_authenticated,
}

has_prefix-drop : (s p : Text) → has_prefix s p ≡ true → s ≡ p ++ drop_prefix s p
unfolding has_prefix drop_prefix
has_prefix-drop s [] h = refl
has_prefix-drop [] (p ∷ ps) h = cc
has_prefix-drop (c ∷ s) (p ∷ ps) h = ground (arith, has_prefix-drop s ps)

trim_prefix-joined : (s p : Text) → has_prefix s p ≡ true → s ≡ p ++ trim_prefix s p
unfolding trim_prefix
trim_prefix-joined s p h = rw h (has_prefix-drop s p h)

not_nil : (s : Text) → is_empty s ≡ false → s ≢ []
not_nil [] h = absurd (ground arith)
not_nil (c ∷ s) h = λ e. cc

-- The identifier that is read behind the user's keys have been set.
abbrev uuid_or : Text → Option Text → Option Text
uuid_or [] before = before
uuid_or (c ∷ s) before = some (c ∷ s)

-- How a request leaves the middleware.
pub data Guarded {B : Type 0} (body : Refusal → B) (lib : Library) (j : JwtUtil) (now : ℤ)
    (c after : Context B) : Type 0 where
  passed :
      (token user_uuid : Text) (user_id : ℕ)
      → c.header (codes "Authorization") ≡ bearer ++ token
      → token ≢ []
      → validate_access_token_with_uuid lib j now token ≡ ok (user_uuid, user_id)
      → get_user_id after ≡ some user_id
      → get_user_uuid after ≡ uuid_or user_uuid (get_user_uuid c)
      → is_authenticated after ≡ true
      → after.aborted ≡ c.aborted
      → after.answers ≡ c.answers
      → Guarded body lib j now c after
  stopped : (reason : Text) → after ≡ refuse body reason c → Guarded body lib j now c after

same_if : (b : Bool) → (if b then true else true) ≡ true
same_if true = refl
same_if false = refl

module _ {B : Type 0} (body : Refusal → B) (lib : Library) (j : JwtUtil) (now : ℤ)
    (c : Context B) where
  set_user-keys :
      (user_uuid : Text) (user_id : ℕ)
      → let after = set_user user_uuid user_id c in
        (get_user_id after ≡ some user_id)
        × (get_user_uuid after ≡ uuid_or user_uuid (get_user_uuid c))
        × (is_authenticated after ≡ true)
        × (after.aborted ≡ c.aborted)
        × (after.answers ≡ c.answers)
  unfolding set_user get_user_id get_user_uuid is_authenticated get_key text_eq
  set_user-keys [] user_id = (refl, refl, same_if _, refl, refl)
  set_user-keys (a ∷ s) user_id = (refl, refl, refl, refl, refl)

  validated-Guarded :
      (token : Text)
      → c.header (codes "Authorization") ≡ bearer ++ token
      → token ≢ []
      → (r : Result Error (Text × ℕ)) → validate_access_token_with_uuid lib j now token ≡ r
      → Guarded body lib j now c (validated body r c)
  unfolding validated
  validated-Guarded token h n (err e) v = stopped _ refl
  validated-Guarded token h n (ok (user_uuid, user_id)) v =
      let (a, b, d, e, f) = set_user-keys user_uuid user_id in
      passed token user_uuid user_id h n v a b d e f

  -- A request passes only with a header of the scheme Bearer and a token that is accepted: then the
  -- user's number is that of the token, and so is the identifier where the token has one. Any other is
  -- answered with the status 401 and goes no further, its keys as they were.
  pub auth_middleware-Guarded : Guarded body lib j now c (auth_middleware body lib j now c)
  unfolding auth_middleware
  auth_middleware-Guarded =
      let auth_header = c.header (codes "Authorization") in
      let token = trim_prefix auth_header bearer in
      if_elim (Guarded body lib j now c) (is_empty auth_header) (λ _. stopped _ refl)
        λ _.
          if_elim (Guarded body lib j now c) (has_prefix auth_header bearer)
            (λ scheme.
              if_elim (Guarded body lib j now c) (is_empty token) (λ _. stopped _ refl)
                λ more.
                  validated-Guarded token (trim_prefix-joined auth_header bearer scheme)
                    (not_nil token more) _ refl)
            (λ _. stopped _ refl)
