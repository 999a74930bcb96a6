-- ===== src/Rest/Answers.antt =====
-- What is answered.
use go_video_transcode_servi.Common.{
  ℕ, Text, codes, text_eq, text_eq_iff, not, ◌&&◌, true, false, Bool, List, [], ◌∷◌, ◌≡◌, ◌⊎◌, inl,
  inr, refl, ap, Option, none, some, is_empty, if◌then◌else◌,
}
use go_video_transcode_servi.Errno.{AppError, response_code}
use go_video_transcode_servi.Gin
use go_video_transcode_servi.Gin.{text, set}
use go_video_transcode_servi.RequestId.{get_request_id}
use go_video_transcode_servi.Rest.{
  Response, Encoding, version_of, versioned, stamped, generate_response_data_with_version,
  send_response,
}

module _ {D : Type 0} (enc : Encoding D) where
  -- The client has named the version of the data.
  abbrev pub Named : (Text → Text) → D → Type 0
  Named query d =
      (is_empty (query (codes "data_version")) ≡ false)
      × (query (codes "data_version") ≡ version_of enc d)

  -- The data of a response: those given, or none where the client has named their version, which is not
  -- empty then.
  abbrev pub Sent : (Text → Text) → D → Response D → Type 0
  Sent query d resp =
      (resp.data_version ≡ version_of enc d)
      × ((resp.data_of ≡ some d) ⊎ ((resp.data_of ≡ none) × Named query d))

  known_or :
      (query : Text → Text) (d : D) (known : Bool) (resp : Response D)
      → (known ≡ true → Named query d)
      → Sent query d (record resp {
        data_version = version_of enc d;
        data_of = if known then none else some d;
      })
  known_or query d true resp h = (refl, inr (refl, h refl))
  known_or query d false resp h = (refl, inl refl)

  set_or :
      (b : Bool) (v : Text) (c : Gin.Context (Response D))
      → (if b then c else set (codes "x-data-version") (text v) c).answers ≡ c.answers
  set_or true v c = refl
  set_or false v c = refl

  both : (a b : Bool) → (not a && b) ≡ true → (a ≡ false) × (b ≡ true)
  both false true h = (refl, refl)
  both false false h = cc
  both true b h = cc

  generate-data :
      (c : Gin.Context (Response D)) (error : Option AppError) (d : D)
      → let (resp, c') = generate_response_data_with_version enc c error (some d) in
        (resp.code ≡ response_code error) × Sent c.query d resp × (c'.answers ≡ c.answers)
  unfolding generate_response_data_with_version versioned
  generate-data c error d =
      let last_hash = c.query (codes "data_version") in
      let same = text_eq last_hash (version_of enc d) in
      (
        refl,
        known_or c.query d (not (is_empty last_hash) && same)
            (record {
              code = response_code error;
              message = enc.message_of error;
              data_of = some d;
              data_version = [];
              request_id = get_request_id c;
            })
            (λ h. let (given, e) = both _ same h in (given, (text_eq_iff _ _).0 e)),
        set_or (is_empty (enc.marshal d)) (version_of enc d) c,
      )

  -- A response with data: it is the one that is added, with its status and code.
  pub send_response-data :
      (status : ℕ) (d : D) (error : Option AppError) (c : Gin.Context (Response D))
      → (resp : Response D) × ((send_response enc status (some d) error c).answers
          ≡ (status, resp) ∷ c.answers)
        × (resp.code ≡ response_code error)
        × Sent c.query d resp
  unfolding send_response
  send_response-data status d error c =
      let resp = (generate_response_data_with_version enc (stamped enc error c) error (some d)).0 in
      let (code, sent, kept) = generate-data (stamped enc error c) error d in
      (resp, ap (λ (l : List (ℕ × Response D)). (status, resp) ∷ l) kept, code, sent)

  -- A response without.
  pub send_response-none :
      (status : ℕ) (error : Option AppError) (c : Gin.Context (Response D))
      → (resp : Response D) × ((send_response enc status none error c).answers
          ≡ (status, resp) ∷ c.answers)
        × (resp.code ≡ response_code error)
        × (resp.data_of ≡ none)
  unfolding send_response generate_response_data_with_version versioned
  send_response-none status error c = (_, refl, refl, refl)
