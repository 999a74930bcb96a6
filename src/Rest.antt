-- ===== src/Rest.antt =====
-- The responses of the HTTP interface (pkg/restapi, AssertBizError of pkg/errno, Crc32HashCode of
-- pkg/encode). encoding/json and hash/crc32 are parameters: `marshal` answers with no bytes on an error,
-- and a checksum is below 2^32, so as an int it is never negative.

pub mod Answers
use go_video_transcode_servi.Common.{
  ℕ, ℤ, pos, Text, codes, text_eq, Bool, not, ◌&&◌, List, [], ◌∷◌, Option, none, some, itoa,
  is_empty, if◌then◌else◌,
}
use go_video_transcode_servi.Errno.{Errno, AppError, response_code}
use go_video_transcode_servi.Gin
use go_video_transcode_servi.Gin.{text, number, other_value, get, set, json}
use go_video_transcode_servi.RequestId.{get_request_id}

-- `none` is the nil of Data.
pub record Response (D : Type 0) : Type 0 where
  pub code : ℕ
  pub message : Text
  pub data_of : Option D
  pub data_version : Text
  pub request_id : Text

record PageInfo : Type 0 where
  pub total_num : ℤ
  pub current_page : ℤ
  pub page_size : ℤ

record PageResult (R : Type 0) : Type 0 where
  pub page_info : PageInfo
  pub rows : R

-- encode.Crc32HashCode
unfoldable crc32_hash_code : (Text → ℕ) → Text → Text
crc32_hash_code checksum b = itoa (checksum b)

-- What the code takes of Go's libraries.
pub record Encoding (D : Type 0) : Type 0 where
  pub marshal : D → Text
  pub checksum : Text → ℕ
  pub message_of : Option AppError → Text  -- AssertBizError(err).Message()

module _ {D : Type 0} (enc : Encoding D) where
  -- The version of the data; none if they could not be marshalled.
  unfoldable pub version_of : D → Text
  unfolding crc32_hash_code
  version_of d = let b = enc.marshal d in if is_empty b then [] else crc32_hash_code enc.checksum b

  versioned :
      Option D → Gin.Context (Response D) → Response D → Response D × Gin.Context (Response D)
  unfolding version_of
  versioned none c resp = (resp, c)
  versioned (some d) c resp =
      let version = version_of d in
      let last_hash = c.query (codes "data_version") in
      let known = not (is_empty last_hash) && text_eq last_hash version in
      (
        record resp { data_version = version; data_of = if known then none else some d },
        if is_empty (enc.marshal d) then c else set (codes "x-data-version") (text version) c,
      )

  generate_response_data_with_version :
      Gin.Context (Response D) → Option AppError → Option D → Response D × Gin.Context (Response D)
  unfolding versioned
  generate_response_data_with_version c error data_of = versioned data_of c (record {
    request_id = get_request_id c;
    code = response_code error;
    message = enc.message_of error;
    data_of = data_of;
    data_version = [];
  })

  -- The context before the body is made.
  abbrev pub stamped : Option AppError → Gin.Context (Response D) → Gin.Context (Response D)
  stamped error c =
      let c1 = set (codes "x-httpStatus") other_value (set (codes "x-bizError") other_value c) in
      record c1 {
        response_headers = (codes "x-biz-code", itoa (response_code error)) ∷ c1.response_headers;
      }

  unfoldable pub send_response :
      ℕ → Option D → Option AppError → Gin.Context (Response D) → Gin.Context (Response D)
  unfolding generate_response_data_with_version
  send_response status data_of error c =
      let (resp, c') = generate_response_data_with_version (stamped error c) error data_of in
      json status resp c'

  unfoldable pub rest_success : Option D → Gin.Context (Response D) → Gin.Context (Response D)
  unfolding send_response
  rest_success data_of c = send_response 200 data_of none c

  unfoldable pub rest_failed : AppError → Gin.Context (Response D) → Gin.Context (Response D)
  unfolding send_response
  rest_failed error c = send_response 500 none (some error) c

  unfoldable failed_with_status : AppError → ℕ → Gin.Context (Response D) → Gin.Context (Response D)
  unfolding send_response
  failed_with_status error status c = send_response status none (some error) c

-- The response with a page of rows, whose size and number are the query's.
success_with_page :
    {R : Type 0}
    → Encoding (PageResult R)
    → ℤ
    → ℤ
    → R
    → ℤ
    → Gin.Context (Response (PageResult R))
    → Gin.Context (Response (PageResult R))
unfolding rest_success
success_with_page enc page_size page_num rows total c =
    rest_success enc
      (some (record {
        page_info = record { page_size = page_size; current_page = page_num; total_num = total };
        rows = rows;
      }))
      c
