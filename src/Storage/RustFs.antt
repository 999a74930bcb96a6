-- ===== src/Storage/RustFs.antt =====
-- The RustFS gateway (rustfs_storage.go).
pub mod Keys
use go_video_transcode_servi.Common.{
  ℕ, leb, ltb, ◌||◌, Text, codes, List, [], ◌∷◌, ◌++◌, Option, none, some, Error, plain, wrap,
  Result, ok, err, Op, ◌>>=◌, ◌>>◌, pure, is_empty, itoa, if◌then◌else◌,
}
use go_video_transcode_servi.Storage.{UploadObject, upload_each}
use go_video_transcode_servi.Storage.Signature.{
  RustFsStorage, Crypto, Request, infer_bucket_from_key, s3_url, sign_s3,
}

-- A response: its status and its body.
abbrev pub Response : Type 0
Response = ℕ × Text

pub record RustFsIo (S : Type 0) : Type 0 where
  pub crypto : Crypto
  pub open_file : Text → Op S (Option Error)
  pub stat : Text → Op S (Result Error ℕ)
  pub hash_file : Text → Op S (Result Error Text)  -- sha256FileHex
  pub new_request : Text → Text → Result Error Request  -- http.NewRequestWithContext
  pub send : Request → Option Text → Op S (Result Error Response)  -- Do, with the file of the body
  pub dates : Op S (Text × Text)  -- time.Now().UTC() in both formats
  pub make_dir_of : Text → Op S (Option Error)  -- os.MkdirAll(filepath.Dir(path))
  pub create_file : Text → Op S (Option Error)
  pub copy_body : Text → Text → Op S (Option Error)  -- io.Copy

abbrev with_headers : Request → List (Text × Text) → Request
with_headers req headers = record req { headers = headers }

module _ {S : Type 0} (st : RustFsStorage) (io : RustFsIo S) where
  -- The request is signed at the time of the clock and sent.
  send_signed : Request → Text → Option Text → Op S (Result Error Response)
  send_signed req hash file = do
    now ← io.dates
    io.send (sign_s3 io.crypto st now.0 now.1 req hash) file

  -- Behind an answer to a PUT.
  put_answered : Text → Result Error Response → Result Error Text
  put_answered key (err e) = err (wrap (codes "put object") e)
  put_answered key (ok (status, body)) =
      if ltb status 200 || leb 300 status
      then err
          (plain (codes "put object failed: status=" ++ (itoa status ++ (codes ", body=" ++ body))))
      else ok key

  abbrev type_or_default : Text → Text
  type_or_default content_type =
      if is_empty content_type then codes "application/octet-stream" else content_type

  abbrev put_headers : Text → Text → ℕ → List (Text × Text)
  put_headers content_type hash size =
      (codes "content-type", type_or_default content_type)
      ∷ (codes "x-amz-content-sha256", hash)
      ∷ (codes "content-length", itoa size)
      ∷ []

  put_request : Text → Text → Text → ℕ → Text → Result Error Request → Op S (Result Error Text)
  unfolding send_signed put_answered
  put_request path key content_type size hash (err e) s = (err (wrap (codes "create request") e), s)
  put_request path key content_type size hash (ok req) s =
      let (answer, s') =
        send_signed (with_headers req (put_headers content_type hash size)) hash (some path) s in
      (put_answered key answer, s')

  hashed : Text → Text → Text → ℕ → Result Error Text → Op S (Result Error Text)
  unfolding put_request
  hashed path key content_type size (err e) s = (err e, s)
  hashed path key content_type size (ok hash) s =
      put_request path key content_type size hash
        (io.new_request (codes "PUT") (s3_url st (infer_bucket_from_key key) key)) s

  measured : Text → Text → Text → Result Error ℕ → Op S (Result Error Text)
  unfolding hashed
  measured path key content_type (err e) s = (err e, s)
  measured path key content_type (ok size) s =
      let (hash, s') = io.hash_file path s in hashed path key content_type size hash s'

  opened : Text → Text → Text → Option Error → Op S (Result Error Text)
  unfolding measured
  opened path key content_type (some e) s = (err (wrap (codes "open local file") e), s)
  opened path key content_type none s =
      let (size, s') = io.stat path s in measured path key content_type size s'

  pub upload_transcoded_file : Text → Text → Text → Op S (Result Error Text)
  unfolding opened
  upload_transcoded_file path key content_type s =
      let (failed, s') = io.open_file path s in opened path key content_type failed s'

  abbrev error_of : Result Error Text → Option Error
  error_of (ok key) = none
  error_of (err e) = some e

  upload_objects : List UploadObject → Op S (Option Error)
  unfolding upload_transcoded_file
  upload_objects objects =
      upload_each
        (λ o. (do
          r ← upload_transcoded_file o.local_path o.object_key o.content_type
          pure (error_of r)))
        objects

  abbrev wrapped : Text → Option Error → Option Error
  wrapped what none = none
  wrapped what (some e) = some (wrap what e)

  file_created : Text → Text → Option Error → Op S (Option Error)
  file_created path body (some e) s = (some (wrap (codes "create local") e), s)
  file_created path body none s =
      let (failed, s') = io.copy_body path body s in (wrapped (codes "copy") failed, s')

  dir_made : Text → Text → Option Error → Op S (Option Error)
  unfolding file_created
  dir_made path body (some e) s = (some (wrap (codes "mkdir") e), s)
  dir_made path body none s =
      let (failed, s') = io.create_file path s in file_created path body failed s'

  -- Behind an answer to a GET.
  get_answered : Text → Result Error Response → Op S (Option Error)
  unfolding dir_made
  get_answered path (err e) s = (some (wrap (codes "get object") e), s)
  get_answered path (ok (status, body)) s =
      let (made, s') = io.make_dir_of path s in
      let saved = dir_made path body made s' in
      if ltb status 200 || leb 300 status
      then (
        some (
            plain
              (codes "get object failed: status=" ++ (itoa status ++ (codes ", body=" ++ body)))),
        s,
      )
      else saved

  get_request : Text → Result Error Request → Op S (Option Error)
  unfolding send_signed get_answered
  get_request path (err e) s = (some (wrap (codes "create request") e), s)
  get_request path (ok req) s =
      let unsigned = codes "UNSIGNED-PAYLOAD" in
      let headers = (codes "x-amz-content-sha256", unsigned) ∷ [] in
      let (answer, s') = send_signed (with_headers req headers) unsigned none s in
      get_answered path answer s'

  download_file : Text → Text → Op S (Option Error)
  unfolding get_request
  download_file key path =
      get_request path (io.new_request (codes "GET") (s3_url st (infer_bucket_from_key key) key))
