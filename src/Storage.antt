-- ===== src/Storage.antt =====
-- Object storage (ddd/infrastructure/storage): the RustFS gateway with the signature of its requests,
-- and the MinIO gateway. HTTP, the MinIO client, hashes and the file system are parameters.
pub mod Signature
pub mod RustFs
pub mod Minio
pub mod Batch
pub mod Keys
use go_video_transcode_servi.Common.{
  ℕ, Text, codes, text_eq, Bool, ◌||◌, List, [], ◌∷◌, ◌++◌, ◌≡◌, ◌⊎◌, Option, none, some, Error,
  Result, ok, err, Op, is_empty, trim_space, trim_left_by, trim_right_by, has_prefix, ◌==◌,
  if◌then◌else◌,
}

-- gateway.UploadObject
pub record UploadObject : Type 0 where
  pub local_path : Text
  pub object_key : Text
  pub content_type : Text

abbrev pub is_slash : ℕ → Bool
is_slash c = c == b'/'

-- Behind the upload of an object, with what the loop over the rest gives.
abbrev pub uploaded_one : {S : Type 0} → Option Error → S → Option Error × S → Option Error × S
uploaded_one (some e) s later = (some e, s)
uploaded_one none s later = later

-- The loop of both gateways' UploadObjects over the upload of an object.
unfoldable pub upload_each :
    {S : Type 0} → (UploadObject → Op S (Option Error)) → List UploadObject → Op S (Option Error)
upload_each upload [] s = (none, s)
upload_each upload (o ∷ os) s =
    let (failed, s') = upload o s in uploaded_one failed s' (upload_each upload os s')

-- A gateway's upload answers the key that it is given, or an error.
abbrev pub KeepsKey : {S : Type 0} → (Text → Text → Text → Op S (Result Error Text)) → Type 0
KeepsKey {S} upload =
    (path key content_type : Text) (s : S)
    → ((upload path key content_type s).0 ≡ ok key)
      ⊎ ((e : Error) × ((upload path key content_type s).0 ≡ err e))
