-- ===== src/Storage/Minio/Keys.antt =====
-- The key that an upload to MinIO answers.
use go_video_transcode_servi.Common.{
  Text, ◌≡◌, refl, inl, inr, Option, none, some, Error, ok, err, ◌⊎◌,
}
use go_video_transcode_servi.Runtime.{Runtime}
use go_video_transcode_servi.Storage.{KeepsKey}
use go_video_transcode_servi.Storage.Minio.{MinioIo, key_unless, upload_to_minio}

module _ {S : Type 0} (rt : Runtime) (io : MinioIo S) where
  key_unless-kept :
      (key : Text) (failed : Option Error)
      → (key_unless rt io key failed ≡ ok key)
        ⊎ ((e : Error) × (key_unless rt io key failed ≡ err e))
  key_unless-kept key none = inl refl
  key_unless-kept key (some e) = inr (e, refl)

  pub upload_to_minio-KeepsKey : KeepsKey (upload_to_minio rt io)
  unfolding upload_to_minio
  upload_to_minio-KeepsKey path key content_type s = key_unless-kept key _
