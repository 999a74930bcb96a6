-- ===== src/Storage/Minio.antt =====
-- The MinIO gateway (minio_storage.go).
pub mod Keys
use go_video_transcode_servi.Common.{
  ℕ, Text, codes, text_eq, List, [], ◌∷◌, Option, none, some, Error, wrap, Result, ok, err, Op,
  is_empty, to_lower, if◌then◌else◌,
}
use go_video_transcode_servi.Runtime.{Runtime}
use go_video_transcode_servi.Storage.{UploadObject, upload_each}

pub record MinioIo (S : Type 0) : Type 0 where
  pub bucket : Text  -- minioResource.GetBucketName()
  pub extension : Text → Text  -- filepath.Ext
  pub open_file : Text → Op S (Option Error)
  pub stat : Text → Op S (Result Error ℕ)
  pub put_object : Text → Text → Text → ℕ → Text → Op S (Option Error)
  pub make_dir_of : Text → Op S (Option Error)
  pub get_object : Text → Text → Op S (Result Error Text)
  pub create_file : Text → Op S (Option Error)
  pub read_from : Text → Text → Op S (Option Error)

-- The switch, as a table.
abbrev content_types : List (Text × Text)
content_types =
    (codes ".mp4", codes "video/mp4")
    ∷ (codes ".m3u8", codes "application/vnd.apple.mpegurl")
    ∷ (codes ".ts", codes "video/mp2t")
    ∷ (codes ".avi", codes "video/x-msvideo")
    ∷ (codes ".mov", codes "video/quicktime")
    ∷ (codes ".wmv", codes "video/x-ms-wmv")
    ∷ (codes ".flv", codes "video/x-flv")
    ∷ (codes ".webm", codes "video/webm")
    ∷ (codes ".mkv", codes "video/x-matroska")
    ∷ []

unfoldable type_in : Text → List (Text × Text) → Text
type_in ext [] = codes "application/octet-stream"
type_in ext ((e, t) ∷ rest) = let later = type_in ext rest in if text_eq ext e then t else later

module _ {S : Type 0} (rt : Runtime) (io : MinioIo S) where
  get_content_type_from_extension : Text → Text
  unfolding type_in
  get_content_type_from_extension filename =
      type_in (to_lower rt.lower_table (io.extension filename)) content_types

  abbrev type_or_guessed : Text → Text → Text
  type_or_guessed key content_type =
      if is_empty content_type then get_content_type_from_extension key else content_type

  abbrev wrapped : Text → Option Error → Option Error
  wrapped what none = none
  wrapped what (some e) = some (wrap what e)

  measured : Text → Text → Text → Text → Result Error ℕ → Op S (Option Error)
  measured what path key content_type (err e) s = (some (wrap (codes "get file info failed") e), s)
  measured what path key content_type (ok size) s =
      let (failed, s') =
        io.put_object io.bucket key path size (type_or_guessed key content_type) s in
      (wrapped what failed, s')

  opened : Text → Text → Text → Text → Option Error → Op S (Option Error)
  unfolding measured
  opened what path key content_type (some e) s = (some (wrap (codes "open local file failed") e), s)
  opened what path key content_type none s =
      let (size, s') = io.stat path s in measured what path key content_type size s'

  -- The upload of a file, where `what` names a failure of the client.
  put_file : Text → Text → Text → Text → Op S (Option Error)
  unfolding opened
  put_file what path key content_type s =
      let (failed, s') = io.open_file path s in opened what path key content_type failed s'

  abbrev key_unless : Text → Option Error → Result Error Text
  key_unless key none = ok key
  key_unless key (some e) = err e

  pub upload_to_minio : Text → Text → Text → Op S (Result Error Text)
  unfolding put_file
  upload_to_minio path key content_type s =
      let (failed, s') =
        put_file (codes "upload transcoded file to minio failed") path key content_type s in
      (key_unless key failed, s')

  upload_objects_to_minio : List UploadObject → Op S (Option Error)
  unfolding put_file
  upload_objects_to_minio objects =
      upload_each
        (λ o.
          put_file (codes "upload object to minio failed") o.local_path o.object_key o.content_type)
        objects

  created : Text → Text → Option Error → Op S (Option Error)
  created path object (some e) s = (some (wrap (codes "create local file failed") e), s)
  created path object none s =
      let (failed, s') = io.read_from path object s in
      (wrapped (codes "download file from minio failed") failed, s')

  fetched : Text → Result Error Text → Op S (Option Error)
  unfolding created
  fetched path (err e) s = (some (wrap (codes "get object from minio failed") e), s)
  fetched path (ok object) s =
      let (failed, s') = io.create_file path s in created path object failed s'

  dir_ready : Text → Text → Option Error → Op S (Option Error)
  unfolding fetched
  dir_ready key path (some e) s = (some (wrap (codes "create local directory failed") e), s)
  dir_ready key path none s =
      let (object, s') = io.get_object io.bucket key s in fetched path object s'

  download_from_minio : Text → Text → Op S (Option Error)
  unfolding dir_ready
  download_from_minio key path s =
      let (failed, s') = io.make_dir_of path s in dir_ready key path failed s'
