-- ===== src/Storage/Keys.antt =====
-- The key that an upload answers.
use go_video_transcode_servi.Runtime.{Runtime}
use go_video_transcode_servi.Storage.{KeepsKey}
use go_video_transcode_servi.Storage.Signature.{RustFsStorage}
use go_video_transcode_servi.Storage.RustFs.{RustFsIo, upload_transcoded_file}
use go_video_transcode_servi.Storage.RustFs.Keys.{upload_transcoded_file-KeepsKey}
use go_video_transcode_servi.Storage.Minio.{MinioIo, upload_to_minio}
use go_video_transcode_servi.Storage.Minio.Keys.{upload_to_minio-KeepsKey}

-- An upload of either gateway that succeeds answers the very key that it was asked for.
uploads-KeepsKey :
    {S T : Type 0} (st : RustFsStorage) (rustfs : RustFsIo S) (rt : Runtime) (minio : MinioIo T)
    → KeepsKey (upload_transcoded_file st rustfs) × KeepsKey (upload_to_minio rt minio)
uploads-KeepsKey st rustfs rt minio =
    (upload_transcoded_file-KeepsKey st rustfs, upload_to_minio-KeepsKey rt minio)
