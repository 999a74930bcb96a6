-- ===== src/HlsStatus.antt =====
-- The values of HLSStatus, a string (ddd/domain/vo/hls_config.go).
use go_video_transcode_servi.Common.{Text, codes}

abbrev pub disabled : Text
disabled = codes "disabled"

abbrev pub pending : Text
pending = codes "pending"

abbrev pub processing : Text
processing = codes "processing"

abbrev pub completed : Text
completed = codes "completed"

abbrev pub failed : Text
failed = codes "failed"
