-- ===== src/Storage/RustFs/Keys.antt =====
-- The key that an upload to RustFS answers.
use go_video_transcode_servi.Common.{
  ℕ, ltb, leb, ◌||◌, Bool-cases, Text, ◌≡◌, refl, inl, inr, Option, none, some, Error, Result, ok,
  err, ◌⊎◌,
}
use go_video_transcode_servi.Storage.{KeepsKey}
use go_video_transcode_servi.Storage.Signature.{RustFsStorage, Request}
use go_video_transcode_servi.Storage.RustFs.{
  RustFsIo, send_signed, with_headers, put_headers, Response, put_answered, put_request, hashed,
  measured, opened, upload_transcoded_file,
}

module _ {S : Type 0} (st : RustFsStorage) (io : RustFsIo S) where
  abbrev Kept : Text → Result Error Text → Type 0
  Kept key r = (r ≡ ok key) ⊎ ((e : Error) × (r ≡ err e))

  put_answered-Kept : (key : Text) (r : Result Error Response) → Kept key (put_answered st io key r)
  unfolding put_answered
  put_answered-Kept key (err e) = inr (_, refl)
  put_answered-Kept key (ok (status, body)) = elim (Bool-cases (ltb status 200 || leb 300 status)) [
    | inl bad ↦ rw bad (inr (_, refl))
    | inr good ↦ rw good (inl refl)
  ]

  put_request-Kept :
      (path key content_type : Text) (size : ℕ) (hash : Text) (req : Result Error Request) (s : S)
      → Kept key (put_request st io path key content_type size hash req s).0
  unfolding put_request
  put_request-Kept path key content_type size hash (err e) s = inr (_, refl)
  put_request-Kept path key content_type size hash (ok req) s =
      put_answered-Kept key
        (send_signed st io (with_headers req (put_headers st io content_type hash size)) hash
          (some path) s).0

  hashed-Kept :
      (path key content_type : Text) (size : ℕ) (hash : Result Error Text) (s : S)
      → Kept key (hashed st io path key content_type size hash s).0
  unfolding hashed
  hashed-Kept path key content_type size (err e) s = inr (e, refl)
  hashed-Kept path key content_type size (ok hash) s =
      put_request-Kept path key content_type size hash _ s

  measured-Kept :
      (path key content_type : Text) (size : Result Error ℕ) (s : S)
      → Kept key (measured st io path key content_type size s).0
  unfolding measured
  measured-Kept path key content_type (err e) s = inr (e, refl)
  measured-Kept path key content_type (ok size) s = hashed-Kept path key content_type size _ _

  opened-Kept :
      (path key content_type : Text) (failed : Option Error) (s : S)
      → Kept key (opened st io path key content_type failed s).0
  unfolding opened
  opened-Kept path key content_type (some e) s = inr (_, refl)
  opened-Kept path key content_type none s = measured-Kept path key content_type _ _

  pub upload_transcoded_file-KeepsKey : KeepsKey (upload_transcoded_file st io)
  unfolding upload_transcoded_file
  upload_transcoded_file-KeepsKey path key content_type s = opened-Kept path key content_type _ _
