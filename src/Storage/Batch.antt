-- ===== src/Storage/Batch.antt =====
-- The upload of several objects.
use go_video_transcode_servi.Common.{
  List, [], ◌∷◌, ◌++◌, ◌≡◌, refl, sym, ap, Option, none, some, Error, Op,
}
use go_video_transcode_servi.Storage.{UploadObject, uploaded_one, upload_each}
use mathlib.Core.Path.{subst}

module _ {S : Type 0} (upload : UploadObject → Op S (Option Error)) where
  -- From the state `s` the uploads of the objects succeed one after the other, and end in `t`.
  Succeeds : List UploadObject → S → S → Type 0
  Succeeds [] s t = s ≡ t
  Succeeds (o ∷ os) s t = ((upload o s).0 ≡ none) × Succeeds os (upload o s).1 t

  -- What the result of a batch says.
  pub Stops : List UploadObject → S → Option Error × S → Type 0
  Stops objects s (none, t) = Succeeds objects s t
  Stops objects s (some e, t) =
      (before : List UploadObject) × (o : UploadObject) × (after : List UploadObject) × (s' : S)
      × (objects ≡ before ++ o ∷ after)
      × Succeeds before s s'
      × (upload o s' ≡ (some e, t))

  Stops-later :
      (o : UploadObject) (os : List UploadObject) (s : S) (r : Option Error × S)
      → (upload o s).0 ≡ none
      → Stops os (upload o s).1 r
      → Stops (o ∷ os) s r
  unfolding Stops Succeeds
  Stops-later o os s (none, t) h later = (h, later)
  Stops-later o os s (some e, t) h (before, p, after, s', split, succeeds, failed) =
      (o ∷ before, p, after, s', ap (λ l. o ∷ l) split, (h, succeeds), failed)

  uploaded_one-Stops :
      (o : UploadObject) (os : List UploadObject) (s t : S) (failed : Option Error)
      (later : Option Error × S)
      → upload o s ≡ (failed, t)
      → Stops os t later
      → Stops (o ∷ os) s (uploaded_one failed t later)
  unfolding Stops Succeeds
  uploaded_one-Stops o os s t none later h stops =
      Stops-later o os s later (ap (λ r. r.0) h)
        (subst (λ u. Stops os u later) (sym (ap (λ r. r.1) h)) stops)
  uploaded_one-Stops o os s t (some e) later h stops = ([], o, os, s, refl, refl, h)

  -- A batch that succeeds has uploaded every object, in order; one that fails answers with the error of
  -- the first object that fails, all the objects before it are uploaded and none behind it is tried.
  pub upload_each-Stops :
      (objects : List UploadObject) (s : S) → Stops objects s (upload_each upload objects s)
  unfolding upload_each Stops Succeeds
  upload_each-Stops [] s = refl
  upload_each-Stops (o ∷ os) s =
      uploaded_one-Stops o os s (upload o s).1 (upload o s).0 _ refl
        (upload_each-Stops os (upload o s).1)
