-- ===== src/Gin.antt =====
-- What the HTTP code uses of gin.Context: the request's headers and query, the keys of `Set` and `Get`,
-- the response's headers, the status with which a body has been written, and whether the chain of
-- handlers has been aborted. gin is a library; this is what its documentation says of these calls.
use go_video_transcode_servi.Common.{
  ℕ, Text, text_eq, Bool, true, List, [], ◌∷◌, Option, none, some, if◌then◌else◌,
}

-- A value of a key. The code asserts the first two types.
pub data Value : Type 0 where
  text : Text → Value  -- string
  number : ℕ → Value  -- uint64
  other_value : Value

pub record Context (B : Type 0) : Type 0 where
  pub header : Text → Text  -- GetHeader
  pub query : Text → Text  -- Query
  pub keys : List (Text × Value)
  pub response_headers : List (Text × Text)
  pub answers : List (ℕ × B)  -- JSON(status, body), the last call first
  pub aborted : Bool

unfoldable pub get_key : Text → List (Text × Value) → Option Value
get_key k [] = none
get_key k ((j, v) ∷ rest) = let later = get_key k rest in if text_eq j k then some v else later

-- The assertions .(string) and .(uint64).
abbrev pub as_text : Option Value → Option Text
as_text none = none
as_text (some (text t)) = some t
as_text (some (number n)) = none
as_text (some other_value) = none

abbrev pub as_number : Option Value → Option ℕ
as_number none = none
as_number (some (text t)) = none
as_number (some (number n)) = some n
as_number (some other_value) = none

module _ {B : Type 0} where
  -- c.Get(k)
  abbrev pub get : Text → Context B → Option Value
  get k c = get_key k c.keys

  -- c.Set(k, v)
  abbrev pub set : Text → Value → Context B → Context B
  set k v c = record c { keys = (k, v) ∷ c.keys }

  -- c.JSON(status, body)
  abbrev pub json : ℕ → B → Context B → Context B
  json status body c = record c { answers = (status, body) ∷ c.answers }

  abbrev pub abort : Context B → Context B
  abort c = record c { aborted = true }
