-- ===== src/Runtime.antt =====
-- What the code takes from Go's libraries and this development cannot define: the lower case of the
-- characters beyond ASCII, and float64. A float is a number of type ℕ, the bit pattern; its
-- operations are fields.
use go_video_transcode_servi.Common.{ℕ, Text, Option, Bool, ℤ}

pub record Runtime : Type 0 where
  pub lower_table : ℕ → ℕ  -- unicode.ToLower beyond ASCII
  pub parse_float : Text → Option ℕ  -- strconv.ParseFloat(s, 64)
  pub is_le_zero : ℕ → Bool  -- v <= 0
  pub times : ℕ → ℕ → ℤ  -- int(v * float64(n))
  pub percent : ℤ → ℤ  -- int((float64(p) / 100) * 100)
