-- ===== src/Common/Int.antt =====
-- Go's signed integers, unbounded: `negsuc n` is -(n + 1). The library's ℤ stands on the unary ℕ.
use Prim.Native.Nat.{ℕ, suc, ◌+◌, ◌-◌, ◌%◌, ◌≤◌, ◌<◌}
use mathlib.Core.Bool.{Bool, false}
use go_video_transcode_servi.Common.Tests.{ltb, leb, ◌==◌, if◌then◌else◌}

pub data ℤ : Type 0 where
  pos : ℕ → ℤ
  negsuc : ℕ → ℤ

abbrev pub pos_part : ℤ → ℕ
pos_part (pos n) = n
pos_part (negsuc n) = 0

abbrev pub neg_part : ℤ → ℕ
neg_part (pos n) = 0
neg_part (negsuc n) = suc n

infix 50 ◌≤ℤ◌ ◌<ℤ◌
abbrev pub ◌≤ℤ◌ : ℤ → ℤ → Type 0
a ≤ℤ b = pos_part a + neg_part b ≤ pos_part b + neg_part a

abbrev pub ◌<ℤ◌ : ℤ → ℤ → Type 0
a <ℤ b = pos_part a + neg_part b < pos_part b + neg_part a

abbrev pub ltb_ℤ : ℤ → ℤ → Bool
ltb_ℤ a b = ltb (pos_part a + neg_part b) (pos_part b + neg_part a)

abbrev pub leb_ℤ : ℤ → ℤ → Bool
leb_ℤ a b = leb (pos_part a + neg_part b) (pos_part b + neg_part a)

-- An int of 64 bits from the number that a product of two positive ints has.
abbrev pub to_int64 : ℕ → ℤ
to_int64 n =
    let m = n % 0x10000000000000000 in
    if ltb m 0x8000000000000000 then pos m else negsuc (0x10000000000000000 - m - 1)

abbrev pub eq_ℤ : ℤ → ℤ → Bool
eq_ℤ (pos a) (pos b) = a == b
eq_ℤ (negsuc a) (negsuc b) = a == b
eq_ℤ _ _ = false

-- a + b, without the source's bound of 64 bits.
abbrev pub add_ℤ : ℤ → ℤ → ℤ
add_ℤ a b =
    let up = pos_part a + pos_part b in
    let down = neg_part a + neg_part b in
    if leb down up then pos (up - down) else negsuc (down - up - 1)

-- The first where it is positive, else the second.
abbrev pub positive_or : ℤ → ℤ → ℤ
positive_or value default = if ltb_ℤ (pos 0) value then value else default

-- A second of a duration, which is in nanoseconds.
abbrev pub second : ℕ
second = 1_000_000_000
