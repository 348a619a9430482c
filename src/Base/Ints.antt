-- ===== src/Base/Ints.antt =====
-- Signed machine integers (Go's int and time.Duration), and instants.
-- An instant is a number of nanoseconds since Go's zero time, so `time.Time{}` is 0.
use Prim.Native.Nat.{ℕ, suc, ◌+◌, ◌-◌, ◌<◌}
use mathlib.Core.Bool.{Bool}
use native.Mathlib.Omega.{arith}
use browser_use.Base.Bools.{ltb, leb, ◌==◌, if◌then◌else◌}

-- `negsuc n` is -(n + 1).
pub data ℤ : Type 0 where
  pos : ℕ → ℤ
  negsuc : ℕ → ℤ

abbrev pub pos_part : ℤ → ℕ
pos_part (pos n) = n
pos_part (negsuc n) = 0

abbrev pub neg_part : ℤ → ℕ
neg_part (pos n) = 0
neg_part (negsuc n) = suc n

-- a - b, as an integer.
abbrev pub sub_ℕ : ℕ → ℕ → ℤ
sub_ℕ a b = if leb b a then pos (a - b) else negsuc (b - a - 1)

abbrev pub leb_ℤ : ℤ → ℤ → Bool
leb_ℤ a b = leb (pos_part a + neg_part b) (pos_part b + neg_part a)

abbrev pub ltb_ℤ : ℤ → ℤ → Bool
ltb_ℤ a b = ltb (pos_part a + neg_part b) (pos_part b + neg_part a)

-- `if d <= 0 { d = fallback }`, for a setting that must be positive.
abbrev pub positive_or : ℤ → ℕ → ℕ
positive_or (pos n) fallback = if n == 0 then fallback else n
positive_or (negsuc n) fallback = fallback

-- `t.IsZero()`.
abbrev pub is_zero : ℕ → Bool
is_zero t = t == 0

-- `normalizeTime`-like tests: the instant, or the clock's where it is the zero time.
abbrev pub time_or : ℕ → ℕ → ℕ
time_or t now = if is_zero t then now else t

abbrev pub millisecond : ℕ
millisecond = 1_000_000

abbrev pub second : ℕ
second = 1_000_000_000

abbrev pub minute : ℕ
minute = 60_000_000_000

abbrev pub hour : ℕ
hour = 3_600_000_000_000

pub positive_or-pos : (d : ℤ) (n : ℕ) → 0 < n → 0 < positive_or d n
positive_or-pos (pos d) n h = ground arith
positive_or-pos (negsuc d) n h = h
