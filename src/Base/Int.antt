-- ===== src/Base/Int.antt =====
-- `int` as an integer over the native numbers: the differences that the packet code forms.
use netfilter.Base.Tests.{ltb, leb, if◌then◌else◌, lt→ltb}
use netfilter.Base.Results.{Result, ok, fault, int_overflow}
use mathlib.Core.Path.{◌≡◌, refl}
use Prim.Native.Nat.{ℕ, suc, ◌+◌, ◌-◌, ◌^◌, ◌<◌}
use mathlib.Core.Bool.{Bool, true}

-- `negsuc n` is -(n + 1).
pub data ℤ : Type 0 where
  pos : ℕ → ℤ
  negsuc : ℕ → ℤ

-- a - b on lengths.
abbrev pub sub_ℕ : ℕ → ℕ → ℤ
sub_ℕ a b = if leb b a then pos (a - b) else negsuc (b - a - 1)

-- i - b for an integer i.
abbrev pub sub_length : ℤ → ℕ → ℤ
sub_length (pos a) b = sub_ℕ a b
sub_length (negsuc a) b = negsuc (a + b)

abbrev pub lt_length : ℤ → ℕ → Bool
lt_length (pos a) b = ltb a b
lt_length (negsuc a) b = true

-- The conversion of an `int` to `size_t` where a length is passed.
abbrev pub size_t : ℤ → ℕ
size_t (pos a) = a
size_t (negsuc a) = 2 ^ 64 - suc a

-- `n + 1` in an `int`, for an `n` that is not negative.
unfoldable pub increment : ℕ → Result ℕ
increment n = if ltb (n + 1) (2 ^ 31) then ok (n + 1) else fault int_overflow

pub increment_small : (n : ℕ) → n + 1 < 2 ^ 31 → increment n ≡ ok (n + 1)
unfolding increment
increment_small n h = rw (lt→ltb (n + 1) (2 ^ 31) h) refl
