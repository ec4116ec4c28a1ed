-- ===== src/Prelude/Int.antt =====
-- Integers over the native numbers, and signed machine words of modulus `half + half`.
use Prim.Native.Nat.{ℕ, suc, ◌+◌, ◌-◌, ◌/◌, ◌%◌, ◌<◌}
use mathlib.Core.Path.{◌≡◌, refl}
use mathlib.Core.Bool.{Bool, true, false}
use native.Mathlib.Omega.{arith}
use native.Mathlib.Nat.{mod-eq_of_lt}
use sudo_rs.Prelude.Tests.{ltb, ltb→lt, leb, ◌==◌, if◌then◌else◌}

-- `negsuc n` is -(n + 1).
pub data ℤ : Type 0 where
  pos : ℕ → ℤ
  negsuc : ℕ → ℤ

abbrev pub pos_part : ℤ → ℕ
pos_part (pos n) = n
pos_part (negsuc n) = 0

abbrev pub neg_part : ℤ → ℕ
neg_part (pos n) = 0
neg_part (negsuc n) = suc n

abbrev pub sub_ℕ : ℕ → ℕ → ℤ
sub_ℕ a b = if leb b a then pos (a - b) else negsuc (b - a - 1)

infixl 65 ◌+ℤ◌ ◌-ℤ◌
unfoldable pub ◌+ℤ◌ : ℤ → ℤ → ℤ
a +ℤ b = sub_ℕ (pos_part a + pos_part b) (neg_part a + neg_part b)

unfoldable pub ◌-ℤ◌ : ℤ → ℤ → ℤ
a -ℤ b = sub_ℕ (pos_part a + neg_part b) (neg_part a + pos_part b)

abbrev pub ltb_ℤ : ℤ → ℤ → Bool
ltb_ℤ a b = ltb (pos_part a + neg_part b) (pos_part b + neg_part a)

abbrev pub eqb_ℤ : ℤ → ℤ → Bool
eqb_ℤ (pos a) (pos b) = a == b
eqb_ℤ (pos a) (negsuc b) = false
eqb_ℤ (negsuc a) (pos b) = false
eqb_ℤ (negsuc a) (negsuc b) = a == b

-- The range from -half to half - 1.
abbrev pub fits : ℕ → ℤ → Bool
fits half (pos n) = ltb n half
fits half (negsuc n) = ltb n half

-- Two's complement: the bits of an integer, and the integer that the bits stand for.
unfoldable pub to_bits : ℕ → ℤ → ℕ
to_bits half (pos n) = n % (half + half)
to_bits half (negsuc n) = half + half - 1 - n % (half + half)

unfoldable pub from_bits : ℕ → ℕ → ℤ
from_bits half n = if ltb n half then pos n else negsuc (half + half - 1 - n)

-- What an overflowing operation keeps of its result.
unfoldable pub wrap : ℕ → ℤ → ℤ
unfolding to_bits from_bits
wrap half x = from_bits half (to_bits half x)

-- `i64::div_euclid` and `i64::rem_euclid` by a positive number.
abbrev pub div_euclid : ℤ → ℕ → ℤ
div_euclid (pos n) d = pos (n / d)
div_euclid (negsuc n) d = negsuc (n / d)

abbrev pub rem_euclid : ℤ → ℕ → ℕ
rem_euclid (pos n) d = n % d
rem_euclid (negsuc n) d = d - 1 - n % d

pub from_bits-to_bits :
    (half : ℕ) (x : ℤ) → fits half x ≡ true → from_bits half (to_bits half x) ≡ x
unfolding from_bits to_bits
from_bits-to_bits half (pos n) h =
    let l = ltb→lt n half h in
    let e = mod-eq_of_lt {n = n} {m = half + half} (omega arith) in rw e (rw h refl)
from_bits-to_bits half (negsuc n) h =
    let l = ltb→lt n half h in
    let e = mod-eq_of_lt {n = n} {m = half + half} (omega arith) in ground arith

pub to_bits-lt : (half : ℕ) (x : ℤ) → fits half x ≡ true → to_bits half x < half + half
unfolding to_bits
to_bits-lt half (pos n) h =
    let l = ltb→lt n half h in
    let e = mod-eq_of_lt {n = n} {m = half + half} (omega arith) in omega arith
to_bits-lt half (negsuc n) h = let l = ltb→lt n half h in omega arith

pub wrap-fits : (half : ℕ) (x : ℤ) → fits half x ≡ true → wrap half x ≡ x
unfolding wrap
wrap-fits half x h = from_bits-to_bits half x h

pub +ℤ-zero : (x : ℤ) → x +ℤ pos 0 ≡ x
unfolding ◌+ℤ◌
+ℤ-zero (pos n) = ground arith
+ℤ-zero (negsuc n) = ground arith
