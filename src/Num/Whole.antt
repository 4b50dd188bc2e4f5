-- ===== src/Num/Whole.antt =====
-- The laws can be met: whole numbers, with a literal cut off at the point and `/` rounded to zero.
use Prim.Native.Nat.{◌^◌, ◌+◌, ◌/◌ as nat_div}
use ghost_amm.Base.{ℕ, suc, refl, none, List, [], ◌∷◌, arith, if◌then◌else◌}
use ghost_amm.Base.Int.{
  ℤ, pos, negsuc, pos_part, neg_part, ◌+ℤ◌, ◌-ℤ◌, ◌*ℤ◌, ltb_ℤ, leb_ℤ, int_eq, sub_ℕ, +ℤ_parts,
  -ℤ_parts,
}
use ghost_amm.Num.{Num, IsOrdered, IsArithmetic, ◌≼◌}

abbrev magnitude : ℤ → ℕ
magnitude a = pos_part a + neg_part a

abbrev sign_of : ℤ → ℕ → ℤ
sign_of a k = if ltb_ℤ a (pos 0) then sub_ℕ 0 k else pos k

-- Rounded to zero, as long as the divisor is positive.
abbrev whole_div : ℤ → ℤ → ℤ
whole_div a b = sign_of a (nat_div (magnitude a) (pos_part b))

-- A stand-in for `exp`: positive values grow, zero goes to one, and negative values go to zero.
abbrev whole_exp : ℤ → ℤ
whole_exp a = if ltb_ℤ a (pos 0) then pos 0 else pos (suc (pos_part a))

abbrev whole_sum : List ℤ → ℤ
whole_sum [] = pos 0
whole_sum (x ∷ xs) = x +ℤ whole_sum xs

instance abbrev pub whole : Num ℤ
whole = record {
  lt = ltb_ℤ;
  le = leb_ℤ;
  equality = int_eq;
  plus = ◌+ℤ◌;
  minus = ◌-ℤ◌;
  times = ◌*ℤ◌;
  sum = whole_sum;
  over = whole_div;
  neg = λ a. pos 0 -ℤ a;
  dec = λ m e. pos (nat_div m (10 ^ e));
  exp = whole_exp;
  log10 = λ a. pos 0;
  floor = λ a. a;
  ceil = λ a. a;
  round_to = λ a k. a;
  round = λ a. a;
  truncate = λ a. a;
  of_int = λ a. a;
  parse_int = λ s. none;
}

pub whole-IsOrdered : IsOrdered ℤ
whole-IsOrdered = record {
  le_refl = λ a. ground arith;
  le_trans = λ a b c h k. ground arith;
  le_antisymm = λ a b h k. ground arith;
  le_total = λ a b. ground arith;
  lt-eq-not-le = λ a b. ground arith;
}

whole_plus_mono : (a b c d : ℤ) → a ≼ b → c ≼ d → a +ℤ c ≼ b +ℤ d
whole_plus_mono a b c d h k = ground (arith, +ℤ_parts a c, +ℤ_parts b d)

whole_times_nonneg : (a b : ℤ) → pos 0 ≼ a → pos 0 ≼ b → pos 0 ≼ a *ℤ b
unfolding ◌*ℤ◌
whole_times_nonneg (pos a) (pos b) h k = ground arith
whole_times_nonneg (pos a) (negsuc b) h k = ground arith
whole_times_nonneg (negsuc a) b h k = ground arith

whole_times-le : (a b : ℤ) → a ≼ pos 1 → pos 0 ≼ b → a *ℤ b ≼ b
unfolding ◌*ℤ◌
whole_times-le (pos a) (pos b) h k = ground arith
whole_times-le (pos a) (negsuc b) h k = ground arith
whole_times-le (negsuc a) (pos b) h k = ground arith
whole_times-le (negsuc a) (negsuc b) h k = ground arith

whole_middle-le : (a b : ℤ) → a ≼ b → whole_div (a +ℤ b) (pos 2) ≼ b
whole_middle-le a b h = ground (arith, +ℤ_parts a b)

whole_le-middle : (a b : ℤ) → a ≼ b → a ≼ whole_div (a +ℤ b) (pos 2)
whole_le-middle a b h = ground (arith, +ℤ_parts a b)

pub whole-IsArithmetic : IsArithmetic ℤ
whole-IsArithmetic = record {
  plus_mono = whole_plus_mono;
  minus_mono = λ a b c h. ground (arith, -ℤ_parts a c, -ℤ_parts b c);
  minus_nonneg = λ a b h. ground (arith, -ℤ_parts a b);
  minus-le = λ a b h. ground (arith, -ℤ_parts a b);
  minus_self = λ a. ground (arith, -ℤ_parts a a);
  times_nonneg = whole_times_nonneg;
  times-le = whole_times-le;
  neg_lt = λ a b. ground (arith, -ℤ_parts (pos 0) a, -ℤ_parts (pos 0) b);
  middle-le = whole_middle-le;
  le-middle = whole_le-middle;
  zero-le-one = refl;
}
