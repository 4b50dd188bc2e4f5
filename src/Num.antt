-- ===== src/Num.antt =====
-- All that the code does with a `float`, as an interface: the comparisons, the arithmetic, and what
-- it takes from `math` and the builtins (`int`, `round`, `float` of an integer).
-- The carrier stands for the floats that are not NaN, with 0.0 and -0.0 as one value, as `==` and
-- dict keys have them. The interface fixes no rounding; what a theorem needs of the operations is a
-- field of the law records `IsOrdered` and `IsArithmetic`, which floats meet in every rounding mode.
use ghost_amm.Base.{ℕ, ◌≡◌, ◌⊎◌, Bool, true, not, Option, String, List, Eq, if◌then◌else◌}
use ghost_amm.Base.Int.{ℤ}
pub mod Order
pub mod Whole
pub mod Extremes

pub record Num (F : Type 0) : Type 0 where
  pub lt : F → F → Bool
  pub le : F → F → Bool
  -- `==`, which also finds the key of a dict.
  pub equality : Eq F
  pub plus : F → F → F
  pub minus : F → F → F
  pub times : F → F → F
  -- `sum(xs)`, which since Python 3.12 makes up for the rounding of the partial sums.
  pub sum : List F → F
  pub over : F → F → F
  pub neg : F → F
  -- The literal m · 10^-e: `dec 5 1` is 0.5.
  pub dec : ℕ → ℕ → F
  pub exp : F → F
  pub log10 : F → F
  -- `math.floor` and `math.ceil`, as the float of the integer.
  pub floor : F → F
  pub ceil : F → F
  -- `round(x, n)` and `round(x)`.
  pub round_to : F → ℕ → F
  pub round : F → ℤ
  -- `int(x)` of a float, `float(n)` of an integer, and `int(s)` of a text, `none` if it raises.
  pub truncate : F → ℤ
  pub of_int : ℤ → F
  pub parse_int : String → Option ℤ

module _ {F : Type 0} ⦃n : Num F⦄ where
  infixl 65 ◌+◌ ◌-◌
  infixl 70 ◌*◌ ◌/◌
  infix 50 ◌≼◌ ◌≺◌
  abbrev pub ltb : F → F → Bool
  ltb = n.lt

  abbrev pub leb : F → F → Bool
  leb = n.le

  abbrev pub ◌+◌ : F → F → F
  ◌+◌ = n.plus

  abbrev pub ◌-◌ : F → F → F
  ◌-◌ = n.minus

  abbrev pub ◌*◌ : F → F → F
  ◌*◌ = n.times

  abbrev pub ◌/◌ : F → F → F
  ◌/◌ = n.over

  abbrev pub dec : ℕ → ℕ → F
  dec = n.dec

  abbrev pub ◌≼◌ : F → F → Type 0
  a ≼ b = n.le a b ≡ true

  abbrev pub ◌≺◌ : F → F → Type 0
  a ≺ b = n.lt a b ≡ true

  -- Python's `max` and `min` keep the first of two equal values.
  abbrev pub max : F → F → F
  max a b = if n.lt a b then b else a

  abbrev pub min : F → F → F
  min a b = if n.lt b a then b else a

  abbrev pub abs : F → F
  abs a = if n.lt a (n.dec 0 0) then n.neg a else a

  instance abbrev pub num_eq : Eq F
  num_eq = n.equality

-- The comparisons are a total order.
pub record IsOrdered (F : Type 0) ⦃n : Num F⦄ : Type 0 where
  pub le_refl : (a : F) → a ≼ a
  pub le_trans : (a b c : F) → a ≼ b → b ≼ c → a ≼ c
  pub le_antisymm : (a b : F) → a ≼ b → b ≼ a → a ≡ b
  pub le_total : (a b : F) → (a ≼ b) ⊎ (b ≼ a)
  pub lt-eq-not-le : (a b : F) → ltb a b ≡ not (leb b a)

-- Signs and monotonicity, which rounding keeps.
pub record IsArithmetic (F : Type 0) ⦃n : Num F⦄ : Type 0 where
  pub plus_mono : (a b c d : F) → a ≼ b → c ≼ d → a + c ≼ b + d
  pub minus_mono : (a b c : F) → a ≼ b → a - c ≼ b - c
  pub minus_nonneg : (a b : F) → b ≼ a → dec 0 0 ≼ a - b
  pub minus-le : (a b : F) → dec 0 0 ≼ b → a - b ≼ a
  pub minus_self : (a : F) → a - a ≡ dec 0 0
  pub times_nonneg : (a b : F) → dec 0 0 ≼ a → dec 0 0 ≼ b → dec 0 0 ≼ a * b
  -- A factor of at most 1 does not make a nonnegative value larger.
  pub times-le : (a b : F) → a ≼ dec 1 0 → dec 0 0 ≼ b → a * b ≼ b
  pub neg_lt : (a b : F) → ltb (n.neg a) (n.neg b) ≡ ltb b a
  -- The middle of two values lies between them.
  pub middle-le : (a b : F) → a ≼ b → (a + b) / dec 2 0 ≼ b
  pub le-middle : (a b : F) → a ≼ b → a ≼ (a + b) / dec 2 0
  pub zero-le-one : n.le (n.dec 0 0) (n.dec 1 0) ≡ true
