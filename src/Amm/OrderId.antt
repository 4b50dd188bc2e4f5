-- ===== src/Amm/OrderId.antt =====
-- The order ids of ghost_amm/amm/projector.py, `f"v-{int(now_ms)}-{counter:06d}"`, by their two numbers,
-- and the order of their texts, by which ghost_amm/replay/fill_model.py breaks ties.
use Prim.Native.Nat.{◌+◌, ◌-◌, ◌/◌, ◌%◌}
use ghost_amm.Base.{
  ℕ, zero, suc, ◌≡◌, ◌↔◌, refl, Bool, true, false, List, [], ◌∷◌, ◌++◌, Eq, ◌==◌, if◌then◌else◌,
  nat_ltb, length, nat_eq, arith,
}
use ghost_amm.Base.Int.{ℤ, pos, negsuc, int_eq}
use ghost_amm.Exchange.BitbankRules.{Side, side_eq, side_beq_iff}

pub record OrderId : Type 0 where
  pub at : ℤ
  pub number : ℕ

unfoldable pub order_id_beq : OrderId → OrderId → Bool
order_id_beq a b = if a.at == b.at then a.number == b.number else false

pub order_id_beq_iff : (a b : OrderId) → (order_id_beq a b ≡ true) ↔ (a ≡ b)
unfolding order_id_beq
order_id_beq_iff a b = ground arith

instance abbrev pub order_id_eq : Eq OrderId
order_id_eq = record { beq = order_id_beq; beq_iff = order_id_beq_iff }

-- The key `f"{side}:{level}"` of an order.
pub record Key : Type 0 where
  pub side : Side
  pub level : ℕ

unfoldable pub key_beq : Key → Key → Bool
key_beq a b = if a.side == b.side then a.level == b.level else false

pub key_beq_iff : (a b : Key) → (key_beq a b ≡ true) ↔ (a ≡ b)
unfolding key_beq
key_beq_iff a b = ground (arith, side_beq_iff a.side b.side)

instance abbrev pub key_eq : Eq Key
key_eq = record { beq = key_beq; beq_iff = key_beq_iff }

-- The decimal digits of a number, before those found so far. The number itself is fuel enough, since
-- each round takes a digit off.
decimal : ℕ → ℕ → List ℕ → List ℕ
decimal zero k digits = digits
decimal (suc fuel) k digits =
    let rest = decimal fuel (k / 10) ((b'0' + k % 10) ∷ digits) in
    if nat_ltb k 10 then (b'0' + k) ∷ digits else rest

digits_of : ℕ → List ℕ
unfolding decimal
digits_of k = decimal (suc k) k []

pad : ℕ → List ℕ → List ℕ
pad zero digits = digits
pad (suc k) digits = b'0' ∷ pad k digits

unfoldable pub int_text : ℤ → List ℕ
unfolding digits_of
int_text (pos k) = digits_of k
int_text (negsuc k) = b'-' ∷ digits_of (suc k)

pub id_text : OrderId → List ℕ
unfolding int_text pad
id_text i =
    let number = digits_of i.number in
    b'v' ∷ b'-' ∷ (int_text i.at ++ (b'-' ∷ pad (6 - length number) number))

-- `<` on texts, by their code points.
unfoldable pub text_lt : List ℕ → List ℕ → Bool
text_lt a [] = false
text_lt [] (y ∷ ys) = true
text_lt (x ∷ xs) (y ∷ ys) = if x == y then text_lt xs ys else nat_ltb x y

unfoldable pub id_lt : OrderId → OrderId → Bool
unfolding id_text text_lt
id_lt a b = text_lt (id_text a) (id_text b)

-- "v-1700-000042"
padded :
    id_text (record { at = pos 1700; number = 42 })
    ≡ b'v' ∷ b'-' ∷ b'1' ∷ b'7' ∷ b'0' ∷ b'0' ∷ b'-' ∷ b'0' ∷ b'0' ∷ b'0' ∷ b'0' ∷ b'4' ∷ b'2' ∷ []
unfolding id_text
padded = refl
