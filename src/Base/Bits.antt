-- ===== src/Base/Bits.antt =====
-- C's `&` and `|` where they select and combine fields of a word, as quotients and remainders. Each
-- law is first proved of `digits`, which the native operations run on as many rounds as the first
-- operand's value.
use Prim.Native.Nat.{
  ℕ, zero, suc, ◌+◌, ◌-◌, ◌*◌, ◌/◌, ◌%◌, ◌^◌, ◌≤◌, ◌<◌, min, max, bit_and, bit_or, digits,
  bit_and-bitwise, bit_or-bitwise,
}
use mathlib.Core.Path.{◌≡◌, refl, ap, sym, ◌∙◌}
use native.Mathlib.Nat.{pow-suc, one-le-pow, div-div-eq-div-mul}
use native.Mathlib.Omega.{arith}

abbrev conjoin : ℕ → ℕ → ℕ → ℕ
conjoin rounds a b = digits (λ y. 0) min rounds a b

abbrev disjoin : ℕ → ℕ → ℕ → ℕ
disjoin rounds a b = digits (λ y. y) max rounds a b

-- One more bit doubles a field's place.
shift-suc : (x k : ℕ) → x * 2 ^ suc k ≡ x * 2 ^ k * 2
shift-suc x k = ground (arith, pow-suc 2 k, ap (λ (y : ℕ). x * y) (pow-suc 2 k))

conjoin-none : (n b : ℕ) → conjoin n 0 b ≡ 0
conjoin-none zero b = refl
conjoin-none (suc n) b = refl

disjoin-none : (n b : ℕ) → disjoin n 0 b ≡ b
disjoin-none zero b = refl
disjoin-none (suc n) b = refl

-- A round takes the lowest digits off.
conjoin-suc :
    (n a b : ℕ) → conjoin (suc n) a b ≡ conjoin n (a / 2) (b / 2) * 2 + min (a % 2) (b % 2)
conjoin-suc n zero b = omega (arith, conjoin-none n (b / 2))
conjoin-suc n (suc a) b = refl

disjoin-suc :
    (n a b : ℕ) → disjoin (suc n) a b ≡ disjoin n (a / 2) (b / 2) * 2 + max (a % 2) (b % 2)
disjoin-suc n zero b = omega (arith, disjoin-none n (b / 2))
disjoin-suc n (suc a) b = refl

conjoin-mask : (n k a : ℕ) → a ≤ n → conjoin n a (2 ^ k - 1) ≡ a % 2 ^ k
conjoin-mask zero k a le = ground (arith, one-le-pow k 2)
conjoin-mask (suc n) zero a le =
    omega (arith, conjoin-suc n a 0, conjoin-mask n 0 (a / 2) (omega arith))
conjoin-mask (suc n) (suc k) a le = ground (
  arith,
  conjoin-suc n a (2 ^ suc k - 1),
  pow-suc 2 k,
  one-le-pow k 2,
  div-div-eq-div-mul a 2 (2 ^ k),
  conjoin-mask n k (a / 2) (omega arith),
)

conjoin-field :
    (n k j a : ℕ) → a ≤ n → conjoin n a ((2 ^ j - 1) * 2 ^ k) ≡ a / 2 ^ k % 2 ^ j * 2 ^ k
conjoin-field n zero j a le = ground (arith, conjoin-mask n j a le)
conjoin-field zero (suc k) j a le = ground (arith, one-le-pow k 2, one-le-pow j 2)
conjoin-field (suc n) (suc k) j a le = ground (
  arith,
  conjoin-suc n a ((2 ^ j - 1) * 2 ^ suc k),
  shift-suc (2 ^ j - 1) k,
  shift-suc (a / 2 / 2 ^ k % 2 ^ j) k,
  pow-suc 2 k,
  div-div-eq-div-mul a 2 (2 ^ k),
  conjoin-field n k j (a / 2) (omega arith),
)

disjoin-none_right : (n a : ℕ) → a ≤ n → disjoin n a 0 ≡ a
disjoin-none_right zero a le = omega arith
disjoin-none_right (suc n) a le =
    omega (arith, disjoin-suc n a 0, disjoin-none_right n (a / 2) (omega arith))

-- With enough rounds for both, the operands may change places.
disjoin-swap : (n m a b : ℕ) → a ≤ n → b ≤ m → disjoin n a b ≡ disjoin m b a
disjoin-swap zero zero a b p q = omega (arith, p, q)
disjoin-swap zero (suc m) a b p q = ground (arith, p, disjoin-none_right (suc m) b q)
disjoin-swap (suc n) zero a b p q = ground (arith, q, disjoin-none_right (suc n) a p)
disjoin-swap (suc n) (suc m) a b p q = omega (
  arith,
  disjoin-suc n a b,
  disjoin-suc m b a,
  disjoin-swap n m (a / 2) (b / 2) (omega arith) (omega arith),
)

disjoin-fields : (n k q r : ℕ) → r ≤ n → r < 2 ^ k → disjoin n r (q * 2 ^ k) ≡ q * 2 ^ k + r
disjoin-fields n zero q r le fits = ground (arith, fits, disjoin-none n (q * 2 ^ 0))
disjoin-fields zero (suc k) q r le fits = omega arith
disjoin-fields (suc n) (suc k) q r le fits = ground (
  arith,
  disjoin-suc n r (q * 2 ^ suc k),
  shift-suc q k,
  pow-suc 2 k,
  disjoin-fields n k q (r / 2) (omega arith),
)

-- A mask of `k` low bits is the remainder by `2 ^ k`.
pub bit_and_mask : (k a : ℕ) → bit_and a (2 ^ k - 1) ≡ a % 2 ^ k
bit_and_mask k a = bit_and-bitwise a (2 ^ k - 1) ∙ conjoin-mask a k a (omega arith)

-- A mask of `j` bits above `k` cleared ones keeps that field in its place.
pub bit_and_field : (k j a : ℕ) → bit_and a ((2 ^ j - 1) * 2 ^ k) ≡ a / 2 ^ k % 2 ^ j * 2 ^ k
bit_and_field k j a = bit_and-bitwise a ((2 ^ j - 1) * 2 ^ k) ∙ conjoin-field a k j a (omega arith)

pub bit_or_comm : (a b : ℕ) → bit_or a b ≡ bit_or b a
bit_or_comm a b =
    bit_or-bitwise a b ∙ disjoin-swap a b a b (omega arith) (omega arith) ∙ sym (bit_or-bitwise b a)

-- A field shifted past the other operand's bits, in both orders.
pub bit_or_fields_low : (k q r : ℕ) → r < 2 ^ k → bit_or r (q * 2 ^ k) ≡ q * 2 ^ k + r
bit_or_fields_low k q r fits =
    bit_or-bitwise r (q * 2 ^ k) ∙ disjoin-fields r k q r (omega arith) fits

pub bit_or_fields : (k q r : ℕ) → r < 2 ^ k → bit_or (q * 2 ^ k) r ≡ q * 2 ^ k + r
bit_or_fields k q r fits = bit_or_comm (q * 2 ^ k) r ∙ bit_or_fields_low k q r fits

conjoin-rounds : (n m a b : ℕ) → a ≤ n → a ≤ m → conjoin n a b ≡ conjoin m a b
conjoin-rounds zero m a b p q = ground (arith, p, conjoin-none m b)
conjoin-rounds (suc n) zero a b p q = ground (arith, q, conjoin-none (suc n) b)
conjoin-rounds (suc n) (suc m) a b p q = omega (
  arith,
  conjoin-suc n a b,
  conjoin-suc m a b,
  conjoin-rounds n m (a / 2) (b / 2) (omega arith) (omega arith),
)

-- The lowest digit of `&` apart from the others.
pub bit_and_lowest : (a b : ℕ) → bit_and a b ≡ bit_and (a / 2) (b / 2) * 2 + min (a % 2) (b % 2)
bit_and_lowest a b = omega (
  arith,
  bit_and-bitwise a b,
  bit_and-bitwise (a / 2) (b / 2),
  conjoin-rounds a (suc a) a b (omega arith) (omega arith),
  conjoin-suc a a b,
  conjoin-rounds a (a / 2) (a / 2) (b / 2) (omega arith) (omega arith),
)

disjoin-rounds : (n m a b : ℕ) → a ≤ n → a ≤ m → disjoin n a b ≡ disjoin m a b
disjoin-rounds zero m a b p q = ground (arith, p, disjoin-none m b)
disjoin-rounds (suc n) zero a b p q = ground (arith, q, disjoin-none (suc n) b)
disjoin-rounds (suc n) (suc m) a b p q = omega (
  arith,
  disjoin-suc n a b,
  disjoin-suc m a b,
  disjoin-rounds n m (a / 2) (b / 2) (omega arith) (omega arith),
)

-- The lowest digit of `|` apart from the others.
pub bit_or_lowest : (a b : ℕ) → bit_or a b ≡ bit_or (a / 2) (b / 2) * 2 + max (a % 2) (b % 2)
bit_or_lowest a b = omega (
  arith,
  bit_or-bitwise a b,
  bit_or-bitwise (a / 2) (b / 2),
  disjoin-rounds a (suc a) a b (omega arith) (omega arith),
  disjoin-suc a a b,
  disjoin-rounds a (a / 2) (a / 2) (b / 2) (omega arith) (omega arith),
)

-- A mask's low and high part, applied to those of the number.
pub bit_and_split :
    (k a m r : ℕ)
    → r < 2 ^ k
    → bit_and a (m * 2 ^ k + r) ≡ bit_and (a / 2 ^ k) m * 2 ^ k + bit_and (a % 2 ^ k) r
bit_and_split zero a m r fits = ground (
  arith,
  bit_and_lowest 0 r,
  ap (λ (x : ℕ). bit_and a x) (let e : m * 1 + r ≡ m = omega arith in e),
)
bit_and_split (suc k) a m r fits = ground (
  arith,
  bit_and_lowest a (m * 2 ^ suc k + r),
  bit_and_lowest (a % 2 ^ suc k) r,
  shift-suc m k,
  shift-suc (bit_and (a / 2 ^ suc k) m) k,
  pow-suc 2 k,
  one-le-pow k 2,
  div-div-eq-div-mul a 2 (2 ^ k),
  bit_and_split k (a / 2) m (r / 2) (omega (arith, pow-suc 2 k)),
)
