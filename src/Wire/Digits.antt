-- ===== src/Wire/Digits.antt =====
-- Numbers as lists of binary digits, the lowest first, for the mask tricks of m3debug/swdp.c.
use m3dev.Base.{
  ℕ, zero, suc, ◌+◌, ◌*◌, ◌/◌, ◌%◌, ◌^◌, ◌≡◌, refl, ap, ◌∙◌, arith, Bool, true, false, not, List,
  [], ◌∷◌, ◌++◌, ◌==◌, take, drop, replicate, get_or, length, ◌<◌, Bool-cases, inl, inr, bit_and,
  bit_or, bit_and_lowest, bit_or_lowest, bit_and_mask, bit_or_fields,
}
use native.Mathlib.Nat.{pow-suc, mod-eq_of_lt, one-le-pow, zero-div, div-div-eq-div-mul}

abbrev pub digit : Bool → ℕ
digit true = 1
digit false = 0

unfoldable pub from_bits : List Bool → ℕ
from_bits [] = 0
from_bits (b ∷ bs) = from_bits bs * 2 + digit b

-- Binary digit `i` of a number.
abbrev pub bit : ℕ → ℕ → Bool
bit n i = n / 2 ^ i % 2 == 1

-- `f i`, `f (i + 1)`, …, `k` of them.
abbrev pub bits_from : ℕ → ℕ → (ℕ → Bool) → List Bool
bits_from zero i f = []
bits_from (suc k) i f = f i ∷ bits_from k (i + 1) f

abbrev pub head : List Bool → Bool
head [] = false
head (b ∷ bs) = b

abbrev pub tail : List Bool → List Bool
tail [] = []
tail (b ∷ bs) = bs

abbrev pub complement : List Bool → List Bool
complement [] = []
complement (m ∷ ms) = not m ∷ complement ms

-- The digits of the first list where the mask is set, and those of the second elsewhere.
abbrev pub merge : List Bool → List Bool → List Bool → List Bool
merge [] xs ys = []
merge (true ∷ ms) xs ys = head xs ∷ merge ms (tail xs) (tail ys)
merge (false ∷ ms) xs ys = head ys ∷ merge ms (tail xs) (tail ys)

from_bits_step : (bs : List Bool) → from_bits bs ≡ from_bits (tail bs) * 2 + digit (head bs)
unfolding from_bits
from_bits_step [] = refl
from_bits_step (b ∷ bs) = refl

from_bits_parts :
    (bs : List Bool)
    → (from_bits bs / 2 ≡ from_bits (tail bs)) × (from_bits bs % 2 ≡ digit (head bs))
from_bits_parts bs = elim (Bool-cases (head bs)) [
  | inl e ↦ ground (arith, from_bits_step bs)
  | inr e ↦ ground (arith, from_bits_step bs)
]

pub shift_right : (k : ℕ) (bs : List Bool) → from_bits bs / 2 ^ k ≡ from_bits (drop k bs)
shift_right zero bs = omega arith
shift_right (suc k) [] = ground (
  arith,
  from_bits_parts [],
  shift_right k [],
  div-div-eq-div-mul (from_bits []) 2 (2 ^ k),
  pow-suc 2 k,
)
shift_right (suc k) (b ∷ bs) = ground (
  arith,
  from_bits_parts (b ∷ bs),
  shift_right k bs,
  div-div-eq-div-mul (from_bits (b ∷ bs)) 2 (2 ^ k),
  pow-suc 2 k,
)

pub shift_left :
    (k : ℕ) (bs : List Bool) → from_bits bs * 2 ^ k ≡ from_bits (replicate k false ++ bs)
unfolding from_bits
shift_left zero bs = omega arith
shift_left (suc k) bs =
    ground (arith, shift_left k bs, pow-suc 2 k, ap (λ (y : ℕ). from_bits bs * y) (pow-suc 2 k))

pub wrap : (k : ℕ) (bs : List Bool) → from_bits bs % 2 ^ k ≡ from_bits (take k bs)
unfolding from_bits
wrap zero bs = omega arith
wrap (suc k) [] = ground (arith, one-le-pow (suc k) 2)
wrap (suc k) (b ∷ bs) = ground (
  arith,
  wrap k bs,
  from_bits_parts (b ∷ bs),
  div-div-eq-div-mul (from_bits (b ∷ bs)) 2 (2 ^ k),
  pow-suc 2 k,
  one-le-pow k 2,
)

pub from_bits-append :
    (xs ys : List Bool) → from_bits (xs ++ ys) ≡ from_bits ys * 2 ^ length xs + from_bits xs
unfolding from_bits
from_bits-append [] ys = omega arith
from_bits-append (x ∷ xs) ys =
    ground (arith, from_bits-append xs ys, ap (λ (y : ℕ). from_bits ys * y) (pow-suc 2 (length xs)))

pub bit-from_bits : (bs : List Bool) (i : ℕ) → bit (from_bits bs) i ≡ get_or bs i false
unfolding from_bits
bit-from_bits [] i = ground (arith, zero-div (2 ^ i))
bit-from_bits (b ∷ bs) zero = ground (arith, from_bits_parts (b ∷ bs))
bit-from_bits (b ∷ bs) (suc i) = ground (
  arith,
  from_bits_parts (b ∷ bs),
  bit-from_bits bs i,
  div-div-eq-div-mul (from_bits (b ∷ bs)) 2 (2 ^ i),
  pow-suc 2 i,
)

-- A number's digits from place `i` on are a field of it.
from_bits-field : (k i n : ℕ) → from_bits (bits_from k i (bit n)) ≡ n / 2 ^ i % 2 ^ k
unfolding from_bits
from_bits-field zero i n = omega arith
from_bits-field (suc k) i n = ground (
  arith,
  from_bits-field k (i + 1) n,
  div-div-eq-div-mul n (2 ^ i) 2,
  div-div-eq-div-mul (n / 2 ^ i) 2 (2 ^ k),
  pow-suc 2 i,
  pow-suc 2 k,
  one-le-pow k 2,
)

-- Every number below the bound is made of its binary digits.
pub from_bits-bit : (k n : ℕ) → n < 2 ^ k → from_bits (bits_from k 0 (bit n)) ≡ n
from_bits-bit k n lt = from_bits-field k 0 n ∙ ground (arith, mod-eq_of_lt lt)

pub bit_or-merge :
    (ms xs ys : List Bool)
    → bit_or
        (bit_and (from_bits xs) (from_bits ms))
        (bit_and (from_bits ys) (from_bits (complement ms)))
      ≡ from_bits (merge ms xs ys)
unfolding from_bits
bit_or-merge [] xs ys =
    ground
      (arith, bit_and_mask 0 (from_bits xs), bit_and_mask 0 (from_bits ys), bit_or_fields 0 0 0)
bit_or-merge (true ∷ ms) xs ys = ground (
  arith,
  bit_or-merge ms (tail xs) (tail ys),
  from_bits_parts xs,
  from_bits_parts ys,
  bit_and_lowest (from_bits xs) (from_bits (true ∷ ms)),
  bit_and_lowest (from_bits ys) (from_bits (false ∷ complement ms)),
  bit_or_lowest (bit_and (from_bits xs) (from_bits (true ∷ ms)))
      (bit_and (from_bits ys) (from_bits (false ∷ complement ms))),
)
bit_or-merge (false ∷ ms) xs ys = ground (
  arith,
  bit_or-merge ms (tail xs) (tail ys),
  from_bits_parts xs,
  from_bits_parts ys,
  bit_and_lowest (from_bits xs) (from_bits (false ∷ ms)),
  bit_and_lowest (from_bits ys) (from_bits (true ∷ complement ms)),
  bit_or_lowest (bit_and (from_bits xs) (from_bits (false ∷ ms)))
      (bit_and (from_bits ys) (from_bits (true ∷ complement ms))),
)

pub from_bits-lt : (bs : List Bool) → from_bits bs < 2 ^ length bs
unfolding from_bits
from_bits-lt [] = omega arith
from_bits-lt (true ∷ bs) = omega (arith, from_bits-lt bs, pow-suc 2 (length bs))
from_bits-lt (false ∷ bs) = omega (arith, from_bits-lt bs, pow-suc 2 (length bs))
