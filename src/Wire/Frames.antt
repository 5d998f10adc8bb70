-- ===== src/Wire/Frames.antt =====
-- The words of m3debug/swdp.c's transfers as digits on the wire.
use m3dev.Base.{
  ℕ, zero, suc, ◌-◌, ◌*◌, ◌%◌, ◌^◌, ◌<◌, ◌≡◌, refl, sym, ap, ◌∙◌, arith, Bool, true, false, List,
  [], ◌∷◌, ◌++◌, ◌==◌, take, drop, length, get_or, bit_or, bit_or_fields, u32, ◌<<<◌, ◌>>>◌,
}
use m3dev.Wire.{revbits, parity}
use m3dev.Wire.Digits.{
  from_bits, bit, bits_from, shift_left, shift_right, wrap, from_bits-append, from_bits-lt,
  bit-from_bits,
}
use m3dev.Wire.Reverse.{revbits-bits}
use m3dev.Wire.Parity.{ones, parity-ones}
use m3dev.Wire.Line.{msb_first}

-- The `k` lowest digits of a list, the highest first.
abbrev from_top : ℕ → List Bool → List Bool
from_top zero bs = []
from_top (suc k) bs = get_or bs k false ∷ from_top k bs

msb_first-from_bits : (k : ℕ) (bs : List Bool) → msb_first k (from_bits bs) ≡ from_top k bs
msb_first-from_bits zero bs = refl
msb_first-from_bits (suc k) bs = rw (bit-from_bits bs k, msb_first-from_bits k bs)

pub bit_or-append :
    (xs ys : List Bool)
    → bit_or (from_bits ys * 2 ^ length xs) (from_bits xs) ≡ from_bits (xs ++ ys)
bit_or-append xs ys =
    bit_or_fields (length xs) (from_bits ys) (from_bits xs) (from_bits-lt xs)
    ∙ sym (from_bits-append xs ys)

-- Whether the number of ones is odd.
abbrev pub odd : ℕ → Bool
odd v = ones v % 2 == 1

one_digit : 0x100 ≡ from_bits (true ∷ []) * 2 ^ 8
unfolding from_bits
one_digit = refl

from_bits_even : (bs : List Bool) → from_bits (false ∷ bs) ≡ from_bits bs * 2 ^ 1
unfolding from_bits
from_bits_even bs = omega arith

parity_digit : (v : ℕ) → parity v ≡ from_bits (odd v ∷ [])
unfolding from_bits
parity_digit v = ground (arith, parity-ones v)

module _ (v : ℕ) (fits : v < 2 ^ 32) where
  reversed : List Bool
  reversed = bits_from 32 0 (λ i. bit v (31 - i))

  -- The three words of `swdp_write`: X and D0 to D7, D8 to D23, D24 to D31 and P.
  pub first_word : msb_first 9 (bit_or 0x100 (revbits v >>> 24)) ≡ true ∷ bits_from 8 0 (bit v)
  unfolding reversed
  first_word = ap (msb_first 9) e ∙ msb_first-from_bits 9 (drop 24 reversed ++ (true ∷ []))
    where
      e : bit_or 0x100 (revbits v >>> 24) ≡ from_bits (drop 24 reversed ++ (true ∷ []))
      e =
          rw (revbits-bits v fits, shift_right 24 reversed, one_digit)
            (bit_or-append (drop 24 reversed) (true ∷ []))

  pub second_word : msb_first 16 (revbits v >>> 8) ≡ bits_from 16 8 (bit v)
  unfolding reversed
  second_word =
      rw (revbits-bits v fits, shift_right 8 reversed) (msb_first-from_bits 16 (drop 8 reversed))

  pub third_word :
      msb_first 9 (bit_or (u32 (revbits v <<< 1)) (parity v))
      ≡ bits_from 8 24 (bit v) ++ (odd v ∷ [])
  unfolding reversed
  third_word = ap (msb_first 9) e ∙ msb_first-from_bits 9 (odd v ∷ take 31 reversed)
    where
      e : bit_or (u32 (revbits v <<< 1)) (parity v) ≡ from_bits (odd v ∷ take 31 reversed)
      e =
          rw
            (
              revbits-bits v fits,
              shift_left 1 reversed,
              wrap 32 (false ∷ reversed),
              from_bits_even (take 31 reversed),
              parity_digit v,
            )
            (bit_or-append (odd v ∷ []) (take 31 reversed))
