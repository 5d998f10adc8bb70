-- ===== src/Wire/Receive.antt =====
-- The words that `swdp_read` of m3debug/swdp.c takes in, put together.
use m3dev.Base.{
  ℕ, ◌-◌, ◌*◌, ◌^◌, ◌<◌, ◌≡◌, sym, ap, ◌∙◌, arith, Bool, false, List, [], ◌∷◌, ◌++◌, drop,
  replicate, bit_or, u32, ◌<<<◌, ◌>>>◌,
}
use m3dev.Wire.{revbits}
use m3dev.Wire.Digits.{from_bits, bit, bits_from, shift_left, shift_right, from_bits-bit}
use m3dev.Wire.Reverse.{revbits-from_bits}
use m3dev.Wire.Line.{msb_first}
use m3dev.Wire.Frames.{bit_or-append}

abbrev reverse_onto : List Bool → List Bool → List Bool
reverse_onto [] acc = acc
reverse_onto (b ∷ bs) acc = reverse_onto bs (b ∷ acc)

abbrev lowest_first : List Bool → List Bool
lowest_first bs = reverse_onto bs []

-- The words of `receive_value` that come in when the target puts `v`, the lowest digit first, its
-- parity digit `p` and a turnaround `x` on the wire.
pub record Carries (v a b c : ℕ) (p x : Bool) : Type 0 where
  pub first_fits : a < 2 ^ 16
  pub second_fits : b < 2 ^ 8
  pub third_fits : c < 2 ^ 10
  pub first : msb_first 16 a ≡ bits_from 16 0 (bit v)
  pub second : msb_first 8 b ≡ bits_from 8 16 (bit v)
  pub third : msb_first 10 c ≡ bits_from 8 24 (bit v) ++ (p ∷ x ∷ [])

module _ (v a b c : ℕ) (p x : Bool) (on_wire : Carries v a b c p x) where
  low : List Bool
  low = lowest_first (bits_from 16 0 (bit v))

  middle : List Bool
  middle = lowest_first (bits_from 8 16 (bit v))

  high : List Bool
  high = lowest_first (bits_from 8 24 (bit v) ++ (p ∷ x ∷ []))

  a_lem : a ≡ from_bits low
  unfolding low
  a_lem =
      sym (from_bits-bit 16 a on_wire.first_fits)
      ∙ ap (λ bs. from_bits (lowest_first bs)) on_wire.first

  b_lem : b ≡ from_bits middle
  unfolding middle
  b_lem =
      sym (from_bits-bit 8 b on_wire.second_fits)
      ∙ ap (λ bs. from_bits (lowest_first bs)) on_wire.second

  c_lem : c ≡ from_bits high
  unfolding high
  c_lem =
      sym (from_bits-bit 10 c on_wire.third_fits)
      ∙ ap (λ bs. from_bits (lowest_first bs)) on_wire.third

  two_words : bit_or (u32 (a <<< 16)) (b <<< 8) ≡ from_bits (middle ++ low) * 2 ^ 8
  unfolding low middle
  two_words =
      let whole : u32 (a <<< 16) ≡ a * 2 ^ 16 = omega (arith, on_wire.first_fits) in
      rw (whole, a_lem, b_lem, shift_left 8 middle, shift_left 8 (middle ++ low))
        (bit_or-append (replicate 8 false ++ middle) low)

  -- They make up `v`, whatever the parity digit is.
  pub received_value :
      v < 2 ^ 32 → revbits (bit_or (bit_or (u32 (a <<< 16)) (b <<< 8)) (c >>> 2)) ≡ v
  unfolding low middle high
  received_value fits =
      let e : bit_or (bit_or (u32 (a <<< 16)) (b <<< 8)) (c >>> 2)
          ≡ from_bits (bits_from 32 0 (λ i. bit v (31 - i))) =
        rw (two_words, c_lem, shift_right 2 high) (bit_or-append (drop 2 high) (middle ++ low)) in
      ap revbits e ∙ revbits-from_bits (λ i. bit v (31 - i)) ∙ from_bits-bit 32 v fits
