-- ===== src/Wire/Tests.antt =====
-- Runs of m3debug/swdp.c, and its theorems at inputs that meet their hypotheses.
use m3dev.Base.{
  ◌+◌, ◌-◌, ◌%◌, ◌≡◌, refl, arith, true, false, List, [], ◌∷◌, ◌++◌, some, length, replicate,
}
use m3dev.Wire.{Access, revbits, parity, swdp_reset, swdp_write, swdp_read}
use m3dev.Wire.Digits.{from_bits, bit, bits_from}
use m3dev.Wire.Reverse.{revbits-bits}
use m3dev.Wire.Parity.{ones, parity-ones}
use m3dev.Wire.Line.{idle, line, bus, msb_first}
use m3dev.Wire.Receive.{Carries}
use m3dev.Wire.Turn.{Wait, Turn, turn, refusals, requests}
use m3dev.Wire.Write.{transfers, value_frame, swdp_write-line}
use m3dev.Wire.Read.{incoming, swdp_read-line}
use m3dev.Wire.Reset.{Four, four_answers, one_answer, swdp_reset-line}

revbits_run : revbits 0x80000003 ≡ 0xC0000001
unfolding revbits
revbits_run = refl

parity_run : parity 0x80000003 ≡ 1
unfolding parity
parity_run = refl

revbits-bits_example : revbits 6 ≡ from_bits (bits_from 32 0 (λ i. bit 6 (31 - i)))
revbits-bits_example = revbits-bits 6 (omega arith)

parity-ones_example : parity 7 ≡ ones 7 % 2
parity-ones_example = parity-ones 7

abbrev wait : Wait
wait = record { polls = 2; word = 0xFF }

abbrev slow_turn : Turn
slow_turn = record { request = wait; polls = 1; undriven = 1 }

abbrev waits : List Turn
waits = slow_turn ∷ []

-- WR_BUFFER-like request 0xA9 with one WAIT before the target accepts it.
swdp_write-line_example :
    (l' : List Access) × (swdp_write 2 0xA9 0x80000001
        (bus (refusals waits (turn slow_turn 4 (transfers wait wait wait (7 ∷ [])))) [] 0 0)
      ≡ some (false, bus (7 ∷ []) l' 0 (0 + length waits)))
    × (line (idle []) l' ≡ idle ([] ++ (requests 2 0xA9 ++ value_frame 0x80000001)))
swdp_write-line_example =
    swdp_write-line 2 0xA9 0x80000001 waits slow_turn wait wait wait (7 ∷ []) [] 0 0 (idle []) []
      (omega arith) refl (omega arith)

carried : Carries 0x80000001 0x8000 0 4 false false
carried = record {
  first_fits = omega arith;
  second_fits = omega arith;
  third_fits = omega arith;
  first = refl;
  second = refl;
  third = refl;
}

swdp_read-line_example :
    (l' : List Access) × (swdp_read 2 0xA5
        (bus (refusals waits (turn slow_turn 4 (incoming 1 0x8000 0 0 2 4 []))) [] 0 0)
      ≡ some (false, 0x80000001, bus [] l' (0 + length waits) 0))
    × (line (idle []) l' ≡ idle ([] ++ requests 2 0xA5))
swdp_read-line_example =
    swdp_read-line 2 0xA5 0x80000001 0x8000 0 4 1 0 2 false false waits slow_turn [] [] 0 0
      (idle []) [] (omega arith) carried refl (omega arith)

abbrev four : Four
four = record { polls = 1; w0 = 0; w1 = 1; w2 = 2; w3 = 3 }

swdp_reset-line_example :
    (l' : List Access) × (swdp_reset
        (bus (four_answers four (one_answer 3 9 (four_answers four []))) [] 0 0)
      ≡ some (bus [] l' 0 0))
    × (line (idle []) l'
        ≡ idle (
            (((line (idle []) []).sent ++ replicate 64 true) ++ msb_first 16 0b0111100111100111)
            ++ replicate 64 true))
swdp_reset-line_example = swdp_reset-line four four 3 9 0 0 [] [] (idle [])
