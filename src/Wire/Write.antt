-- ===== src/Wire/Write.antt =====
-- `swdp_write` of m3debug/swdp.c on the wire.
use m3dev.Base.{
  ℕ, suc, ◌+◌, ◌-◌, ◌*◌, ◌^◌, ◌<◌, ◌≡◌, ◌≢◌, refl, ap, ◌∙◌, arith, Bool, true, false, List, [], ◌∷◌,
  ◌++◌, append_assoc, some, length, ◌==◌, bit_or, u32, ◌<<<◌, ◌>>>◌,
}
use native.Mathlib.Nat.{add-zero, zero-add}
use m3dev.Wire.{Access, dir_out, revbits, parity, send_value, swdp_write}
use m3dev.Wire.Digits.{bit, bits_from}
use m3dev.Wire.Line.{Line, idle, line, answered, bus, moved, transfer-answered, line-moved}
use m3dev.Wire.Frames.{odd, first_word, second_word, third_word}
use m3dev.Wire.Turn.{
  Wait, Turn, turn, refusals, requests, log_of, asked, gave_up, line-asked, ack-field, refused_log,
  line-refused_log, append-requests, line-gave_up,
}

-- A start digit, the value with its lowest digit first, and a digit that is set where an odd number
-- of those is.
abbrev pub value_frame : ℕ → List Bool
value_frame v = true ∷ (bits_from 32 0 (bit v) ++ (odd v ∷ []))

-- Three transfers.
abbrev pub transfers : Wait → Wait → Wait → List ℕ → List ℕ
transfers x y z rest =
    answered x.polls x.word (answered y.polls y.word (answered z.polls z.word rest))

abbrev put_on : ℕ → ℕ → ℕ → List Access → List Access
put_on width k n l = moved k n (log_of (dir_out width (bus [] l 0 0)))

module _ (v : ℕ) (x y z : Wait) (l : List Access) where
  first : List Access
  first = put_on 9 x.polls (bit_or 0x100 (revbits v >>> 24)) l

  second : List Access
  second = put_on 16 y.polls (revbits v >>> 8) first

  value_log : List Access
  value_log =
      let third = put_on 9 z.polls (bit_or (u32 (revbits v <<< 1)) (parity v)) second in
      log_of (dir_out 16 (bus [] third 0 0))

  send_value-transfers :
      (rest : List ℕ) (rd wr : ℕ)
      → send_value v (bus (transfers x y z rest) l rd wr) ≡ some (false, bus rest value_log rd wr)
  unfolding send_value first second value_log
  send_value-transfers rest rd wr =
      rw
        (
          transfer-answered x.polls (bit_or 0x100 (revbits v >>> 24)) x.word,
          transfer-answered y.polls (revbits v >>> 8) y.word,
          transfer-answered z.polls (bit_or (u32 (revbits v <<< 1)) (parity v)) z.word,
        )
        refl

  line-value_log :
      (s : Line) → v < 2 ^ 32 → line s value_log ≡ idle ((line s l).sent ++ value_frame v)
  unfolding first second value_log
  line-value_log s fits =
      let sent = (line s l).sent in
      let w1 = true ∷ bits_from 8 0 (bit v) in
      let w2 = bits_from 16 8 (bit v) in
      let w3 = bits_from 8 24 (bit v) ++ (odd v ∷ []) in
      rw
        (
          line-moved s z.polls (bit_or (u32 (revbits v <<< 1)) (parity v)),
          line-moved s y.polls (revbits v >>> 8),
          line-moved s x.polls (bit_or 0x100 (revbits v >>> 24)),
          first_word v fits,
          second_word v fits,
          third_word v fits,
        )
        (ap idle (append_assoc (sent ++ w1) w2 w3 ∙ append_assoc sent w1 (w2 ++ w3)))

module _ (fuel n v : ℕ) (t : Turn) (rest : List ℕ) (l : List Access) (rd wr : ℕ) where
  swdp_write-accepted :
      swdp_write (suc fuel) n v (bus (turn t 4 rest) l rd wr)
      ≡ send_value v (bus rest (asked n t l) rd wr)
  unfolding swdp_write
  swdp_write-accepted =
      rw
        (
          transfer-answered t.request.polls n t.request.word,
          transfer-answered t.polls 0 (t.undriven * 8 + 4),
          ack-field t.undriven 4 (omega arith),
        )
        refl

  swdp_write-refused :
      swdp_write (suc fuel) n v (bus (turn t 2 rest) l rd wr)
      ≡ swdp_write fuel n v (bus rest (gave_up n t l) rd (wr + 1))
  unfolding swdp_write
  swdp_write-refused =
      rw
        (
          transfer-answered t.request.polls n t.request.word,
          transfer-answered t.polls 0 (t.undriven * 8 + 2),
          ack-field t.undriven 2 (omega arith),
        )
        refl

  swdp_write-failed :
      (r : ℕ)
      → r < 8
      → r ≢ 4
      → r ≢ 2
      → swdp_write (suc fuel) n v (bus (turn t r rest) l rd wr)
        ≡ some (true, bus rest (gave_up n t l) rd wr)
  unfolding swdp_write
  swdp_write-failed r fits not_ok not_wait =
      let e4 : (r == 4) ≡ false = ground arith in
      let e2 : (r == 2) ≡ false = ground arith in
      rw
        (
          transfer-answered t.request.polls n t.request.word,
          transfer-answered t.polls 0 (t.undriven * 8 + r),
          ack-field t.undriven r fits,
          e4,
          e2,
        )
        refl

swdp_write-refusals :
    (fuel n v : ℕ) (ts : List Turn) (rest : List ℕ) (l : List Access) (rd wr : ℕ)
    → swdp_write (length ts + fuel) n v (bus (refusals ts rest) l rd wr)
      ≡ swdp_write fuel n v (bus rest (refused_log n ts l) rd (wr + length ts))
swdp_write-refusals fuel n v [] rest l rd wr = rw (add-zero wr, zero-add fuel) refl
swdp_write-refusals fuel n v (t ∷ ts) rest l rd wr =
    let e : length (t ∷ ts) + fuel ≡ suc (length ts + fuel) = omega arith in
    let w : wr + 1 + length ts ≡ wr + length (t ∷ ts) = omega arith in
    rw
      (
        e,
        swdp_write-refused (length ts + fuel) n v t (refusals ts rest) l rd wr,
        swdp_write-refusals fuel n v ts rest (gave_up n t l) rd (wr + 1),
        w,
      )
      refl

-- When the target answers a request with WAIT any number of times and then with OK, `swdp_write`
-- returns 0 with fuel for one request more than those, has counted the waits, and what it has put on
-- the wire is the request that often and once more, then a start digit, the 32 digits of the value,
-- the lowest first, and its parity; the wire is left driven and ready for the next request.
pub swdp_write-line :
    (fuel n v : ℕ) (ts : List Turn) (t : Turn) (x y z : Wait) (rest : List ℕ) (l : List Access)
    (rd wr : ℕ) (s : Line) (sent : List Bool)
    → v < 2 ^ 32
    → line s l ≡ idle sent
    → length ts < fuel
    → (l' : List Access) × (swdp_write fuel n v
          (bus (refusals ts (turn t 4 (transfers x y z rest))) l rd wr)
        ≡ some (false, bus rest l' rd (wr + length ts)))
      × (line s l' ≡ idle (sent ++ (requests (suc (length ts)) n ++ value_frame v)))
swdp_write-line fuel n v ts t x y z rest l rd wr s sent fits start enough =
    let f = fuel - length ts - 1 in
    let e : fuel ≡ length ts + suc f = omega arith in
    let l1 = refused_log n ts l in
    let l2 = asked n t l1 in
    (
      value_log v x y z l2,
      rw
          (
            e,
            swdp_write-refusals (suc f) n v ts (turn t 4 (transfers x y z rest)) l rd wr,
            swdp_write-accepted f n v t (transfers x y z rest) l1 rd (wr + length ts),
          )
          (send_value-transfers v x y z l2 rest rd (wr + length ts)),
      line-value_log v x y z l2 s fits
          ∙ rw
              (line-asked n t l1 s (sent ++ requests (length ts) n)
                (line-refused_log n ts l s sent start))
              (ap (λ bs. idle (bs ++ value_frame v)) (append-requests sent (length ts) n)
                ∙ ap idle (append_assoc sent (requests (suc (length ts)) n) (value_frame v))),
    )

-- Any other acknowledgement ends `swdp_write` with -1, and nothing but the requests has been on the
-- wire.
pub swdp_write-line_failed :
    (fuel n v r : ℕ) (ts : List Turn) (t : Turn) (rest : List ℕ) (l : List Access) (rd wr : ℕ)
    (s : Line) (sent : List Bool)
    → r < 8
    → r ≢ 4
    → r ≢ 2
    → line s l ≡ idle sent
    → length ts < fuel
    → (l' : List Access) × (swdp_write fuel n v (bus (refusals ts (turn t r rest)) l rd wr)
        ≡ some (true, bus rest l' rd (wr + length ts)))
      × (line s l' ≡ idle (sent ++ requests (suc (length ts)) n))
swdp_write-line_failed fuel n v r ts t rest l rd wr s sent fits not_ok not_wait start enough =
    let f = fuel - length ts - 1 in
    let e : fuel ≡ length ts + suc f = omega arith in
    let l1 = refused_log n ts l in
    (
      gave_up n t l1,
      rw (e, swdp_write-refusals (suc f) n v ts (turn t r rest) l rd wr)
          (swdp_write-failed f n v t rest l1 rd (wr + length ts) r fits not_ok not_wait),
      line-gave_up n t l1 s (sent ++ requests (length ts) n) (line-refused_log n ts l s sent start)
          ∙ ap idle (append-requests sent (length ts) n),
    )
