-- ===== src/Wire/Read.antt =====
-- `swdp_read` of m3debug/swdp.c on the wire.
use m3dev.Base.{
  ℕ, suc, ◌+◌, ◌-◌, ◌*◌, ◌^◌, ◌<◌, ◌≡◌, ◌≢◌, refl, ap, ◌∙◌, arith, Bool, true, false, List, [], ◌∷◌,
  ◌++◌, some, length, ◌==◌,
}
use native.Mathlib.Nat.{add-zero, zero-add}
use m3dev.Wire.{Access, dir_in, dir_out, receive_value, swdp_read}
use m3dev.Wire.Line.{Line, idle, line, answered, bus, moved, transfer-answered, line-moved}
use m3dev.Wire.Receive.{Carries, received_value}
use m3dev.Wire.Turn.{
  Turn, turn, refusals, requests, log_of, asked, gave_up, line-asked, ack-field, refused_log,
  line-refused_log, append-requests, line-gave_up,
}

-- Three transfers that bring these words in.
abbrev pub incoming : ℕ → ℕ → ℕ → ℕ → ℕ → ℕ → List ℕ → List ℕ
incoming i a j b k c rest = answered i a (answered j b (answered k c rest))

abbrev taken : ℕ → ℕ → List Access → List Access
taken width k l = moved k 0 (log_of (dir_in width (bus [] l 0 0)))

module _ (i j k : ℕ) (l : List Access) where
  value_log : List Access
  value_log = log_of (dir_out 16 (bus [] (taken 10 k (taken 8 j (taken 16 i l))) 0 0))

  receive_value-incoming :
      (v a b c : ℕ) (p x : Bool) (rest : List ℕ) (rd wr : ℕ)
      → v < 2 ^ 32
      → Carries v a b c p x
      → receive_value (bus (incoming i a j b k c rest) l rd wr)
        ≡ some (false, v, bus rest value_log rd wr)
  unfolding receive_value value_log
  receive_value-incoming v a b c p x rest rd wr fits on_wire =
      rw
        (
          transfer-answered i 0 a,
          transfer-answered j 0 b,
          transfer-answered k 0 c,
          received_value v a b c p x on_wire fits,
        )
        refl

  -- The probe puts nothing on the wire meanwhile.
  line-value_log : (s : Line) → line s value_log ≡ idle (line s l).sent
  unfolding value_log
  line-value_log s = rw (line-moved s k 0, line-moved s j 0, line-moved s i 0) refl

module _ (fuel n : ℕ) (t : Turn) (rest : List ℕ) (l : List Access) (rd wr : ℕ) where
  swdp_read-accepted :
      swdp_read (suc fuel) n (bus (turn t 4 rest) l rd wr)
      ≡ receive_value (bus rest (asked n t l) rd wr)
  unfolding swdp_read
  swdp_read-accepted =
      rw
        (
          transfer-answered t.request.polls n t.request.word,
          transfer-answered t.polls 0 (t.undriven * 8 + 4),
          ack-field t.undriven 4 (omega arith),
        )
        refl

  swdp_read-refused :
      swdp_read (suc fuel) n (bus (turn t 2 rest) l rd wr)
      ≡ swdp_read fuel n (bus rest (gave_up n t l) (rd + 1) wr)
  unfolding swdp_read
  swdp_read-refused =
      rw
        (
          transfer-answered t.request.polls n t.request.word,
          transfer-answered t.polls 0 (t.undriven * 8 + 2),
          ack-field t.undriven 2 (omega arith),
        )
        refl

  swdp_read-failed :
      (r : ℕ)
      → r < 8
      → r ≢ 4
      → r ≢ 2
      → swdp_read (suc fuel) n (bus (turn t r rest) l rd wr)
        ≡ some (true, 0xffffffff, bus rest (gave_up n t l) rd wr)
  unfolding swdp_read
  swdp_read-failed r fits not_ok not_wait =
      let e4 : (r == 4) ≡ false = ground arith in
      let e2 : (r == 2) ≡ false = ground arith in
      rw
        (
          transfer-answered t.request.polls n t.request.word,
          transfer-answered t.polls 0 (t.undriven * 8 + r),
          ack-field t.undriven r fits,
          e4,
          e2,
        )
        refl

swdp_read-refusals :
    (fuel n : ℕ) (ts : List Turn) (rest : List ℕ) (l : List Access) (rd wr : ℕ)
    → swdp_read (length ts + fuel) n (bus (refusals ts rest) l rd wr)
      ≡ swdp_read fuel n (bus rest (refused_log n ts l) (rd + length ts) wr)
swdp_read-refusals fuel n [] rest l rd wr = rw (add-zero rd, zero-add fuel) refl
swdp_read-refusals fuel n (t ∷ ts) rest l rd wr =
    let e : length (t ∷ ts) + fuel ≡ suc (length ts + fuel) = omega arith in
    let w : rd + 1 + length ts ≡ rd + length (t ∷ ts) = omega arith in
    rw
      (
        e,
        swdp_read-refused (length ts + fuel) n t (refusals ts rest) l rd wr,
        swdp_read-refusals fuel n ts rest (gave_up n t l) (rd + 1) wr,
        w,
      )
      refl

-- When the target answers a request with WAIT any number of times and then with OK, and puts a
-- 32-bit value on the wire, its lowest digit first, `swdp_read` returns 0 and that value, with fuel
-- for one request more than the waits. It has counted the waits and has put only the requests on the
-- wire, which is left driven. The digit in the place of the parity may be either.
pub swdp_read-line :
    (fuel n v a b c i j k : ℕ) (p x : Bool) (ts : List Turn) (t : Turn) (rest : List ℕ)
    (l : List Access) (rd wr : ℕ) (s : Line) (sent : List Bool)
    → v < 2 ^ 32
    → Carries v a b c p x
    → line s l ≡ idle sent
    → length ts < fuel
    → (l' : List Access) × (swdp_read fuel n
          (bus (refusals ts (turn t 4 (incoming i a j b k c rest))) l rd wr)
        ≡ some (false, v, bus rest l' (rd + length ts) wr))
      × (line s l' ≡ idle (sent ++ requests (suc (length ts)) n))
swdp_read-line fuel n v a b c i j k p x ts t rest l rd wr s sent fits on_wire start enough =
    let f = fuel - length ts - 1 in
    let e : fuel ≡ length ts + suc f = omega arith in
    let l1 = refused_log n ts l in
    let l2 = asked n t l1 in
    let asked_sent =
      line-asked n t l1 s (sent ++ requests (length ts) n) (line-refused_log n ts l s sent start) in
    (
      value_log i j k l2,
      rw
          (
            e,
            swdp_read-refusals (suc f) n ts (turn t 4 (incoming i a j b k c rest)) l rd wr,
            swdp_read-accepted f n t (incoming i a j b k c rest) l1 (rd + length ts) wr,
          )
          (receive_value-incoming i j k l2 v a b c p x rest (rd + length ts) wr fits on_wire),
      line-value_log i j k l2 s ∙ rw asked_sent (ap idle (append-requests sent (length ts) n)),
    )

-- Any other acknowledgement ends `swdp_read` with -1 and the value 0xffffffff, and nothing but the
-- requests has been on the wire.
pub swdp_read-line_failed :
    (fuel n r : ℕ) (ts : List Turn) (t : Turn) (rest : List ℕ) (l : List Access) (rd wr : ℕ)
    (s : Line) (sent : List Bool)
    → r < 8
    → r ≢ 4
    → r ≢ 2
    → line s l ≡ idle sent
    → length ts < fuel
    → (l' : List Access) × (swdp_read fuel n (bus (refusals ts (turn t r rest)) l rd wr)
        ≡ some (true, 0xffffffff, bus rest l' (rd + length ts) wr))
      × (line s l' ≡ idle (sent ++ requests (suc (length ts)) n))
swdp_read-line_failed fuel n r ts t rest l rd wr s sent fits not_ok not_wait start enough =
    let f = fuel - length ts - 1 in
    let e : fuel ≡ length ts + suc f = omega arith in
    let l1 = refused_log n ts l in
    (
      gave_up n t l1,
      rw (e, swdp_read-refusals (suc f) n ts (turn t r rest) l rd wr)
          (swdp_read-failed f n t rest l1 (rd + length ts) wr r fits not_ok not_wait),
      line-gave_up n t l1 s (sent ++ requests (length ts) n) (line-refused_log n ts l s sent start)
          ∙ ap idle (append-requests sent (length ts) n),
    )
