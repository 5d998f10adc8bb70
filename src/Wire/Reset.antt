-- ===== src/Wire/Reset.antt =====
-- `swdp_reset` of m3debug/swdp.c on the wire: the sequence that puts a target's port into serial
-- wire mode.
use m3dev.Base.{
  ℕ, ◌≡◌, refl, ap, ◌∙◌, Bool, true, List, [], ◌∷◌, ◌++◌, append_assoc, some, replicate,
}
use m3dev.Wire.{Access, wrote, read, ssp0_dr, ssp_busy, dir_out, burst, swdp_reset}
use m3dev.Wire.Line.{msb_first, Line, idle, line, bus, reads, while_busy-reads, line-reads}
use m3dev.Wire.Turn.{log_of}

-- What comes in with four words.
pub record Four : Type 0 where
  pub polls : ℕ
  pub w0 : ℕ
  pub w1 : ℕ
  pub w2 : ℕ
  pub w3 : ℕ

abbrev pub four_answers : Four → List ℕ → List ℕ
four_answers f rest = replicate f.polls ssp_busy ++ (0 ∷ f.w0 ∷ f.w1 ∷ f.w2 ∷ f.w3 ∷ rest)

abbrev pub one_answer : ℕ → ℕ → List ℕ → List ℕ
one_answer k w rest = replicate k ssp_busy ++ (0 ∷ w ∷ rest)

abbrev four_log : ℕ → ℕ → List Access → List Access
four_log k v l =
    read ssp0_dr
    ∷ read ssp0_dr
    ∷ read ssp0_dr
    ∷ read ssp0_dr
    ∷ reads k (wrote ssp0_dr v ∷ wrote ssp0_dr v ∷ wrote ssp0_dr v ∷ wrote ssp0_dr v ∷ l)

burst-four :
    (f : Four) (v rd wr : ℕ) (rest : List ℕ) (l : List Access)
    → burst 4 v (bus (four_answers f rest) l rd wr) ≡ some (bus rest (four_log f.polls v l) rd wr)
unfolding burst
burst-four f v rd wr rest l =
    rw
      (while_busy-reads f.polls (f.w0 ∷ f.w1 ∷ f.w2 ∷ f.w3 ∷ rest)
        (wrote ssp0_dr v ∷ wrote ssp0_dr v ∷ wrote ssp0_dr v ∷ wrote ssp0_dr v ∷ l))
      refl

burst-one :
    (k w v rd wr : ℕ) (rest : List ℕ) (l : List Access)
    → burst 1 v (bus (one_answer k w rest) l rd wr)
      ≡ some (bus rest (read ssp0_dr ∷ reads k (wrote ssp0_dr v ∷ l)) rd wr)
unfolding burst
burst-one k w v rd wr rest l = rw (while_busy-reads k (w ∷ rest) (wrote ssp0_dr v ∷ l)) refl

abbrev ones : List Bool
ones = replicate 16 true

append_four :
    (xs ys : List Bool) → (((xs ++ ys) ++ ys) ++ ys) ++ ys ≡ xs ++ (ys ++ (ys ++ (ys ++ ys)))
append_four xs ys = simp append_assoc

-- However long the port is busy and whatever comes in, `swdp_reset` ends, having put 64 ones, the 16
-- digits 0111100111100111 and 64 ones on the wire.
pub swdp_reset-line :
    (f g : Four) (k w rd wr : ℕ) (rest : List ℕ) (l : List Access) (s : Line)
    → (l' : List Access) × (swdp_reset
          (bus (four_answers f (one_answer k w (four_answers g rest))) l rd wr)
        ≡ some (bus rest l' rd wr))
      × (line s l'
          ≡ idle (
              (((line s l).sent ++ replicate 64 true) ++ msb_first 16 0b0111100111100111)
              ++ replicate 64 true))
unfolding swdp_reset
swdp_reset-line f g k w rd wr rest l s =
    let l1 = four_log f.polls 0xFFFF (log_of (dir_out 16 (bus [] l 0 0))) in
    let l2 = read ssp0_dr ∷ reads k (wrote ssp0_dr 0b0111100111100111 ∷ l1) in
    let after = one_answer k w (four_answers g rest) in
    let before = (line s l).sent in
    let middle = msb_first 16 0b0111100111100111 in
    (
      four_log g.polls 0xFFFF l2,
      rw
          (
            burst-four f 0xFFFF rd wr after (log_of (dir_out 16 (bus [] l 0 0))),
            burst-one k w 0b0111100111100111 rd wr (four_answers g rest) l1,
            burst-four g 0xFFFF rd wr rest l2,
          )
          refl,
      rw (line-reads s g.polls, line-reads s k, line-reads s f.polls)
          (ap idle (
            append_four (((((before ++ ones) ++ ones) ++ ones) ++ ones) ++ middle) ones
            ∙ ap (λ bs. (bs ++ middle) ++ replicate 64 true) (append_four before ones))),
    )
