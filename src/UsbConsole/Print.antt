-- ===== src/UsbConsole/Print.antt =====
-- `printu` of libfw/usbconsole.c, whole texts through the ring.
use m3dev.Base.{
  ℕ, zero, suc, ◌≤◌, ◌<◌, ◌≡◌, refl, ap, ◌∙◌, arith, List, [], ◌∷◌, ◌++◌, append-nil, append_assoc,
  some, not, ◌&&◌, ◌==◌, if◌then◌else◌, length, replicate, u8, Option-cases, Bool-cases, inl, inr,
}
use m3dev.UsbConsole.{
  Usbconsole, used, uc_write, Interrupt, quiet, tx_empty, interrupt, Round, thread_write, store,
  uc_putc, put_all, printu,
}
use m3dev.UsbConsole.Queue.{
  IsRing, bytes, printed, Keeps, Appends, round, flushed-Keeps, handle_ep1_tx_empty-room,
  uc_putc-Appends, uc_write-printed, IsUndisturbed, AreUndisturbed, thread_write-IsUndisturbed,
  wait_round-round, interrupt-Keeps,
}

put_all-Appends :
    (between : ℕ → Interrupt) (rounds rounds' : List Round) (uc uc' : Usbconsole) (cs : List ℕ)
    → AreUndisturbed rounds
    → IsRing uc
    → put_all between rounds uc cs ≡ some (uc', rounds')
    → Appends uc cs uc'
unfolding put_all
put_all-Appends between rounds rounds' uc uc' [] calm r e =
    ground (arith, e, interrupt-Keeps (between 0) uc r, append-nil (printed uc))
put_all-Appends between rounds rounds' uc uc' (c ∷ cs) calm r e =
    let uc0 = interrupt (between (suc (length cs))) uc in
    let (r0, p0) = interrupt-Keeps (between (suc (length cs))) uc r in
    elim (Option-cases (uc_putc rounds uc0 c)) [
      | inl e1 ↦ ground (arith, e, e1)
      | inr ((uc1, rounds1), e1) ↦
          let ((r1, p1), calm1) = uc_putc-Appends rounds rounds1 uc0 uc1 c calm r0 e1 in
          let (r2, p2) = put_all-Appends between rounds1 rounds' uc1 uc' cs calm1 r1 (rw e1 at e) in
          (
            r2,
            p2
                ∙ ap (λ xs. xs ++ bytes cs) (p1 ∙ ap (λ xs. xs ++ (u8 c ∷ [])) p0)
                ∙ append_assoc (printed uc) (u8 c ∷ []) (bytes cs),
          )
    ]

-- The write at the end of `printu`.
flush-Keeps :
    (last : Round) (uc : Usbconsole)
    → IsUndisturbed last
    → IsRing uc
    → Keeps uc
        (if not (used uc == 0) && not uc.out_busy then thread_write last.early last.late uc else uc)
flush-Keeps last uc calm r =
    rw (thread_write-IsUndisturbed last uc calm) (ground (arith, r, uc_write-printed uc r))

-- Whichever interrupts come between the characters and between the rounds of its wait, if none comes
-- inside its `uc_write` and `printu` returns, its text is appended, in order and once, to what was
-- sent and what the ring holds, and the ring stays within its bounds.
pub printu-Appends :
    (between : ℕ → Interrupt) (rounds rounds' : List Round) (last : Round) (uc uc' : Usbconsole)
    (cs : List ℕ)
    → AreUndisturbed rounds
    → IsUndisturbed last
    → IsRing uc
    → printu between rounds last uc cs ≡ some (uc', rounds')
    → Appends uc cs uc'
unfolding printu
printu-Appends between rounds rounds' last uc uc' cs calm calm' r e =
    elim (Option-cases (put_all between rounds uc cs)) [
      | inl e1 ↦ ground (arith, e, e1)
      | inr ((uc1, rounds1), e1) ↦
          let (r1, p1) = put_all-Appends between rounds rounds1 uc uc1 cs calm r e1 in
          ground (arith, e, e1, p1, flush-Keeps last uc1 calm' r1)
    ]

uc_putc-room :
    (rounds : List Round) (uc : Usbconsole) (c : ℕ)
    → used uc < 256
    → uc_putc rounds uc c ≡ some (store uc c, rounds)
unfolding uc_putc
uc_putc-room [] uc c lt = ground arith
uc_putc-room (w ∷ rounds) uc c lt = ground arith

-- A round at whose end the endpoint is empty.
abbrev pub served : Round
served = record { early = quiet; late = quiet; behind = tx_empty }

served-AreUndisturbed : (n : ℕ) → AreUndisturbed (replicate n served)
served-AreUndisturbed zero = tt
served-AreUndisturbed (suc n) = ((refl, refl), served-AreUndisturbed n)

-- One interrupt of the endpoint is enough for a character.
uc_putc-some :
    (n : ℕ) (uc : Usbconsole) (c : ℕ)
    → IsRing uc
    → (uc' : Usbconsole) × (m : ℕ) × (n ≤ m)
      × (uc_putc (replicate (suc n) served) uc c ≡ some (uc', replicate m served))
unfolding uc_putc
uc_putc-some n uc c r =
    let uc0 = if not uc.out_busy then uc_write uc else uc in
    let irqs = replicate n served in
    elim (Bool-cases (used uc == 256)) [
      | inl full ↦ (
        store (round tx_empty uc) c,
        n,
        omega arith,
        (let same = wait_round-round served uc (refl, refl) in
            rw (full, same)
              (uc_putc-room irqs (round tx_empty uc) c
                (handle_ep1_tx_empty-room uc0 (flushed-Keeps uc r).0))),
      )
      | inr room ↦ (store uc c, suc n, omega arith, rw room refl)
    ]

put_all-some :
    (between : ℕ → Interrupt) (uc : Usbconsole) (cs : List ℕ) (n : ℕ)
    → IsRing uc
    → length cs ≤ n
    → (uc' : Usbconsole) × (m : ℕ) × (put_all between (replicate n served) uc cs
        ≡ some (uc', replicate m served))
unfolding put_all
put_all-some between uc [] n r le = (interrupt (between 0) uc, n, refl)
put_all-some between uc (c ∷ cs) zero r le = absurd (omega arith)
put_all-some between uc (c ∷ cs) (suc n) r le =
    let uc0 = interrupt (between (suc (length cs))) uc in
    let r0 = (interrupt-Keeps (between (suc (length cs))) uc r).0 in
    let (uc1, m, more, e1) = uc_putc-some n uc0 c r0 in
    let ((r1, p1), calm) =
      uc_putc-Appends (replicate (suc n) served) (replicate m served) uc0 uc1 c
        (served-AreUndisturbed (suc n)) r0 e1 in
    let (uc2, k, e2) = put_all-some between uc1 cs m r1 (omega arith) in (uc2, k, rw e1 e2)

-- `printu` returns, its text appended, when no interrupt comes inside its `uc_write` and the endpoint
-- takes a packet at the end of as many rounds as there are characters, whichever interrupts come
-- between the characters.
pub printu-tx_empty :
    (between : ℕ → Interrupt) (last : Round) (uc : Usbconsole) (cs : List ℕ)
    → IsUndisturbed last
    → IsRing uc
    → (uc' : Usbconsole) × (rounds' : List Round) × (printu between
          (replicate (length cs) served)
          last
          uc
          cs
        ≡ some (uc', rounds'))
      × Appends uc cs uc'
unfolding printu
printu-tx_empty between last uc cs calm r =
    let rounds = replicate (length cs) served in
    let (uc1, m, e1) = put_all-some between uc cs (length cs) r (omega arith) in
    let (r1, p1) =
      put_all-Appends between rounds (replicate m served) uc uc1 cs
        (served-AreUndisturbed (length cs)) r e1 in
    let (r2, p2) = flush-Keeps last uc1 calm r1 in
    (
      if not (used uc1 == 0) && not uc1.out_busy
          then thread_write last.early last.late uc1
          else uc1,
      replicate m served,
      rw e1 refl,
      (r2, p2 ∙ p1),
    )
