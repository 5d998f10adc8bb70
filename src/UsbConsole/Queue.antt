-- ===== src/UsbConsole/Queue.antt =====
-- The USB console of libfw/usbconsole.c as a queue: what was printed is what was sent and what is
-- still in the ring.
use m3dev.Base.{
  Bool-cases, inl, inr, ◌==◌, ℕ, ◌+◌, ◌%◌, ◌^◌, ◌≤◌, ◌<◌, ◌≡◌, ◌≢◌, refl, sym, ap, ◌∙◌, arith, List,
  [], ◌∷◌, ◌++◌, append-nil, append_assoc, some, true, false, not, if◌then◌else◌, length,
  length-set, bit_and, bit_and_mask, u8, u32, sub_u32,
}
use m3dev.UsbConsole.{
  Usbconsole, used, write_len, write_packet, advance_tail, uc_write, handle_ep1_tx_empty, Interrupt,
  quiet, tx_empty, online, interrupt, store, uc_putc, Round, thread_write, wait_round,
}
use m3dev.UsbConsole.Ring.{
  pending, pending-append, pending-set_end, pending-u32, pending-mod, take-drop,
}

-- The indices are words, and the ring holds at most its 256 bytes.
pub record IsRing (uc : Usbconsole) : Type 0 where
  pub size : length uc.out_data ≡ 256
  pub head_word : uc.out_head < 2 ^ 32
  pub tail_word : uc.out_tail < 2 ^ 32
  pub bound : used uc ≤ 256

abbrev pub flat : List (List ℕ) → List ℕ
flat [] = []
flat (xs ∷ xss) = xs ++ flat xss

abbrev pub bytes : List ℕ → List ℕ
bytes [] = []
bytes (c ∷ cs) = u8 c ∷ bytes cs

-- All that was printed: what was sent, then what the ring holds.
abbrev pub printed : Usbconsole → List ℕ
printed uc = flat uc.sent ++ pending uc.out_data uc.out_tail (used uc)

flat-append : (xss : List (List ℕ)) (xs : List ℕ) → flat (xss ++ (xs ∷ [])) ≡ flat xss ++ xs
flat-append [] xs = append-nil xs
flat-append (ys ∷ xss) xs =
    ap (λ zs. ys ++ zs) (flat-append xss xs) ∙ sym (append_assoc ys (flat xss) xs)

pub write_len_bounds :
    (uc : Usbconsole)
    → IsRing uc
    → (write_len uc ≤ used uc)
      × (uc.out_tail % 256 + write_len uc ≤ 256)
      × (write_len uc ≤ 64)
      × (0 < used uc → 0 < write_len uc)
unfolding write_len
write_len_bounds uc r = ground (arith, bit_and_mask 8 uc.out_tail, r)

-- A packet of the front of the ring.
pub sent_packet :
    (uc : Usbconsole) (n : ℕ)
    → IsRing uc
    → uc.out_tail % 256 + n ≤ 256
    → flat (write_packet uc n).sent ≡ flat uc.sent ++ pending uc.out_data uc.out_tail n
unfolding write_packet
sent_packet uc n r fits =
    let t = uc.out_tail in
    rw
      (
        bit_and_mask 8 t,
        take-drop uc.out_data (t % 256) n r.size fits,
        flat-append uc.sent (pending uc.out_data (t % 256) n),
        pending-mod uc.out_data (t % 256) t n (omega arith),
      )
      refl

send-printed :
    (uc : Usbconsole) (n : ℕ)
    → IsRing uc
    → n ≤ used uc
    → uc.out_tail % 256 + n ≤ 256
    → IsRing (advance_tail (write_packet uc n) n)
      × (printed (advance_tail (write_packet uc n) n) ≡ printed uc)
      × (used (advance_tail (write_packet uc n) n) + n ≡ used uc)
unfolding write_packet advance_tail
send-printed uc n r le fits =
    let t = uc.out_tail in
    let u' = sub_u32 uc.out_head (u32 (t + n)) in
    let e : u' + n ≡ used uc = omega (arith, r.head_word, r.tail_word, r.bound, le) in
    let e' : n + u' ≡ used uc = omega (arith, e) in
    (
      record {
        size = r.size;
        head_word = r.head_word;
        tail_word = omega arith;
        bound = omega (arith, e, r.bound);
      },
      rw (sent_packet uc n r fits, pending-u32 uc.out_data (t + n) u')
          (rw
            (
              append_assoc (flat uc.sent) (pending uc.out_data t n)
                  (pending uc.out_data (t + n) u'),
              sym (pending-append uc.out_data t n u'),
              e',
            )
            refl),
      e,
    )

-- `uc_write` sends the front of the ring, and nothing of it twice.
pub uc_write-printed :
    (uc : Usbconsole)
    → IsRing uc
    → IsRing (uc_write uc)
      × (printed (uc_write uc) ≡ printed uc)
      × (used (uc_write uc) + write_len uc ≡ used uc)
unfolding uc_write
uc_write-printed uc r =
    let (le, fits, most, some_sent) = write_len_bounds uc r in
    send-printed uc (write_len uc) r le fits

-- The state is a ring that holds what the other printed.
abbrev pub Keeps : Usbconsole → Usbconsole → Type 0
Keeps uc uc' = IsRing uc' × (printed uc' ≡ printed uc)

pub handle_ep1_tx_empty-Keeps : (uc : Usbconsole) → IsRing uc → Keeps uc (handle_ep1_tx_empty uc)
unfolding handle_ep1_tx_empty
handle_ep1_tx_empty-Keeps uc r =
    let uc' = record uc { out_busy = false } in
    let r' : IsRing uc' = record {
      size = r.size;
      head_word = r.head_word;
      tail_word = r.tail_word;
      bound = r.bound;
    } in
    ground (arith, r', uc_write-printed uc' r')

pub handle_ep1_tx_empty-room : (uc : Usbconsole) → IsRing uc → used (handle_ep1_tx_empty uc) < 256
unfolding handle_ep1_tx_empty
handle_ep1_tx_empty-room uc r =
    let uc' = record uc { out_busy = false } in
    let r' : IsRing uc' = record {
      size = r.size;
      head_word = r.head_word;
      tail_word = r.tail_word;
      bound = r.bound;
    } in
    ground (arith, r', uc_write-printed uc' r', write_len_bounds uc' r')

pub interrupt-Keeps : (irq : Interrupt) (uc : Usbconsole) → IsRing uc → Keeps uc (interrupt irq uc)
unfolding interrupt
interrupt-Keeps quiet uc r = (r, refl)
interrupt-Keeps tx_empty uc r = handle_ep1_tx_empty-Keeps uc r
interrupt-Keeps (online true) uc r = handle_ep1_tx_empty-Keeps uc r
interrupt-Keeps (online false) uc r = (
  record { size = r.size; head_word = r.head_word; tail_word = r.tail_word; bound = r.bound },
  refl,
)

pub store-printed :
    (uc : Usbconsole) (c : ℕ)
    → IsRing uc
    → used uc ≢ 256
    → IsRing (store uc c) × (printed (store uc c) ≡ printed uc ++ (u8 c ∷ []))
unfolding store
store-printed uc c r ne =
    let t = uc.out_tail in
    let n = used uc in
    let e : sub_u32 (u32 (uc.out_head + 1)) t ≡ n + 1 = omega (arith, r, ne) in
    let e' : uc.out_head % 256 ≡ (t + n) % 256 = omega (arith, r) in
    (
      record {
        size = length-set uc.out_data (bit_and uc.out_head 255) (u8 c) ∙ r.size;
        head_word = omega arith;
        tail_word = r.tail_word;
        bound = omega (arith, e, r.bound, ne);
      },
      rw
          (
            e,
            bit_and_mask 8 uc.out_head,
            e',
            pending-set_end uc.out_data t n (u8 c) r.size (omega (arith, r.bound, ne)),
          )
          (sym (append_assoc (flat uc.sent) (pending uc.out_data t n) (u8 c ∷ []))),
    )

-- The round of a wait: what is not yet being sent is sent, then the interrupt comes.
abbrev pub round : Interrupt → Usbconsole → Usbconsole
round irq uc = interrupt irq (if not uc.out_busy then uc_write uc else uc)

pub flushed-Keeps :
    (uc : Usbconsole) → IsRing uc → Keeps uc (if not uc.out_busy then uc_write uc else uc)
flushed-Keeps uc r = ground (arith, r, uc_write-printed uc r)

pub round-Keeps : (irq : Interrupt) (uc : Usbconsole) → IsRing uc → Keeps uc (round irq uc)
round-Keeps irq uc r =
    let uc1 = if not uc.out_busy then uc_write uc else uc in
    let (r1, e1) = flushed-Keeps uc r in let (r2, e2) = interrupt-Keeps irq uc1 r1 in (r2, e2 ∙ e1)

-- The state `uc'` holds, behind what `uc` printed, the bytes of `cs`.
abbrev pub Appends : Usbconsole → List ℕ → Usbconsole → Type 0
Appends uc cs uc' = IsRing uc' × (printed uc' ≡ printed uc ++ bytes cs)

-- No interrupt comes inside the thread's `uc_write`.
abbrev pub IsUndisturbed : Round → Type 0
IsUndisturbed r = (r.early ≡ quiet) × (r.late ≡ quiet)

abbrev pub AreUndisturbed : List Round → Type 0
AreUndisturbed [] = Unit {0}
AreUndisturbed (r ∷ rounds) = IsUndisturbed r × AreUndisturbed rounds

pub thread_write-IsUndisturbed :
    (r : Round) (uc : Usbconsole) → IsUndisturbed r → thread_write r.early r.late uc ≡ uc_write uc
unfolding thread_write uc_write write_packet interrupt
thread_write-IsUndisturbed r uc (e, l) = rw (e, l) refl

pub wait_round-round :
    (r : Round) (uc : Usbconsole) → IsUndisturbed r → wait_round r uc ≡ round r.behind uc
unfolding wait_round
wait_round-round r uc calm = rw (thread_write-IsUndisturbed r uc calm) refl

pub uc_putc-Appends :
    (rounds rounds' : List Round) (uc uc' : Usbconsole) (c : ℕ)
    → AreUndisturbed rounds
    → IsRing uc
    → uc_putc rounds uc c ≡ some (uc', rounds')
    → Appends uc (c ∷ []) uc' × AreUndisturbed rounds'
unfolding uc_putc
uc_putc-Appends [] rounds' uc uc' c calm r e = ground (arith, e, store-printed uc c r)
uc_putc-Appends (w ∷ rounds) rounds' uc uc' c (calm, calm') r e =
    elim (Bool-cases (used uc == 256)) [
      | inl full ↦
          let kept = round-Keeps w.behind uc r in
          let same = wait_round-round w uc calm in
          let kept' : Keeps uc (wait_round w uc) = rw same kept in
          let (later, calm'') =
            uc_putc-Appends rounds rounds' (wait_round w uc) uc' c calm' kept'.0 (rw full at e) in
          ((later.0, later.1 ∙ ap (λ xs. xs ++ bytes (c ∷ [])) kept'.1), calm'')
      | inr room ↦ ground (arith, e, room, store-printed uc c r, calm, calm')
    ]
