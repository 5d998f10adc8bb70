-- ===== src/Agent/Main.antt =====
-- One round of the loop of `main` in m3debug/main.c, behind `usb_recv`.
use m3dev.Base.{
  ℕ, min, ◌+◌, ◌-◌, ◌*◌, ◌/◌, ◌%◌, ◌^◌, ◌≤◌, ◌≡◌, refl, arith, false, not, ◌||◌, ◌==◌, ltb,
  if◌then◌else◌, Option, some, bit_and, bit_and_mask, bit_and_field,
}
use m3dev.Protocol.{rswd_txn_start}
use m3dev.Protocol.Fields.{rswd_txn_start_as_sum}
use m3dev.Agent.Hardware.{Port}
use m3dev.Agent.{Turn, dropped, rxbuffer_words, process_txn}

-- `got` bytes came for the frame, of which `usb_recv` stores what `rxbuffer` has room for.
unfoldable pub receive_frame :
    {W : Type 0} (port : Port W) (fuel : ℕ) (rx : ℕ → ℕ) (got trace : ℕ) (w : W) → Option (Turn W)
receive_frame port fuel rx got trace w =
    let rxc = min (4 * rxbuffer_words) got in
    let turn = process_txn port fuel (rx 0) (λ i. rx (i + 1)) (rxc / 4 - 1) trace w in
    if ltb rxc 4 || not (bit_and rxc 3 == 0)
    then some dropped
    else if not (bit_and (rx 0) 0xFFFF0000 == 0xAA770000)
    then some dropped
    else turn

bit_and-rswd_txn_start : (seq : ℕ) → bit_and (rswd_txn_start seq) 0xFFFF0000 ≡ 0xAA770000
bit_and-rswd_txn_start seq =
    rw (rswd_txn_start_as_sum seq, bit_and_field 16 16 (0xAA770000 + seq % 2 ^ 16)) (omega arith)

-- A frame of whole words that fits the buffer and begins with an identifier of a transaction is carried out.
pub receive_frame-process_txn :
    {W : Type 0} (port : Port W) (fuel : ℕ) (rx : ℕ → ℕ) (words seq trace : ℕ) (w : W)
    → 1 ≤ words
    → words ≤ rxbuffer_words
    → rx 0 ≡ rswd_txn_start seq
    → receive_frame port fuel rx (4 * words) trace w
      ≡ process_txn port fuel (rswd_txn_start seq) (λ i. rx (i + 1)) (words - 1) trace w
unfolding receive_frame
receive_frame-process_txn port fuel rx words seq trace w some_words fits head =
    let all : min 2048 (4 * words) ≡ 4 * words = omega arith in
    let whole : bit_and (4 * words) 3 ≡ 0 = ground (arith, bit_and_mask 2 (4 * words)) in
    let count : 4 * words / 4 ≡ words = omega arith in
    let long : ltb (4 * words) 4 ≡ false = ground arith in
    rw (all, long, whole, head, bit_and-rswd_txn_start seq, count) refl
