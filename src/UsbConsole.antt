-- ===== src/UsbConsole.antt =====
-- The output ring of the USB console, libfw/usbconsole.c. What `usb_ep1_write` is given is kept as
-- the list of the packets sent. The input side only passes a packet on and is left out.
pub mod Ring
pub mod Queue
pub mod Print
pub mod Race
mod Tests
use m3dev.Base.{
  suc, length, ℕ, ◌+◌, ◌-◌, ◌≤◌, ◌<◌, ◌≡◌, List, [], ◌∷◌, ◌++◌, Option, ◌>>=◌, none, some, Bool,
  true, false, not, ◌&&◌, ◌==◌, ltb, if◌then◌else◌, length, take, drop, set, bit_and, u8, u32,
  sub_u32,
}

-- `UC_OUT_SZ`
abbrev pub uc_out_sz : ℕ
uc_out_sz = 256

-- `struct usbconsole`, and what the endpoint was given.
pub record Usbconsole : Type 0 where
  pub out_head : ℕ
  pub out_tail : ℕ
  pub out_busy : Bool
  pub out_data : List ℕ
  pub sent : List (List ℕ)

-- `out_head - out_tail`
abbrev pub used : Usbconsole → ℕ
used uc = sub_u32 uc.out_head uc.out_tail

abbrev pub position : Usbconsole → ℕ
position uc = bit_and uc.out_tail (uc_out_sz - 1)

-- `len` of `uc_write`, behind its two tests.
unfoldable pub write_len : Usbconsole → ℕ
write_len uc =
    let len = used uc in
    let rem = uc_out_sz - position uc in
    let len' = if ltb rem len then rem else len in if ltb 64 len' then 64 else len'

-- The part of `uc_write` with interrupts disabled.
unfoldable pub write_packet : Usbconsole → ℕ → Usbconsole
write_packet uc len = record uc {
  out_busy = true;
  sent = uc.sent ++ (take len (drop (position uc) uc.out_data) ∷ []);
}

-- `uc->out_tail += len`
unfoldable pub advance_tail : Usbconsole → ℕ → Usbconsole
advance_tail uc len = record uc { out_tail = u32 (uc.out_tail + len) }

-- `uc_write` in an interrupt handler, which is not interrupted.
unfoldable pub uc_write : Usbconsole → Usbconsole
unfolding write_len write_packet advance_tail
uc_write uc = let len = write_len uc in advance_tail (write_packet uc len) len

unfoldable pub handle_ep1_tx_empty : Usbconsole → Usbconsole
unfolding uc_write
handle_ep1_tx_empty uc =
    let uc' = record uc { out_busy = false } in if not (used uc' == 0) then uc_write uc' else uc'

unfoldable pub handle_usb_online : Usbconsole → Bool → Usbconsole
unfolding handle_ep1_tx_empty
handle_usb_online uc true = handle_ep1_tx_empty uc
handle_usb_online uc false = record uc { out_busy = true }

-- What may interrupt the thread at a point.
pub data Interrupt : Type 0 where
  quiet tx_empty : Interrupt
  online : Bool → Interrupt

unfoldable pub interrupt : Interrupt → Usbconsole → Usbconsole
unfolding handle_ep1_tx_empty handle_usb_online
interrupt quiet uc = uc
interrupt tx_empty uc = handle_ep1_tx_empty uc
interrupt (online up) uc = handle_usb_online uc up

-- `out_data[out_head & (UC_OUT_SZ - 1)] = c; out_head++`
unfoldable pub store : Usbconsole → ℕ → Usbconsole
store uc c = record uc {
  out_data = set uc.out_data (bit_and uc.out_head (uc_out_sz - 1)) (u8 c);
  out_head = u32 (uc.out_head + 1);
}

-- `uc_write` in the thread: an interrupt may come before `disable_interrupts`, with the position and
-- the length read, and after `enable_interrupts`, with `out_tail` not yet advanced.
unfoldable pub thread_write : Interrupt → Interrupt → Usbconsole → Usbconsole
unfolding write_len advance_tail interrupt
thread_write early late uc =
    let len = write_len uc in
    let pos = position uc in
    let uc1 = interrupt early uc in
    let uc2 = record uc1 {
      out_busy = true;
      sent = uc1.sent ++ (take len (drop pos uc1.out_data) ∷ []);
    } in
    advance_tail (interrupt late uc2) len

-- The interrupts of a round of the loop that waits: in its `uc_write`, and behind it.
pub record Round : Type 0 where
  pub early : Interrupt
  pub late : Interrupt
  pub behind : Interrupt

unfoldable pub wait_round : Round → Usbconsole → Usbconsole
unfolding thread_write interrupt
wait_round r uc =
    interrupt r.behind (if not uc.out_busy then thread_write r.early r.late uc else uc)

-- `uc_putc` under the interrupts of the rounds that it waits, and the rounds left. `none`: it still
-- waits after the last of them.
unfoldable pub uc_putc : List Round → Usbconsole → ℕ → Option (Usbconsole × List Round)
unfolding store wait_round
uc_putc [] uc c = if used uc == uc_out_sz then none else some (store uc c, [])
uc_putc (r ∷ rounds) uc c =
    let waited = uc_putc rounds (wait_round r uc) c in
    if used uc == uc_out_sz then waited else some (store uc c, r ∷ rounds)

-- The characters that `vprintx` hands to `uc_putc`; `between n` comes with `n` characters left.
unfoldable pub put_all :
    (ℕ → Interrupt) → List Round → Usbconsole → List ℕ → Option (Usbconsole × List Round)
unfolding uc_putc interrupt
put_all between irqs uc [] = some (interrupt (between 0) uc, irqs)
put_all between irqs uc (c ∷ cs) = do
  (uc', irqs') ← uc_putc irqs (interrupt (between (suc (length cs))) uc) c
  put_all between irqs' uc' cs

-- `printu`, with the characters of its text; the interrupts of `last` come in its own `uc_write`.
unfoldable pub printu :
    (ℕ → Interrupt) → List Round → Round → Usbconsole → List ℕ → Option (Usbconsole × List Round)
unfolding put_all thread_write
printu between rounds last uc cs = do
  (uc', rounds') ← put_all between rounds uc cs
  let written = thread_write last.early last.late uc'
  some (if not (used uc' == 0) && not uc'.out_busy then written else uc', rounds')
