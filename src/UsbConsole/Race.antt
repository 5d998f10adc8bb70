-- ===== src/UsbConsole/Race.antt =====
-- The endpoint's interrupt between `enable_interrupts` and `uc->out_tail += len` in the `uc_write`
-- of a thread, libfw/usbconsole.c.
use m3dev.Base.{◌+◌, ◌%◌, ◌^◌, ◌<◌, ◌≡◌, arith, [], ◌∷◌, ◌++◌, append_assoc, take, drop}
use m3dev.UsbConsole.{
  Usbconsole, used, position, write_len, write_packet, advance_tail, uc_write, handle_ep1_tx_empty,
}

-- `uc_write` with the interrupt at that point.
unfoldable pub interrupted_uc_write : Usbconsole → Usbconsole
unfolding write_len write_packet advance_tail handle_ep1_tx_empty
interrupted_uc_write uc =
    let len = write_len uc in advance_tail (handle_ep1_tx_empty (write_packet uc len)) len

-- With the endpoint's interrupt before `out_tail` is advanced, a `uc_write` of a ring that is not
-- empty sends the same packet twice and advances `out_tail` by twice its length.
pub interrupted_uc_write-twice :
    (uc : Usbconsole)
    → 0 < used uc
    → let packet = take (write_len uc) (drop (position uc) uc.out_data) in
      ((interrupted_uc_write uc).sent ≡ uc.sent ++ (packet ∷ packet ∷ []))
      × ((interrupted_uc_write uc).out_tail ≡ (uc.out_tail + write_len uc + write_len uc) % 2 ^ 32)
unfolding interrupted_uc_write uc_write
interrupted_uc_write-twice uc h = (
  ground (
    arith,
    h,
    append_assoc uc.sent (take (write_len uc) (drop (position uc) uc.out_data) ∷ [])
        (take (write_len uc) (drop (position uc) uc.out_data) ∷ []),
  ),
  ground (arith, h),
)
