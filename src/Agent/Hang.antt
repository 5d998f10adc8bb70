-- ===== src/Agent/Hang.antt =====
-- CMD_DOWNLOAD in `process_txn`: its loop `while (n)` never changes `n`.
use m3dev.Base.{ℕ, zero, suc, ◌+◌, ◌-◌, ◌<◌, ◌≢◌, ◌≡◌, none, arith, refl, u32}
use m3dev.Protocol.{rswd_msg_cmd, rswd_msg_arg, cmd_download}
use m3dev.Agent.Hardware.{Port}
use m3dev.Agent.{Out, stuck, download_words, process_msg, process_loop, process_txn, start}

module _ {W : Type 0} (port : Port W) (rx : ℕ → ℕ) where
  download_words-stuck :
      (fuel n addr pos rxc : ℕ) (o : Out W)
      → n ≢ 0
      → download_words port rx fuel n addr pos rxc o ≡ stuck
  unfolding download_words
  download_words-stuck zero n addr pos rxc o ne = refl
  download_words-stuck (suc fuel) n addr pos rxc o ne = ground (
    arith,
    download_words-stuck fuel n (u32 (addr + 4)) (pos + 1) (rxc - 1)
        (record o { world = port.store addr (rx pos) o.world }) ne,
  )

  process_loop-download :
      (fuel pos rxc : ℕ) (o : Out W)
      → 0 < rxc
      → rswd_msg_cmd (rx pos) ≡ cmd_download
      → rswd_msg_arg (rx pos) ≢ 0
      → process_loop port rx fuel pos rxc o ≡ none
  unfolding process_loop process_msg
  process_loop-download zero pos rxc o some_left is_download ne = refl
  process_loop-download (suc fuel) pos rxc o some_left is_download ne = ground (
    arith,
    download_words-stuck fuel (rswd_msg_arg (rx pos)) (rx (pos + 1)) (pos + 1 + 1) (rxc - 1 - 1)
        (record o { count = o.count + 1 }) ne,
  )

  -- A transaction that begins with a CMD_DOWNLOAD of a nonzero word count never ends: no amount
  -- of fuel is enough for `process_txn`, whatever follows and whatever the port does.
  pub process_txn-download :
      (fuel id rxc old : ℕ) (w : W)
      → 0 < rxc
      → rswd_msg_cmd (rx 0) ≡ cmd_download
      → rswd_msg_arg (rx 0) ≢ 0
      → process_txn port fuel id rx rxc old w ≡ none
  unfolding process_txn
  process_txn-download fuel id rxc old w some_left is_download ne =
      ground (arith, process_loop-download fuel 0 rxc (start id old w) some_left is_download ne)
