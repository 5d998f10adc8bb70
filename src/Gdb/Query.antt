-- ===== src/Gdb/Query.antt =====
-- The queries that tools/gdb-bridge.c answers: `handle_query` and `handle_set`, and the console.
use m3dev.Base.{
  ℕ, List, [], ◌∷◌, ◌++◌, Option, none, some, ◌==◌, if◌then◌else◌, bit_and, bit_or, same_text,
  starts_with, c_string, ascii, u8,
}
use m3dev.Lk.{Thread, find_lk_thread, get_lk_thread_name}
use m3dev.Gdb.{Gdbcnxn, f_console, gdb_putc, gdb_puts, gdb_prologue, gdb_epilogue}
use m3dev.Gdb.Hex.{CLibrary, gdb_puthex, unhex}

unfoldable pub target_xml : List ℕ
target_xml =
    ascii "<?xml version=\"1.0\"?>"
    ++ ascii "<target>"
    ++ ascii "<architecture>arm</architecture>"
    ++ ascii "<feature name=\"org.gnu.gdb.arm.m-profile\">"
    ++ ascii "<reg name=\"r0\" bitsize=\"32\"/>"
    ++ ascii "<reg name=\"r1\" bitsize=\"32\"/>"
    ++ ascii "<reg name=\"r2\" bitsize=\"32\"/>"
    ++ ascii "<reg name=\"r3\" bitsize=\"32\"/>"
    ++ ascii "<reg name=\"r4\" bitsize=\"32\"/>"
    ++ ascii "<reg name=\"r5\" bitsize=\"32\"/>"
    ++ ascii "<reg name=\"r6\" bitsize=\"32\"/>"
    ++ ascii "<reg name=\"r7\" bitsize=\"32\"/>"
    ++ ascii "<reg name=\"r8\" bitsize=\"32\"/>"
    ++ ascii "<reg name=\"r9\" bitsize=\"32\"/>"
    ++ ascii "<reg name=\"r10\" bitsize=\"32\"/>"
    ++ ascii "<reg name=\"r11\" bitsize=\"32\"/>"
    ++ ascii "<reg name=\"r12\" bitsize=\"32\"/>"
    ++ ascii "<reg name=\"sp\" bitsize=\"32\" type=\"data_ptr\"/>"
    ++ ascii "<reg name=\"lr\" bitsize=\"32\"/>"
    ++ ascii "<reg name=\"pc\" bitsize=\"32\" type=\"code_ptr\"/>"
    ++ ascii "<reg name=\"xpsr\" bitsize=\"32\"/>"
    ++ ascii "<reg name=\"msp\" bitsize=\"32\" type=\"data_ptr\"/>"
    ++ ascii "<reg name=\"psp\" bitsize=\"32\" type=\"data_ptr\"/>"
    ++ ascii "</feature>"
    ++ ascii "</target>"

-- The `$` and the sum of a packet count in its size.
unfoldable pub supported : List ℕ
supported = ascii "qXfer:features:read+" ++ ascii ";QStartNoAckMode+" ++ ascii ";PacketSize=2004"

-- `~F_ACK` and `~F_CONSOLE`
abbrev pub without_ack : ℕ
without_ack = 0xFFFFFFFE

abbrev pub without_console : ℕ
without_console = 0xFFFFFFF7

-- `debugger_command` prints lines, and may change the link and the target.
module _ {W : Type 0} (c_library : CLibrary)
    (debugger_command : List ℕ → W → List (List ℕ) × W) where
  unfoldable pub gdb_console_puts : List ℕ → Gdbcnxn W → Gdbcnxn W
  gdb_console_puts msg gc =
      if bit_and gc.flags f_console == 0
      then gc
      else gdb_epilogue c_library.hex2 (gdb_puthex msg (gdb_putc b'O' (gdb_prologue gc)))

  unfoldable pub print_lines : List (List ℕ) → Gdbcnxn W → Gdbcnxn W
  unfolding gdb_console_puts
  print_lines [] gc = gc
  print_lines (msg ∷ lines) gc = print_lines lines (gdb_console_puts msg gc)

  -- The threads behind the first.
  unfoldable pub put_threads : List Thread → Gdbcnxn W → Gdbcnxn W
  put_threads [] gc = gc
  put_threads (t ∷ threads) gc =
      put_threads threads (gdb_puts (ascii "," ++ c_library.hex t.threadptr) gc)

  unfoldable pub thread_info : List Thread → Gdbcnxn W → Gdbcnxn W
  unfolding put_threads
  thread_info [] gc = gdb_puts (ascii "m1") gc
  thread_info (t ∷ threads) gc =
      put_threads threads (gdb_puts (ascii "m" ++ c_library.hex t.threadptr) gc)

  unfoldable pub thread_extra_info : Option Thread → Gdbcnxn W → Gdbcnxn W
  thread_extra_info none gc = gdb_puthex (ascii "Native") gc
  thread_extra_info (some t) gc = gdb_puthex (get_lk_thread_name t 128) gc

  unfoldable pub current_thread : Option Thread → Gdbcnxn W → Gdbcnxn W
  current_thread none gc = gdb_puts (ascii "QC1") gc
  current_thread (some t) gc = gdb_puts (ascii "QC" ++ c_library.hex t.threadptr) gc

  -- The text that pairs of digits decode to.
  unfoldable pub unhex_text : List ℕ → List ℕ
  unfolding unhex
  unhex_text [] = []
  unhex_text (x0 ∷ []) = []
  unhex_text (x0 ∷ x1 ∷ p) = u8 (unhex c_library x0 x1) ∷ unhex_text p

  unfoldable pub run_command : List ℕ → Gdbcnxn W → Gdbcnxn W
  unfolding unhex_text print_lines
  run_command args gc =
      let (lines, world) = debugger_command (c_string (unhex_text args)) gc.world in
      let gc1 =
        print_lines lines (record gc { flags = bit_or gc.flags f_console; world = world }) in
      gdb_puts (ascii "OK")
        (gdb_prologue (record gc1 { flags = bit_and gc1.flags without_console }))

  unfoldable pub handle_query : List ℕ → List ℕ → Gdbcnxn W → Gdbcnxn W
  unfolding thread_info thread_extra_info current_thread run_command
  handle_query cmd args gc =
      if same_text cmd (ascii "fThreadInfo")
      then thread_info gc.threadlist gc
      else if same_text cmd (ascii "sThreadInfo")
      then gdb_puts (ascii "l") gc
      else if same_text cmd (ascii "ThreadExtraInfo")
      then thread_extra_info (find_lk_thread gc.threadlist (c_library.strtoul args)) gc
      else if same_text cmd (ascii "C")
      then current_thread gc.cselected gc
      else if same_text cmd (ascii "Rcmd")
      then run_command args gc
      else if same_text cmd (ascii "Supported")
      then gdb_puts
          (ascii "qXfer:features:read+" ++ ascii ";QStartNoAckMode+" ++ ascii ";PacketSize=2004") gc
      else if same_text cmd (ascii "Xfer")
      then (if starts_with args (ascii "features:read:target.xml:")
          then gdb_puts target_xml (gdb_puts (ascii "l") gc)
          else gc)
      else gc

  unfoldable pub handle_set : List ℕ → Gdbcnxn W → Gdbcnxn W
  handle_set cmd gc =
      if same_text cmd (ascii "StartNoAckMode")
      then gdb_puts (ascii "OK") (record gc { flags = bit_and gc.flags without_ack })
      else gc
