-- ===== src/Gdb/Command/QueryAnswers.antt =====
-- The answers of `handle_query` and `handle_set` in tools/gdb-bridge.c, as packets.
use m3dev.Base.{
  ℕ, ◌<◌, refl, List, [], ◌∷◌, Option, none, some, bit_or, same_text, starts_with, ascii, c_string,
}
use Prim.Native.String.{String}
use m3dev.Lk.{Thread, find_lk_thread}
use m3dev.Gdb.{Gdbcnxn, f_console}
use m3dev.Gdb.Packet.{AreText}
use m3dev.Gdb.Hex.{CLibrary}
use m3dev.Gdb.Query.{
  supported, target_xml, gdb_console_puts, print_lines, put_threads, thread_info, thread_extra_info,
  current_thread, unhex_text, run_command, handle_query, handle_set,
}
use m3dev.Gdb.Command.Frames.{
  Midway, Sent, Midway-Sent, Midway-same, Sent-same, gdb_puts-Midway, gdb_putc-Midway,
  gdb_puthex-Midway, gdb_prologue-Midway, gdb_epilogue-Sent,
}
use m3dev.Gdb.Command.Cases.{both}

module _ {W : Type 0} (c_library : CLibrary) (debugger_command : List ℕ → W → List (List ℕ) × W)
    (digits : (n : ℕ) → n < 256 → AreText (c_library.hex2 n)) (before : List ℕ) where
  abbrev M : Gdbcnxn W → Type 0
  M = Midway c_library.hex2 before

  abbrev S : Gdbcnxn W → Type 0
  S = Sent c_library.hex2 before

  print_lines-Sent :
      (lines : List (List ℕ)) (gc : Gdbcnxn W)
      → S gc
      → S (print_lines c_library debugger_command lines gc)
  unfolding print_lines gdb_console_puts
  print_lines-Sent [] gc s = s
  print_lines-Sent (msg ∷ lines) gc s = print_lines-Sent lines _ (
      both S _ gc _ s (
        gdb_epilogue-Sent _ digits
          (gdb_puthex-Midway msg _ (gdb_putc-Midway b'O' _ (gdb_prologue-Midway gc s)))))

  put_threads-Midway :
      (threads : List Thread) (gc : Gdbcnxn W)
      → M gc
      → M (put_threads c_library debugger_command threads gc)
  unfolding put_threads
  put_threads-Midway [] gc m = m
  put_threads-Midway (t ∷ threads) gc m = put_threads-Midway threads _ (gdb_puts-Midway _ gc m)

  thread_info-Midway :
      (threads : List Thread) (gc : Gdbcnxn W)
      → M gc
      → M (thread_info c_library debugger_command threads gc)
  unfolding thread_info
  thread_info-Midway [] gc m = gdb_puts-Midway _ gc m
  thread_info-Midway (t ∷ threads) gc m = put_threads-Midway threads _ (gdb_puts-Midway _ gc m)

  thread_extra_info-Midway :
      (t : Option Thread) (gc : Gdbcnxn W)
      → M gc
      → M (thread_extra_info c_library debugger_command t gc)
  unfolding thread_extra_info
  thread_extra_info-Midway none gc m = gdb_puthex-Midway _ gc m
  thread_extra_info-Midway (some t) gc m = gdb_puthex-Midway _ gc m

  current_thread-Midway :
      (t : Option Thread) (gc : Gdbcnxn W)
      → M gc
      → M (current_thread c_library debugger_command t gc)
  unfolding current_thread
  current_thread-Midway none gc m = gdb_puts-Midway _ gc m
  current_thread-Midway (some t) gc m = gdb_puts-Midway _ gc m

  run_command-Midway :
      (args : List ℕ) (gc : Gdbcnxn W) → M gc → M (run_command c_library debugger_command args gc)
  unfolding run_command
  run_command-Midway args gc m =
      let (lines, world) =
        debugger_command (c_string (unhex_text c_library debugger_command args)) gc.world in
      let gc1 = record gc { flags = bit_or gc.flags f_console; world = world } in
      gdb_puts-Midway _ _ (
        gdb_prologue-Midway _
          (Sent-same refl (print_lines-Sent lines gc1 (Sent-same refl (Midway-Sent m)))))

  pub handle_query-Midway :
      (cmd args : List ℕ) (gc : Gdbcnxn W)
      → M gc
      → M (handle_query c_library debugger_command cmd args gc)
  unfolding handle_query supported
  handle_query-Midway cmd args gc m =
      let is = λ (name : String). same_text cmd (ascii name) in
      both M (is "fThreadInfo") _ _ (thread_info-Midway gc.threadlist gc m) (
        both M (is "sThreadInfo") _ _ (gdb_puts-Midway (ascii "l") gc m) (
          both M (is "ThreadExtraInfo") _ _
            (thread_extra_info-Midway (find_lk_thread gc.threadlist (c_library.strtoul args)) gc m)
            (both M (is "C") _ _ (current_thread-Midway gc.cselected gc m) (
              both M (is "Rcmd") _ _ (run_command-Midway args gc m) (
                both M (is "Supported") _ _ (gdb_puts-Midway supported gc m) (
                  both M (is "Xfer") _ gc
                    (both M (starts_with args (ascii "features:read:target.xml:")) _ gc
                      (gdb_puts-Midway target_xml _ (gdb_puts-Midway (ascii "l") gc m)) m)
                    m))))))

  pub handle_set-Midway :
      (cmd : List ℕ) (gc : Gdbcnxn W) → M gc → M (handle_set c_library debugger_command cmd gc)
  unfolding handle_set
  handle_set-Midway cmd gc m = both M _ _ gc (gdb_puts-Midway _ _ (Midway-same refl refl refl m)) m
