-- ===== src/Gdb/Command/Answers.antt =====
-- The answers of `handle_command` in tools/gdb-bridge.c, as packets.
use m3dev.Base.{
  split_at, ℕ, ◌<◌, refl, List, [], ◌∷◌, Option, none, some, Bool, true, false, ◌==◌, not, length,
  bit_and, ascii,
}
use m3dev.Target.{Target}
use m3dev.Lk.{Thread}
use m3dev.Gdb.{Gdbcnxn, maxpkt, gdb_puts}
use m3dev.Gdb.Breakpoint.{handle_breakpoint}
use m3dev.Gdb.Packet.{AreText}
use m3dev.Gdb.Hex.{CLibrary, hextobin}
use m3dev.Gdb.Command.{
  inactive, answer_more, gdb_update_threads, run_from, halt, without_running, set_selected,
  select_thread, thread_alive, read_bytes, write_bytes, read_registers, write_registers,
  read_register, write_register, change_breakpoint, answer,
}
use m3dev.Gdb.Command.Frames.{
  Midway, Sent, Midway-same, Sent-same, gdb_puts-Midway, gdb_puthex-Midway,
}
use m3dev.Gdb.Command.Cases.{both, cases, WhenSome, when_none, when_some, then-WhenSome}
use m3dev.Gdb.Command.QueryAnswers.{handle_query-Midway, handle_set-Midway}

module _ {W : Type 0} (c_library : CLibrary) (debugger_command : List ℕ → W → List (List ℕ) × W)
    (digits : (n : ℕ) → n < 256 → AreText (c_library.hex2 n)) (before : List ℕ) where
  abbrev M : Gdbcnxn W → Type 0
  M = Midway c_library.hex2 before

  abbrev S : Gdbcnxn W → Type 0
  S = Sent c_library.hex2 before

  module _ (target : Target W) where
    update_threads-Midway :
        (fuel : ℕ) (gc : Gdbcnxn W)
        → M gc
        → WhenSome M (gdb_update_threads target c_library debugger_command fuel gc)
    unfolding gdb_update_threads
    update_threads-Midway fuel gc m =
        both (WhenSome M) _ _ _
          (cases (WhenSome M) _ none _ when_none
            (λ found. when_some (Midway-same refl refl refl m)))
          (when_some (Midway-same refl refl refl m))

    halt-Midway :
        (fuel : ℕ) (gc : Gdbcnxn W)
        → M gc
        → WhenSome M (halt target c_library debugger_command fuel gc)
    unfolding halt
    halt-Midway fuel gc m =
        let gc' = record gc {
          flags = bit_and gc.flags without_running;
          world = target.swdp_core_halt gc.world;
        } in
        update_threads-Midway fuel gc' (Midway-same refl refl refl m)

    set_selected-Midway :
        (which : ℕ) (t : Option Thread) (gc : Gdbcnxn W)
        → M gc
        → M (set_selected target c_library debugger_command which t gc)
    unfolding set_selected
    set_selected-Midway which t gc m =
        both M (which == b'g') _ _ (Midway-same refl refl refl m)
          (both M (which == b'c') _ gc (Midway-same refl refl refl m) m)

    pub run_from-Sent :
        (args : List ℕ) (start : W → W) (gc : Gdbcnxn W)
        → S gc
        → S (run_from target c_library debugger_command args start gc)
    unfolding run_from
    run_from-Sent [] start gc s = Sent-same refl s
    run_from-Sent (c ∷ args) start gc s = Sent-same refl s

    select_thread-Midway :
        (args : List ℕ) (gc : Gdbcnxn W)
        → M gc
        → M (select_thread target c_library debugger_command args gc)
    unfolding select_thread
    select_thread-Midway args gc m = gdb_puts-Midway _ _ (set_selected-Midway _ _ gc m)

    thread_alive-Midway :
        (args : List ℕ) (gc : Gdbcnxn W)
        → M gc
        → M (thread_alive target c_library debugger_command args gc)
    unfolding thread_alive
    thread_alive-Midway args gc m =
        cases M _ _ _ (gdb_puts-Midway _ gc m) (λ t. gdb_puts-Midway _ gc m)

    read_bytes-Midway :
        (stale args : List ℕ) (gc : Gdbcnxn W)
        → M gc
        → M (read_bytes target c_library debugger_command stale args gc)
    unfolding read_bytes
    read_bytes-Midway stale args gc m =
        cases M _ gc _ m (λ place. gdb_puthex-Midway _ _ (Midway-same refl refl refl m))

    write_bytes-Midway :
        (args : List ℕ) (gc : Gdbcnxn W)
        → M gc
        → M (write_bytes target c_library debugger_command args gc)
    unfolding write_bytes
    write_bytes-Midway args gc m = cases M (split_at b':' args) gc _ m (λ parts.
        cases M (c_library.scan2 parts.0) gc _ m
          (λ place. gdb_puts-Midway _ _ (Midway-same refl refl refl m)))

    read_registers-Midway :
        (gc : Gdbcnxn W) → M gc → M (read_registers target c_library debugger_command gc)
    unfolding read_registers
    read_registers-Midway gc m =
        cases M (inactive gc.gselected) _ _ (gdb_puthex-Midway _ _ (Midway-same refl refl refl m))
          (λ t. gdb_puthex-Midway _ gc m)

    write_registers-Midway :
        (args : List ℕ) (gc : Gdbcnxn W)
        → M gc
        → M (write_registers target c_library debugger_command args gc)
    unfolding write_registers
    write_registers-Midway args gc m =
        cases M (inactive gc.gselected) _ (λ t. gc)
          (gdb_puts-Midway _ _ (Midway-same refl refl refl m)) (λ t. m)

    read_register-Midway :
        (args : List ℕ) (gc : Gdbcnxn W)
        → M gc
        → M (read_register target c_library debugger_command args gc)
    unfolding read_register
    read_register-Midway args gc m =
        cases M (inactive gc.gselected) _ _ (gdb_puthex-Midway _ _ (Midway-same refl refl refl m))
          (λ t. gdb_puthex-Midway _ gc m)

    write_register-Midway :
        (args : List ℕ) (gc : Gdbcnxn W)
        → M gc
        → M (write_register target c_library debugger_command args gc)
    unfolding write_register
    write_register-Midway args gc m =
        cases M (inactive gc.gselected) _ (λ t. gc)
          (cases M (split_at b'=' args) gc _ m (λ parts.
            both M (length (hextobin c_library parts.1 maxpkt) == 4) _ gc
              (gdb_puts-Midway _ _ (Midway-same refl refl refl m)) m))
          (λ t. m)

    change_breakpoint-Midway :
        (add : Bool) (args : List ℕ) (gc : Gdbcnxn W)
        → M gc
        → M (change_breakpoint target c_library debugger_command add args gc)
    unfolding change_breakpoint
    change_breakpoint-Midway add args gc m = cases M (c_library.scan3 args) gc _ m (λ numbers.
        let (r, tables, world) = handle_breakpoint target add numbers.1 gc.tables gc.world in
        both M (not (r == 0)) _ _ (gdb_puts-Midway _ _ (Midway-same refl refl refl m))
          (gdb_puts-Midway _ _ (Midway-same refl refl refl m)))

    answer_more-Midway :
        (fuel : ℕ) (c : ℕ) (args : List ℕ) (gc : Gdbcnxn W)
        → M gc
        → WhenSome M (answer_more target c_library debugger_command fuel c args gc)
    unfolding answer_more
    answer_more-Midway fuel c args gc m =
        let P = WhenSome M in
        both P (c == b'$') _ _
          (then-WhenSome (λ gc1. some (gdb_puts (ascii "S05") gc1)) (halt-Midway fuel gc m)
            (λ gc1 m1. when_some (gdb_puts-Midway _ gc1 m1)))
          (both P (c == b'q') _ _
            (when_some (handle_query-Midway c_library debugger_command digits before _ _ gc m))
            (both P (c == b'Q') _ _
              (when_some (handle_set-Midway c_library debugger_command digits before _ gc m))
              (both P (c == b'z') _ _ (when_some (change_breakpoint-Midway false args gc m)) (
                both P (c == b'Z') _ (some gc) (when_some (change_breakpoint-Midway true args gc m))
                  (when_some m)))))

    pub answer-Midway :
        (fuel : ℕ) (stale : List ℕ) (c : ℕ) (args : List ℕ) (gc : Gdbcnxn W)
        → M gc
        → WhenSome M (answer target c_library debugger_command fuel stale c args gc)
    unfolding answer
    answer-Midway fuel stale c args gc m =
        let P = WhenSome M in
        both P (c == b'?') _ _ (halt-Midway fuel _ (gdb_puts-Midway _ gc m)) (
          both P (c == b'H') _ _ (when_some (select_thread-Midway args gc m)) (
            both P (c == b'T') _ _ (when_some (thread_alive-Midway args gc m)) (
              both P (c == b'm') _ _ (when_some (read_bytes-Midway stale args gc m)) (
                both P (c == b'M') _ _ (when_some (write_bytes-Midway args gc m)) (
                  both P (c == b'g') _ _ (when_some (read_registers-Midway gc m)) (
                    both P (c == b'G') _ _ (when_some (write_registers-Midway args gc m)) (
                      both P (c == b'p') _ _ (when_some (read_register-Midway args gc m)) (
                        both P (c == b'P') _ _ (when_some (write_register-Midway args gc m))
                          (answer_more-Midway fuel c args gc m)))))))))
