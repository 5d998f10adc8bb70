-- ===== src/Gdb/Command.antt =====
-- The commands of GDB: `handle_command` of tools/gdb-bridge.c, the update of the threads, and the
-- check of a running target in `gdb_server`. A command is the text before its zero; what the buffer
-- holds behind it is taken as zero.
pub mod Frames
pub mod Cases
pub mod QueryAnswers
pub mod Answers
pub mod Receive
pub mod Bytes
mod Tests
use m3dev.Base.{
  split_at, ℕ, zero, suc, ◌+◌, ◌-◌, ◌*◌, ◌/◌, ◌%◌, List, [], ◌∷◌, ◌++◌, Option, none, some, Bool,
  true, false, not, ◌&&◌, ◌||◌, ◌==◌, ltb, leb, if◌then◌else◌, ◌>>=◌, length, get_or, take, drop,
  replicate, bit_and, bit_or, c_string, ascii, u32,
}
use m3dev.Protocol.{cdbg_csr, cdbg_s_halt}
use m3dev.Target.{Target}
use m3dev.Lk.{Thread, find_lk_thread, find_lk_threads, bytes_of_words}
use m3dev.Gdb.{Gdbcnxn, maxpkt, f_running, f_lk_threads, gdb_puts, gdb_prologue, gdb_epilogue}
use m3dev.Gdb.Hex.{CLibrary, gdb_puthex, hextobin}
use m3dev.Gdb.Query.{handle_query, handle_set}
use m3dev.Gdb.Memory.{words, write_memory}
use m3dev.Gdb.Breakpoint.{handle_breakpoint}

-- `~F_RUNNING`
abbrev pub without_running : ℕ
without_running = 0xFFFFFFFB

-- The name of a query, and its arguments.
unfoldable pub split_query : List ℕ → List ℕ × List ℕ
split_query [] = ([], [])
split_query (d ∷ s) =
    let (name, args) = split_query s in if d == b':' || d == b',' then ([], s) else (d ∷ name, args)

-- A list pointer that may be null.
abbrev pub all_found : Option (List Thread) → List Thread
all_found none = []
all_found (some threads) = threads

abbrev pub first_of : List Thread → Option Thread
first_of [] = none
first_of (t ∷ threads) = some t

-- The thread whose registers are shown, where it is not running.
unfoldable pub inactive : Option Thread → Option Thread
inactive none = none
inactive (some t) = if t.active then none else some t

module _ {W : Type 0} (target : Target W) (c_library : CLibrary)
    (debugger_command : List ℕ → W → List (List ℕ) × W) where
  unfoldable pub gdb_update_threads : ℕ → Gdbcnxn W → Option (Gdbcnxn W)
  gdb_update_threads fuel gc =
      if not (bit_and gc.flags f_lk_threads == 0)
      then elim (find_lk_threads target fuel gc.world) [
        | none ↦ none
        | some found ↦
            let threads = all_found found.0 in
            let first = first_of threads in
            some (record gc {
              threadlist = threads;
              cselected = first;
              gselected = first;
              world = found.1;
            })
      ]
      else some (record gc { threadlist = []; cselected = none; gselected = none })

  -- `c` and `s`: the address to go on from, and then the target runs.
  unfoldable pub run_from : List ℕ → (W → W) → Gdbcnxn W → Gdbcnxn W
  run_from [] start gc = record gc { world = start gc.world; flags = bit_or gc.flags f_running }
  run_from (c ∷ args) start gc =
      let pc = bit_or (u32 (c_library.strtoul (c ∷ args))) 1 in
      record gc {
        world = start (target.swdp_core_write 15 pc gc.world);
        flags = bit_or gc.flags f_running;
      }

  -- `?` and `$`
  unfoldable pub halt : ℕ → Gdbcnxn W → Option (Gdbcnxn W)
  unfolding gdb_update_threads
  halt fuel gc = gdb_update_threads fuel (record gc {
    flags = bit_and gc.flags without_running;
    world = target.swdp_core_halt gc.world;
  })

  unfoldable pub set_selected : ℕ → Option Thread → Gdbcnxn W → Gdbcnxn W
  set_selected which t gc =
      if which == b'g'
      then record gc { gselected = t }
      else if which == b'c'
      then record gc { cselected = t }
      else gc

  -- `H`
  unfoldable pub select_thread : List ℕ → Gdbcnxn W → Gdbcnxn W
  select_thread args gc =
      let first = first_of gc.threadlist in
      let named : Option Thread =
        elim (find_lk_thread gc.threadlist (u32 (c_library.strtoul (drop 1 args)))) [
          | none ↦ first
          | some t ↦ some t
        ] in
      let t = if get_or args 1 0 == b'-' && get_or args 2 0 == b'1' then first else named in
      gdb_puts (ascii "OK") (set_selected (get_or args 0 0) t gc)

  -- `T`
  unfoldable pub thread_alive : List ℕ → Gdbcnxn W → Gdbcnxn W
  thread_alive args gc = elim (find_lk_thread gc.threadlist (u32 (c_library.strtoul args))) [
    | none ↦ gdb_puts (ascii "E00") gc
    | some t ↦ gdb_puts (ascii "OK") gc
  ]

  -- `m` behind its numbers, where `tmp` held the bytes `stale`.
  unfoldable pub read_range : List ℕ → ℕ → ℕ → Gdbcnxn W → Gdbcnxn W
  read_range stale x count gc =
      let n = if ltb 1024 count then 1024 else count in
      let (r, xs, world) = target.swdp_ahb_read32 (bit_and x 0xFFFFFFFC) ((n + 3) / 4) gc.world in
      let tmp = bytes_of_words xs ++ drop (4 * length xs) stale in
      gdb_puthex (take n (drop (bit_and x 3) tmp)) (record gc { world = world })

  -- `m`
  unfoldable pub read_bytes : List ℕ → List ℕ → Gdbcnxn W → Gdbcnxn W
  unfolding read_range
  read_bytes stale args gc = elim (c_library.scan2 args) [
    | none ↦ gc
    | some place ↦ read_range stale place.0 place.1 gc
  ]

  -- `M`
  unfoldable pub write_bytes : List ℕ → Gdbcnxn W → Gdbcnxn W
  write_bytes args gc = elim (split_at b':' args) [
    | none ↦ gc
    | some parts ↦ elim (c_library.scan2 parts.0) [
      | none ↦ gc
      | some place ↦
          let bs = hextobin c_library parts.1 maxpkt in
          gdb_puts (ascii "OK") (record gc { world = write_memory target place.0 bs gc.world })
    ]
  ]

  -- `g`
  unfoldable pub read_registers : Gdbcnxn W → Gdbcnxn W
  unfolding inactive
  read_registers gc = elim (inactive gc.gselected) [
    | some t ↦ gdb_puthex (bytes_of_words (take 19 (t.regs ++ replicate 19 0))) gc
    | none ↦
        let (regs, world) = target.swdp_core_read_all gc.world in
        gdb_puthex (bytes_of_words regs) (record gc { world = world })
  ]

  -- `for (n = 0; n < len / 4; n++)`
  unfoldable pub write_core : ℕ → List ℕ → W → W
  write_core n [] w = w
  write_core n (x ∷ xs) w = write_core (n + 1) xs (target.swdp_core_write n x w)

  -- `G`
  unfoldable pub write_registers : List ℕ → Gdbcnxn W → Gdbcnxn W
  unfolding inactive write_core
  write_registers args gc = elim (inactive gc.gselected) [
    | some t ↦ gc
    | none ↦
        let bs = hextobin c_library args maxpkt in
        gdb_puts (ascii "OK")
          (record gc { world = write_core 0 (words (length bs / 4) bs) gc.world })
  ]

  -- `p`
  unfoldable pub read_register : List ℕ → Gdbcnxn W → Gdbcnxn W
  unfolding inactive
  read_register args gc =
      let n = u32 (c_library.strtoul args) in
      elim (inactive gc.gselected) [
        | some t ↦
            gdb_puthex (bytes_of_words ((if ltb 16 n then 0xEEEEEEEE else get_or t.regs n 0) ∷ []))
              gc
        | none ↦
            let (r, v, world) = target.swdp_core_read n gc.world in
            gdb_puthex (bytes_of_words (v ∷ [])) (record gc { world = world })
      ]

  -- `P`
  unfoldable pub write_register : List ℕ → Gdbcnxn W → Gdbcnxn W
  unfolding inactive
  write_register args gc = elim (inactive gc.gselected) [
    | some t ↦ gc
    | none ↦ elim (split_at b'=' args) [
      | none ↦ gc
      | some parts ↦
          let n = u32 (c_library.strtoul parts.0) in
          let bs = hextobin c_library parts.1 maxpkt in
          if length bs == 4
          then gdb_puts (ascii "OK")
              (record gc { world = target.swdp_core_write n (get_or (words 1 bs) 0 0) gc.world })
          else gc
    ]
  ]

  -- `z` and `Z`
  unfoldable pub change_breakpoint : Bool → List ℕ → Gdbcnxn W → Gdbcnxn W
  change_breakpoint add args gc = elim (c_library.scan3 args) [
    | none ↦ gc
    | some numbers ↦
        let (r, tables, world) = handle_breakpoint target add numbers.1 gc.tables gc.world in
        let gc1 = record gc { tables = tables; world = world } in
        if not (r == 0) then gdb_puts (ascii "E1") gc1 else gdb_puts (ascii "OK") gc1
  ]

  -- The second `switch`, from `$` on.
  unfoldable pub answer_more : ℕ → ℕ → List ℕ → Gdbcnxn W → Option (Gdbcnxn W)
  answer_more fuel c args gc =
      if c == b'$'
      then halt fuel gc >>= (λ gc1. some (gdb_puts (ascii "S05") gc1))
      else if c == b'q'
      then (let (name, query_args) = split_query args in
          some (handle_query c_library debugger_command name query_args gc))
      else if c == b'Q'
      then some (handle_set c_library debugger_command (split_query args).0 gc)
      else if c == b'z'
      then some (change_breakpoint false args gc)
      else if c == b'Z'
      then some (change_breakpoint true args gc)
      else some gc

  -- The second `switch`: the first character `c`, and what follows it.
  unfoldable pub answer : ℕ → List ℕ → ℕ → List ℕ → Gdbcnxn W → Option (Gdbcnxn W)
  answer fuel stale c args gc =
      if c == b'?'
      then halt fuel (gdb_puts (ascii "S05") gc)
      else if c == b'H'
      then some (select_thread args gc)
      else if c == b'T'
      then some (thread_alive args gc)
      else if c == b'm'
      then some (read_bytes stale args gc)
      else if c == b'M'
      then some (write_bytes args gc)
      else if c == b'g'
      then some (read_registers gc)
      else if c == b'G'
      then some (write_registers args gc)
      else if c == b'p'
      then some (read_register args gc)
      else if c == b'P'
      then some (write_register args gc)
      else answer_more fuel c args gc

  unfoldable pub handle_text : ℕ → List ℕ → ℕ → List ℕ → Gdbcnxn W → Option (Gdbcnxn W)
  handle_text fuel stale c args gc =
      if c == b'c'
      then some (run_from args target.swdp_core_resume gc)
      else if c == b's'
      then some (run_from args target.swdp_core_step gc)
      else answer fuel stale c args (gdb_prologue gc)
        >>= (λ gc1. some (gdb_epilogue c_library.hex2 gc1))

  unfoldable pub handle_command : ℕ → List ℕ → List ℕ → Gdbcnxn W → Option (Gdbcnxn W)
  handle_command fuel stale cmd gc =
      let text = c_string cmd in handle_text fuel stale (get_or text 0 0) (drop 1 text) gc

  -- The check of `gdb_server` before it waits.
  unfoldable pub check_running : ℕ → Gdbcnxn W → Option (Gdbcnxn W)
  check_running fuel gc =
      let (r, csr, world) = target.swdp_ahb_read cdbg_csr gc.world in
      let gc1 = record gc { world = world } in
      let gc2 = gdb_prologue (record gc1 { flags = bit_and gc1.flags without_running }) in
      if bit_and gc.flags f_running == 0
      then some gc
      else if r == 0 && not (bit_and csr cdbg_s_halt == 0)
      then gdb_update_threads fuel (gdb_epilogue c_library.hex2 (gdb_puts (ascii "S05") gc2))
      else some gc1
