-- ===== src/Gdb/Command/Tests.antt =====
-- Commands of GDB on concrete bytes.
use m3dev.Base.{
  true, ℕ, ◌+◌, ◌-◌, ◌*◌, ◌/◌, ◌%◌, ◌<◌, ◌≡◌, refl, arith, List, [], ◌∷◌, Option, none, some, ltb,
  if◌then◌else◌, replicate,
}
use m3dev.Target.{Target}
use m3dev.Lk.{find_lk_thread}
use m3dev.Gdb.{Gdbcnxn, gdb_init, gdb_recv, gdb_puts, gdb_prologue, gdb_epilogue}
use m3dev.Gdb.Packet.{AreText}
use m3dev.Gdb.Hex.{CLibrary, hex_digit, gdb_puthex}
use m3dev.Gdb.Command.{handle_command, handle_text, answer, thread_alive, read_range}
use m3dev.Gdb.Command.Frames.{Frames}
use m3dev.Gdb.Command.Receive.{gdb_recv-Frames}
use m3dev.Gdb.Command.Bytes.{read_range_lem}

abbrev digit : ℕ → ℕ
digit c = if ltb c 58 then c - 48 else c - 87

abbrev value_from : ℕ → List ℕ → ℕ
value_from n [] = n
value_from n (c ∷ cs) = value_from (n * 16 + digit c) cs

abbrev c_library : CLibrary
c_library = record {
  strtoul = value_from 0;
  scan2 = λ s. none;
  scan3 = λ s. none;
  hex = λ n. hex_digit (n % 16) ∷ [];
  hex2 = λ n. hex_digit (n / 16) ∷ hex_digit (n % 16) ∷ [];
}

hex2_bytes : (n : ℕ) → n < 256 → AreText (c_library.hex2 n)
hex2_bytes n lt = ground (arith, lt)

abbrev quiet : List ℕ → Unit {0} → List (List ℕ) × Unit {0}
quiet text w = ([], w)

abbrev still : Target (Unit {0})
still = record {
  calloc = λ w. (true, w);
  swdp_ahb_read = λ a w. (0, 0, w);
  swdp_ahb_write = λ a v w. w;
  swdp_ahb_read32 = λ a n w. (0, replicate n 0x44332211, w);
  swdp_ahb_write32 = λ a vs w. w;
  swdp_core_read = λ n w. (0, 0, w);
  swdp_core_write = λ n v w. w;
  swdp_core_read_all = λ w. (replicate 19 0, w);
  swdp_core_halt = λ w. w;
  swdp_core_step = λ w. w;
  swdp_core_resume = λ w. w;
  swdp_watchpoint_pc = λ n a w. w;
  swdp_watchpoint_disable = λ n w. w;
}

abbrev start : Gdbcnxn (Unit {0})
start = record (gdb_init none none (record { maxfp = 0; fp = []; maxbp = 0; bp = [] }) tt) {
  written = [];
}

-- "$T1#85": is the thread 1 alive?
abbrev question : List ℕ
question = b'$' ∷ b'T' ∷ b'1' ∷ b'#' ∷ b'8' ∷ b'5' ∷ []

abbrev reply : Option (Gdbcnxn (Unit {0}))
reply =
    gdb_recv (λ hi lo. value_from 0 (hi ∷ lo ∷ [])) (handle_command still c_library quiet 9 [])
      question start

abbrev then_state : Option (Gdbcnxn (Unit {0})) → Gdbcnxn (Unit {0})
then_state none = start
then_state (some gc) = gc

-- "+$E00#a5"
reply_written :
    (then_state reply).written ≡ b'+' ∷ b'$' ∷ b'E' ∷ b'0' ∷ b'0' ∷ b'#' ∷ b'a' ∷ b'5' ∷ []
unfolding gdb_recv handle_command handle_text answer thread_alive find_lk_thread gdb_init
    gdb_prologue gdb_epilogue gdb_puts
reply_written = refl

gdb_recv-Frames_example :
    (frames : List ℕ) × Frames c_library.hex2 frames × ((then_state reply).written ≡ frames)
unfolding gdb_recv handle_command handle_text answer thread_alive find_lk_thread gdb_init
    gdb_prologue gdb_epilogue gdb_puts
gdb_recv-Frames_example =
    gdb_recv-Frames c_library quiet hex2_bytes [] still 9 [] question start (then_state reply) refl
      refl

-- Four bytes from the third byte of a word on: two of them are not memory's.
read_range_lem_example :
    read_range still c_library quiet (replicate 1032 0xAA) 0x20000002 4 start
    ≡ gdb_puthex (0x33 ∷ 0x44 ∷ 0xAA ∷ 0xAA ∷ []) start
unfolding gdb_init
read_range_lem_example =
    read_range_lem still c_library quiet (replicate 1032 0xAA) (0x44332211 ∷ []) 0x20000002 1 0
      start tt (omega arith) (omega arith) refl refl
