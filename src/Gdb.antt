-- ===== src/Gdb.antt =====
-- The packets of the GDB bridge, tools/gdb-bridge.c: `gdb_prologue`, `gdb_putc`, `gdb_epilogue` and
-- `gdb_recv`. What is written to the socket is a list of bytes, and `write` takes all of it.
pub mod Packet
pub mod Hex
pub mod Query
pub mod Command
pub mod Breakpoint
pub mod Memory
mod Tests
use m3dev.Base.{
  ℕ, ◌+◌, ◌-◌, List, [], ◌∷◌, ◌++◌, ◌==◌, not, if◌then◌else◌, length, bit_and, u8, u32, Option,
  none, some, ◌>>=◌,
}
use m3dev.Lk.{Thread}
use m3dev.Gdb.Breakpoint.{Tables}

abbrev pub maxpkt : ℕ
maxpkt = 8192

-- The bits of `flags`.
abbrev pub f_ack : ℕ
f_ack = 0x01

abbrev pub f_running : ℕ
f_running = 0x04

abbrev pub f_console : ℕ
f_console = 0x08

abbrev pub f_lk_threads : ℕ
f_lk_threads = 0x10

pub data RecvState : Type 0 where
  s_idle s_recv s_chk1 s_chk2 : RecvState

-- `struct gdbcnxn`: `txbuf` up to `txptr`, `rxbuf` up to `rxptr`, the bytes written to `fd`, and
-- the threads, of which the two pointers select one. With it stand the file's tables of breakpoints
-- and the link and the target behind it. The zero that ends a received command, and what a command
-- decodes into `rxbuf`, are left out: `rxptr` is set anew at the next packet.
pub record Gdbcnxn (W : Type 0) : Type 0 where
  pub state : RecvState
  pub txsum : ℕ
  pub rxsum : ℕ
  pub flags : ℕ
  pub txbuf : List ℕ
  pub rxbuf : List ℕ
  pub chk0 : ℕ
  pub written : List ℕ
  pub threadlist : List Thread
  pub gselected : Option Thread
  pub cselected : Option Thread
  pub tables : Tables
  pub world : W

module _ {W : Type 0} where
  -- The two selected threads are not set there: what the memory holds is given.
  unfoldable pub gdb_init : Option Thread → Option Thread → Tables → W → Gdbcnxn W
  gdb_init gselected cselected tables w = record {
    state = s_idle;
    txsum = 0;
    rxsum = 0;
    flags = f_ack;
    txbuf = [];
    rxbuf = [];
    chk0 = 0;
    written = [];
    threadlist = [];
    gselected = gselected;
    cselected = cselected;
    tables = tables;
    world = w;
  }

  unfoldable pub gdb_putc : ℕ → Gdbcnxn W → Gdbcnxn W
  gdb_putc n gc =
      if length gc.txbuf == maxpkt - 1
      then gc
      else record gc { txsum = u32 (gc.txsum + u8 n); txbuf = gc.txbuf ++ (u8 n ∷ []) }

  -- A C string: it ends at a zero.
  unfoldable pub gdb_puts : List ℕ → Gdbcnxn W → Gdbcnxn W
  unfolding gdb_putc
  gdb_puts [] gc = gc
  gdb_puts (c ∷ cs) gc = let rest = gdb_puts cs (gdb_putc c gc) in if c == 0 then gc else rest

  unfoldable pub gdb_prologue : Gdbcnxn W → Gdbcnxn W
  gdb_prologue gc = record gc { txbuf = b'$' ∷ []; txsum = 0 }

  -- `sprintf` of "%02x" is a parameter.
  unfoldable pub gdb_epilogue : (ℕ → List ℕ) → Gdbcnxn W → Gdbcnxn W
  gdb_epilogue hex2 gc =
      let gc' = gdb_puts (b'#' ∷ hex2 (bit_and gc.txsum 0xff)) gc in
      if length gc'.txbuf == maxpkt - 1
      then gc'
      else record gc' { written = gc'.written ++ gc'.txbuf }

-- `strtoul` of the two digits, and `handle_command` behind the packets, are parameters; `none` is a
-- command that does not return.
module _ {W : Type 0} (strtoul : ℕ → ℕ → ℕ)
    (handle_command : List ℕ → Gdbcnxn W → Option (Gdbcnxn W)) where
  -- `write(gc->fd, "+", 1)` where packets are acknowledged.
  abbrev pub acknowledge : ℕ → Gdbcnxn W → Gdbcnxn W
  acknowledge c gc =
      if not (bit_and gc.flags f_ack == 0)
      then record gc { written = gc.written ++ (c ∷ []) }
      else gc

  unfoldable pub recv_byte : RecvState → ℕ → Gdbcnxn W → Option (Gdbcnxn W)
  recv_byte s_idle c gc =
      if c == 3
      then handle_command (b'$' ∷ []) gc
      else some (if c == b'$' then record gc { state = s_recv; rxsum = 0; rxbuf = [] } else gc)
  recv_byte s_recv c gc = some (
      if c == b'#'
      then record gc { state = s_chk1 }
      else if length gc.rxbuf == maxpkt - 1
      then record gc { rxbuf = []; state = s_idle }
      else record gc { rxbuf = gc.rxbuf ++ (c ∷ []); rxsum = u32 (gc.rxsum + c) })
  recv_byte s_chk1 c gc = some (record gc { chk0 = c; state = s_chk2 })
  recv_byte s_chk2 c gc =
      let gc' = record gc { state = s_idle } in
      if strtoul gc.chk0 c == bit_and gc.rxsum 0xFF
      then handle_command gc.rxbuf (acknowledge b'+' gc')
      else some (acknowledge b'-' gc')

  unfoldable pub gdb_recv : List ℕ → Gdbcnxn W → Option (Gdbcnxn W)
  unfolding recv_byte
  gdb_recv [] gc = some gc
  gdb_recv (c ∷ cs) gc = recv_byte gc.state c gc >>= gdb_recv cs
