-- ===== src/Gdb/Tests.antt =====
-- Packets of the GDB bridge on concrete bytes.
use m3dev.Base.{
  ℕ, ◌+◌, ◌-◌, ◌*◌, ◌/◌, ◌%◌, ◌≡◌, refl, arith, Option, none, some, List, [], ◌∷◌, ◌++◌, ltb,
  if◌then◌else◌,
}
use m3dev.Gdb.Breakpoint.{Tables}
use m3dev.Gdb.{Gdbcnxn, s_idle, acknowledge, gdb_recv}
use m3dev.Gdb.Packet.{AreDigits, sum_from, gdb_send, gdb_recv-packet, gdb_recv-gdb_send}

abbrev hex_digit : ℕ → ℕ
hex_digit n = if ltb n 10 then n + 48 else n + 87

abbrev print_hex2 : ℕ → List ℕ
print_hex2 n = hex_digit (n / 16) ∷ hex_digit (n % 16) ∷ []

abbrev digit_value : ℕ → ℕ
digit_value c = if ltb c 58 then c - 48 else c - 87

abbrev read_hex2 : ℕ → ℕ → ℕ
read_hex2 a b = digit_value a * 16 + digit_value b

-- A command is noted behind what is written.
abbrev note_command : List ℕ → Gdbcnxn (Unit {0}) → Option (Gdbcnxn (Unit {0}))
note_command cs gc = some (record gc { written = gc.written ++ cs })

abbrev empty : Tables
empty = record { maxfp = 0; fp = []; maxbp = 0; bp = [] }

abbrev fresh : Gdbcnxn (Unit {0})
fresh = record {
  state = s_idle;
  txsum = 0;
  rxsum = 0;
  flags = 1;
  txbuf = [];
  rxbuf = [];
  chk0 = 0;
  written = [];
  threadlist = [];
  gselected = none;
  cselected = none;
  tables = empty;
  world = tt;
}

-- "m0,4"
abbrev payload : List ℕ
payload = b'm' ∷ b'0' ∷ b',' ∷ b'4' ∷ []

payload-AreDigits : AreDigits print_hex2 read_hex2 (sum_from 0 payload % 256)
payload-AreDigits = record {
  hi = b'f';
  lo = b'd';
  hi_text = omega arith;
  lo_text = omega arith;
  hi_byte = omega arith;
  lo_byte = omega arith;
  two_digits = refl;
  value = refl;
}

gdb_recv-gdb_send_example :
    (frame : List ℕ) × ((gdb_send print_hex2 payload fresh).written ≡ frame)
    × ((hi : ℕ) × (gdb_recv read_hex2 note_command frame fresh
          ≡ note_command payload (
              acknowledge read_hex2 note_command b'+' (record fresh {
                state = s_idle;
                chk0 = hi;
                rxbuf = payload;
                rxsum = sum_from 0 payload;
              }))))
gdb_recv-gdb_send_example =
    gdb_recv-gdb_send print_hex2 read_hex2 note_command fresh fresh payload refl (ground arith)
      (ground arith) (omega arith) payload-AreDigits

-- A wrong sum is refused.
gdb_recv-packet_example :
    gdb_recv read_hex2 note_command (b'$' ∷ payload ++ (b'#' ∷ b'0' ∷ b'0' ∷ [])) fresh
    ≡ some (record fresh {
      chk0 = b'0';
      rxbuf = payload;
      rxsum = sum_from 0 payload;
      written = b'-' ∷ [];
    })
unfolding gdb_recv
gdb_recv-packet_example =
    gdb_recv-packet read_hex2 note_command fresh payload [] b'0' b'0' refl (ground arith)
      (omega arith)
