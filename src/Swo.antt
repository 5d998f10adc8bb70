-- ===== src/Swo.antt =====
-- The decoder of the serial wire trace, tools/swo.c: `handle_swv` and the console lines that
-- `handle_swv_src` collects. What is printed is a list of lines.
pub mod Packets
pub mod Resync
pub mod Console
mod Tests
use m3dev.Base.{
  ℕ, zero, suc, ◌+◌, ◌*◌, List, [], ◌∷◌, ◌++◌, Option, none, some, ◌==◌, leb, ◌&&◌, ◌||◌, not,
  if◌then◌else◌, take, set, get_or, ◌<<<◌, ◌>>>◌, bit_and, bit_or, u8, u32,
}

-- `swv_state_t`
pub data State : Type 0 where
  sync s_1x1 s_1x2 s_1x4 s_2x2 s_2x4 s_3x4 s_4x4 proto idle : State

pub record Swv : Type 0 where
  pub state : State
  pub zcount : ℕ
  pub ccount : ℕ
  pub id : ℕ
  pub val : ℕ
  pub bytes : List ℕ

-- The calls of `handle_swv_src` and `handle_swv_proto`.
pub data Event : Type 0 where
  src : ℕ → ℕ → ℕ → Event
  protocol : List ℕ → Event

-- `swv->state = (x & 3)`, a number used as the enumeration.
unfoldable pub state_of : ℕ → State
state_of n = if n == 1 then s_1x1 else if n == 2 then s_1x2 else if n == 3 then s_1x4 else sync

-- The count of zeros, an `unsigned`, behind a byte that does not end a resynchronisation.
unfoldable pub next_zcount : Swv → ℕ → ℕ
next_zcount s x = if x == 0 then u32 (s.zcount + 1) else 0

-- The switch of `handle_swv`.
unfoldable pub dispatch : State → Swv → ℕ → Swv × List Event
unfolding state_of
dispatch idle s x =
    if not (bit_and x 7 == 0)
    then (
      record s {
        state = state_of (bit_and x 3);
        id = bit_or (x >>> 3) (bit_and x 4 <<< 6);
        val = 0;
      },
      [],
    )
    else if not (x == 0)
    then (let bytes' = set s.bytes 0 x in
        if not (bit_and x 0x80 == 0)
        then (record s { state = proto; ccount = 1; bytes = bytes' }, [])
        else (record s { bytes = bytes' }, protocol (take 1 bytes') ∷ []))
    else (s, [])
dispatch proto s x =
    let bytes' = set s.bytes s.ccount x in
    let n = s.ccount + 1 in
    if n == 7 || bit_and x 0x80 == 0
    then (record s { state = idle; ccount = n; bytes = bytes' }, protocol (take n bytes') ∷ [])
    else (record s { ccount = n; bytes = bytes' }, [])
dispatch s_1x1 s x = (record s { state = idle }, src s.id x 1 ∷ [])
dispatch s_1x2 s x = (record s { state = s_2x2; val = x }, [])
dispatch s_2x2 s x = (record s { state = idle }, src s.id (bit_or s.val (x <<< 8)) 2 ∷ [])
dispatch s_1x4 s x = (record s { state = s_2x4; val = x }, [])
dispatch s_2x4 s x = (record s { state = s_3x4; val = bit_or s.val (x <<< 8) }, [])
dispatch s_3x4 s x = (record s { state = s_4x4; val = bit_or s.val (x <<< 16) }, [])
dispatch s_4x4 s x = (record s { state = idle }, src s.id (bit_or s.val (x <<< 24)) 4 ∷ [])
dispatch sync s x = (s, [])

-- One byte.
unfoldable pub handle_swv : Swv → ℕ → Swv × List Event
unfolding dispatch next_zcount
handle_swv s x =
    if not (x == 0) && (leb 5 s.zcount && x == 0x80)
    then (record s { state = idle; zcount = 0 }, [])
    else dispatch s.state (record s { zcount = next_zcount s x }) x

-- The events of a sequence of bytes.
unfoldable pub decode : Swv → List ℕ → Swv × List Event
unfolding handle_swv
decode s [] = (s, [])
decode s (x ∷ xs) =
    let (s', es) = handle_swv s x in let (s'', more) = decode s' xs in (s'', es ++ more)

-- The console buffer `console_data[256]` with `console_ptr`, and the lines printed.
pub record Lines : Type 0 where
  pub console_data : List ℕ
  pub console_ptr : ℕ
  pub printed : List (List ℕ)

-- The text of a C string.
abbrev pub c_string : List ℕ → List ℕ
c_string [] = []
c_string (x ∷ xs) = if x == 0 then [] else x ∷ c_string xs

-- `console_data[console_ptr++] = val`, then the two cases that print; the second does not reset
-- `console_ptr`.
unfoldable pub handle_swv_src : Lines → ℕ → ℕ → Lines
handle_swv_src c id val =
    let ch = u8 val in
    let stored = set c.console_data c.console_ptr ch in
    let ptr = c.console_ptr + 1 in
    let closed = set stored ptr 0 in
    if not (id == 0)
    then c
    else if val == b'\n'
    then record c {
      console_data = closed;
      console_ptr = 0;
      printed = c.printed ++ (c_string closed ∷ []);
    }
    else if ptr == 254
    then record c {
      console_data = closed;
      console_ptr = ptr;
      printed = c.printed ++ ((c_string closed ++ (b'\n' ∷ [])) ∷ []);
    }
    else record c { console_data = stored; console_ptr = ptr }

unfoldable pub show_events : Lines → List Event → Lines
unfolding handle_swv_src
show_events c [] = c
show_events c (src id val n ∷ es) = show_events (handle_swv_src c id val) es
show_events c (protocol bytes ∷ es) = show_events c es

unfoldable pub process_swo_data : Swv → Lines → List ℕ → Swv × Lines
unfolding decode show_events
process_swo_data s c xs = let (s', es) = decode s xs in (s', show_events c es)
