-- ===== src/Swo/Console.antt =====
-- The console lines of tools/swo.c, `handle_swv_src`, behind the decoder.
use m3dev.Base.{ℕ, ◌+◌, ◌<◌, ◌≡◌, ◌≢◌, arith, List, [], ◌∷◌, length}
use m3dev.Swo.{Swv, Lines, handle_swv_src, show_events, process_swo_data}
use m3dev.Swo.Packets.{Packet, one, encode_all, events, IsReady, ArePackets, decode-encode_all}

-- A text as the trace of a target: one packet per byte, from the stimulus port 0.
abbrev pub text : List ℕ → List Packet
text [] = []
text (x ∷ xs) = one 0 0 x ∷ text xs

-- Bytes, none of them the end of a line.
abbrev pub IsLineless : List ℕ → Type 0
IsLineless [] = Unit {0}
IsLineless (x ∷ xs) = (x < 256) × (x ≢ b'\n') × IsLineless xs

text-ArePackets : (xs : List ℕ) → IsLineless xs → ArePackets (text xs)
text-ArePackets [] ok = tt
text-ArePackets (x ∷ xs) (lt, ne, ok) = ((omega arith, omega arith, lt), text-ArePackets xs ok)

handle_swv_src-ptr :
    (c : Lines) (x : ℕ) → x ≢ b'\n' → (handle_swv_src c 0 x).console_ptr ≡ c.console_ptr + 1
unfolding handle_swv_src
handle_swv_src-ptr c x ne = ground (arith, ne)

show_events-text :
    (c : Lines) (xs : List ℕ)
    → IsLineless xs
    → (show_events c (events (text xs))).console_ptr ≡ c.console_ptr + length xs
unfolding show_events
show_events-text c [] ok = ground arith
show_events-text c (x ∷ xs) (lt, ne, ok) =
    let c' = handle_swv_src c 0 x in
    omega (arith, show_events-text c' xs ok, handle_swv_src-ptr c x ne)

-- Of the trace of a text without an end of line, from rest, the console's index moves on by one for
-- each byte and is never reset, also past the buffer's 256 bytes.
pub process_swo_data-text :
    (s : Swv) (c : Lines) (xs : List ℕ)
    → IsReady s
    → IsLineless xs
    → (process_swo_data s c (encode_all (text xs))).1.console_ptr ≡ c.console_ptr + length xs
unfolding process_swo_data
process_swo_data-text s c xs r ok =
    let (s', e, r') = decode-encode_all s (text xs) r (text-ArePackets xs ok) in
    rw e (show_events-text c xs ok)
