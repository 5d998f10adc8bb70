-- ===== src/Swo/Tests.antt =====
-- The trace decoder on concrete bytes.
use m3dev.Base.{ℕ, ◌≡◌, refl, arith, List, [], ◌∷◌, replicate}
use m3dev.Swo.{Swv, idle, s_2x4, decode, Lines, process_swo_data}
use m3dev.Swo.Packets.{
  Packet, one, two, four, single, several, encode_all, events, IsReady, ArePackets,
  decode-encode_all,
}
use m3dev.Swo.Resync.{decode-resync, resync}
use m3dev.Swo.Console.{text, process_swo_data-text}

abbrev at_idle : Swv
at_idle = record { state = idle; zcount = 0; ccount = 0; id = 0; val = 0; bytes = replicate 8 0 }

abbrev inside : Swv
inside = record { state = s_2x4; zcount = 0; ccount = 0; id = 3; val = 1; bytes = replicate 8 0 }

at_idle-IsReady : IsReady at_idle
at_idle-IsReady = record { at_rest = refl; few_zeros = omega arith; room = refl }

-- A payload of four zeros, then a byte 0x80 in the payload of the next packet, and a
-- time stamp of four bytes.
abbrev packets : List Packet
packets =
    four 1 0 0 0 0 0
    ∷ one 0 0 0x80
    ∷ two 31 1 0xff 1
    ∷ single 0x70
    ∷ several 0xC0 (0x80 ∷ 0x81 ∷ []) 5
    ∷ []

packets-ArePackets : ArePackets packets
packets-ArePackets = ground arith

decode-encode_all_example :
    (s' : Swv) × (decode at_idle (encode_all packets) ≡ (s', events packets)) × IsReady s'
decode-encode_all_example = decode-encode_all at_idle packets at_idle-IsReady packets-ArePackets

decode-resync_example : IsReady (decode inside resync).0
decode-resync_example = decode-resync inside (omega arith) refl

abbrev console : Lines
console = record { console_data = replicate 256 0; console_ptr = 253; printed = [] }

abbrev long_text : List ℕ
long_text = b'a' ∷ b'b' ∷ b'c' ∷ b'd' ∷ []

process_swo_data-text_example :
    (process_swo_data at_idle console (encode_all (text long_text))).1.console_ptr ≡ 257
process_swo_data-text_example =
    process_swo_data-text at_idle console long_text at_idle-IsReady (ground arith)
