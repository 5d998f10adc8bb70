-- ===== src/Gdb/Command/Receive.antt =====
-- `handle_command` and `gdb_recv` of tools/gdb-bridge.c together: what is written to the socket.
use m3dev.Base.{
  ℕ, ◌-◌, ◌<◌, ◌≡◌, refl, subst, List, [], ◌∷◌, ◌++◌, Option, some, not, ◌==◌, length, bit_and,
  get_or, drop, c_string,
}
use m3dev.Target.{Target}
use m3dev.Gdb.{
  Gdbcnxn, RecvState, s_idle, s_recv, s_chk1, s_chk2, maxpkt, f_ack, gdb_recv, recv_byte,
  acknowledge, gdb_epilogue,
}
use m3dev.Gdb.Packet.{AreText}
use m3dev.Gdb.Hex.{CLibrary}
use m3dev.Gdb.Command.{handle_text, handle_command}
use m3dev.Gdb.Command.Frames.{
  Frames, none_sent, acknowledged, refused, Sent, Sent-refl, Sent-same, Sent-more,
  gdb_prologue-Midway, gdb_epilogue-Sent,
}
use m3dev.Gdb.Command.Cases.{both, WhenSome, when_some, WhenSome-some, then-WhenSome}
use m3dev.Gdb.Command.Answers.{answer-Midway, run_from-Sent}

module _ {W : Type 0} (c_library : CLibrary) (debugger_command : List ℕ → W → List (List ℕ) × W)
    (digits : (n : ℕ) → n < 256 → AreText (c_library.hex2 n)) (before : List ℕ) where
  abbrev S : Gdbcnxn W → Type 0
  S = Sent c_library.hex2 before

  module _ (target : Target W) where
    handle_command-Sent :
        (fuel : ℕ) (stale cmd : List ℕ) (gc : Gdbcnxn W)
        → S gc
        → WhenSome S (handle_command target c_library debugger_command fuel stale cmd gc)
    unfolding handle_command handle_text
    handle_command-Sent fuel stale cmd gc s =
        let text = c_string cmd in
        let c = get_or text 0 0 in
        both (WhenSome S) (c == b'c') _ _
          (when_some (run_from-Sent c_library debugger_command digits before target _ _ gc s))
          (both (WhenSome S) (c == b's') _ _
            (when_some (run_from-Sent c_library debugger_command digits before target _ _ gc s))
            (then-WhenSome (λ gc1. some (gdb_epilogue c_library.hex2 gc1))
              (answer-Midway c_library debugger_command digits before target fuel stale c
                (drop 1 text) _ (gdb_prologue-Midway gc s))
              (λ gc1 m. when_some (gdb_epilogue-Sent gc1 digits m))))

    -- How the bridge reads the digits of a sum, and its commands.
    abbrev digits_value : ℕ → ℕ → ℕ
    digits_value hi lo = c_library.strtoul (hi ∷ lo ∷ [])

    abbrev handle : ℕ → List ℕ → List ℕ → Gdbcnxn W → Option (Gdbcnxn W)
    handle = handle_command target c_library debugger_command

    recv_byte-Sent :
        (fuel : ℕ) (stale : List ℕ) (state : RecvState) (c : ℕ) (gc : Gdbcnxn W)
        → S gc
        → WhenSome S (recv_byte digits_value (handle fuel stale) state c gc)
    unfolding recv_byte
    recv_byte-Sent fuel stale s_idle c gc s =
        both (WhenSome S) (c == 3) _ _ (handle_command-Sent fuel stale _ gc s)
          (when_some (both S (c == b'$') _ gc (Sent-same refl s) s))
    recv_byte-Sent fuel stale s_recv c gc s = when_some (
        both S (c == b'#') _ _ (Sent-same refl s)
          (both S (length gc.rxbuf == maxpkt - 1) _ _ (Sent-same refl s) (Sent-same refl s)))
    recv_byte-Sent fuel stale s_chk1 c gc s = when_some (Sent-same refl s)
    recv_byte-Sent fuel stale s_chk2 c gc s =
        let gc' = record gc { state = s_idle } in
        let taken : S (acknowledge digits_value (handle fuel stale) b'+' gc') =
          both S (not (bit_and gc.flags f_ack == 0)) _ gc'
            (Sent-more (acknowledged none_sent) refl s) (Sent-same refl s) in
        let again : S (acknowledge digits_value (handle fuel stale) b'-' gc') =
          both S (not (bit_and gc.flags f_ack == 0)) _ gc' (Sent-more (refused none_sent) refl s)
            (Sent-same refl s) in
        both (WhenSome S) (digits_value gc.chk0 c == bit_and gc.rxsum 0xFF) _ _
          (handle_command-Sent fuel stale gc.rxbuf _ taken) (when_some again)

    gdb_recv-Sent :
        (fuel : ℕ) (stale cs : List ℕ) (gc : Gdbcnxn W)
        → S gc
        → WhenSome S (gdb_recv digits_value (handle fuel stale) cs gc)
    unfolding gdb_recv
    gdb_recv-Sent fuel stale [] gc s = when_some s
    gdb_recv-Sent fuel stale (c ∷ cs) gc s =
        then-WhenSome (gdb_recv digits_value (handle fuel stale) cs)
          (recv_byte-Sent fuel stale gc.state c gc s) (λ gc1 s1. gdb_recv-Sent fuel stale cs gc1 s1)

    -- Whatever bytes arrive, in whatever state of the receiver, and whichever commands they make it
    -- handle: if `gdb_recv` returns, all it wrote since is whole packets, each begun by its mark and
    -- ended by the two digits of its own sum, with acknowledgements between them, provided that
    -- "%02x" prints characters, of which none is zero.
    pub gdb_recv-Frames :
        (fuel : ℕ) (stale cs : List ℕ) (gc gc' : Gdbcnxn W)
        → gc.written ≡ before
        → gdb_recv digits_value (handle fuel stale) cs gc ≡ some gc'
        → (frames : List ℕ) × Frames c_library.hex2 frames × (gc'.written ≡ before ++ frames)
    gdb_recv-Frames fuel stale cs gc gc' b e =
        let s =
          WhenSome-some (subst (WhenSome S) e (gdb_recv-Sent fuel stale cs gc (Sent-refl gc b))) in
        let p = s.packets in (p.frames, p.whole, p.behind)
