-- ===== src/Agent/Loops.antt =====
-- The three payload loops of `process_txn` do what the commands ask, whatever memory holds behind
-- the received words.
use m3dev.Base.{
  ℕ, zero, suc, ◌+◌, ◌-◌, List, [], ◌∷◌, ◌++◌, if◌then◌else◌, length, replicate, ◌≡◌, refl, arith,
  append_assoc, append-nil,
}
use m3dev.Agent.Hardware.{Port}
use m3dev.Agent.{Out, continue, done, optable, write_words, read_words, discard_words}
use m3dev.Agent.Command.{Holds, do_writes, do_reads}

module _ {W : Type 0} (port : Port W) (rx : ℕ → ℕ) where
  pub write_words-do_writes :
      (op : ℕ) (vals : List ℕ) (pos rxc : ℕ) (o : Out W)
      → Holds rx pos vals
      → write_words port rx op (length vals) pos rxc o ≡ (
          let (bad, w) = do_writes port (optable port op) vals o.world in
          if bad
          then done (record o { status = 3; world = w })
          else continue (pos + length vals) (rxc - length vals) (record o { world = w }))
  unfolding write_words do_writes
  write_words-do_writes op [] pos rxc o h = ground arith
  write_words-do_writes op (v ∷ vs) pos rxc o h =
      let w = (port.swdp_write (optable port op) v o.world).1 in
      ground (arith, write_words-do_writes op vs (pos + 1) (rxc - 1) (record o { world = w }) h.1)

  pub read_words-do_reads :
      (op n pos rxc : ℕ) (o : Out W)
      → read_words port rx op n pos rxc o ≡ (
          let (bad, vs, w) = do_reads port (optable port op) n o.world in
          if bad
          then done (record o { tx = o.tx ++ vs; status = 3; world = w })
          else continue pos rxc (record o { tx = o.tx ++ vs; world = w }))
  unfolding read_words do_reads
  read_words-do_reads op zero pos rxc o = rw append-nil
  read_words-do_reads op (suc n) pos rxc o =
      let r = port.swdp_read (optable port op) o.world in
      ground (
        arith,
        read_words-do_reads op n pos rxc (record o { tx = o.tx ++ (r.1 ∷ []); world = r.2 }),
        append_assoc o.tx (r.1 ∷ []) (replicate n 0xfefefefe),
        append_assoc o.tx (r.1 ∷ []) (do_reads port (optable port op) n r.2).1,
      )

  pub discard_words-do_reads :
      (op n pos rxc : ℕ) (o : Out W)
      → discard_words port rx op n pos rxc o ≡ (
          let (bad, vs, w) = do_reads port (optable port op) n o.world in
          if bad
          then done (record o { status = 3; world = w })
          else continue pos rxc (record o { world = w }))
  unfolding discard_words do_reads
  discard_words-do_reads op zero pos rxc o = refl
  discard_words-do_reads op (suc n) pos rxc o =
      let r = port.swdp_read (optable port op) o.world in
      ground (arith, discard_words-do_reads op n pos rxc (record o { world = r.2 }))
