-- ===== src/Agent/Refine.antt =====
-- The interpreter of `process_txn` refines the commands: it finds them in the words that encode
-- them, and does what they ask.
use m3dev.Base.{
  ℕ, zero, suc, ◌+◌, ◌-◌, ◌^◌, ◌<◌, List, [], ◌∷◌, ◌++◌, if◌then◌else◌, length, some, ◌≡◌, refl,
  arith, length-append, length-replicate, false, ltb, ◌≤◌,
}
use m3dev.Protocol.{
  rswd_msg, rswd_msg_cmd, rswd_msg_op, rswd_msg_arg, cmd_null, cmd_swd_write, cmd_swd_read,
  cmd_swd_discard, cmd_attach, cmd_reset, cmd_execute, cmd_trace, cmd_bootloader, cmd_set_clock,
  cmd_swd_data, cmd_status,
}
use m3dev.Protocol.Fields.{rswd_msg_fields}
use m3dev.Agent.Hardware.{Port}
use m3dev.Agent.{
  Out, Next, continue, done, optable, replied, txbuffer_words, process_msg, process_loop,
  process_txn, finish, start,
}
use m3dev.Agent.Command.{
  Cmd, null, attach, bootloader, write, read, discard, reset, execute, trace, set_clock, encode,
  encode_all, Fits, AllFit, Holds, exec_one, exec, do_reads, reply_words, reply_words_one,
}
use m3dev.Agent.Loops.{write_words-do_writes, read_words-do_reads, discard_words-do_reads}

pub Holds-append :
    (rx : ℕ → ℕ) (pos : ℕ) (xs ys : List ℕ)
    → Holds rx pos (xs ++ ys)
    → Holds rx pos xs × Holds rx (pos + length xs) ys
Holds-append rx pos [] ys h = (tt, let e : pos ≡ pos + 0 = omega arith in rw (← e) h)
Holds-append rx pos (x ∷ xs) ys h =
    let r = Holds-append rx (pos + 1) xs ys h.1 in
    let e : pos + 1 + length xs ≡ pos + suc (length xs) = omega arith in ((h.0, r.0), rw e at (r.1))

module _ {W : Type 0} (port : Port W) where
  length-do_reads : (code n : ℕ) (w : W) → length (do_reads port code n w).1 ≡ n
  unfolding do_reads
  length-do_reads code zero w = refl
  length-do_reads code (suc n) w = ground (
    arith,
    length-do_reads code n (port.swdp_read code w).2,
    length-replicate {0} {A = ℕ} n 0xfefefefe,
  )

  length-exec_one :
      (c : Cmd) (o : Out W) → length (exec_one port c o).1.tx ≡ length o.tx + reply_words_one c
  unfolding exec_one
  length-exec_one (read op n) o =
      let vs = (do_reads port (optable port op) n o.world).1 in
      ground (
        arith,
        length-do_reads (optable port op) n o.world,
        length-append {0} o.tx (rswd_msg cmd_swd_data 0 n ∷ []),
        length-append {0} (o.tx ++ (rswd_msg cmd_swd_data 0 n ∷ [])) vs,
      )
  length-exec_one null o = ground arith
  length-exec_one _ o = ground arith

  length-exec :
      (cs : List Cmd) (o : Out W) → length (exec port cs o).tx ≤ length o.tx + reply_words cs
  unfolding exec
  length-exec [] o = omega arith
  length-exec (c ∷ cs) o =
      let o1 = record o { count = o.count + 1 } in
      ground (arith, length-exec_one c o1, length-exec cs (exec_one port c o1).1)

  pub length-finish :
      (cs : List Cmd) (o : Out W)
      → length (finish port (exec port cs o)).sent ≤ length o.tx + reply_words cs + 2
  unfolding finish
  length-finish cs o =
      let e = exec port cs o in
      let tx = e.tx ++ (rswd_msg cmd_status e.status e.count ∷ []) in
      ground (
        arith,
        length-exec cs o,
        length-append {0} e.tx (rswd_msg cmd_status e.status e.count ∷ []),
        length-append {0} tx (rswd_msg cmd_null 0 0 ∷ []),
      )

module _ {W : Type 0} (port : Port W) (rx : ℕ → ℕ) where
  -- What a round of the loop does with the header at `pos`.
  abbrev round : ℕ → ℕ → ℕ → Out W → Next W
  round fuel pos rxc o =
      let msg = rx pos in
      process_msg port rx fuel (rswd_msg_cmd msg) (rswd_msg_op msg) (rswd_msg_arg msg) (pos + 1)
        (rxc - 1) o

  round-header :
      (fuel cmd op n pos rxc : ℕ) (o : Out W)
      → rx pos ≡ rswd_msg cmd op n
      → cmd < 2 ^ 8
      → op < 2 ^ 8
      → n < 2 ^ 16
      → round fuel pos rxc o ≡ process_msg port rx fuel cmd op n (pos + 1) (rxc - 1) o
  round-header fuel cmd op n pos rxc o h hc ho hn =
      let f = rswd_msg_fields cmd op n in
      let ec : rswd_msg_cmd (rx pos) ≡ cmd = ground (arith, f) in
      let eo : rswd_msg_op (rx pos) ≡ op = ground (arith, f) in
      let en : rswd_msg_arg (rx pos) ≡ n = ground (arith, f) in rw (ec, eo, en)

  round-exec_one :
      (fuel : ℕ) (c : Cmd) (pos rxc : ℕ) (o : Out W)
      → Fits c
      → Holds rx pos (encode c)
      → round fuel pos rxc o ≡ (
          let (stop, o') = exec_one port c o in
          if stop then done o' else continue (pos + length (encode c)) (rxc - length (encode c)) o')
  unfolding process_msg exec_one
  round-exec_one fuel null pos rxc o fit h =
      ground (arith, round-header fuel cmd_null 0 0 pos rxc o h.0)
  round-exec_one fuel attach pos rxc o fit h =
      ground (arith, round-header fuel cmd_attach 0 0 pos rxc o h.0)
  round-exec_one fuel bootloader pos rxc o fit h =
      ground (arith, round-header fuel cmd_bootloader 0 0 pos rxc o h.0)
  round-exec_one fuel (write op vals) pos rxc o fit h = ground (
    arith,
    round-header fuel cmd_swd_write op (length vals) pos rxc o h.0,
    write_words-do_writes port rx op vals (pos + 1) (rxc - 1) o h.1,
  )
  round-exec_one fuel (read op n) pos rxc o fit h = ground (
    arith,
    round-header fuel cmd_swd_read op n pos rxc o h.0,
    read_words-do_reads port rx op n (pos + 1) (rxc - 1)
        (record o { tx = o.tx ++ (rswd_msg cmd_swd_data 0 n ∷ []) }),
  )
  round-exec_one fuel (discard op n) pos rxc o fit h = ground (
    arith,
    round-header fuel cmd_swd_discard op n pos rxc o h.0,
    discard_words-do_reads port rx op n (pos + 1) (rxc - 1) o,
  )
  round-exec_one fuel (reset n) pos rxc o fit h =
      ground (arith, round-header fuel cmd_reset 0 n pos rxc o h.0)
  round-exec_one fuel (execute addr) pos rxc o fit h =
      ground (arith, round-header fuel cmd_execute 0 0 pos rxc o h.0, h.1.0)
  round-exec_one fuel (trace op) pos rxc o fit h =
      ground (arith, round-header fuel cmd_trace op 0 pos rxc o h.0)
  round-exec_one fuel (set_clock khz) pos rxc o fit h =
      ground (arith, round-header fuel cmd_set_clock 0 khz pos rxc o h.0)

  length-encode : (c : Cmd) → 0 < length (encode c)
  length-encode null = omega arith
  length-encode _ = omega arith

  process_loop-exec :
      (cs : List Cmd) (fuel pos rxc : ℕ) (o : Out W)
      → AllFit cs
      → Holds rx pos (encode_all cs)
      → rxc ≡ length (encode_all cs)
      → rxc < fuel
      → process_loop port rx fuel pos rxc o ≡ some (exec port cs o)
  unfolding process_loop exec
  process_loop-exec cs zero pos rxc o fit h e lt = absurd (omega arith)
  process_loop-exec [] (suc fuel) pos rxc o fit h e lt = ground arith
  process_loop-exec (c ∷ cs) (suc fuel) pos rxc o fit h e lt =
      let parts = Holds-append rx pos (encode c) (encode_all cs) h in
      let o1 = record o { count = o.count + 1 } in
      let len : length (encode c ++ encode_all cs) ≡ length (encode c) + length (encode_all cs) =
        length-append (encode c) (encode_all cs) in
      ground (
        arith,
        len,
        length-encode c,
        round-exec_one fuel c pos rxc o1 fit.0 parts.0,
        process_loop-exec cs fuel (pos + length (encode c)) (rxc - length (encode c))
            (exec_one port c o1).1 fit.1 parts.1,
      )

  -- A transaction whose words encode a list of commands that fit their headers is carried out as
  -- those commands: where the reply has room in `txbuffer`, that is 513 words for its identifier,
  -- the data with a header for each read, the status and the padding, and with more fuel than
  -- words, `process_txn` ends, and its reply, its effects on the port, `swdp_trace` and `func` are
  -- those of the commands in order up to the first failure, whatever memory holds behind the words.
  pub process_txn-exec :
      (cs : List Cmd) (fuel txnid old : ℕ) (w : W)
      → AllFit cs
      → Holds rx 0 (encode_all cs)
      → length (encode_all cs) < fuel
      → 1 + reply_words cs + 2 ≤ txbuffer_words
      → process_txn port fuel txnid rx (length (encode_all cs)) old w
        ≡ some (replied (finish port (exec port cs (start txnid old w))))
  unfolding process_txn
  process_txn-exec cs fuel txnid old w fit h lt room =
      let few = length-finish port cs (start txnid old w) in
      let fits : ltb 513 (length (finish port (exec port cs (start txnid old w))).sent) ≡ false =
        ground (arith, few, room) in
      rw
        (
          process_loop-exec cs fuel 0 (length (encode_all cs)) (start txnid old w) fit h refl lt,
          process_txn,
          fits,
        )
        refl
