-- ===== src/Session/Exchange.antt =====
-- One exchange: `q_exec` of tools/rswdp.c against `process_txn` of m3debug/main.c.
use m3dev.Base.{
  ℕ, suc, ◌+◌, ◌-◌, ◌*◌, ◌/◌, ◌%◌, ◌^◌, ◌≤◌, ◌<◌, ◌≡◌, refl, arith, true, List, [], ◌∷◌, ◌++◌, ◌==◌,
  if◌then◌else◌, length, length-append, ap, some, bit_and_mask, ltb, ◌∙◌, u16,
}
use m3dev.Protocol.{rswd_msg, rswd_txn_start, cmd_status}
use m3dev.Protocol.Fields.{rswd_txn_start_as_sum}
use m3dev.Agent.Hardware.{Port}
use m3dev.Agent.{Out, Reply, replied, txbuffer_words, process_txn, finish, start}
use m3dev.Agent.Command.{Cmd, AllFit, reply_words, encode_all, exec}
use m3dev.Agent.Refine.{process_txn-exec, Holds-append}
use m3dev.Host.Txn.{Txn, txn_magic}
use m3dev.Host.Bulk.Chunk.{Asks}
use m3dev.Host.Reply.{Outcome, process_reply}
use m3dev.Host.Reply.Blocks.{
  frame, flat, AllShort, store_all, length-le-frame, process_reply-frame, at_status,
}
use m3dev.Host.Exec.{Link, online, bytes, Event, packet, q_frame, q_exec}
use m3dev.Session.Blocks.{
  asked, blocks, exec-blocks, exec-status, blocks-AllShort, length-flat-blocks,
}
use m3dev.Session.Words.{
  buffer, received, received_lem, reply_words-received, Holds-buffer, Holds-copied, finish-sent,
}

-- The state of the link after an answered exchange.
abbrev answered : Link → ℕ → (ℕ → ℕ) → Outcome → Link
answered s r words o = record s {
  sequence = u16 (s.sequence + 1);
  swd_txn_id = rswd_txn_start s.sequence;
  swd_txn_status = bytes r;
  swd_txn_data = words;
  mem = o.mem;
  swd_error = o.swd_error;
}

q_exec-answer :
    (stale : ℕ → ℕ) (r : ℕ) (words : ℕ → ℕ) (rest : List Event) (t : Txn) (s : Link)
    → t.magic ≡ txn_magic
    → s.swd_online ≡ online
    → s.query_id ≡ 0
    → words 0 ≡ rswd_txn_start s.sequence
    → r % 4 ≡ 0
    → 4 ≤ r
    → (let got = λ (i : ℕ). if ltb i (r / 4) then words i else stale i in
        let o = process_reply (λ i. got (i + 1)) (r / 4 - 1) 0 t.rx s.mem s.swd_error in
        q_exec (λ ws. true) stale (packet r words ∷ rest) t s
        ≡ some (o.ret, answered s r got o, rest))
unfolding q_exec
q_exec-answer stale r words rest t s ready is_online no_query same whole some_words =
    ground (arith, bit_and_mask 2 r, rswd_txn_start_as_sum s.sequence)

-- A reply of data blocks and a status word, read from the buffer that it was copied to.
process_reply-sent :
    (sent : List ℕ) (id status count : ℕ) (bs : List (List ℕ)) (pad : List ℕ) (stale behind : ℕ → ℕ)
    (r : ℕ) (ps : List ℕ) (mem : ℕ → ℕ) (err : ℕ)
    → sent ≡ id ∷ ((frame bs ++ (rswd_msg cmd_status status count ∷ [])) ++ pad)
    → AllShort bs
    → status < 2 ^ 8
    → length (flat bs) ≤ length ps
    → r ≡ 4 * length sent
    → (let got = λ (i : ℕ). if ltb i (r / 4) then buffer sent behind i else stale i in
        process_reply (λ i. got (i + 1)) (r / 4 - 1) 0 ps mem err)
      ≡ at_status status (store_all ps (flat bs) mem) err
process_reply-sent sent id status count bs pad stale behind r ps mem err e short small room size =
    let body = frame bs ++ (rswd_msg cmd_status status count ∷ []) in
    let len = length-append {0} body pad in
    let len' = length-append {0} (frame bs) (rswd_msg cmd_status status count ∷ []) in
    let total : length sent ≡ suc (length (body ++ pad)) = ap length e in
    let held = Holds-copied id (body ++ pad) behind stale (r / 4) (omega arith) in
    let got = λ (i : ℕ). if ltb i (r / 4) then buffer (id ∷ (body ++ pad)) behind i else stale i in
    rw e (
      process_reply-frame (λ i. got (i + 1)) bs status count (r / 4 - 1) 0 ps mem err
        (Holds-append (λ i. got (i + 1)) 0 body pad held).0 short small room
        (omega (arith, length-le-frame bs)))

module _ {W : Type 0} (port : Port W) (cs : List Cmd) (t : Txn) (dest : List ℕ) (s : Link) where
  abbrev pub txn_id : ℕ
  txn_id = rswd_txn_start s.sequence

  abbrev pub sent : List ℕ
  sent = q_frame s.swd_maxwords txn_id t

  abbrev pub commands : List Cmd
  commands = received s.swd_maxwords t cs

  -- What the commands do, from the port's state `w` and the trace setting `old`.
  abbrev pub effect : ℕ → W → Out W
  effect old w = exec port commands (start txn_id old w)

  -- The data that they yield.
  abbrev pub data_words : ℕ → W → List ℕ
  data_words old w = flat (blocks port commands (start txn_id old w))

  firmware_replies :
      (fuel : ℕ) (behind : ℕ → ℕ) (old : ℕ) (w : W)
      → Asks t cs dest
      → AllFit cs
      → length sent ≤ fuel
      → reply_words cs + 3 ≤ txbuffer_words
      → process_txn port fuel txn_id (λ i. buffer sent behind (i + 1)) (length sent - 1) old w
        ≡ some (replied (finish port (effect old w)))
  firmware_replies fuel behind old w asks fit lt room =
      let (frame_eq, fits, same) = received_lem s.swd_maxwords txn_id t cs dest asks fit in
      let len : length (txn_id ∷ encode_all commands) - 1 ≡ length (encode_all commands) =
        omega arith in
      rw (frame_eq, len)
        (process_txn-exec port (λ i. buffer (txn_id ∷ encode_all commands) behind (i + 1)) commands
          fuel txn_id old w fits (Holds-buffer txn_id (encode_all commands) behind)
          (rw frame_eq at lt) (omega (arith, room, reply_words-received s.swd_maxwords t cs)))

  -- `process_txn`, given the words that `q_exec` sends, ends with one reply, and `q_exec`, whose next
  -- packet is that reply, returns the status of the commands and stores the data that they yield.
  pub q_exec-process_txn :
      (fuel old : ℕ) (w : W) (behind behind' stale : ℕ → ℕ) (rest : List Event)
      → Asks t cs dest
      → AllFit cs
      → asked cs ≤ length dest
      → s.swd_online ≡ online
      → s.query_id ≡ 0
      → length sent ≤ fuel
      → reply_words cs + 3 ≤ txbuffer_words
      → (r : Reply W) × (s' : Link) × (process_txn port fuel txn_id
            (λ i. buffer sent behind (i + 1))
            (length sent - 1)
            old
            w
          ≡ some (replied r))
        × (q_exec (λ ws. true) stale (packet (4 * length r.sent) (buffer r.sent behind') ∷ rest) t s
            ≡ some ((effect old w).status, s', rest))
        × (s'.mem ≡ store_all dest (data_words old w) s.mem)
        × (s'.swd_error
            ≡ (if (effect old w).status == 0 then s.swd_error else (effect old w).status))
  q_exec-process_txn fuel old w behind behind' stale rest asks fit room is_online no_query enough
        short =
      let o = effect old w in
      let reply = finish port o in
      let facts = received_lem s.swd_maxwords txn_id t cs dest asks fit in
      let first = start txn_id old w in
      let bs = blocks port commands first in
      let (pad, reply_words) =
        finish-sent port o txn_id (frame bs) (exec-blocks port commands first) in
      let r = 4 * length reply.sent in
      let total : length reply.sent
          ≡ suc (length ((frame bs ++ (rswd_msg cmd_status o.status o.count ∷ [])) ++ pad)) =
        ap length reply_words in
      let got = λ (i : ℕ). if ltb i (r / 4) then buffer reply.sent behind' i else stale i in
      let out = process_reply (λ i. got (i + 1)) (r / 4 - 1) 0 t.rx s.mem s.swd_error in
      let small : o.status < 2 ^ 8 = omega (arith, exec-status port commands first refl) in
      let fits : length (flat bs) ≤ length t.rx =
        rw asks.places (omega (arith, length-flat-blocks port commands first, facts.2)) in
      let read : out ≡ at_status o.status (store_all t.rx (flat bs) s.mem) s.swd_error =
        process_reply-sent reply.sent txn_id o.status o.count bs pad stale behind' r t.rx s.mem
          s.swd_error reply_words (blocks-AllShort port commands first facts.1) small fits refl in
      let head : buffer reply.sent behind' 0 ≡ txn_id = rw reply_words (ground arith) in
      (
        reply,
        answered s r got out,
        firmware_replies fuel behind old w asks fit enough short,
        q_exec-answer stale r (buffer reply.sent behind') rest t s asks.magic is_online no_query
              head (omega arith) (omega arith)
            ∙ ap (λ k. some (k, answered s r got out, rest)) (ap (λ (x : Outcome). x.ret) read),
        ap (λ (x : Outcome). x.mem) read ∙ ap (λ ps. store_all ps (flat bs) s.mem) asks.places,
        ap (λ (x : Outcome). x.swd_error) read,
      )
