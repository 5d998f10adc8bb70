-- ===== src/Session/Main.antt =====
-- One exchange with the loop of `main` in m3debug/main.c: what `q_exec` sends passes the checks of
-- the firmware.
use m3dev.Base.{
  ◌+◌, ℕ, ◌*◌, ◌≤◌, ◌≡◌, arith, true, List, ◌∷◌, some, length, ◌==◌, if◌then◌else◌, ◌∙◌,
}
use m3dev.Protocol.{rswd_txn_start}
use m3dev.Agent.Hardware.{Port}
use m3dev.Agent.{Reply, replied, rxbuffer_words, txbuffer_words}
use m3dev.Agent.Main.{receive_frame, receive_frame-process_txn}
use m3dev.Agent.Command.{Cmd, AllFit, reply_words}
use m3dev.Host.Txn.{Txn}
use m3dev.Host.Bulk.Chunk.{Asks}
use m3dev.Host.Reply.Blocks.{store_all}
use m3dev.Host.Exec.{Link, online, Event, packet, q_exec}
use m3dev.Session.Words.{buffer, received_lem}
use m3dev.Session.Blocks.{asked}
use m3dev.Session.Exchange.{sent, effect, data_words, q_exec-process_txn}

module _ {W : Type 0} (port : Port W) (cs : List Cmd) (t : Txn) (dest : List ℕ) (s : Link) where
  sent-head :
      (behind : ℕ → ℕ)
      → Asks t cs dest
      → AllFit cs
      → (1 ≤ length (sent port cs t dest s))
        × (buffer (sent port cs t dest s) behind 0 ≡ rswd_txn_start s.sequence)
  sent-head behind asks fit =
      let (frame_eq, fits, same) =
        received_lem s.swd_maxwords (rswd_txn_start s.sequence) t cs dest asks fit in
      (rw frame_eq (omega arith), rw frame_eq (ground arith))

  -- One exchange, end to end. A transaction `t` asks for the commands `cs` and has places for all
  -- the words that they ask for; the link is online and its version query is answered; the words
  -- sent fit the firmware's `rxbuffer` of 512 words, and the reply, with a header for each read,
  -- its identifier, the status and the padding, fits `txbuffer` of 513. Then the firmware's loop,
  -- when it has received the words that `q_exec` sends (with any words behind them in its buffer),
  -- takes them for a transaction, ends with fuel for each word and sends one reply `r`; and
  -- `q_exec`, whose next packet is that reply (with any words behind it, into a buffer that holds
  -- anything), returns the status of the commands (0 for success), the data that the port yielded
  -- stands in order at the transaction's places and nowhere else in the host's memory, and
  -- `swd_error` is the status of a failure.
  pub q_exec-receive_frame :
      (fuel old : ℕ) (w : W) (behind behind' stale : ℕ → ℕ) (rest : List Event)
      → Asks t cs dest
      → AllFit cs
      → asked cs ≤ length dest
      → s.swd_online ≡ online
      → s.query_id ≡ 0
      → length (sent port cs t dest s) ≤ fuel
      → length (sent port cs t dest s) ≤ rxbuffer_words
      → reply_words cs + 3 ≤ txbuffer_words
      → (r : Reply W) × (s' : Link) × (receive_frame port fuel
            (buffer (sent port cs t dest s) behind)
            (4 * length (sent port cs t dest s))
            old
            w
          ≡ some (replied r))
        × (q_exec (λ ws. true) stale (packet (4 * length r.sent) (buffer r.sent behind') ∷ rest) t s
            ≡ some ((effect port cs t dest s old w).status, s', rest))
        × (s'.mem ≡ store_all dest (data_words port cs t dest s old w) s.mem)
        × (s'.swd_error ≡ (
            if (effect port cs t dest s old w).status == 0
            then s.swd_error
            else (effect port cs t dest s old w).status))
  q_exec-receive_frame fuel old w behind behind' stale rest asks fit room is_online no_query enough
        fits short =
      let (many, head) = sent-head behind asks fit in
      let (r, s', done, answer, stored, error) =
        q_exec-process_txn port cs t dest s fuel old w behind behind' stale rest asks fit room
          is_online no_query enough short in
      (
        r,
        s',
        receive_frame-process_txn port fuel (buffer (sent port cs t dest s) behind)
              (length (sent port cs t dest s)) s.sequence old w many fits head
            ∙ done,
        answer,
        stored,
        error,
      )
