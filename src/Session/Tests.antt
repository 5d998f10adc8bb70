-- ===== src/Session/Tests.antt =====
-- An exchange at a concrete input.
use m3dev.Base.{
  ℕ, ◌+◌, ◌*◌, ◌≡◌, refl, arith, true, List, [], ◌∷◌, some, length, ◌==◌, if◌then◌else◌,
}
use m3dev.Agent.Hardware.{Port}
use m3dev.Agent.{Reply, replied}
use m3dev.Agent.Command.{Cmd, write, read, discard, encode_all}
use m3dev.Host.Txn.{Txn, q_init}
use m3dev.Host.Bulk.Chunk.{Asks}
use m3dev.Host.Reply.Blocks.{store_all}
use m3dev.Host.Exec.{Link, online, wait, packet, q_exec}
use m3dev.Session.Words.{buffer}
use m3dev.Session.Exchange.{sent, effect, data_words}
use m3dev.Session.Main.{q_exec-receive_frame}
use m3dev.Agent.Main.{receive_frame}

-- Reads give the number of the access, and the access number 5 fails.
abbrev counter : Port ℕ
counter = record {
  swdp_read = λ code w. (w == 5, 100 + w, w + 1);
  swdp_write = λ code v w. (w == 5, w + 1);
  swdp_reset = λ w. 0;
  gpio_cfg_dir = λ d w. w;
  gpio_clr = λ w. w;
  ssp0_set_clock = λ khz w. (khz, w);
  printu_clock = λ khz w. w;
  printx_unknown = λ cmd w. w;
  store = λ addr v w. w;
  usb_xmit = λ ws w. w;
  past_optable = λ op. 0;
}

abbrev script : List Cmd
script = write 9 (0xF0 ∷ []) ∷ discard 14 1 ∷ read 12 2 ∷ []

abbrev asks_script : Txn
asks_script = record q_init { tx = encode_all script; rx = 40 ∷ 44 ∷ [] }

abbrev idle : Link
idle = record {
  sequence = 7;
  swd_online = online;
  swd_txn_id = 0;
  swd_txn_status = wait;
  swd_txn_data = λ i. 0;
  swd_maxwords = 512;
  swd_version = 0x0100;
  swd_error = 0;
  query_id = 0;
  mem = λ p. 0;
  asyncs = [];
}

script-Asks : Asks asks_script script (40 ∷ 44 ∷ [])
script-Asks = record { words = refl; places = refl; magic = refl }

q_exec-receive_frame_example :
    (r : Reply ℕ) × (s' : Link) × (receive_frame counter 9
        (buffer (sent counter script asks_script (40 ∷ 44 ∷ []) idle) (λ j. 0))
        (4 * length (sent counter script asks_script (40 ∷ 44 ∷ []) idle))
        0
        0
      ≡ some (replied r))
    × (q_exec
          (λ ws. true)
          (λ i. 5)
          (packet (4 * length r.sent) (buffer r.sent (λ j. 9)) ∷ [])
          asks_script
          idle
        ≡ some ((effect counter script asks_script (40 ∷ 44 ∷ []) idle 0 0).status, s', []))
    × (s'.mem
        ≡ store_all
            (40 ∷ 44 ∷ [])
            (data_words counter script asks_script (40 ∷ 44 ∷ []) idle 0 0)
            idle.mem)
    × (s'.swd_error ≡ (
        if (effect counter script asks_script (40 ∷ 44 ∷ []) idle 0 0).status == 0
        then 0
        else (effect counter script asks_script (40 ∷ 44 ∷ []) idle 0 0).status))
q_exec-receive_frame_example =
    q_exec-receive_frame counter script asks_script (40 ∷ 44 ∷ []) idle 9 0 0 (λ j. 0) (λ j. 9)
      (λ i. 5) [] script-Asks (omega arith) (omega arith) refl refl (unfold q_exec in omega arith)
      (unfold q_exec in omega arith) (omega arith)
