-- ===== src/Agent/Tests.antt =====
-- Runs of the interpreter on a small target, and the theorems at concrete inputs.
use m3dev.Base.{ℕ, ◌+◌, ◌≡◌, none, some, arith, refl, ◌==◌, List, [], ◌∷◌, get_or}
use m3dev.Protocol.{rswd_msg, rswd_msg_cmd, rswd_msg_op, rswd_msg_arg}
use m3dev.Agent.Hardware.{Port, no_func}
use m3dev.Agent.{
  replied, process_txn, process_loop, process_msg, finish, start, write_words, read_words,
  discard_words, optable,
}
use m3dev.Agent.Command.{Cmd, write, read, discard, encode_all, exec}
use m3dev.Agent.Refine.{process_txn-exec}
use m3dev.Agent.Hang.{process_txn-download}

-- A target that counts the accesses, answers a read with a number of its own, and fails the
-- access number 5.
abbrev counter : Port ℕ
counter = record {
  swdp_read = λ code w. (w == 5, 100 + w, w + 1);
  swdp_write = λ code v w. (w == 5, w + 1);
  swdp_reset = λ w. 0;
  gpio_cfg_dir = λ d w. w;
  gpio_clr = λ w. w;
  ssp0_set_clock = λ khz w. (khz, w);
  printu_clock = λ khz w. w;
  printx_unknown = λ cmd w. w;
  store = λ addr v w. w;
  usb_xmit = λ ws w. w;
  past_optable = λ op. 0;
}

abbrev script : List Cmd
script = write 8 (0xF0 ∷ []) ∷ discard 14 1 ∷ read 12 2 ∷ []

abbrev words : ℕ → ℕ
words i = get_or (encode_all script) i 0

-- Nine words are asked for and the third of them fails.
abbrev too_many : ℕ → ℕ
too_many i = get_or (encode_all (write 1 (7 ∷ 8 ∷ 9 ∷ []) ∷ read 12 4 ∷ [])) i 0

reply_words :
    process_txn counter 9 0xAA770001 words 4 0 0
    ≡ some (
        replied (record {
          sent = 0xAA770001 ∷ 0x11000002 ∷ 102 ∷ 103 ∷ 0x10000003 ∷ [];
          func = no_func;
          swdp_trace = 0;
          world = 4;
        }))
unfolding process_txn process_loop process_msg finish write_words read_words discard_words optable
    rswd_msg rswd_msg_cmd rswd_msg_op rswd_msg_arg
reply_words = refl

failed_words :
    process_txn counter 9 0xAA770001 too_many 5 0 0
    ≡ some (
        replied (record {
          sent = 0xAA770001 ∷ 0x11000004 ∷ 103 ∷ 104 ∷ 105 ∷ 0xfefefefe ∷ 0x10030002 ∷ [];
          func = no_func;
          swdp_trace = 0;
          world = 6;
        }))
unfolding process_txn process_loop process_msg finish write_words read_words discard_words optable
    rswd_msg rswd_msg_cmd rswd_msg_op rswd_msg_arg
failed_words = refl

process_txn-exec_example :
    process_txn counter 9 0xAA770001 words 4 0 0
    ≡ some (replied (finish counter (exec counter script (start 0xAA770001 0 0))))
process_txn-exec_example =
    process_txn-exec counter words script 9 0xAA770001 0 0 (omega arith) (omega arith) (omega arith)
      (omega arith)

process_txn-download_example : process_txn counter 1000 7 (λ i. 0x06000002) 4 0 0 ≡ none
process_txn-download_example =
    process_txn-download counter (λ i. 0x06000002) 1000 7 4 0 0 (omega arith)
      (unfold rswd_msg_cmd in refl) (unfold rswd_msg_arg in omega arith)
