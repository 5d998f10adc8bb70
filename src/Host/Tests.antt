-- ===== src/Host/Tests.antt =====
-- A link to a small target, and the theorems on the host at concrete inputs.
use m3dev.Base.{
  ℕ, zero, suc, ◌+◌, ◌≡◌, refl, arith, List, [], ◌∷◌, ◌++◌, Option, some, ◌==◌, if◌then◌else◌,
  length, get_or, take, drop, ap,
}
use m3dev.Protocol.{rswd_msg, rswd_msg_cmd, rswd_msg_op, rswd_msg_arg, cmd_status}
use m3dev.Host.Txn.{Txn}
use m3dev.Host.Bulk.Machine.{Machine, write_all, read_all}
use m3dev.Host.Reply.{process_reply}
use m3dev.Host.Reply.Blocks.{process_reply-frame, at_status, store_all}

-- A link that reads the words of a transaction and carries them out on a target.
record Bench : Type 0 where
  machine : Machine
  mem : ℕ → ℕ

run_words : ℕ → List ℕ → Machine → List ℕ × Machine
run_words zero ws m = ([], m)
run_words (suc fuel) [] m = ([], m)
run_words (suc fuel) (w ∷ ws) m =
    let op = rswd_msg_op w in
    let n = rswd_msg_arg w in
    let written = run_words fuel (drop n ws) (write_all op (take n ws) m) in
    let got = read_all op n m in
    let behind = run_words fuel ws got.1 in
    if rswd_msg_cmd w == 1
    then written
    else if rswd_msg_cmd w == 2
    then (got.0 ++ behind.0, behind.1)
    else behind

bench_exec : Txn → Bench → Option (ℕ × Bench)
unfolding run_words
bench_exec t b =
    let (vs, m) = run_words (suc (length t.tx)) t.tx b.machine in
    some (0, record { machine = m; mem = store_all t.rx vs b.mem })

-- A target in which every word holds its own address.
abbrev bench : Bench
bench = record {
  machine = record { ap = record { bank = 0xF0; csw = 0; tar = 0 }; buffer = 0; memory = λ a. a };
  mem = λ p. p + 1;
}

abbrev reply_words : List ℕ
reply_words = 0x11000002 ∷ 7 ∷ 8 ∷ 0x10030005 ∷ []

process_reply-frame_example :
    process_reply (λ i. get_or reply_words i 0) 4 0 (40 ∷ 44 ∷ []) (λ p. 0) 0
    ≡ at_status 3 (store_all (40 ∷ 44 ∷ []) (7 ∷ 8 ∷ []) (λ p. 0)) 0
process_reply-frame_example =
    process_reply-frame (λ i. get_or reply_words i 0) ((7 ∷ 8 ∷ []) ∷ []) 3 5 4 0 (40 ∷ 44 ∷ [])
      (λ p. 0) 0 held (omega arith) (omega arith) (omega arith) (omega arith)
  where
    held :
        (0x11000002 ≡ rswd_msg 0x11 0 2)
        × ((7 ≡ ◌+◌ 7 0) × ((8 ≡ ◌+◌ 8 0) × ((0x10030005 ≡ rswd_msg cmd_status 3 5) × Unit {0})))
    held = unfold rswd_msg in (refl, (refl, (refl, (refl, tt))))
