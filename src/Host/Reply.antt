-- ===== src/Host/Reply.antt =====
-- The three readers of received words in tools/rswdp.c: `process_reply`, `process_query` and
-- `process_async`. The words are a function of the index, which also says what the buffer holds
-- behind the received ones. A result of 0 is success; another number stands for its negative.
pub mod Blocks
use m3dev.Base.{
  ℕ, zero, suc, ◌+◌, ◌-◌, ◌*◌, ◌/◌, Bool, true, false, List, [], ◌∷◌, ◌++◌, Option, none, some,
  ◌==◌, ltb, if◌then◌else◌, length, ◌>>>◌, bit_and,
}
use m3dev.Protocol.{
  rswd_msg_cmd, rswd_msg_op, rswd_msg_arg, cmd_null, cmd_swd_data, cmd_status, cmd_clock_khz,
  cmd_build_str, cmd_board_str, cmd_version, cmd_rx_maxdata, cmd_debug_print, cmd_swo_data,
}
use m3dev.Host.Txn.{max_words}

abbrev pub update : (ℕ → ℕ) → ℕ → ℕ → ℕ → ℕ
update mem p v q = if p == q then v else mem q

-- The result, the memory of the host, and `swd_error`.
pub record Outcome : Type 0 where
  pub ret : ℕ
  pub mem : ℕ → ℕ
  pub swd_error : ℕ

module _ (words : ℕ → ℕ) where
  -- `while (n-- > 0) *(t->rx[rxp++]) = *data++`: the memory, and the places that are left.
  unfoldable pub copy_words : ℕ → ℕ → List ℕ → (ℕ → ℕ) → List ℕ × (ℕ → ℕ)
  copy_words zero pos rx mem = (rx, mem)
  copy_words (suc n) pos [] mem = ([], mem)
  copy_words (suc n) pos (p ∷ rx) mem = copy_words n (pos + 1) rx (update mem p (words pos))

  -- `while (count-- > 0)`. The payload of CMD_SWD_DATA is not counted.
  unfoldable pub process_reply : ℕ → ℕ → List ℕ → (ℕ → ℕ) → ℕ → Outcome
  process_reply zero pos rx mem err = record { ret = 0; mem = mem; swd_error = err }
  process_reply (suc count) pos rx mem err =
      let msg = words pos in
      let op = rswd_msg_op msg in
      let n = rswd_msg_arg msg in
      let (rx', mem') = copy_words n (pos + 1) rx mem in
      let next = process_reply count (pos + 1) rx mem err in
      let behind = process_reply count (pos + 1 + n) rx' mem' err in
      if rswd_msg_cmd msg == cmd_null
      then next
      else if rswd_msg_cmd msg == cmd_swd_data
      then (if ltb (length rx) n then record { ret = 1; mem = mem; swd_error = err } else behind)
      else if rswd_msg_cmd msg == cmd_status
      then (if op == 0
          then record { ret = 0; mem = mem; swd_error = err }
          else record { ret = op; mem = mem; swd_error = op })
      else if rswd_msg_cmd msg == cmd_clock_khz
      then next
      else record { ret = 1; mem = mem; swd_error = err }

-- What the query found; `board` and `build` are the indices of the strings, if they were sent.
pub record Query : Type 0 where
  pub board : Option ℕ
  pub build : Option ℕ
  pub version : ℕ
  pub maxdata : ℕ

abbrev pub no_query : Query
no_query = record { board = none; build = none; version = 0x0005; maxdata = 2048 }

module _ (words : ℕ → ℕ) where
  -- `while (count-- > 0)` of `process_query`, where `count` is unsigned and the payload of the
  -- strings is not counted.
  unfoldable pub query_loop : ℕ → ℕ → Query → Query
  query_loop zero pos q = q
  query_loop (suc count) pos q =
      let msg = words pos in
      let n = rswd_msg_arg msg in
      let next = query_loop count (pos + 1) q in
      let built = query_loop count (pos + 1 + n) (record q { build = some (pos + 1) }) in
      let boarded = query_loop count (pos + 1 + n) (record q { board = some (pos + 1) }) in
      let versioned = query_loop count (pos + 1) (record q { version = n }) in
      let limited = query_loop count (pos + 1) (record q { maxdata = n }) in
      if rswd_msg_cmd msg == cmd_null
      then next
      else if rswd_msg_cmd msg == cmd_build_str
      then (if ltb count n then q else built)
      else if rswd_msg_cmd msg == cmd_board_str
      then (if ltb count n then q else boarded)
      else if rswd_msg_cmd msg == cmd_version
      then versioned
      else if rswd_msg_cmd msg == cmd_rx_maxdata
      then limited
      else q

  -- The new `swd_version` and `swd_maxwords`.
  unfoldable pub process_query : ℕ → ℕ × ℕ
  unfolding query_loop
  process_query count =
      let q = query_loop count 0 no_query in
      let maxdata = if ltb (max_words * 4) q.maxdata then max_words * 4 else q.maxdata in
      (q.version, maxdata / 4)

-- What an asynchronous packet makes the host do: print the words from an index on (a zero is put
-- behind them meanwhile), or hand trace bytes to `process_swo_data`.
pub data Async : Type 0 where
  debug_print : ℕ → ℕ → Async
  swo_data : ℕ → ℕ → Async

-- `while (count-- > 0)` of `process_async`; each round lowers `count`, so that the first number of
-- words serves as fuel. The case of CMD_SWO_DATA has no `break` and falls into the return.
unfoldable pub async_loop : (ℕ → ℕ) → ℕ → ℕ → ℕ → List Async
async_loop words zero count pos = []
async_loop words (suc fuel) count pos =
    let msg = words pos in
    let n = rswd_msg_arg msg in
    let left = count - 1 in
    let next = async_loop words fuel left (pos + 1) in
    let behind = async_loop words fuel (left - n) (pos + 1 + n) in
    if count == 0
    then []
    else if rswd_msg_cmd msg == cmd_null
    then next
    else if rswd_msg_cmd msg == cmd_debug_print
    then (if ltb left n then [] else debug_print (pos + 1) n ∷ behind)
    else if rswd_msg_cmd msg == cmd_swo_data
    then (if ltb left n then [] else swo_data (pos + 1) (n * 4) ∷ [])
    else []

unfoldable pub process_async : (ℕ → ℕ) → ℕ → List Async
unfolding async_loop
process_async words count = async_loop words count count 0
