-- ===== src/Host/Exec.antt =====
-- The exchange of tools/rswdp.c: `q_exec`, and the reader thread `swd_reader` one packet at a time.
-- Both run under `swd_lock` but for the wait, so that an exchange is `q_exec` up to the wait, then
-- the reader's packets in their order of arrival, then the rest of `q_exec`.
use m3dev.Base.{
  ℕ, ◌+◌, ◌-◌, ◌/◌, ◌%◌, Bool, true, false, List, [], ◌∷◌, ◌++◌, Option, none, some, ◌==◌, ltb, not,
  ◌&&◌, ◌||◌, if◌then◌else◌, u16, bit_and,
}
use m3dev.Protocol.{rswd_msg, rswd_txn_start, rswd_txn_async, cmd_null}
use m3dev.Host.Txn.{Txn, txc, txn_magic}
use m3dev.Host.Reply.{Async, process_reply, process_query, process_async}

-- `swd_online`: 0, 1 and -1
pub data Online : Type 0 where
  offline online lost : Online

-- `swd_txn_status`: TXN_STATUS_WAIT, TXN_STATUS_FAIL, or the bytes of the reply
pub data TxnStatus : Type 0 where
  wait fail : TxnStatus
  bytes : ℕ → TxnStatus

pub record Link : Type 0 where
  pub sequence : ℕ
  pub swd_online : Online
  pub swd_txn_id : ℕ
  pub swd_txn_status : TxnStatus
  -- The buffer `data` of the waiting `q_exec`.
  pub swd_txn_data : ℕ → ℕ
  pub swd_maxwords : ℕ
  pub swd_version : ℕ
  pub swd_error : ℕ
  -- The local variable of the reader thread, 0 once the query is answered.
  pub query_id : ℕ
  -- The memory of the host, where replies are stored, and what asynchronous packets did.
  pub mem : ℕ → ℕ
  pub asyncs : List Async

-- What `usb_read_forever` returns to the reader: bytes and the words, or an error.
pub data Event : Type 0 where
  packet : ℕ → (ℕ → ℕ) → Event
  disconnect : Event

-- A new connection: the query that the reader sends, and the state.
unfoldable pub reader_connect : Link → ℕ × Link
reader_connect s =
    let id = rswd_txn_start s.sequence in
    (id, record s { sequence = u16 (s.sequence + 1); query_id = id })

is_wait : TxnStatus → Bool
is_wait wait = true
is_wait fail = false
is_wait (bytes n) = false

-- One round of the reader's loop. `memcpy` overwrites the words received and no others.
unfoldable pub reader_event : Event → Link → Link
unfolding is_wait
reader_event disconnect s = record s { swd_online = lost; swd_txn_status = fail }
reader_event (packet r words) s =
    let body = λ (i : ℕ). words (i + 1) in
    let count = r / 4 - 1 in
    let queried = process_query body count in
    if ltb r 4 || not (bit_and r 3 == 0)
    then s
    else if not (s.query_id == 0) && words 0 == s.query_id
    then record s {
      query_id = 0;
      swd_version = queried.0;
      swd_maxwords = queried.1;
      swd_online = online;
    }
    else if words 0 == rswd_txn_async
    then record s { asyncs = s.asyncs ++ process_async body count }
    else if is_wait s.swd_txn_status && words 0 == s.swd_txn_id
    then record s {
      swd_txn_status = bytes r;
      swd_txn_data = λ i. if ltb i (r / 4) then words i else s.swd_txn_data i;
    }
    else s

-- The wait for `swd_event`; `none` is a wait that no packet ends. Returns the packets that are
-- still to come.
unfoldable pub q_wait : List Event → Link → Option (Link × List Event)
unfolding reader_event
q_wait [] s = none
q_wait (e ∷ es) s =
    let s' = reader_event e s in
    elim s'.swd_txn_status [ wait ↦ q_wait es s' | fail ↦ some (s', es) | bytes n ↦ some (s', es) ]

-- The words that are sent: the identifier, the messages, and a null word where the target could
-- not see the end of the transaction.
unfoldable pub q_frame : ℕ → ℕ → Txn → List ℕ
q_frame maxwords id t =
    id
    ∷ (if txc t % 16 == 0 && not (txc t == maxwords)
        then t.tx ++ (rswd_msg cmd_null 0 0 ∷ [])
        else t.tx)

-- Behind the wait: `r > 0` and `process_reply`, or -1.
unfoldable pub q_result : Txn → Link → ℕ × Link
q_result t s = elim s.swd_txn_status [
  | wait ↦ (1, s)
  | fail ↦ (1, s)
  | bytes r ↦
      (let o = process_reply (λ i. s.swd_txn_data (i + 1)) (r / 4 - 1) 0 t.rx s.mem s.swd_error in
        (o.ret, record s { mem = o.mem; swd_error = o.swd_error }))
]

-- `usb_write` is the write of the frame, true if all of it was written; `stale` is what the stack
-- holds in the buffer `data`. `none` is the exit on a bad transaction, or an endless wait.
unfoldable pub q_exec :
    (List ℕ → Bool) → (ℕ → ℕ) → List Event → Txn → Link → Option (ℕ × Link × List Event)
unfolding q_wait q_result q_frame
q_exec usb_write stale events t s =
    let id = rswd_txn_start s.sequence in
    let s1 = record s { sequence = u16 (s.sequence + 1) } in
    let waiting = record s1 { swd_txn_id = id; swd_txn_status = wait; swd_txn_data = stale } in
    let exchange : Option (ℕ × Link × List Event) = elim (q_wait events waiting) [
      | none ↦ none
      | some (s', rest) ↦ (let (r, s'') = q_result t s' in some (r, s'', rest))
    ] in
    if not (t.magic == txn_magic) then none else elim s.swd_online [
      | offline ↦ some (1, s1, events)
      | lost ↦ some (1, record s1 { swd_online = offline }, events)
      | online ↦ if usb_write (q_frame s.swd_maxwords id t) then exchange else some (1, s1, events)
    ]
