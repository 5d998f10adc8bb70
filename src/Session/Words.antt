-- ===== src/Session/Words.antt =====
-- What passes between `q_exec` of tools/rswdp.c and `process_txn` of m3debug/main.c, as words.
use m3dev.Base.{
  ℕ, suc, ◌+◌, ◌/◌, ◌%◌, ◌≤◌, ◌<◌, ◌≡◌, inl, inr, refl, arith, true, not, ◌&&◌, List, [], ◌∷◌, ◌++◌,
  ◌==◌, if◌then◌else◌, length, append_assoc, append-nil, ap, Bool-cases, get_or, bit_and,
  bit_and_mask, ltb, ◌∙◌, sym, ◌≢◌,
}
use m3dev.Protocol.{rswd_msg, rswd_txn_async, cmd_null, cmd_status}
use m3dev.Agent.Hardware.{Port}
use m3dev.Agent.{Out, finish}
use m3dev.Agent.Command.{Cmd, null, AllFit, Holds, reply_words, encode, encode_all}
use m3dev.Host.Txn.{Txn, txc}
use m3dev.Host.Bulk.Chunk.{Asks}
use m3dev.Host.Exec.{Link, wait, bytes, packet, reader_event, q_frame}
use m3dev.Session.Blocks.{asked}

-- The words of a list from index `i` on, and `rest` behind them.
abbrev pub buffer : List ℕ → (ℕ → ℕ) → ℕ → ℕ
buffer ws rest i = if ltb i (length ws) then get_or ws i 0 else rest i

-- The commands that the firmware receives: those asked for, and the padding.
abbrev pub received : ℕ → Txn → List Cmd → List Cmd
received maxwords t cs =
    if txc t % 16 == 0 && not (txc t == maxwords) then cs ++ (null ∷ []) else cs

encode_all-snoc :
    (cs : List Cmd) → encode_all (cs ++ (null ∷ [])) ≡ encode_all cs ++ (rswd_msg cmd_null 0 0 ∷ [])
encode_all-snoc [] = refl
encode_all-snoc (c ∷ cs) = ground (
  arith,
  encode_all-snoc cs,
  append_assoc (encode c) (encode_all cs) (rswd_msg cmd_null 0 0 ∷ []),
)

asked-snoc : (cs : List Cmd) → asked (cs ++ (null ∷ [])) ≡ asked cs
asked-snoc [] = refl
asked-snoc (c ∷ cs) = omega (arith, asked-snoc cs)

reply_words-snoc : (cs : List Cmd) → reply_words (cs ++ (null ∷ [])) ≡ reply_words cs
reply_words-snoc [] = refl
reply_words-snoc (c ∷ cs) = omega (arith, reply_words-snoc cs)

pub reply_words-received :
    (maxwords : ℕ) (t : Txn) (cs : List Cmd) → reply_words (received maxwords t cs) ≡ reply_words cs
reply_words-received maxwords t cs =
    elim (Bool-cases (txc t % 16 == 0 && not (txc t == maxwords))) [
      | inl e ↦ rw e (reply_words-snoc cs)
      | inr e ↦ rw e refl
    ]

AllFit-snoc : (cs : List Cmd) → AllFit cs → AllFit (cs ++ (null ∷ []))
AllFit-snoc [] fit = (tt, tt)
AllFit-snoc (c ∷ cs) fit = (fit.0, AllFit-snoc cs fit.1)

-- The padding is one more command, which asks for nothing.
pub received_lem :
    (maxwords id : ℕ) (t : Txn) (cs : List Cmd) (dest : List ℕ)
    → Asks t cs dest
    → AllFit cs
    → (q_frame maxwords id t ≡ id ∷ encode_all (received maxwords t cs))
      × AllFit (received maxwords t cs)
      × (asked (received maxwords t cs) ≡ asked cs)
unfolding q_frame
received_lem maxwords id t cs dest asks fit =
    elim (Bool-cases (txc t % 16 == 0 && not (txc t == maxwords))) [
      | inl e ↦ rw e (
        ap (λ ws. id ∷ ws)
            (ap (λ ws. ws ++ (rswd_msg cmd_null 0 0 ∷ [])) asks.words ∙ sym (encode_all-snoc cs)),
        AllFit-snoc cs fit,
        asked-snoc cs,
      )
      | inr e ↦ rw e (ap (λ ws. id ∷ ws) asks.words, fit, refl)
    ]

Holds-get_or :
    (f : ℕ → ℕ) (pos : ℕ) (ws : List ℕ)
    → ((i : ℕ) → i < length ws → f (pos + i) ≡ get_or ws i 0)
    → Holds f pos ws
Holds-get_or f pos [] h = tt
Holds-get_or f pos (w ∷ ws) h = (
  ap f (omega arith) ∙ h 0 (omega arith),
  Holds-get_or f (pos + 1) ws (λ i lt. ap f (omega arith) ∙ h (suc i) (omega arith)),
)

-- The words behind the first of a packet, whatever follows them.
pub Holds-buffer :
    (x : ℕ) (ws : List ℕ) (rest : ℕ → ℕ) → Holds (λ i. buffer (x ∷ ws) rest (i + 1)) 0 ws
Holds-buffer x ws rest =
    Holds-get_or (λ i. buffer (x ∷ ws) rest (i + 1)) 0 ws
      λ i lt.
        let e : 0 + i + 1 ≡ suc i = omega arith in
        let t : ltb (suc i) (suc (length ws)) ≡ true = ground arith in rw (e, t)

-- The same of a buffer into which only the packet's `n` words were copied.
pub Holds-copied :
    (x : ℕ) (ws : List ℕ) (behind stale : ℕ → ℕ) (n : ℕ)
    → n ≡ suc (length ws)
    → Holds (λ i. if ltb (i + 1) n then buffer (x ∷ ws) behind (i + 1) else stale (i + 1)) 0 ws
Holds-copied x ws behind stale n size =
    Holds-get_or (λ i. if ltb (i + 1) n then buffer (x ∷ ws) behind (i + 1) else stale (i + 1)) 0 ws
      λ i lt.
        let e : 0 + i + 1 ≡ suc i = omega arith in
        let t : ltb (suc i) (suc (length ws)) ≡ true = ground arith in rw (e, size, t)

-- The reader hands the waiting `q_exec` the packet that carries its identifier.
pub reader_event-answer :
    (r : ℕ) (words : ℕ → ℕ) (s : Link)
    → s.query_id ≡ 0
    → s.swd_txn_status ≡ wait
    → words 0 ≡ s.swd_txn_id
    → s.swd_txn_id ≢ rswd_txn_async
    → r % 4 ≡ 0
    → 4 ≤ r
    → reader_event (packet r words) s ≡ record s {
      swd_txn_status = bytes r;
      swd_txn_data = λ i. if ltb i (r / 4) then words i else s.swd_txn_data i;
    }
unfolding reader_event
reader_event-answer r words s answered waiting same ne whole some_words =
    ground (arith, bit_and_mask 2 r)

-- The words that `finish` sends.
pub finish-sent :
    {W : Type 0} (port : Port W) (o : Out W) (id : ℕ) (ws : List ℕ)
    → o.tx ≡ id ∷ ws
    → (pad : List ℕ) × ((finish port o).sent
        ≡ id ∷ ((ws ++ (rswd_msg cmd_status o.status o.count ∷ [])) ++ pad))
unfolding finish
finish-sent port o id ws e =
    let tx = o.tx ++ (rswd_msg cmd_status o.status o.count ∷ []) in
    elim (Bool-cases (bit_and (length tx) 0xf == 0)) [
      | inl full ↦ (rswd_msg cmd_null 0 0 ∷ [], rw (full, e))
      | inr short ↦ ([], rw (short, e, append-nil))
    ]
