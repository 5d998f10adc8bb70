-- ===== src/Host/Reply/Blocks.antt =====
-- Replies made of data blocks and a status word, and how `process_reply` reads them.
use m3dev.Base.{
  ℕ, zero, suc, ◌+◌, ◌-◌, ◌^◌, ◌≤◌, ◌<◌, ◌≡◌, refl, arith, List, [], ◌∷◌, ◌++◌, ◌==◌, if◌then◌else◌,
  length, drop, length-append, append_assoc, ltb, false,
}
use m3dev.Protocol.{rswd_msg, rswd_msg_cmd, rswd_msg_arg, cmd_swd_data, cmd_status}
use m3dev.Protocol.Fields.{rswd_msg_fields}
use m3dev.Agent.Command.{Holds}
use m3dev.Agent.Refine.{Holds-append}
use m3dev.Host.Reply.{Outcome, update, copy_words, process_reply}

-- The data messages that carry these blocks.
abbrev pub frame : List (List ℕ) → List ℕ
frame [] = []
frame (b ∷ bs) = (rswd_msg cmd_swd_data 0 (length b) ∷ b) ++ frame bs

abbrev pub flat : List (List ℕ) → List ℕ
flat [] = []
flat (b ∷ bs) = b ++ flat bs

abbrev pub AllShort : List (List ℕ) → Type 0
AllShort [] = Unit {0}
AllShort (b ∷ bs) = (length b < 2 ^ 16) × AllShort bs

-- The values stored at the places, in order, as far as both go.
abbrev pub store_all : List ℕ → List ℕ → (ℕ → ℕ) → ℕ → ℕ
store_all [] vs mem = mem
store_all (p ∷ ps) [] mem = mem
store_all (p ∷ ps) (v ∷ vs) mem = store_all ps vs (update mem p v)

store_all-append :
    (ps vs ws : List ℕ) (mem : ℕ → ℕ)
    → store_all ps (vs ++ ws) mem ≡ store_all (drop (length vs) ps) ws (store_all ps vs mem)
store_all-append [] [] ws mem = refl
store_all-append [] (v ∷ vs) ws mem = refl
store_all-append (p ∷ ps) [] ws mem = refl
store_all-append (p ∷ ps) (v ∷ vs) ws mem = store_all-append ps vs ws (update mem p v)

length-drop : (n : ℕ) (ps : List ℕ) → length (drop n ps) ≡ length ps - n
length-drop zero ps = omega arith
length-drop (suc n) [] = omega arith
length-drop (suc n) (p ∷ ps) = omega (arith, length-drop n ps)

store_all-nil : (ps : List ℕ) (mem : ℕ → ℕ) → store_all ps [] mem ≡ mem
store_all-nil [] mem = refl
store_all-nil (p ∷ ps) mem = refl

-- How `process_reply` ends at a status word.
abbrev pub at_status : ℕ → (ℕ → ℕ) → ℕ → Outcome
at_status status mem err = record {
  ret = status;
  mem = mem;
  swd_error = if status == 0 then err else status;
}

pub length-le-frame : (bs : List (List ℕ)) → length bs ≤ length (frame bs)
length-le-frame [] = omega arith
length-le-frame (b ∷ bs) = omega (arith, length-le-frame bs, length-append {0} b (frame bs))

module _ (words : ℕ → ℕ) where
  copy_words-store_all :
      (b : List ℕ) (pos : ℕ) (ps : List ℕ) (mem : ℕ → ℕ)
      → Holds words pos b
      → length b ≤ length ps
      → copy_words words (length b) pos ps mem ≡ (drop (length b) ps, store_all ps b mem)
  unfolding copy_words
  copy_words-store_all [] pos ps mem h fits = rw store_all-nil
  copy_words-store_all (v ∷ b) pos [] mem h fits = absurd (omega arith)
  copy_words-store_all (v ∷ b) pos (p ∷ ps) mem h fits =
      rw (← h.0) (copy_words-store_all b (pos + 1) ps (update mem p (words pos)) h.1 (omega arith))

  -- A reply of data blocks that fit the places left, with a status word behind them and whatever
  -- behind that, is read in full: the blocks' words are stored in order at the places, the result
  -- is the status (0 for success), and a failure is also noted in `swd_error`. One round for each
  -- block and one for the status word are enough.
  pub process_reply-frame :
      (bs : List (List ℕ)) (status commands count pos : ℕ) (ps : List ℕ) (mem : ℕ → ℕ) (err : ℕ)
      → Holds words pos (frame bs ++ (rswd_msg cmd_status status commands ∷ []))
      → AllShort bs
      → status < 2 ^ 8
      → length (flat bs) ≤ length ps
      → length bs < count
      → process_reply words count pos ps mem err ≡ at_status status (store_all ps (flat bs) mem) err
  unfolding process_reply
  process_reply-frame bs status commands zero pos ps mem err h short small fits lt =
      absurd (omega arith)
  process_reply-frame [] status commands (suc count) pos ps mem err h short small fits lt =
      rw (store_all-nil, h.0) (ground (arith, rswd_msg_fields cmd_status status commands))
  process_reply-frame (b ∷ bs) status commands (suc count) pos ps mem err h short small fits lt =
      let fields = rswd_msg_fields cmd_swd_data 0 (length b) in
      let is_data : rswd_msg_cmd (words pos) ≡ cmd_swd_data = ground (arith, fields) in
      let size : rswd_msg_arg (words pos) ≡ length b = ground (arith, fields) in
      let len = length-append b (flat bs) in
      let room : ltb (length ps) (length b) ≡ false = ground (arith, len) in
      let parts =
        Holds-append words (pos + 1) b (frame bs ++ (rswd_msg cmd_status status commands ∷ []))
          (rw append_assoc at (h.1)) in
      let rest =
        process_reply-frame bs status commands count (pos + 1 + length b) (drop (length b) ps)
          (store_all ps b mem) err parts.1 short.1 small
          (omega (arith, len, length-drop (length b) ps)) (omega arith) in
      rw
        (
          is_data,
          size,
          copy_words-store_all b (pos + 1) ps mem parts.0 (omega (arith, len)),
          room,
          store_all-append ps b (flat bs) mem,
        )
        rest
