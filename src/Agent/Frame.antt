-- ===== src/Agent/Frame.antt =====
-- The frame of the replies of `process_txn`, for any received words at all.
use mathlib.Core.Logic.{◌⊎◌}
use m3dev.Base.{
  ℕ, ◌+◌, ◌≤◌, ◌<◌, ◌%◌, List, [], ◌∷◌, ◌++◌, if◌then◌else◌, length, Option, none, some, ◌≡◌, ◌≢◌,
  bit_and, ◌==◌,
}
use m3dev.Protocol.{rswd_msg, rswd_msg_cmd, cmd_null, cmd_status, cmd_download}
use m3dev.Agent.Hardware.{Port}
use m3dev.Agent.{Out, Next, continue, done, stuck}

abbrev Starts : ℕ → List ℕ → Type 0
Starts id [] = ⊥
Starts id (x ∷ xs) = x ≡ id

-- The outcome of a round, where `total` words were received and at most `limit` are left.
abbrev Goes : {W : Type 0} → ℕ → ℕ → ℕ → Next W → Type 0
Goes total limit id (continue pos rxc o) =
    ((rxc ≡ 0) ⊎ (pos + rxc ≡ total)) × (rxc ≤ limit) × Starts id o.tx × (o.status ≡ 0)
Goes total limit id (done o) = Starts id o.tx × ((o.status ≡ 1) ⊎ (o.status ≡ 3))
Goes total limit id stuck = ⊥

module _ {W : Type 0} (port : Port W) (rx : ℕ → ℕ) where
  -- No header among the received words is a CMD_DOWNLOAD.
  abbrev NoDownload : ℕ → Type 0
  NoDownload total = (i : ℕ) → i < total → rswd_msg_cmd (rx i) ≢ cmd_download

  -- What is true of the variables at the label `done`.
  abbrev Ended : ℕ → Option (Out W) → Type 0
  Ended id none = ⊥
  Ended id (some o) = Starts id o.tx × ((o.status ≡ 0) ⊎ (o.status ≡ 1) ⊎ (o.status ≡ 3))

-- The words of a reply: the transaction's identifier first, then any words, then the status word,
-- and a null word where the reply would otherwise be a multiple of 16 words (64 bytes).
abbrev pub Framed : ℕ → List ℕ → Type 0
Framed id sent =
    (body : List ℕ) × (status : ℕ) × (count : ℕ) × (pad : List ℕ) × (sent
      ≡ (id ∷ body) ++ ((rswd_msg cmd_status status count ∷ []) ++ pad))
    × ((status ≡ 0) ⊎ (status ≡ 1) ⊎ (status ≡ 3))
    × ((pad ≡ []) ⊎ (pad ≡ rswd_msg cmd_null 0 0 ∷ []))
    × (length sent % 16 ≢ 0)

abbrev IsStatus : ℕ → Type 0
IsStatus status = (status ≡ 0) ⊎ (status ≡ 1) ⊎ (status ≡ 3)

abbrev closed : List ℕ → ℕ → ℕ → List ℕ
closed tx status count = tx ++ (rswd_msg cmd_status status count ∷ [])

abbrev padded : List ℕ → List ℕ
padded tx = if bit_and (length tx) 0xf == 0 then tx ++ (rswd_msg cmd_null 0 0 ∷ []) else tx
