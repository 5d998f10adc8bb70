-- ===== src/Host/Bulk/Chunk.antt =====
-- One round of the block transfers: the size of its chunk and the transaction that it sends.
use m3dev.Base.{
  ℕ, zero, suc, ◌+◌, ◌-◌, ◌*◌, ◌%◌, ◌^◌, ◌≤◌, ◌<◌, ◌≡◌, refl, arith, some, List, [], ◌∷◌, ◌++◌,
  if◌then◌else◌, length, bit_and_mask, sub_u32, ◌==◌, length-append, Bool-cases, inl, inr,
  append-nil, append_assoc, ap, sym,
}
use m3dev.Protocol.{ahb_csw, csw_single, csw_increment}
use m3dev.Agent.Command.{Cmd, write, read, discard, encode_all}
use m3dev.Host.Txn.{Txn, q_ap_write, put_tx, swd_wr, txc, max_words, txn_magic}
use m3dev.Host.Bulk.{chunk_size, word_addrs, read32_txn, write32_txn}

-- What the chunk's size promises: progress, no more than asked for, no page boundary crossed, and
-- 16 words of the transaction kept free.
pub chunk_size_bounds :
    (maxwords addr count : ℕ)
    → 16 < maxwords
    → maxwords ≤ 2048
    → addr % 4 ≡ 0
    → 0 < count
    → (0 < chunk_size maxwords addr count)
      × (chunk_size maxwords addr count ≤ count)
      × (addr % 0x1000 + 4 * chunk_size maxwords addr count ≤ 0x1000)
      × (chunk_size maxwords addr count + 16 ≤ maxwords)
unfolding chunk_size
chunk_size_bounds maxwords addr count lo hi aligned some_left = ground (arith, bit_and_mask 12 addr)

-- The commands of a chunk. 8 is DP_SELECT | OP_WR, then OP_AP | OP_WR with CSW, TAR and DRW.
abbrev pub setup : ℕ → List Cmd
setup addr = write 9 (0 ∷ []) ∷ write 3 (csw_increment ∷ []) ∷ write 7 (addr ∷ []) ∷ []

abbrev pub restore : ℕ → List Cmd
restore left = if left == 0 then write 3 (csw_single ∷ []) ∷ [] else []

abbrev pub read32_cmds : ℕ → ℕ → ℕ → List Cmd
read32_cmds addr n left = setup addr ++ (discard 14 1 ∷ read 14 n ∷ read 12 1 ∷ restore left)

abbrev pub write32_cmds : ℕ → List ℕ → ℕ → List Cmd
write32_cmds addr vals left = setup addr ++ (write 15 vals ∷ restore left)

word_addrs-snoc : (out n : ℕ) → word_addrs out n ++ ((out + 4 * n) ∷ []) ≡ word_addrs out (suc n)
word_addrs-snoc out zero = ground arith
word_addrs-snoc out (suc n) = ground (arith, word_addrs-snoc (out + 4) n)

pub length-word_addrs : (out n : ℕ) → length (word_addrs out n) ≡ n
length-word_addrs out zero = refl
length-word_addrs out (suc n) = omega (arith, length-word_addrs (out + 4) n)

-- A transaction that is ready to send and asks for these commands.
pub record Asks (t : Txn) (cs : List Cmd) (dest : List ℕ) : Type 0 where
  pub words : t.tx ≡ encode_all cs
  pub places : t.rx ≡ dest
  pub magic : t.magic ≡ txn_magic

pub read32_txn-Asks :
    (addr out n left : ℕ)
    → n < 2 ^ 16
    → (t : Txn) × (read32_txn addr out (suc n) left ≡ some t)
      × Asks t (read32_cmds addr n left) (word_addrs out (suc n))
      × (txc t ≤ 14)
unfolding read32_txn
read32_txn-Asks addr out n left fits = elim (Bool-cases (left == 0)) [
  | inl e ↦
      rw (e, less, same)
        (
          _,
          refl,
          record { words = refl; places = word_addrs-snoc out n; magic = refl },
          omega arith,
        )
  | inr e ↦
      rw (e, less, same)
        (
          _,
          refl,
          record { words = refl; places = word_addrs-snoc out n; magic = refl },
          omega arith,
        )
]
  where
    less : sub_u32 (suc n) 1 ≡ n
    less = omega arith

    same : suc n - 1 ≡ n
    same = omega arith

q_ap_write-csw :
    (t : Txn)
    → txc t + 3 < max_words
    → t.cache_apaddr ≡ 0
    → q_ap_write t ahb_csw csw_single ≡ some (put_tx csw_single (put_tx (swd_wr 2 1) t))
unfolding q_ap_write
q_ap_write-csw t room same = ground arith

pub write32_txn-Asks :
    (addr left : ℕ) (vals : List ℕ)
    → length vals + 16 ≤ max_words
    → (t : Txn) × (write32_txn addr vals left ≡ some t)
      × Asks t (write32_cmds addr vals left) []
      × (txc t ≤ length vals + 10)
unfolding write32_txn
write32_txn-Asks addr left vals fits = elim (Bool-cases (left == 0)) [
  | inl e ↦
      rw (e, q_ap_write-csw body (omega arith) refl)
        (
          _,
          refl,
          record {
            words =
                ap (λ ws. setup_words ++ ws)
                  (append_assoc vals (swd_wr 2 1 ∷ []) (csw_single ∷ []));
            places = refl;
            magic = refl;
          },
          omega (
            arith,
            length-append {0} (vals ++ (swd_wr 2 1 ∷ [])) (csw_single ∷ []),
            length-append {0} vals (swd_wr 2 1 ∷ []),
          ),
        )
  | inr e ↦ rw e (
    _,
    refl,
    record {
      words = ap (λ ws. setup_words ++ ws) (sym (append-nil vals));
      places = refl;
      magic = refl;
    },
    omega arith,
  )
]
  where
    setup_words : List ℕ
    setup_words = encode_all (setup addr) ++ (swd_wr 14 (length vals) ∷ [])

    body : Txn
    body = record {
      tx = setup_words ++ vals;
      rx = [];
      cache_apaddr = 0;
      cache_ahbtar = 0xffffffff;
      magic = txn_magic;
    }
