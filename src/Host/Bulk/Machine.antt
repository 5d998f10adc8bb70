-- ===== src/Host/Bulk/Machine.antt =====
-- A target behind an access port, as far as the block transfers of tools/rswdp.c use it: what the
-- commands of a transaction do to it, one by one, and the data that they yield.
use m3dev.Base.{
  ℕ, zero, suc, ◌+◌, ◌≤◌, ◌≡◌, List, [], ◌∷◌, ◌++◌, Option, some, ◌==◌, ◌&&◌, if◌then◌else◌,
  bit_and, length,
}
use m3dev.Agent.Command.{Cmd, write, read, discard, AllFit}
use m3dev.Host.Txn.{Txn, txc}
use m3dev.Host.Reply.{update}
use m3dev.Host.Reply.Blocks.{store_all}
use m3dev.Host.Single.Access.{Ap, next_tar}
use m3dev.Host.Bulk.Chunk.{Asks}

-- A read of the port gives what the one before it fetched, which `buffer` holds.
pub record Machine : Type 0 where
  pub ap : Ap
  pub buffer : ℕ
  pub memory : ℕ → ℕ

-- An access at the address in TAR, which it may increment.
abbrev pub advanced : Machine → Machine
advanced m = record m { ap = record m.ap { tar = next_tar m.ap } }

abbrev pub write_register : ℕ → ℕ → Machine → Machine
write_register op v m =
    if op == 9
    then record m { ap = record m.ap { bank = bit_and v 0xF0 } }
    else if op == 3 && m.ap.bank == 0
    then record m { ap = record m.ap { csw = v } }
    else if op == 7 && m.ap.bank == 0
    then record m { ap = record m.ap { tar = v } }
    else if op == 15 && m.ap.bank == 0
    then record (advanced m) { memory = update m.memory m.ap.tar v }
    else m

abbrev pub read_register : ℕ → Machine → Machine
read_register op m =
    if op == 14 && m.ap.bank == 0 then record (advanced m) { buffer = m.memory m.ap.tar } else m

abbrev pub write_all : ℕ → List ℕ → Machine → Machine
write_all op [] m = m
write_all op (v ∷ vs) m = write_all op vs (write_register op v m)

abbrev pub read_all : ℕ → ℕ → Machine → List ℕ × Machine
read_all op zero m = ([], m)
read_all op (suc n) m = let (vs, m') = read_all op n (read_register op m) in (m.buffer ∷ vs, m')

abbrev pub carry_one : Cmd → Machine → List ℕ × Machine
carry_one (write op vals) m = ([], write_all op vals m)
carry_one (read op n) m = read_all op n m
carry_one (discard op n) m = ([], (read_all op n m).1)
carry_one _ m = ([], m)

abbrev pub carry : List Cmd → Machine → List ℕ × Machine
carry [] m = ([], m)
carry (c ∷ cs) m = let (vs, m1) = carry_one c m in let (ws, m2) = carry cs m1 in (vs ++ ws, m2)

abbrev pub AreAccesses : List Cmd → Type 0
AreAccesses [] = Unit {0}
AreAccesses (write op vals ∷ cs) = AreAccesses cs
AreAccesses (read op n ∷ cs) = AreAccesses cs
AreAccesses (discard op n ∷ cs) = AreAccesses cs
AreAccesses (_ ∷ cs) = ⊥

-- A link that works: a transaction that asks for accesses, and that fits the words of a packet as its
-- reply does, is carried out by the target, command by command, and the data that they yield are
-- stored at its places.
abbrev pub CarriesOut :
    {H : Type 0} → (H → Machine) → (H → ℕ → ℕ) → ℕ → (Txn → H → Option (ℕ × H)) → Type 0
CarriesOut {H} machine mem maxwords q_exec =
    (cs : List Cmd) (t : Txn) (dest : List ℕ) (h : H)
    → Asks t cs dest
    → AllFit cs
    → AreAccesses cs
    → txc t ≤ maxwords
    → length dest + 16 ≤ maxwords
    → (h' : H) × (q_exec t h ≡ some (0, h'))
      × (machine h' ≡ (carry cs (machine h)).1)
      × (mem h' ≡ store_all dest (carry cs (machine h)).0 (mem h))
