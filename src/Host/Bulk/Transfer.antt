-- ===== src/Host/Bulk/Transfer.antt =====
-- What the transaction of one chunk does to a target: the commands of `swdp_ahb_read32` and
-- `swdp_ahb_write32` of tools/rswdp.c on a machine whose accesses increment the address.
use m3dev.Base.{
  ℕ, ◌^◌, zero, suc, ◌+◌, ◌*◌, ◌/◌, ◌%◌, ◌≤◌, ◌<◌, ◌≡◌, ◌⊎◌, inl, inr, refl, ap, ◌∙◌, arith, List,
  [], ◌∷◌, ◌++◌, ◌==◌, Bool-cases, length, get_or,
}
use m3dev.Agent.Command.{AllFit}
use m3dev.Protocol.{csw_increment}
use m3dev.Host.Reply.{update}
use m3dev.Host.Reply.Blocks.{store_all}
use m3dev.Host.Bulk.{word_addrs, words_at}
use m3dev.Host.Bulk.Chunk.{restore, read32_cmds, write32_cmds}
use m3dev.Host.Bulk.Machine.{Machine, AreAccesses, write_all, read_all, carry}

-- Behind the setup of a chunk: bank 0, the increment, and an address.
abbrev at : (ℕ → ℕ) → ℕ → ℕ → Machine
at f a b = record { ap = record { bank = 0; csw = csw_increment; tar = a }; buffer = b; memory = f }

abbrev next : ℕ → ℕ
next a = a / 4096 * 4096 + (a + 4) % 4096

abbrev stepped : (ℕ → ℕ) → ℕ → ℕ → List ℕ
stepped f a zero = []
stepped f a (suc n) = f a ∷ stepped f (next a) n

stepped-words_at : (f : ℕ → ℕ) (a n : ℕ) → a % 4096 + 4 * n ≤ 4096 → stepped f a n ≡ words_at f a n
stepped-words_at f a zero page = refl
stepped-words_at f a (suc zero) page = refl
stepped-words_at f a (suc (suc n)) page =
    let e : next a ≡ a + 4 = omega arith in
    rw e (ap (λ ws. f a ∷ ws) (stepped-words_at f (a + 4) (suc n) (omega arith)))

read_all-stepped :
    (f : ℕ → ℕ) (n a b : ℕ)
    → (a' : ℕ) × (b' : ℕ) × (vs : List ℕ) × (read_all 14 n (at f a b) ≡ (vs, at f a' b'))
      × (vs ++ (b' ∷ []) ≡ b ∷ stepped f a n)
read_all-stepped f zero a b = (a, b, [], refl, refl)
read_all-stepped f (suc n) a b =
    let (a', b', vs, e, w) = read_all-stepped f n (next a) (f a) in
    (a', b', b ∷ vs, rw e refl, ap (λ ws. b ∷ ws) w)

carry-restore :
    (left a b : ℕ) (f : ℕ → ℕ)
    → ((carry (restore left) (at f a b)).0 ≡ []) × ((carry (restore left) (at f a b)).1.memory ≡ f)
carry-restore left a b f = elim (Bool-cases (left == 0)) [
  | inl e ↦ rw e (refl, refl)
  | inr e ↦ rw e (refl, refl)
]

-- The chunk of a read yields the words of the memory, which stays as it is.
pub carry-read32_cmds :
    (addr n left : ℕ) (m : Machine)
    → addr % 4096 + 4 * suc n ≤ 4096
    → ((carry (read32_cmds addr n left) m).0 ≡ words_at m.memory addr (suc n))
      × ((carry (read32_cmds addr n left) m).1.memory ≡ m.memory)
carry-read32_cmds addr n left m page =
    let f = m.memory in
    let (a', b', vs, e, w) = read_all-stepped f n (next addr) (f addr) in
    let (none_more, same) = carry-restore left a' b' f in
    (rw (e, none_more) (w ∙ stepped-words_at f addr (suc n) page), rw (carry, e) same)

-- Behind the writes of a chunk.
pub record IsWritten (f f' : ℕ → ℕ) (a : ℕ) (vals : List ℕ) : Type 0 where
  pub inside : (i : ℕ) → i < length vals → f' (a + 4 * i) ≡ get_or vals i 0
  pub outside : (p : ℕ) → (p < a) ⊎ (a + 4 * length vals ≤ p) → f' p ≡ f p

write_all-IsWritten :
    (f : ℕ → ℕ) (a b : ℕ) (vals : List ℕ)
    → a % 4096 + 4 * length vals ≤ 4096
    → (a' : ℕ) × (f' : ℕ → ℕ) × (write_all 15 vals (at f a b) ≡ at f' a' b) × IsWritten f f' a vals
write_all-IsWritten f a b [] page =
    (a, f, refl, record { inside = λ i lt. absurd (omega arith); outside = λ p far. refl })
write_all-IsWritten f a b (v ∷ []) page = (
  next a,
  update f a v,
  refl,
  record { inside = λ i lt. ground arith; outside = λ p far. ground arith },
)
write_all-IsWritten f a b (v ∷ u ∷ us) page =
    let e : next a ≡ a + 4 = omega arith in
    let (a', f', run, rest) = write_all-IsWritten (update f a v) (a + 4) b (u ∷ us) (omega arith) in
    (
      a',
      f',
      rw e run,
      record {
        inside = λ i lt. first_or_later f f' a v i (u ∷ us) lt rest;
        outside = λ p far. ground (arith, rest.outside p);
      },
    )
  where
    first_or_later :
        (f f' : ℕ → ℕ) (a v i : ℕ) (vs : List ℕ)
        → i < suc (length vs)
        → IsWritten (update f a v) f' (a + 4) vs
        → f' (a + 4 * i) ≡ get_or (v ∷ vs) i 0
    first_or_later f f' a v zero vs lt rest =
        let e : a + 4 * 0 ≡ a = omega arith in
        rw e (ground (arith, rest.outside a (inl (omega arith))))
    first_or_later f f' a v (suc i) vs lt rest =
        let e : a + 4 * suc i ≡ a + 4 + 4 * i = omega arith in rw e (rest.inside i (omega arith))

-- The chunk of a write stores its words in order and changes no other word.
pub carry-write32_cmds :
    (addr left : ℕ) (vals : List ℕ) (m : Machine)
    → addr % 4096 + 4 * length vals ≤ 4096
    → IsWritten m.memory (carry (write32_cmds addr vals left) m).1.memory addr vals
carry-write32_cmds addr left vals m page =
    let (a', f', run, written) = write_all-IsWritten m.memory addr m.buffer vals page in
    let (none_more, same) = carry-restore left a' m.buffer f' in
    let result : (carry (write32_cmds addr vals left) m).1.memory ≡ f' = rw (carry, run) same in
    rw result written

-- The words of a chunk, stored in the host's memory.
pub record IsCopied (f : ℕ → ℕ) (addr out n : ℕ) (before after : ℕ → ℕ) : Type 0 where
  pub inside : (i : ℕ) → i < n → after (out + 4 * i) ≡ f (addr + 4 * i)
  pub outside : (p : ℕ) → (p < out) ⊎ (out + 4 * n ≤ p) → after p ≡ before p

pub store_all-IsCopied :
    (f : ℕ → ℕ) (addr out n : ℕ) (mem : ℕ → ℕ)
    → IsCopied f addr out n mem (store_all (word_addrs out n) (words_at f addr n) mem)
store_all-IsCopied f addr out zero mem = record {
  inside = λ i lt. absurd (omega arith);
  outside = λ p far. refl;
}
store_all-IsCopied f addr out (suc n) mem =
    let rest = store_all-IsCopied f (addr + 4) (out + 4) n (update mem out (f addr)) in
    let after =
      store_all (word_addrs (out + 4) n) (words_at f (addr + 4) n) (update mem out (f addr)) in
    record {
      inside = λ i lt. first_or_later after i lt rest;
      outside = λ p far. ground (arith, rest.outside p);
    }
  where
    first_or_later :
        (after : ℕ → ℕ) (i : ℕ)
        → i < suc n
        → IsCopied f (addr + 4) (out + 4) n (update mem out (f addr)) after
        → after (out + 4 * i) ≡ f (addr + 4 * i)
    first_or_later after zero lt rest =
        let e : out + 4 * 0 ≡ out = omega arith in
        let e' : addr + 4 * 0 ≡ addr = omega arith in
        rw (e, e') (ground (arith, rest.outside out (inl (omega arith))))
    first_or_later after (suc i) lt rest =
        let e : out + 4 * suc i ≡ out + 4 + 4 * i = omega arith in
        let e' : addr + 4 * suc i ≡ addr + 4 + 4 * i = omega arith in
        rw (e, e') (rest.inside i (omega arith))

-- The commands fit, and are accesses.
pub read32_cmds-AllFit : (addr n left : ℕ) → n < 2 ^ 16 → AllFit (read32_cmds addr n left)
read32_cmds-AllFit addr n left lt = elim (Bool-cases (left == 0)) [
  | inl e ↦ rw e (ground (arith, lt))
  | inr e ↦ rw e (ground (arith, lt))
]

pub read32_cmds-AreAccesses : (addr n left : ℕ) → AreAccesses (read32_cmds addr n left)
read32_cmds-AreAccesses addr n left = elim (Bool-cases (left == 0)) [
  | inl e ↦ rw e tt
  | inr e ↦ rw e tt
]

pub write32_cmds-AllFit :
    (addr left : ℕ) (vals : List ℕ) → length vals < 2 ^ 16 → AllFit (write32_cmds addr vals left)
write32_cmds-AllFit addr left vals lt = elim (Bool-cases (left == 0)) [
  | inl e ↦ rw e (ground (arith, lt))
  | inr e ↦ rw e (ground (arith, lt))
]

pub write32_cmds-AreAccesses :
    (addr left : ℕ) (vals : List ℕ) → AreAccesses (write32_cmds addr vals left)
write32_cmds-AreAccesses addr left vals = elim (Bool-cases (left == 0)) [
  | inl e ↦ rw e tt
  | inr e ↦ rw e tt
]
