-- ===== src/Host/Control/Csr.antt =====
-- The control register's bits as halt, step and resume of tools/rswdp.c compute them.
use m3dev.Base.{
  ℕ, ◌+◌, ◌*◌, ◌/◌, ◌%◌, ◌≡◌, refl, arith, ◌==◌, Bool, true, false, bit_and, bit_or, bit_and_lowest,
  bit_and_mask,
}
use m3dev.Host.Control.{cdbg_csr_key, kept_bits}

abbrev pub bit : Bool → ℕ
bit true = 1
bit false = 0

-- The key with MASKINTS, HALT and DEBUGEN.
abbrev pub csr_word : Bool → Bool → Bool → ℕ
csr_word mask halt debugen = 0xA05F0000 + (bit mask * 8 + bit halt * 2 + bit debugen)

-- What the bit operations do to it.
pub csr_word-laws :
    (m h d : Bool)
    → (bit_and (csr_word m h d) 8 ≡ bit m * 8)
      × (bit_and (csr_word m h d) 2 ≡ bit h * 2)
      × (bit_or (csr_word m h d) 8 ≡ csr_word true h d)
      × (bit_and (csr_word m h d) 0xFFFFFFF7 ≡ csr_word false h d)
      × (bit_or (csr_word m h d) 3 ≡ csr_word m true true)
      × (bit_or (bit_and (csr_word m h d) 0xFFFFFFFD) 4 ≡ csr_word m false d + 4)
      × (bit_and (csr_word m h d) 0xFFFFFFF9 ≡ csr_word m false d)
csr_word-laws false false false = (refl, refl, refl, refl, refl, refl, refl)
csr_word-laws false false true = (refl, refl, refl, refl, refl, refl, refl)
csr_word-laws false true false = (refl, refl, refl, refl, refl, refl, refl)
csr_word-laws false true true = (refl, refl, refl, refl, refl, refl, refl)
csr_word-laws true false false = (refl, refl, refl, refl, refl, refl, refl)
csr_word-laws true false true = (refl, refl, refl, refl, refl, refl, refl)
csr_word-laws true true false = (refl, refl, refl, refl, refl, refl, refl)
csr_word-laws true true true = (refl, refl, refl, refl, refl, refl, refl)

-- The bits of a value of the register.
abbrev pub masked : ℕ → Bool
masked c = c / 8 % 2 == 1

abbrev pub halted : ℕ → Bool
halted c = c / 2 % 2 == 1

abbrev pub enabled : ℕ → Bool
enabled c = c % 2 == 1

kept-bits :
    (c : ℕ) → bit_and c kept_bits ≡ bit (masked c) * 8 + bit (halted c) * 2 + bit (enabled c)
kept-bits c = ground (
  arith,
  bit_and_lowest c 11,
  bit_and_lowest (c / 2) 5,
  bit_and_lowest (c / 2 / 2) 2,
  bit_and_mask 1 (c / 2 / 2 / 2),
)

-- The bits kept, with the key and what is set.
pub kept-key :
    (c : ℕ) → bit_or (bit_and c kept_bits) cdbg_csr_key ≡ csr_word (masked c) (halted c) (enabled c)
kept-key c = rw (kept-bits c) (keyed (masked c) (halted c) (enabled c))
  where
    keyed : (m h d : Bool) → bit_or (bit m * 8 + bit h * 2 + bit d) cdbg_csr_key ≡ csr_word m h d
    keyed false false false = refl
    keyed false false true = refl
    keyed false true false = refl
    keyed false true true = refl
    keyed true false false = refl
    keyed true false true = refl
    keyed true true false = refl
    keyed true true true = refl

pub kept-enable :
    (c : ℕ) → bit_or (bit_and c kept_bits) 0xA05F0001 ≡ csr_word (masked c) (halted c) true
kept-enable c = rw (kept-bits c) (keyed (masked c) (halted c) (enabled c))
  where
    keyed : (m h d : Bool) → bit_or (bit m * 8 + bit h * 2 + bit d) 0xA05F0001 ≡ csr_word m h true
    keyed false false false = refl
    keyed false false true = refl
    keyed false true false = refl
    keyed false true true = refl
    keyed true false false = refl
    keyed true false true = refl
    keyed true true false = refl
    keyed true true true = refl

pub kept-halt : (c : ℕ) → bit_or (bit_and c kept_bits) 0xA05F0003 ≡ csr_word (masked c) true true
kept-halt c = rw (kept-bits c) (keyed (masked c) (halted c) (enabled c))
  where
    keyed :
        (m h d : Bool) → bit_or (bit m * 8 + bit h * 2 + bit d) 0xA05F0003 ≡ csr_word m true true
    keyed false false false = refl
    keyed false false true = refl
    keyed false true false = refl
    keyed false true true = refl
    keyed true false false = refl
    keyed true false true = refl
    keyed true true false = refl
    keyed true true true = refl
