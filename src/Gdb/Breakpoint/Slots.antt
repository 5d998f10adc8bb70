-- ===== src/Gdb/Breakpoint/Slots.antt =====
-- The slots of the breakpoints in tools/gdb-bridge.c as a set of addresses.
use m3dev.Base.{
  ℕ, zero, suc, ◌≡◌, ◌≢◌, refl, arith, List, [], ◌∷◌, Option, none, some, Bool, true, false, ◌==◌,
  if◌then◌else◌, set,
}
use m3dev.Gdb.Breakpoint.{Slot, find_set, find_free}

abbrev pub is_some : Option ℕ → Bool
is_some none = false
is_some (some n) = true

-- Whether one of the first `n` slots is set for the address.
abbrev pub has : ℕ → List Slot → ℕ → Bool
has n slots a = is_some (find_set n slots a)

-- No address is set twice.
abbrev pub IsUnique : ℕ → List Slot → Type 0
IsUnique zero slots = Unit {0}
IsUnique (suc n) [] = Unit {0}
IsUnique (suc n) (s ∷ slots) = (s.state ≢ 0 → find_set n slots s.addr ≡ none) × IsUnique n slots

-- A free slot is set for an address that was not set.
pub has-set_free :
    (n : ℕ) (slots : List Slot) (i a b : ℕ)
    → find_free n slots ≡ some i
    → has n (set slots i (record { state = 1; addr = a })) b
      ≡ (if b == a then true else has n slots b)
unfolding find_set find_free
has-set_free zero slots i a b e = ground (arith, e)
has-set_free (suc n) [] i a b e = ground (arith, e)
has-set_free (suc n) (s ∷ slots) zero a b e = ground (arith, e)
has-set_free (suc n) (s ∷ slots) (suc i) a b e = ground (arith, e, has-set_free n slots i a b)

-- The slot that is set for an address is cleared.
pub has-set_clear :
    (n : ℕ) (slots : List Slot) (i a b : ℕ)
    → IsUnique n slots
    → find_set n slots a ≡ some i
    → has n (set slots i (record { state = 0; addr = a })) b
      ≡ (if b == a then false else has n slots b)
unfolding find_set
has-set_clear zero slots i a b u e = ground (arith, e)
has-set_clear (suc n) [] i a b u e = ground (arith, e)
has-set_clear (suc n) (s ∷ slots) zero a b u e = ground (arith, e, u.0)
has-set_clear (suc n) (s ∷ slots) (suc i) a b u e =
    ground (arith, e, u.0, has-set_clear n slots i a b u.1)

has-none : (n : ℕ) (slots : List Slot) (a : ℕ) → has n slots a ≡ false → find_set n slots a ≡ none
has-none n slots a e = ground (arith, e)

pub IsUnique-set_free :
    (n : ℕ) (slots : List Slot) (i a : ℕ)
    → IsUnique n slots
    → find_set n slots a ≡ none
    → find_free n slots ≡ some i
    → IsUnique n (set slots i (record { state = 1; addr = a }))
unfolding find_set find_free
IsUnique-set_free zero slots i a u none_set e = tt
IsUnique-set_free (suc n) [] i a u none_set e = tt
IsUnique-set_free (suc n) (s ∷ slots) zero a u none_set e = ((λ _. ground (arith, none_set)), u.1)
IsUnique-set_free (suc n) (s ∷ slots) (suc i) a u none_set e = (
  (λ ne. ground (arith, none_set, e, u.0 ne, ne, has-set_free n slots i a s.addr)),
  IsUnique-set_free n slots i a u.1 (ground (arith, none_set)) (ground (arith, e)),
)

pub IsUnique-set_clear :
    (n : ℕ) (slots : List Slot) (i a : ℕ)
    → IsUnique n slots
    → find_set n slots a ≡ some i
    → IsUnique n (set slots i (record { state = 0; addr = a }))
unfolding find_set
IsUnique-set_clear zero slots i a u e = tt
IsUnique-set_clear (suc n) [] i a u e = tt
IsUnique-set_clear (suc n) (s ∷ slots) zero a u e = ((λ ne. absurd (ne refl)), u.1)
IsUnique-set_clear (suc n) (s ∷ slots) (suc i) a u e = (
  (λ ne. ground (arith, e, u.0 ne, has-set_clear n slots i a s.addr u.1)),
  IsUnique-set_clear n slots i a u.1 (ground (arith, e)),
)
