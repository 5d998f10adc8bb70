-- ===== src/Gdb/Memory/Bytes.antt =====
-- The bytes of a word under the operations of `write_memory`, tools/gdb-bridge.c.
use m3dev.Base.{
  get_or-drop, ℕ, zero, suc, ◌+◌, ◌-◌, ◌*◌, ◌/◌, ◌%◌, ◌<◌, ◌≡◌, refl, ◌∙◌, arith, List, [], ◌∷◌,
  ◌&&◌, ◌==◌, ltb, leb, if◌then◌else◌, length, get_or, take, drop,
}
use m3dev.Gdb.Memory.{set_byte, poke, words}

abbrev pub byte_of : ℕ → ℕ → ℕ
byte_of x zero = x % 256
byte_of x (suc j) = byte_of (x / 256) j

abbrev pub AreBytes : List ℕ → Type 0
AreBytes [] = Unit {0}
AreBytes (b ∷ bs) = (b < 256) × AreBytes bs

byte_of-set_byte :
    (x j b k : ℕ) → b < 256 → byte_of (set_byte x j b) k ≡ (if k == j then b else byte_of x k)
byte_of-set_byte x zero b zero h = ground arith
byte_of-set_byte x zero b (suc k) h = ground arith
byte_of-set_byte x (suc j) b zero h = ground arith
byte_of-set_byte x (suc j) b (suc k) h = ground (arith, byte_of-set_byte (x / 256) j b k h)

pub byte_of-poke :
    (x off : ℕ) (bs : List ℕ) (k : ℕ)
    → AreBytes bs
    → byte_of (poke x off bs) k
      ≡ (if leb off k && ltb k (off + length bs) then get_or bs (k - off) 0 else byte_of x k)
byte_of-poke x off [] k ok = ground arith
byte_of-poke x off (b ∷ bs) k (h, ok) =
    ground (arith, byte_of-poke (set_byte x off b) (off + 1) bs k ok, byte_of-set_byte x off b k h)

pub get_or-take : (n i : ℕ) (bs : List ℕ) → i < n → get_or (take n bs) i 0 ≡ get_or bs i 0
get_or-take zero i bs h = absurd (omega arith)
get_or-take (suc n) i [] h = refl
get_or-take (suc n) zero (b ∷ bs) h = refl
get_or-take (suc n) (suc i) (b ∷ bs) h = get_or-take n i bs (omega arith)

pub length-drop : (n : ℕ) (bs : List ℕ) → length (drop n bs) ≡ length bs - n
length-drop zero bs = omega arith
length-drop (suc n) [] = omega arith
length-drop (suc n) (b ∷ bs) = omega (arith, length-drop n bs)

pub length-words : (n : ℕ) (bs : List ℕ) → length (words n bs) ≡ n
length-words zero bs = refl
length-words (suc n) bs = omega (arith, length-words n (drop 4 bs))

pub drop-AreBytes : (n : ℕ) (bs : List ℕ) → AreBytes bs → AreBytes (drop n bs)
drop-AreBytes zero bs ok = ok
drop-AreBytes (suc n) [] ok = tt
drop-AreBytes (suc n) (b ∷ bs) ok = drop-AreBytes n bs ok.1

pub take-AreBytes : (n : ℕ) (bs : List ℕ) → AreBytes bs → AreBytes (take n bs)
take-AreBytes zero bs ok = tt
take-AreBytes (suc n) [] ok = tt
take-AreBytes (suc n) (b ∷ bs) ok = (ok.0, take-AreBytes n bs ok.1)

get_or-lt : (i : ℕ) (bs : List ℕ) → AreBytes bs → get_or bs i 0 < 256
get_or-lt i [] ok = omega arith
get_or-lt zero (b ∷ bs) ok = ok.0
get_or-lt (suc i) (b ∷ bs) ok = get_or-lt i bs ok.1

pub byte_of-words :
    (n i k : ℕ) (bs : List ℕ)
    → AreBytes bs
    → i < n
    → k < 4
    → byte_of (get_or (words n bs) i 0) k ≡ get_or bs (4 * i + k) 0
byte_of-words zero i k bs ok h hk = absurd (omega arith)
byte_of-words (suc n) zero zero bs ok h hk = omega (arith, get_or-lt 0 bs ok)
byte_of-words (suc n) zero (suc zero) bs ok h hk =
    omega (arith, get_or-lt 0 bs ok, get_or-lt 1 bs ok)
byte_of-words (suc n) zero (suc (suc zero)) bs ok h hk =
    omega (arith, get_or-lt 0 bs ok, get_or-lt 1 bs ok, get_or-lt 2 bs ok)
byte_of-words (suc n) zero (suc (suc (suc zero))) bs ok h hk =
    omega (arith, get_or-lt 0 bs ok, get_or-lt 1 bs ok, get_or-lt 2 bs ok, get_or-lt 3 bs ok)
byte_of-words (suc n) zero (suc (suc (suc (suc k)))) bs ok h hk = absurd (omega arith)
byte_of-words (suc n) (suc i) k bs ok h hk =
    let e : 4 * suc i + k ≡ 4 + (4 * i + k) = omega arith in
    rw e (
      byte_of-words n i k (drop 4 bs) (drop-AreBytes 4 bs ok) (omega arith) hk
      ∙ get_or-drop 4 (4 * i + k) bs)
