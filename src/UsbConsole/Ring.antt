-- ===== src/UsbConsole/Ring.antt =====
-- The bytes of a ring of 256 from an index on, as `uc_putc` and `uc_write` of libfw/usbconsole.c
-- store and take them.
use m3dev.Base.{
  ℕ, zero, suc, ◌+◌, ◌%◌, ◌≤◌, ◌<◌, ◌≡◌, refl, arith, List, [], ◌∷◌, ◌++◌, length, get_or, take,
  drop, set, get_or-set_self, get_or-set_ne, u32,
}

-- `n` bytes of the ring from the index `t` on.
abbrev pub pending : List ℕ → ℕ → ℕ → List ℕ
pending d t zero = []
pending d t (suc n) = get_or d (t % 256) 0 ∷ pending d (t + 1) n

pub pending-append :
    (d : List ℕ) (t k n : ℕ) → pending d t (k + n) ≡ pending d t k ++ pending d (t + k) n
pending-append d t zero n = ground arith
pending-append d t (suc k) n =
    let e : suc k + n ≡ suc (k + n) = omega arith in
    let e' : t + suc k ≡ t + 1 + k = omega arith in rw (e, e', pending-append d (t + 1) k n) refl

-- A write at another index leaves them.
pending-set :
    (d : List ℕ) (t n h v : ℕ)
    → t + n ≤ h
    → h < t + 256
    → pending (set d (h % 256) v) t n ≡ pending d t n
pending-set d t zero h v lo hi = refl
pending-set d t (suc n) h v lo hi =
    rw
      (
        get_or-set_ne d (h % 256) (t % 256) v 0 (λ e. omega (arith, e)),
        pending-set d (t + 1) n h v (omega arith) (omega arith),
      )
      refl

-- A byte stored behind them, where there is room, is appended.
pub pending-set_end :
    (d : List ℕ) (t n v : ℕ)
    → length d ≡ 256
    → n < 256
    → pending (set d ((t + n) % 256) v) t (n + 1) ≡ pending d t n ++ (v ∷ [])
pending-set_end d t n v size room =
    rw
      (
        pending-append (set d ((t + n) % 256) v) t n 1,
        pending-set d t n (t + n) v (omega arith) (omega arith),
        get_or-set_self d ((t + n) % 256) v 0 (omega arith),
      )
      refl

-- Only the index modulo the size counts.
pub pending-mod : (d : List ℕ) (t p n : ℕ) → t % 256 ≡ p % 256 → pending d t n ≡ pending d p n
pending-mod d t p zero e = refl
pending-mod d t p (suc n) e = rw (e, pending-mod d (t + 1) (p + 1) n (omega arith))

-- The index may wrap at 2^32.
pub pending-u32 : (d : List ℕ) (t n : ℕ) → pending d (u32 t) n ≡ pending d t n
pending-u32 d t n = pending-mod d (u32 t) t n (omega arith)

drop-step : (xs : List ℕ) (i : ℕ) → i < length xs → drop i xs ≡ get_or xs i 0 ∷ drop (suc i) xs
drop-step [] i h = absurd (omega arith)
drop-step (x ∷ xs) zero h = refl
drop-step (x ∷ xs) (suc i) h = drop-step xs i (omega arith)

-- The part of the array that `uc_write` sends.
pub take-drop :
    (d : List ℕ) (p n : ℕ) → length d ≡ 256 → p + n ≤ 256 → take n (drop p d) ≡ pending d p n
take-drop d p zero size h = refl
take-drop d p (suc n) size h =
    rw (drop-step d p (omega arith), take-drop d (suc p) n size (omega arith)) (ground arith)
