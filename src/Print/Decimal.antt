-- ===== src/Print/Decimal.antt =====
-- Decimal numbers of libfw/print.c, read back.
use m3dev.Base.{
  ℕ, zero, suc, ◌+◌, ◌-◌, ◌*◌, ◌/◌, ◌%◌, ◌^◌, ◌<◌, ◌≤◌, ◌≡◌, refl, ap, ◌∙◌, arith, List, [], ◌∷◌,
  ◌++◌, ◌==◌, ◌&&◌, true, inl, inr, Bool-cases, length, u32, ◌>>>◌,
}
use native.Mathlib.Nat.{pow-suc, pow-le-pow_right}
use m3dev.Print.{hex, digits_loop, print_unsigned, print_ufixed, negative, at_least}

-- A text of decimal digits as a number, behind the digits of `n`.
abbrev pub read_decimal : ℕ → List ℕ → ℕ
read_decimal n [] = n
read_decimal n (c ∷ s) = read_decimal (n * 10 + (c - b'0')) s

digit_lem : (n : ℕ) → hex (n % 10) - b'0' ≡ n % 10
digit_lem n = ground arith

read_decimal-digits_loop :
    (room n w : ℕ) (text : List ℕ)
    → n < 10 ^ room
    → read_decimal 0 (digits_loop room n w text) ≡ read_decimal n text
unfolding digits_loop
read_decimal-digits_loop zero n w text lt = let e : n ≡ 0 = omega (arith, lt) in rw e refl
read_decimal-digits_loop (suc room) n w text lt = elim (Bool-cases (n == 0 && w == 0)) [
  | inl done ↦ let e : n ≡ 0 = ground (arith, done) in rw (done, e) refl
  | inr more ↦
      let less : n / 10 < 10 ^ room = omega (arith, lt, pow-suc 10 room) in
      let whole : n / 10 * 10 + (hex (n % 10) - b'0') ≡ n = rw (digit_lem n) (omega arith) in
      rw more (
        read_decimal-digits_loop room (n / 10) (w - 1) (hex (n % 10) ∷ text) less
        ∙ ap (λ k. read_decimal k text) whole)
]

-- No more digits than are asked for or the number has.
length-digits_loop :
    (room n w k : ℕ) (text : List ℕ)
    → n < 10 ^ k
    → w ≤ k
    → length (digits_loop room n w text) ≤ length text + k
unfolding digits_loop
length-digits_loop zero n w k text lt le = omega arith
length-digits_loop (suc room) n w zero text lt le =
    let done : (n == 0 && w == 0) ≡ true = ground (arith, lt, le) in rw done (omega arith)
length-digits_loop (suc room) n w (suc k) text lt le =
    let rest =
      length-digits_loop room (n / 10) (w - 1) k (hex (n % 10) ∷ text)
        (omega (arith, lt, pow-suc 10 k)) (omega (arith, le)) in
    ground (arith, rest)

-- A number printed without a width into a buffer that holds `k` digits and the zero, where it is
-- below the power of ten: the text lies within the buffer, and reads as the number.
pub read_decimal-print_unsigned :
    (len k n : ℕ)
    → k + 1 ≤ len
    → 1 ≤ k
    → n < 10 ^ k
    → (length (print_unsigned len n negative) < len)
      × (read_decimal 0 (print_unsigned len n negative) ≡ n)
unfolding print_unsigned
read_decimal-print_unsigned len k n room some_digit lt = elim (Bool-cases (n == 0)) [
  | inl e ↦ rw e (omega arith, ground (arith, e))
  | inr e ↦ rw e (
    omega (arith, length-digits_loop len n 0 k [] lt (omega arith)),
    read_decimal-digits_loop len n 0 [] (
        omega (
          arith,
          lt,
          pow-le-pow_right {n = 10} (omega arith) {i = k} {j = len} (omega (arith, room)),
        )),
  )
]

-- A fixed number of which no bits are lost, and whose fraction is at least 0.95: the tenth is rounded
-- up to 0 while the whole part stays, so that it is printed nearly one too low.
pub print_ufixed_lem :
    (len n : ℕ)
    → (n >>> 2) * 15625 + 50000 < 2 ^ 32
    → 950000 ≤ (n >>> 2) * 15625 % 1000000
    → print_ufixed (suc len) n
      ≡ print_unsigned (len - 1) ((n >>> 2) * 15625 / 1000000) negative
        ++ (b'.' ∷ print_unsigned len 0 (at_least 1))
unfolding print_ufixed
print_ufixed_lem len n small high =
    let m = (n >>> 2) * 15625 in
    let kept : u32 m ≡ m = omega (arith, small) in
    let tenth : u32 (m + 50000) / 100000 % 10 ≡ 0 = omega (arith, small, high) in
    let l1 : suc len - 2 ≡ len - 1 = omega arith in
    let l2 : suc len - 1 ≡ len = omega arith in rw (kept, tenth, l1, l2) refl
