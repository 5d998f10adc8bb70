-- ===== src/Print.antt =====
-- The firmware's printing, libfw/print.c. A text is the bytes from the pointer returned up to the
-- zero; the arguments of `vprintx` are a list.
pub mod Decimal
mod Tests
use m3dev.Base.{
  ℕ, zero, suc, ◌+◌, ◌-◌, ◌*◌, ◌/◌, ◌%◌, ◌^◌, List, [], ◌∷◌, ◌++◌, Bool, not, ◌&&◌, ◌==◌, ltb,
  if◌then◌else◌, bit_and, ◌>>>◌, u32, sub_u32,
}

-- `hex[n]`
abbrev pub hex : ℕ → ℕ
hex n = if ltb n 10 then b'0' + n else b'A' + (n - 10)

unfoldable pub printhex : ℕ → ℕ → List ℕ
printhex zero n = []
printhex (suc c) n = printhex c (n >>> 4) ++ (hex (bit_and n 0x0F) ∷ [])

-- The width `w`: a negative one, or the digits that are printed at least.
pub data Width : Type 0 where
  negative : Width
  at_least : ℕ → Width

abbrev pub narrower : Width → Width
narrower negative = negative
narrower (at_least zero) = negative
narrower (at_least (suc w)) = at_least w

abbrev pub digits_left : Width → ℕ
digits_left negative = 0
digits_left (at_least w) = w

-- The loop of `print_unsigned`, which takes at most `room` rounds; in the last of them it writes the
-- byte before the buffer.
unfoldable pub digits_loop : ℕ → ℕ → ℕ → List ℕ → List ℕ
digits_loop zero n w text = text
digits_loop (suc room) n w text =
    let more = digits_loop room (n / 10) (w - 1) (hex (n % 10) ∷ text) in
    if n == 0 && w == 0 then text else more

unfoldable pub print_unsigned : ℕ → ℕ → Width → List ℕ
unfolding digits_loop
print_unsigned len n negative = if n == 0 then b'0' ∷ [] else digits_loop len n 0 []
print_unsigned len n (at_least w) = digits_loop len n w []

unfoldable pub print_signed : ℕ → ℕ → Width → List ℕ
unfolding print_unsigned
print_signed len n w =
    if ltb n (2 ^ 31)
    then print_unsigned len n w
    else b'-' ∷ print_unsigned (len - 1) (sub_u32 0 n) (narrower w)

-- The number in units of 1/256.
unfoldable pub print_ufixed : ℕ → ℕ → List ℕ
unfolding print_unsigned
print_ufixed len n =
    let m = u32 ((n >>> 2) * 15625) in
    print_unsigned (len - 2) (m / 1000000) negative
    ++ (b'.' ∷ print_unsigned (len - 1) (u32 (m + 50000) / 100000 % 10) (at_least 1))

unfoldable pub print_fixed : ℕ → ℕ → List ℕ
unfolding print_ufixed
print_fixed len n =
    if ltb n (2 ^ 31) then print_ufixed len n else b'-' ∷ print_ufixed (len - 1) (sub_u32 0 n)

pub data Argument : Type 0 where
  number : ℕ → Argument
  text : List ℕ → Argument

-- What the next argument is read as; where none of that kind follows, which C leaves open, it is empty.
abbrev pub as_number : List Argument → ℕ
as_number [] = 0
as_number (number n ∷ args) = n
as_number (text s ∷ args) = 0

abbrev pub as_text : List Argument → List ℕ
as_text [] = []
as_text (number n ∷ args) = []
as_text (text s ∷ args) = s

abbrev pub behind : List Argument → List Argument
behind [] = []
behind (arg ∷ args) = args

-- The text of a conversion that takes an argument.
unfoldable pub convert : ℕ → List Argument → List ℕ
unfolding printhex print_unsigned print_signed print_fixed
convert c args =
    if c == b'x'
    then printhex 8 (as_number args)
    else if c == b'h'
    then printhex 4 (as_number args)
    else if c == b'b'
    then printhex 2 (as_number args)
    else if c == b'u'
    then print_unsigned 16 (as_number args) negative
    else if c == b'd'
    then print_signed 16 (as_number args) negative
    else if c == b'f'
    then print_fixed 16 (as_number args)
    else if c == b's'
    then as_text args
    else as_number args ∷ []

abbrev pub takes_argument : ℕ → Bool
takes_argument c = not (
    not (c == b'x')
    && not (c == b'h')
    && not (c == b'b')
    && not (c == b'u')
    && not (c == b'd')
    && not (c == b'f')
    && not (c == b's')
    && not (c == b'c'))

-- What `vprintx` puts out.
unfoldable pub vprintx : List ℕ → List Argument → List ℕ
unfolding convert
vprintx [] args = []
vprintx (c ∷ []) args = if c == b'%' then [] else c ∷ []
vprintx (c ∷ d ∷ fmt) args =
    let plain = c ∷ vprintx (d ∷ fmt) args in
    let taken = convert d args ++ vprintx fmt (behind args) in
    let kept = d ∷ vprintx fmt args in
    if not (c == b'%') then plain else if takes_argument d then taken else kept
