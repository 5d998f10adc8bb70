-- ===== src/Print/Tests.antt =====
-- Numbers printed into the buffer of `vprintx`.
use m3dev.Base.{◌<◌, ◌≡◌, refl, arith, [], ◌∷◌, length, ascii}
use m3dev.Print.{print_unsigned, print_ufixed, vprintx, negative, number, text}
use m3dev.Print.Decimal.{read_decimal, read_decimal-print_unsigned, print_ufixed_lem}

printed_line :
    vprintx
      (ascii "n=%u %h%c %s")
      (number 305 ∷ number 48879 ∷ number b'!' ∷ text (ascii "ok") ∷ [])
    ≡ ascii "n=305 BEEF! ok"
unfolding vprintx
printed_line = refl

read_decimal-print_unsigned_example :
    (length (print_unsigned 16 4294967295 negative) < 16)
    × (read_decimal 0 (print_unsigned 16 4294967295 negative) ≡ 4294967295)
read_decimal-print_unsigned_example =
    read_decimal-print_unsigned 16 10 4294967295 (omega arith) (omega arith) (omega arith)

-- 511/256, nearly 2, is printed as 1.0.
print_ufixed_lem_example : print_ufixed 16 511 ≡ ascii "1.0"
unfolding print_unsigned
print_ufixed_lem_example = print_ufixed_lem 15 511 (omega arith) (omega arith)
