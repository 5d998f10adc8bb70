-- ===== src/UsbConsole/Tests.antt =====
-- The USB console's ring on concrete texts.
use m3dev.Base.{
  ℕ, ◌==◌, if◌then◌else◌, ◌≡◌, refl, arith, List, [], ◌∷◌, ◌++◌, some, true, false, replicate, take,
  drop,
}
use m3dev.UsbConsole.{Usbconsole, position, write_len, Interrupt, quiet, online, Round, printu}
use m3dev.UsbConsole.Queue.{IsRing, Appends}
use m3dev.UsbConsole.Print.{served, printu-Appends, printu-tx_empty}
use m3dev.UsbConsole.Race.{interrupted_uc_write, interrupted_uc_write-twice}

-- A ring with 255 bytes of `a`, whose head has wrapped at 2^32.
abbrev nearly_full : Usbconsole
nearly_full = record {
  out_head = 5;
  out_tail = 4294967046;
  out_busy = true;
  out_data = replicate 256 b'a';
  sent = [];
}

abbrev idle_ring : Usbconsole
idle_ring = record {
  out_head = 2;
  out_tail = 0;
  out_busy = false;
  out_data = b'h' ∷ b'i' ∷ replicate 254 0;
  sent = [];
}

nearly_full-IsRing : IsRing nearly_full
nearly_full-IsRing = record {
  size = refl;
  head_word = omega arith;
  tail_word = omega arith;
  bound = omega arith;
}

abbrev hello : List ℕ
hello = b'h' ∷ b'e' ∷ b'y' ∷ []

-- The host goes offline in front of the last character.
abbrev unplugged : ℕ → Interrupt
unplugged n = if n == 1 then online false else quiet

printu-tx_empty_example :
    (uc' : Usbconsole) × (rounds' : List Round) × (printu unplugged
        (replicate 3 served)
        served
        nearly_full
        hello
      ≡ some (uc', rounds'))
    × Appends nearly_full hello uc'
printu-tx_empty_example =
    printu-tx_empty unplugged served nearly_full hello (refl, refl) nearly_full-IsRing

-- The two rounds of the wait: nothing happens, then the endpoint is empty.
abbrev two_rounds : List Round
two_rounds = record { early = quiet; late = quiet; behind = quiet } ∷ served ∷ []

abbrev after : Usbconsole
after = record {
  out_head = 8;
  out_tail = 4294967110;
  out_busy = true;
  out_data = replicate 5 b'a' ++ hello ++ replicate 248 b'a';
  sent = replicate 64 b'a' ∷ [];
}

printed_hey : printu unplugged two_rounds served nearly_full hello ≡ some (after, [])
unfolding printu
printed_hey = refl

printu-Appends_example : Appends nearly_full hello after
printu-Appends_example =
    printu-Appends unplugged two_rounds [] served nearly_full after hello
      ((refl, refl), ((refl, refl), tt)) (refl, refl) nearly_full-IsRing printed_hey

interrupted_uc_write-twice_example :
    (let packet = take (write_len idle_ring) (drop (position idle_ring) idle_ring.out_data) in
      ((interrupted_uc_write idle_ring).sent ≡ packet ∷ packet ∷ [])
      × ((interrupted_uc_write idle_ring).out_tail ≡ 4))
unfolding write_len
interrupted_uc_write-twice_example = interrupted_uc_write-twice idle_ring (omega arith)
