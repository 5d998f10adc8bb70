-- ===== src/Boot/Tests.antt =====
-- The boot loader on a board that is a flash, a RAM and bytes to come.
use m3dev.Base.{
  ℕ, zero, suc, ◌*◌, ◌/◌, ◌%◌, ◌<◌, ◌≡◌, refl, ap, arith, List, [], ◌∷◌, none, some, true, ◌==◌,
  ltb, if◌then◌else◌, get_or, drop, bit_and, inl,
}
use m3dev.Boot.{Board, returned, handle}
use m3dev.Boot.Flash.{View, IsBoard, handle-flash}

record Chip : Type 0 where
  flash : ℕ → ℕ
  ram : ℕ → ℕ
  coming : List ℕ

abbrev rom : List ℕ → Chip → Chip
rom in_words h =
    let op = get_or in_words 0 0 in
    let place = get_or in_words 1 0 in
    if op == 52
    then record h { flash = λ p. if p / 4096 == place then 0xFF else h.flash p }
    else if op == 51
    then record h {
      flash = λ p.
          if p / 4096 == place / 4096 then bit_and (h.ram (p % 4096)) (h.flash p) else h.flash p;
    }
    else h

abbrev board : Board Chip
board = record {
  romcall = rom;
  usb_xmit = λ bs h. h;
  usb_recv = λ n h. record h {
    ram = λ p. if ltb p n then get_or h.coming p 0 else h.ram p;
    coming = drop n h.coming;
  };
  usb_recv_timeout = λ ms h. (none, h);
  usb_stop = λ h. h;
  usb_init = λ h. h;
  usb_online = λ h. (true, h);
  board_init = λ h. h;
  board_debug_led = λ on h. h;
  readl = λ a h. (0, h);
  writel = λ v a h. h;
  board_name = [];
}

abbrev view : View Chip
view = record { flash = λ h. h.flash; ram = λ h. h.ram; coming = λ h. h.coming }

sector_of : (s : ℕ) → (4096 * s) / 4096 ≡ s
sector_of s = omega arith

board-IsBoard : IsBoard board view
board-IsBoard = record {
  erases = λ s h p. (refl, refl, refl);
  writes = λ s h p. (
    ap (λ k. if p / 4096 == k then bit_and (h.ram (p % 4096)) (h.flash p) else h.flash p)
        (sector_of s),
    refl,
  );
  receives = λ n h p. (refl, refl, refl);
}

-- Three bytes are to come, and the flash is all zero.
abbrev chip : Chip
chip = record { flash = λ p. 0; ram = λ p. 0x55; coming = 7 ∷ 8 ∷ 9 ∷ [] }

three_bytes : (i : ℕ) → get_or (7 ∷ 8 ∷ 9 ∷ []) i 0 < 256
three_bytes zero = omega arith
three_bytes (suc zero) = omega arith
three_bytes (suc (suc zero)) = omega arith
three_bytes (suc (suc (suc i))) = omega arith

handle-flash_example :
    (h' : Chip) × (handle board 0xDB00A5A5 b'W' 3 chip ≡ some (returned h')) × (h'.flash 0x1002 ≡ 9)
handle-flash_example =
    handle-flash board view board-IsBoard 3 0x1002 chip (omega arith) three_bytes
      (inl (omega arith))
