-- ===== src/Boot/Flash.antt =====
-- What the command `W` of lpc13boot/main.c leaves in flash.
use m3dev.Base.{
  ℕ, zero, suc, ◌+◌, ◌-◌, ◌*◌, ◌/◌, ◌%◌, ◌^◌, ◌<◌, ◌≤◌, ◌≡◌, refl, ap, ◌∙◌, ◌⊎◌, arith, List, [],
  ◌∷◌, some, Bool-cases, inl, inr, true, false, ◌&&◌, ◌==◌, leb, ltb, if◌then◌else◌, bit_and,
  bit_and_mask, ◌>>>◌, get_or, get_or-drop, drop, u32,
}
use m3dev.Boot.{
  Board, ram_base, rom_base, rom_size, op_prepare, op_write, op_erase, iap_erase_page,
  iap_write_page, write_image, reply, handle, run_command, returned,
}

-- The flash of a board, its RAM from the start on, and what the host has still to send.
pub record View (H : Type 0) : Type 0 where
  pub flash : H → ℕ → ℕ
  pub ram : H → ℕ → ℕ
  pub coming : H → List ℕ

-- A byte after the first page of the image, `f1`, and after the rest of it, `f2`.
page_and_rest :
    (s arg x p f r f1 f2 : ℕ) (c : List ℕ)
    → x ≡ (if ltb 4096 arg then 4096 else arg)
    → 0 < arg
    → ((i : ℕ) → get_or c i 0 < 256)
    → (p < 4096 * s + arg) ⊎ (4096 * s + (arg + 4095) / 4096 * 4096 ≤ p)
    → f1 ≡ (
        if p / 4096 == s
        then bit_and (if ltb (p % 4096) x then get_or c (p % 4096) 0 else r) 0xFF
        else f)
    → f2 ≡ (
        if leb (4096 * (s + 1)) p && ltb p (4096 * (s + 1) + (arg - x))
        then get_or (drop x c) (p - 4096 * (s + 1)) 0
        else f1)
    → f2 ≡ (if leb (4096 * s) p && ltb p (4096 * s + arg) then get_or c (p - 4096 * s) 0 else f)
page_and_rest s arg x p f r f1 f2 c xe some_left bytes place e1 e2 =
    elim (Bool-cases (leb (4096 * (s + 1)) p && ltb p (4096 * (s + 1) + (arg - x)))) [
      | inl behind ↦
          let there : x + (p - 4096 * (s + 1)) ≡ p - 4096 * s = ground (arith, xe, behind) in
          let in_image : (leb (4096 * s) p && ltb p (4096 * s + arg)) ≡ true =
            ground (arith, xe, behind) in
          e2
          ∙ rw (behind, in_image)
              (get_or-drop x (p - 4096 * (s + 1)) c ∙ ap (λ i. get_or c i 0) there)
      | inr first ↦ elim (Bool-cases (p / 4096 == s)) [
        | inl here ↦
            let at_place : p % 4096 ≡ p - 4096 * s = ground (arith, here) in
            let received : ltb (p % 4096) x ≡ true = ground (arith, here, place, xe) in
            let in_image : (leb (4096 * s) p && ltb p (4096 * s + arg)) ≡ true =
              ground (arith, here, place, xe) in
            let byte : bit_and (get_or c (p % 4096) 0) 0xFF ≡ get_or c (p % 4096) 0 =
              bit_and_mask 8 (get_or c (p % 4096) 0) ∙ omega (arith, bytes (p % 4096)) in
            e2
            ∙ rw first (e1 ∙ rw (here, received, in_image) (byte ∙ ap (λ i. get_or c i 0) at_place))
        | inr elsewhere ↦
            let outside : (leb (4096 * s) p && ltb p (4096 * s + arg)) ≡ false =
              ground (arith, first, elsewhere, place, xe) in
            e2 ∙ rw first (e1 ∙ rw (elsewhere, outside) refl)
      ]
    ]

module _ {H : Type 0} (board : Board H) (view : View H) where
  -- The ROM's functions as the processor's manual has them: erasing a prepared sector sets its
  -- bytes to 0xFF, writing a page to a prepared sector only clears bits. `usb_recv` stores what comes.
  pub record IsBoard : Type 0 where
    pub erases :
        (s : ℕ) (h : H) (p : ℕ)
        → let h' =
            board.romcall
              (op_erase ∷ s ∷ s ∷ 48000 ∷ [])
              (board.romcall (op_prepare ∷ s ∷ s ∷ []) h) in
          (view.flash h' p ≡ (if p / 4096 == s then 0xFF else view.flash h p))
          × (view.ram h' p ≡ view.ram h p)
          × (view.coming h' ≡ view.coming h)
    pub writes :
        (s : ℕ) (h : H) (p : ℕ)
        → let h' =
            board.romcall
              (op_write ∷ 4096 * s ∷ ram_base ∷ 0x1000 ∷ 48000 ∷ [])
              (board.romcall (op_prepare ∷ s ∷ s ∷ []) h) in
          (view.flash h' p ≡ (
            if p / 4096 == s
            then bit_and (view.ram h (p % 4096)) (view.flash h p)
            else view.flash h p))
          × (view.coming h' ≡ view.coming h)
    pub receives :
        (n : ℕ) (h : H) (p : ℕ)
        → (view.ram (board.usb_recv n h) p
            ≡ (if ltb p n then get_or (view.coming h) p 0 else view.ram h p))
          × (view.flash (board.usb_recv n h) p ≡ view.flash h p)
          × (view.coming (board.usb_recv n h) ≡ drop n (view.coming h))

  -- The ROM's calls for a sector.
  abbrev erase : ℕ → H → H
  erase s h =
      board.romcall (op_erase ∷ s ∷ s ∷ 48000 ∷ []) (board.romcall (op_prepare ∷ s ∷ s ∷ []) h)

  abbrev write : ℕ → H → H
  write s h =
      board.romcall (op_write ∷ 4096 * s ∷ ram_base ∷ 0x1000 ∷ 48000 ∷ [])
        (board.romcall (op_prepare ∷ s ∷ s ∷ []) h)

  sector_lem : (s : ℕ) → s < 16 → bit_and ((4096 * s) >>> 12) 0xF ≡ s
  sector_lem s lt = bit_and_mask 4 ((4096 * s) >>> 12) ∙ omega (arith, lt)

  iap_erase_page_lem : (s : ℕ) (h : H) → s < 16 → iap_erase_page board (4096 * s) h ≡ erase s h
  unfolding iap_erase_page
  iap_erase_page_lem s h lt = ap (λ k. erase k h) (sector_lem s lt)

  iap_write_page_lem :
      (s : ℕ) (h : H) → s < 16 → iap_write_page board (4096 * s) ram_base h ≡ write s h
  unfolding iap_write_page
  iap_write_page_lem s h lt =
      ap
        (λ k.
          board.romcall (op_write ∷ 4096 * s ∷ ram_base ∷ 0x1000 ∷ 48000 ∷ [])
            (board.romcall (op_prepare ∷ k ∷ k ∷ []) h))
        (sector_lem s lt)

  -- The state after the page at `addr` is received and written.
  abbrev page : ℕ → ℕ → H → H
  page addr xfer h =
      iap_write_page board addr ram_base (iap_erase_page board addr (board.usb_recv xfer h))

  module _ (is : IsBoard) where
    page_lem :
        (s xfer : ℕ) (h : H) (p : ℕ)
        → s < 16
        → (view.flash (page (4096 * s) xfer h) p ≡ (
            if p / 4096 == s
            then bit_and
                (if ltb (p % 4096) xfer
                  then get_or (view.coming h) (p % 4096) 0
                  else view.ram h (p % 4096))
                0xFF
            else view.flash h p))
          × (view.coming (page (4096 * s) xfer h) ≡ drop xfer (view.coming h))
    page_lem s xfer h p lt =
        let h1 = board.usb_recv xfer h in
        let h2 = erase s h1 in
        let e1 : iap_erase_page board (4096 * s) h1 ≡ h2 = iap_erase_page_lem s h1 lt in
        let (r_ram, r_flash, r_coming) = is.receives xfer h p in
        let (q_ram, q_flash, q_coming) = is.receives xfer h (p % 4096) in
        let (e_flash, e_ram, e_coming) = is.erases s h1 p in
        let (d_flash, d_ram, d_coming) = is.erases s h1 (p % 4096) in
        let (w_flash, w_coming) = is.writes s h2 p in
        rw (e1, iap_write_page_lem s h2 lt)
          (ground (arith, w_flash, e_flash, d_ram, q_ram, r_flash), w_coming ∙ e_coming ∙ r_coming)

    -- The bytes of the last page behind the image are not determined.
    write_image-flash :
        (fuel s arg : ℕ) (h : H) (p : ℕ)
        → arg + 4096 ≤ 4096 * fuel
        → 4096 * s + arg ≤ 2 ^ 16
        → ((i : ℕ) → get_or (view.coming h) i 0 < 256)
        → (p < 4096 * s + arg) ⊎ (4096 * s + (arg + 4095) / 4096 * 4096 ≤ p)
        → (h' : H) × (write_image board fuel (4096 * s) arg h ≡ some h')
          × (view.flash h' p ≡ (
              if leb (4096 * s) p && ltb p (4096 * s + arg)
              then get_or (view.coming h) (p - 4096 * s) 0
              else view.flash h p))
    unfolding write_image
    write_image-flash zero s arg h p enough fits bytes place = absurd (omega (arith, enough))
    write_image-flash (suc fuel) s arg h p enough fits bytes place = elim (Bool-cases (arg == 0)) [
      | inl e ↦ (h, rw e refl, ground (arith, e))
      | inr e ↦
          let x = if ltb 4096 arg then 4096 else arg in
          let h1 = page (4096 * s) x h in
          let (f, c) = page_lem s x h p (ground (arith, e, fits)) in
          let (h', w, g) =
            write_image-flash fuel (s + 1) (arg - x) h1 p (ground (arith, enough))
              (ground (arith, fits)) (λ i. rw (c, get_or-drop x i (view.coming h)) (bytes (x + i)))
              (ground (arith, place, e)) in
          let next : u32 (4096 * s + 4096) ≡ 4096 * (s + 1) = omega (arith, fits) in
          (
            h',
            rw (e, next) w,
            page_and_rest s arg x p (view.flash h p) (view.ram h (p % 4096)) (view.flash h1 p)
                (view.flash h' p) (view.coming h) refl (ground (arith, e)) bytes place f
                (g
                  ∙ ap
                      (λ cs.
                        if leb (4096 * (s + 1)) p && ltb p (4096 * (s + 1) + (arg - x))
                        then get_or cs (p - 4096 * (s + 1)) 0
                        else view.flash h1 p)
                      c),
          )
    ]

    -- The command `W`, on a board whose ROM functions do what they say and to which the host sends
    -- bytes: an image that fits is written whole, and the command returns, answering success before
    -- and after it. Then every byte of flash up to the image's end is the one received for it, and
    -- every byte before the application and behind the image's last page is what it was.
    pub handle-flash :
        (arg p : ℕ) (h : H)
        → arg ≤ rom_size
        → ((i : ℕ) → get_or (view.coming (reply board 0xDB00A5A5 0 h)) i 0 < 256)
        → (p < rom_base + arg) ⊎ (rom_base + (arg + 4095) / 4096 * 4096 ≤ p)
        → (h' : H) × (handle board 0xDB00A5A5 b'W' arg h
            ≡ some (returned (reply board 0xDB00A5A5 0 h')))
          × (view.flash h' p ≡ (
              let h1 = reply board 0xDB00A5A5 0 h in
              if leb rom_base p && ltb p (rom_base + arg)
              then get_or (view.coming h1) (p - rom_base) 0
              else view.flash h1 p))
    unfolding handle run_command
    handle-flash arg p h fits bytes place =
        let h1 = reply board 0xDB00A5A5 0 h in
        let (h', e, f) =
          write_image-flash 8 1 arg h1 p (omega (arith, fits)) (omega (arith, fits)) bytes place in
        let room : ltb rom_size arg ≡ false = ground (arith, fits) in (h', rw (room, e) refl, f)
