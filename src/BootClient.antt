-- ===== src/BootClient.antt =====
-- The download by DFU and the exchange with the boot loader of tools/lpcboot.c, once the device is open, and the image checksum of
-- tools/bless-lpc.c. Results of the USB calls are bit patterns; a result of 1 stands for -1.
pub mod Download
mod Tests
use m3dev.Base.{
  ℕ, zero, suc, ◌+◌, List, [], ◌∷◌, ◌++◌, Option, none, some, ◌>>=◌, Bool, not, ◌&&◌, ◌*◌, ◌==◌,
  if◌then◌else◌, length, get_or, take, drop, u16, u32, sub_u32,
}
use m3dev.Boot.{le_words}

abbrev pub dfu_dnload : ℕ
dfu_dnload = 1

abbrev pub dfu_getstatus : ℕ
dfu_getstatus = 3

abbrev pub state_dfu_idle : ℕ
state_dfu_idle = 2

abbrev pub state_dfu_download_idle : ℕ
state_dfu_download_idle = 5

abbrev pub state_dfu_manifest_wait_reset : ℕ
state_dfu_manifest_wait_reset = 8

abbrev pub lpcheader : List ℕ
lpcheader =
    0xda ∷ 0xff ∷ 0x40 ∷ 0x00 ∷ 0xff ∷ 0xff ∷ 0xff ∷ 0xff ∷ 0xff ∷ 0xff ∷ 0xff ∷ 0xff ∷ 0xff ∷ 0xff
    ∷ 0xff ∷ 0xff ∷ []

-- `usb_ctrl` with the type, the request, the value and the index: in, with a length, and out, with
-- the bytes; and the transfers of bytes.
pub record Usb (W : Type 0) : Type 0 where
  pub ctrl_in : ℕ → ℕ → ℕ → ℕ → ℕ → W → (ℕ × List ℕ) × W
  pub ctrl_out : ℕ → ℕ → ℕ → ℕ → List ℕ → W → ℕ × W
  pub usb_write : List ℕ → W → ℕ × W
  pub usb_read : ℕ → W → (ℕ × List ℕ) × W

-- A little-endian word.
abbrev pub word_of : List ℕ → ℕ
word_of [] = 0
word_of (b ∷ bytes) = b + 256 * word_of bytes

module _ {W : Type 0} (usb : Usb W) where
  -- The result, and the state where the result is 0.
  unfoldable pub dfu_status : W → (ℕ × ℕ) × W
  dfu_status w =
      let (answer, w') = usb.ctrl_in 0xA1 dfu_getstatus 0 0 6 w in
      if not (answer.0 == 6)
      then ((1, 0), w')
      else if not (get_or answer.1 0 0 == 0)
      then ((get_or answer.1 0 0, 0), w')
      else ((0, get_or answer.1 4 0), w')

  -- The loop that sends the binary, which takes fuel.
  unfoldable pub send_blocks : ℕ → ℕ → List ℕ → W → Option (ℕ × W)
  send_blocks zero count bytes w = none
  send_blocks (suc fuel) count bytes w =
      let block = take 2048 bytes in
      let (n, w1) = usb.ctrl_out 0x21 dfu_dnload count 0 block w in
      let (answer, w2) = dfu_status w1 in
      let rest = send_blocks fuel (u16 (count + 1)) (drop 2048 bytes) w2 in
      if length bytes == 0
      then some (0, w)
      else if not (n == length block)
      then some (1, w1)
      else if not (answer.0 == 0)
      then some (1, w2)
      else if not (answer.1 == state_dfu_download_idle)
      then some (1, w2)
      else rest

  -- Behind the loop.
  unfoldable pub end_download : W → ℕ × W
  end_download w =
      let (n, w1) = usb.ctrl_out 0x21 dfu_dnload 0 0 [] w in
      let (answer, w2) = dfu_status w1 in
      if not (n == 0)
      then (1, w1)
      else if not (answer.0 == 0)
      then (1, w2)
      else if answer.1 == state_dfu_manifest_wait_reset
      then (0, w2)
      else (1, w2)

  unfoldable pub dfu_download : ℕ → List ℕ → W → Option (ℕ × W)
  dfu_download fuel bytes w =
      let (answer, w1) = dfu_status w in
      let sent : Option (ℕ × W) = (do
        (r, w2) ← send_blocks fuel 0 (lpcheader ++ bytes) w1
        some (if r == 0 then end_download w2 else (1, w2))) in
      if not (answer.0 == 0)
      then some (1, w1)
      else if not (answer.1 == state_dfu_idle)
      then some (1, w1)
      else sent

  -- The reply of the boot loader: whether it is whole, carries the magic number and reports success.
  unfoldable pub read_reply : W → Bool × W
  read_reply w =
      let (answer, w') = usb.usb_read 8 w in
      let magic = take 4 answer.1 in
      let result = take 4 (drop 4 answer.1) in
      (answer.0 == 8 && word_of magic == 0xDB00A5A5 && word_of result == 0, w')

  -- The exchange of `main` with the boot loader, for the command with the letter `cmd`: it sends the
  -- image where `dl` is set, and reads the information of the device for a query. A second reply
  -- follows an image.
  unfoldable pub boot_exchange : Bool → Bool → ℕ → List ℕ → W → ℕ × W
  boot_exchange query dl cmd image w =
      let size = if dl then length image else 0 in
      let (n, w1) = usb.usb_write (le_words (0xDB00A5A5 ∷ cmd ∷ size ∷ [])) w in
      let (ok, w2) = read_reply w1 in
      let (info, w3) = usb.usb_read 64 w2 in
      let (sent, w4) = usb.usb_write image w2 in
      let (done, w5) = read_reply w4 in
      if not (n == 12)
      then (1, w1)
      else if not ok
      then (1, w2)
      else if query
      then (if info.0 == 64 then 0 else 1, w3)
      else if not dl
      then (0, w2)
      else if not (sent == length image)
      then (1, w4)
      else (if done then 0 else 1, w5)

-- The sum of the seven words before the checksum, of bless-lpc.c; `none` is a file that is too short.
abbrev pub sum_words : ℕ → List ℕ → ℕ → Option ℕ
sum_words zero words chk = some chk
sum_words (suc n) [] chk = none
sum_words (suc n) (w ∷ words) chk = sum_words n words (u32 (chk + w))

-- The word that is written.
abbrev pub checksum : List ℕ → Option ℕ
checksum words = do chk ← sum_words 7 words 0; some (sub_u32 0 chk)
