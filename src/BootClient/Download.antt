-- ===== src/BootClient/Download.antt =====
-- What `dfu_download` of tools/lpcboot.c sends to a device.
use m3dev.Base.{
  ℕ, zero, suc, ◌+◌, ◌≤◌, ◌<◌, ◌≡◌, refl, sym, ap, arith, true, false, List, [], ◌∷◌, ◌++◌,
  append_assoc, append-nil, some, ◌==◌, length, get_or, take, drop, take-append-drop, length-append,
  length-take, u16, ◌∙◌,
}
use m3dev.BootClient.{
  Usb, lpcheader, dfu_dnload, dfu_getstatus, state_dfu_idle, state_dfu_download_idle,
  state_dfu_manifest_wait_reset, dfu_status, send_blocks, end_download, dfu_download,
}

shorter :
    (n : ℕ) (bytes : List ℕ) (fuel : ℕ)
    → suc (length bytes) < suc fuel
    → length (drop n bytes) < fuel
shorter n bytes fuel lt =
    let total : length (take n bytes ++ drop n bytes) ≡ length bytes =
      ap length (take-append-drop n bytes) in
    omega (arith, total, length-append {0} (take n bytes) (drop n bytes))

module _ {W : Type 0} (usb : Usb W) (received : W → List ℕ) (expected : W → ℕ) where
  -- The device answers a request for its status with success and a state.
  pub record Reports (state : ℕ) (w : W) : Type 0 where
    pub whole : (usb.ctrl_in 0xA1 dfu_getstatus 0 0 6 w).0.0 ≡ 6
    pub no_error : get_or (usb.ctrl_in 0xA1 dfu_getstatus 0 0 6 w).0.1 0 0 ≡ 0
    pub in_state : get_or (usb.ctrl_in 0xA1 dfu_getstatus 0 0 6 w).0.1 4 0 ≡ state

  -- A device that takes the block with the number it expects, and then expects the next one, and
  -- that an empty block ends.
  pub record IsDevice : Type 0 where
    pub takes :
        (block : List ℕ) (w : W)
        → 1 ≤ length block
        → (let after = usb.ctrl_out 0x21 dfu_dnload (expected w) 0 block w in
            (after.0 ≡ length block)
            × (received after.1 ≡ received w ++ block)
            × (expected after.1 ≡ u16 (expected w + 1))
            × Reports state_dfu_download_idle after.1)
    pub ends :
        (w : W)
        → (let after = usb.ctrl_out 0x21 dfu_dnload 0 0 [] w in
            (after.0 ≡ 0)
            × (received after.1 ≡ received w)
            × Reports state_dfu_manifest_wait_reset after.1)
    pub keeps :
        (w : W)
        → (let after = (usb.ctrl_in 0xA1 dfu_getstatus 0 0 6 w).1 in
            (received after ≡ received w) × (expected after ≡ expected w))

  abbrev after_status : W → W
  after_status w = (usb.ctrl_in 0xA1 dfu_getstatus 0 0 6 w).1

  dfu_status-Reports :
      (state : ℕ) (w : W) → Reports state w → dfu_status usb w ≡ ((0, state), after_status w)
  unfolding dfu_status
  dfu_status-Reports state w reports = rw (reports.whole, reports.no_error, reports.in_state) refl

  module _ (device : IsDevice) where
    -- All bytes are sent.
    abbrev Sends : ℕ → List ℕ → W → Type 0
    Sends fuel bytes w =
        (w' : W) × (send_blocks usb fuel (expected w) bytes w ≡ some (0, w'))
        × (received w' ≡ received w ++ bytes)

    send_blocks-next :
        (fuel : ℕ) (bytes : List ℕ) (w : W)
        → 1 ≤ length bytes
        → ((w1 : W) → Sends fuel (drop 2048 bytes) w1)
        → Sends (suc fuel) bytes w
    unfolding send_blocks
    send_blocks-next fuel bytes w more rest =
        let block = take 2048 bytes in
        let later = drop 2048 bytes in
        let w1 = (usb.ctrl_out 0x21 dfu_dnload (expected w) 0 block w).1 in
        let (n, got, next, reports) =
          device.takes block w (omega (arith, length-take 2048 bytes, more)) in
        let left : length bytes == 0 ≡ false = ground (arith, more) in
        let whole : (usb.ctrl_out 0x21 dfu_dnload (expected w) 0 block w).0 == length block ≡ true =
          ground (arith, n) in
        let status = dfu_status-Reports state_dfu_download_idle w1 reports in
        let (same, number) = device.keeps w1 in
        let (w', e, all) = rest (after_status w1) in
        (
          w',
          rw (left, whole, status)
              (sym (ap (λ c. send_blocks usb fuel c later (after_status w1)) (number ∙ next)) ∙ e),
          all
              ∙ ap (λ bs. bs ++ later) (same ∙ got)
              ∙ append_assoc (received w) block later
              ∙ ap (λ bs. received w ++ bs) (take-append-drop 2048 bytes),
        )

    send_blocks-received :
        (fuel : ℕ) (bytes : List ℕ) (w : W) → length bytes < fuel → Sends fuel bytes w
    unfolding send_blocks
    send_blocks-received zero bytes w lt = absurd (omega arith)
    send_blocks-received (suc fuel) [] w lt = (w, refl, sym (append-nil (received w)))
    send_blocks-received (suc fuel) (b ∷ bytes) w lt =
        send_blocks-next fuel (b ∷ bytes) w (omega arith)
          λ w1. send_blocks-received fuel (drop 2048 (b ∷ bytes)) w1 (shorter 2047 bytes fuel lt)

    -- From a device that is idle and expects block 0, and that takes the blocks it expects: with more
    -- fuel than bytes and header, `dfu_download` ends with 0, and the device has received the header
    -- of 16 bytes and the bytes, in order, behind what it had.
    pub dfu_download-received :
        (fuel : ℕ) (bytes : List ℕ) (w : W)
        → 16 + length bytes < fuel
        → Reports state_dfu_idle w
        → expected w ≡ 0
        → (w' : W) × (dfu_download usb fuel bytes w ≡ some (0, w'))
          × (received w' ≡ received w ++ (lpcheader ++ bytes))
    unfolding dfu_download end_download
    dfu_download-received fuel bytes w lt idle start =
        let w1 = after_status w in
        let status = dfu_status-Reports state_dfu_idle w idle in
        let (same, number) = device.keeps w in
        let (w2, sent, all) = send_blocks-received fuel (lpcheader ++ bytes) w1 (omega arith) in
        let counted : send_blocks usb fuel 0 (lpcheader ++ bytes) w1 ≡ some (0, w2) =
          sym (ap (λ c. send_blocks usb fuel c (lpcheader ++ bytes) w1) (number ∙ start)) ∙ sent in
        let w3 = (usb.ctrl_out 0x21 dfu_dnload 0 0 [] w2).1 in
        let (n, kept, reports) = device.ends w2 in
        let ended = dfu_status-Reports state_dfu_manifest_wait_reset w3 reports in
        (
          after_status w3,
          rw (status, counted, n, ended) refl,
          (device.keeps w3).0 ∙ kept ∙ all ∙ ap (λ bs. bs ++ (lpcheader ++ bytes)) same,
        )
