-- ===== src/BootClient/Tests.antt =====
-- A download to a small device.
use m3dev.Base.{ℕ, ◌+◌, ◌≤◌, ◌≡◌, refl, arith, List, [], ◌∷◌, ◌++◌, some, length, u16}
use m3dev.BootClient.{Usb, lpcheader, dfu_download}
use m3dev.BootClient.Download.{Reports, IsDevice, dfu_download-received}

record Device : Type 0 where
  got : List ℕ
  next : ℕ
  state : ℕ

abbrev accept : ℕ → List ℕ → Device → ℕ × Device
accept count [] d = (0, record d { state = 8 })
accept count (b ∷ bytes) d =
    (length (b ∷ bytes), record { got = d.got ++ (b ∷ bytes); next = u16 (count + 1); state = 5 })

abbrev usb : Usb Device
usb = record {
  ctrl_in = λ type request value index size d. ((6, 0 ∷ 0 ∷ 0 ∷ 0 ∷ d.state ∷ 0 ∷ []), d);
  ctrl_out = λ type request value index bytes d. accept value bytes d;
  usb_write = λ bytes d. (length bytes, d);
  usb_read = λ size d. ((0, []), d);
}

abbrev idle : Device
idle = record { got = []; next = 0; state = 2 }

reports : (d : Device) → Reports usb (λ e. e.got) (λ e. e.next) d.state d
reports d = record { whole = refl; no_error = refl; in_state = refl }

takes :
    (block : List ℕ) (d : Device)
    → 1 ≤ length block
    → (let after = accept d.next block d in
        (after.0 ≡ length block)
        × (after.1.got ≡ d.got ++ block)
        × (after.1.next ≡ u16 (d.next + 1))
        × Reports usb (λ e. e.got) (λ e. e.next) 5 after.1)
takes [] d more = absurd (omega arith)
takes (b ∷ bytes) d more = (refl, refl, refl, reports (accept d.next (b ∷ bytes) d).1)

usb-IsDevice : IsDevice usb (λ d. d.got) (λ d. d.next)
usb-IsDevice = record {
  takes = takes;
  ends = λ d. (refl, refl, reports (record d { state = 8 }));
  keeps = λ d. (refl, refl);
}

dfu_download-received_example :
    (d : Device) × (dfu_download usb 20 (7 ∷ 8 ∷ 9 ∷ []) idle ≡ some (0, d))
    × (d.got ≡ [] ++ (lpcheader ++ (7 ∷ 8 ∷ 9 ∷ [])))
dfu_download-received_example =
    dfu_download-received usb (λ d. d.got) (λ d. d.next) usb-IsDevice 20 (7 ∷ 8 ∷ 9 ∷ []) idle
      (omega arith) (reports idle) refl
