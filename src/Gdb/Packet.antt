-- ===== src/Gdb/Packet.antt =====
-- Packets sent and received by tools/gdb-bridge.c.
use m3dev.Base.{
  ℕ, ◌+◌, ◌%◌, ◌<◌, ◌≡◌, ◌≢◌, refl, ap, ◌∙◌, arith, List, [], ◌∷◌, ◌++◌, append-nil, append_assoc,
  ◌==◌, if◌then◌else◌, length, length-append, bit_and, bit_and_mask, u32, true, false, Option, some,
  ◌>>=◌, bind_some,
}
use m3dev.Gdb.{
  maxpkt, s_idle, s_recv, s_chk1, Gdbcnxn, gdb_putc, gdb_puts, gdb_prologue, gdb_epilogue,
  acknowledge, recv_byte, gdb_recv,
}

-- Bytes other than the end mark.
abbrev pub ArePayload : List ℕ → Type 0
ArePayload [] = Unit {0}
ArePayload (c ∷ cs) = (c < 256) × (c ≢ b'#') × ArePayload cs

-- The characters of a C string, without the zero that ends it.
abbrev pub AreText : List ℕ → Type 0
AreText [] = Unit {0}
AreText (c ∷ cs) = (0 < c) × (c < 256) × AreText cs

-- The sum that the bytes leave in an `unsigned`.
abbrev pub sum_from : ℕ → List ℕ → ℕ
sum_from s [] = s
sum_from s (c ∷ cs) = sum_from (u32 (s + c)) cs

module _ {W : Type 0} (strtoul : ℕ → ℕ → ℕ)
    (handle_command : List ℕ → Gdbcnxn W → Option (Gdbcnxn W)) where
  recv_byte-payload :
      (gc : Gdbcnxn W) (c : ℕ)
      → c ≢ b'#'
      → length gc.rxbuf + 1 < maxpkt
      → recv_byte strtoul handle_command s_recv c gc
        ≡ some (record gc { rxbuf = gc.rxbuf ++ (c ∷ []); rxsum = u32 (gc.rxsum + c) })
  unfolding recv_byte
  recv_byte-payload gc c ne room = ground (arith, ne, room)

  gdb_recv-payload :
      (gc : Gdbcnxn W) (cs rest : List ℕ)
      → gc.state ≡ s_recv
      → ArePayload cs
      → length gc.rxbuf + length cs < maxpkt
      → gdb_recv strtoul handle_command (cs ++ (b'#' ∷ rest)) gc
        ≡ gdb_recv strtoul handle_command rest
            (record gc { state = s_chk1; rxbuf = gc.rxbuf ++ cs; rxsum = sum_from gc.rxsum cs })
  unfolding gdb_recv
  gdb_recv-payload gc [] rest e ok room = rw (e, append-nil gc.rxbuf) refl
  gdb_recv-payload gc (c ∷ cs) rest e (lt, ne, ok) room =
      let gc' = record gc { rxbuf = gc.rxbuf ++ (c ∷ []); rxsum = u32 (gc.rxsum + c) } in
      let step =
        ap (λ st. recv_byte strtoul handle_command st c gc) e
        ∙ recv_byte-payload gc c ne (omega arith) in
      ap (λ o. o >>= gdb_recv strtoul handle_command (cs ++ (b'#' ∷ rest))) step
      ∙ gdb_recv-payload gc' cs rest e ok (omega (arith, length-append {0} gc.rxbuf (c ∷ [])))
      ∙ ap
          (λ xs.
            gdb_recv strtoul handle_command rest
              (record gc { state = s_chk1; rxbuf = xs; rxsum = sum_from (u32 (gc.rxsum + c)) cs }))
          (append_assoc gc.rxbuf (c ∷ []) cs)

  -- A packet that fits, received between two packets, whatever follows it: if its two digits give
  -- its sum modulo 256, its command is handled, acknowledged before where packets are, and else it
  -- is refused; in both cases the next byte is read between packets.
  pub gdb_recv-packet :
      (gc : Gdbcnxn W) (cs rest : List ℕ) (hi lo : ℕ)
      → gc.state ≡ s_idle
      → ArePayload cs
      → length cs < maxpkt
      → gdb_recv strtoul handle_command (b'$' ∷ cs ++ (b'#' ∷ hi ∷ lo ∷ rest)) gc ≡ (
          let gc' = record gc { state = s_idle; chk0 = hi; rxbuf = cs; rxsum = sum_from 0 cs } in
          (if strtoul hi lo == sum_from 0 cs % 256
            then handle_command cs (acknowledge strtoul handle_command b'+' gc')
            else some (acknowledge strtoul handle_command b'-' gc'))
          >>= gdb_recv strtoul handle_command rest)
  unfolding gdb_recv
  gdb_recv-packet gc cs rest hi lo e ok room =
      let gc' = record gc { state = s_recv; rxsum = 0; rxbuf = [] } in
      let end = record gc { state = s_idle; chk0 = hi; rxbuf = cs; rxsum = sum_from 0 cs } in
      ap
        (λ st.
          recv_byte strtoul handle_command st b'$' gc
          >>= gdb_recv strtoul handle_command (cs ++ (b'#' ∷ hi ∷ lo ∷ rest)))
        e
      ∙ gdb_recv-payload gc' cs (hi ∷ lo ∷ rest) refl ok (omega arith)
      ∙ ap
          (λ n.
            (if strtoul hi lo == n
              then handle_command cs (acknowledge strtoul handle_command b'+' end)
              else some (acknowledge strtoul handle_command b'-' end))
            >>= gdb_recv strtoul handle_command rest)
          (bit_and_mask 8 (sum_from 0 cs))

gdb_putc_lem :
    {W : Type 0} (gc : Gdbcnxn W) (c : ℕ)
    → c < 256
    → length gc.txbuf + 1 < maxpkt
    → gdb_putc c gc ≡ record gc { txbuf = gc.txbuf ++ (c ∷ []); txsum = u32 (gc.txsum + c) }
unfolding gdb_putc
gdb_putc_lem gc c lt room =
    let e : c % 256 ≡ c = omega arith in
    let not_full : (length gc.txbuf == 8191) ≡ false = ground (arith, room) in rw (not_full, e) refl

pub gdb_puts_lem :
    {W : Type 0} (gc : Gdbcnxn W) (cs : List ℕ)
    → AreText cs
    → length gc.txbuf + length cs < maxpkt
    → gdb_puts cs gc ≡ record gc { txbuf = gc.txbuf ++ cs; txsum = sum_from gc.txsum cs }
unfolding gdb_puts
gdb_puts_lem gc [] ok room = rw (append-nil gc.txbuf) refl
gdb_puts_lem gc (c ∷ cs) (pos, lt, ok) room =
    let no_end : c == 0 ≡ false = ground (arith, pos) in
    let gc' = record gc { txbuf = gc.txbuf ++ (c ∷ []); txsum = u32 (gc.txsum + c) } in
    rw no_end refl
    ∙ ap (gdb_puts cs) (gdb_putc_lem gc c lt (omega arith))
    ∙ gdb_puts_lem gc' cs ok (omega (arith, length-append {0} gc.txbuf (c ∷ [])))
    ∙ ap (λ xs. record gc { txbuf = xs; txsum = sum_from (u32 (gc.txsum + c)) cs })
        (append_assoc gc.txbuf (c ∷ []) cs)

-- What the library's printing and reading of two hexadecimal digits promise.
pub record AreDigits (hex2 : ℕ → List ℕ) (strtoul : ℕ → ℕ → ℕ) (n : ℕ) : Type 0 where
  pub hi : ℕ
  pub lo : ℕ
  pub hi_text : 0 < hi
  pub lo_text : 0 < lo
  pub hi_byte : hi < 256
  pub lo_byte : lo < 256
  pub two_digits : hex2 n ≡ hi ∷ lo ∷ []
  pub value : strtoul hi lo ≡ n

gdb_epilogue-gdb_puts :
    {W : Type 0} (hex2 : ℕ → List ℕ) (gc gc' : Gdbcnxn W)
    → gdb_puts (b'#' ∷ hex2 (bit_and gc.txsum 0xff)) gc ≡ gc'
    → length gc'.txbuf + 1 < maxpkt
    → (gdb_epilogue hex2 gc).written ≡ gc'.written ++ gc'.txbuf
unfolding gdb_epilogue
gdb_epilogue-gdb_puts hex2 gc gc' e room =
    let not_full : (length gc'.txbuf == 8191) ≡ false = ground (arith, room) in
    rw (e, not_full) refl

-- What one connection sends for a payload.
abbrev pub gdb_send : {W : Type 0} → (ℕ → List ℕ) → List ℕ → Gdbcnxn W → Gdbcnxn W
gdb_send hex2 cs gc = gdb_epilogue hex2 (gdb_puts cs (gdb_prologue gc))

gdb_send_lem :
    {W : Type 0} (hex2 : ℕ → List ℕ) (gc : Gdbcnxn W) (cs : List ℕ) (hi lo : ℕ)
    → AreText cs
    → length cs + 5 < maxpkt
    → hex2 (sum_from 0 cs % 256) ≡ hi ∷ lo ∷ []
    → (0 < hi) × (hi < 256)
    → (0 < lo) × (lo < 256)
    → (gdb_send hex2 cs gc).written ≡ gc.written ++ (b'$' ∷ cs ++ (b'#' ∷ hi ∷ lo ∷ []))
unfolding gdb_prologue
gdb_send_lem hex2 gc cs hi lo ok room e h l =
    let g1 = gdb_prologue gc in
    let g2 = record g1 { txbuf = b'$' ∷ cs; txsum = sum_from 0 cs } in
    let mark = b'#' ∷ hi ∷ lo ∷ [] in
    let g3 = record g2 { txbuf = (b'$' ∷ cs) ++ mark; txsum = sum_from g2.txsum mark } in
    let e2 : gdb_puts cs g1 ≡ g2 = gdb_puts_lem g1 cs ok (omega arith) in
    let e3 : gdb_puts mark g2 ≡ g3 =
      gdb_puts_lem g2 mark (omega arith, omega arith, (h.0, h.1, (l.0, l.1, tt)))
        (omega (arith, room)) in
    let digits : hex2 (bit_and g2.txsum 0xff) ≡ hi ∷ lo ∷ [] =
      ap hex2 (bit_and_mask 8 (sum_from 0 cs)) ∙ e in
    ap (λ g. (gdb_epilogue hex2 g).written) e2
    ∙ gdb_epilogue-gdb_puts hex2 g2 g3 (ap (λ ds. gdb_puts (b'#' ∷ ds) g2) digits ∙ e3)
        (omega (arith, room, length-append {0} cs mark))

module _ {W : Type 0} (hex2 : ℕ → List ℕ) (strtoul : ℕ → ℕ → ℕ)
    (handle_command : List ℕ → Gdbcnxn W → Option (Gdbcnxn W)) where
  -- What one end writes for a text, a payload without zeros and end marks, that fits the packet makes
  -- the other end, between two packets, acknowledge it where packets are and handle exactly that
  -- payload, if the sum's two digits are read as they were printed.
  pub gdb_recv-gdb_send :
      (gc there : Gdbcnxn W) (cs : List ℕ)
      → there.state ≡ s_idle
      → ArePayload cs
      → AreText cs
      → length cs + 5 < maxpkt
      → AreDigits hex2 strtoul (sum_from 0 cs % 256)
      → (frame : List ℕ) × ((gdb_send hex2 cs gc).written ≡ gc.written ++ frame)
        × ((hi : ℕ) × (gdb_recv strtoul handle_command frame there
              ≡ handle_command cs (
                  acknowledge strtoul handle_command b'+' (record there {
                    state = s_idle;
                    chk0 = hi;
                    rxbuf = cs;
                    rxsum = sum_from 0 cs;
                  }))))
  unfolding gdb_recv
  gdb_recv-gdb_send gc there cs e ok text room d =
      let end = record there { state = s_idle; chk0 = d.hi; rxbuf = cs; rxsum = sum_from 0 cs } in
      let same : (strtoul d.hi d.lo == sum_from 0 cs % 256) ≡ true = ground (arith, d.value) in
      (
        b'$' ∷ cs ++ (b'#' ∷ d.hi ∷ d.lo ∷ []),
        gdb_send_lem hex2 gc cs d.hi d.lo text room d.two_digits (d.hi_text, d.hi_byte)
            (d.lo_text, d.lo_byte),
        (
          d.hi,
          gdb_recv-packet strtoul handle_command there cs [] d.hi d.lo e ok (omega arith)
              ∙ rw same
                  (bind_some (handle_command cs (acknowledge strtoul handle_command b'+' end))),
        ),
      )
