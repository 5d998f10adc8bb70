-- ===== src/Gdb/Command/Frames.antt =====
-- What the bridge writes, as whole packets with right sums.
use m3dev.Base.{
  false, ℕ, ◌+◌, ◌-◌, ◌%◌, ◌<◌, ◌≡◌, refl, sym, ap, ◌∙◌, min, arith, List, [], ◌∷◌, ◌++◌,
  append-nil, append_assoc, length, length-append, ◌==◌, Bool-cases, inl, inr, bit_and,
  bit_and_mask, u32, u8, subst,
}
use m3dev.Gdb.{Gdbcnxn, maxpkt, gdb_putc, gdb_puts, gdb_prologue, gdb_epilogue}
use m3dev.Gdb.Packet.{AreText, sum_from, gdb_puts_lem}
use m3dev.Gdb.Hex.{gdb_puthex}

-- Packets one behind the other; each has the two digits of its sum. Between them stand acknowledgements.
pub data Frames (hex2 : ℕ → List ℕ) : List ℕ → Type 0 where
  none_sent : Frames hex2 []
  packet :
      (body : List ℕ) {rest : List ℕ}
      → Frames hex2 rest
      → Frames hex2 ((b'$' ∷ body ++ (b'#' ∷ hex2 (sum_from 0 body % 256))) ++ rest)
  acknowledged : {rest : List ℕ} → Frames hex2 rest → Frames hex2 (b'+' ∷ rest)
  refused : {rest : List ℕ} → Frames hex2 rest → Frames hex2 (b'-' ∷ rest)

Frames-append :
    {hex2 : ℕ → List ℕ} {xs ys : List ℕ} → Frames hex2 xs → Frames hex2 ys → Frames hex2 (xs ++ ys)
Frames-append none_sent g = g
Frames-append {hex2 = hex2} {ys = ys} (packet body {rest} f) g =
    subst (Frames hex2)
      (sym (append_assoc (b'$' ∷ body ++ (b'#' ∷ hex2 (sum_from 0 body % 256))) rest ys))
      (packet body (Frames-append f g))
Frames-append (acknowledged f) g = acknowledged (Frames-append f g)
Frames-append (refused f) g = refused (Frames-append f g)

sum_from-append :
    (s : ℕ) (cs : List ℕ) (c : ℕ) → sum_from s (cs ++ (c ∷ [])) ≡ u32 (sum_from s cs + c)
sum_from-append s [] c = refl
sum_from-append s (d ∷ cs) c = sum_from-append (u32 (s + d)) cs c

-- A packet is begun: the mark, the bytes so far, and their sum.
pub record IsOpen (txbuf : List ℕ) (txsum : ℕ) : Type 0 where
  pub body : List ℕ
  pub begun : txbuf ≡ b'$' ∷ body
  pub summed : txsum ≡ sum_from 0 body
  pub fits : length body + 1 < maxpkt

pub record HasSent (hex2 : ℕ → List ℕ) (before : List ℕ) (written : List ℕ) : Type 0 where
  pub frames : List ℕ
  pub whole : Frames hex2 frames
  pub behind : written ≡ before ++ frames

-- Since `before` only packets were written, and one is begun.
pub record Midway {W : Type 0} (hex2 : ℕ → List ℕ) (before : List ℕ) (gc : Gdbcnxn W) : Type 0 where
  pub half : IsOpen gc.txbuf gc.txsum
  pub earlier : HasSent hex2 before gc.written

pub record Sent {W : Type 0} (hex2 : ℕ → List ℕ) (before : List ℕ) (gc : Gdbcnxn W) : Type 0 where
  pub packets : HasSent hex2 before gc.written

module _ {W : Type 0} {hex2 : ℕ → List ℕ} {before : List ℕ} where
  pub Sent-refl : (gc : Gdbcnxn W) → gc.written ≡ before → Sent hex2 before gc
  Sent-refl gc e = record {
    packets = record { frames = []; whole = none_sent; behind = e ∙ sym (append-nil before) };
  }

  pub Midway-Sent : {gc : Gdbcnxn W} → Midway hex2 before gc → Sent hex2 before gc
  Midway-Sent m = record { packets = m.earlier }

  -- What does not change the buffer, its sum or what is written.
  pub Midway-same :
      {gc gc' : Gdbcnxn W}
      → gc'.txbuf ≡ gc.txbuf
      → gc'.txsum ≡ gc.txsum
      → gc'.written ≡ gc.written
      → Midway hex2 before gc
      → Midway hex2 before gc'
  Midway-same e1 e2 e3 m = record { half = rw (e1, e2) m.half; earlier = rw e3 m.earlier }

  pub Sent-same :
      {gc gc' : Gdbcnxn W} → gc'.written ≡ gc.written → Sent hex2 before gc → Sent hex2 before gc'
  Sent-same e s = record { packets = rw e s.packets }

  pub gdb_putc-Midway :
      (c : ℕ) (gc : Gdbcnxn W) → Midway hex2 before gc → Midway hex2 before (gdb_putc c gc)
  unfolding gdb_putc
  gdb_putc-Midway c gc m = elim (Bool-cases (length gc.txbuf == maxpkt - 1)) [
    | inl e ↦ rw e m
    | inr e ↦
        let o = m.half in
        let more : IsOpen (gc.txbuf ++ (u8 c ∷ [])) (u32 (gc.txsum + u8 c)) = record {
          body = o.body ++ (u8 c ∷ []);
          begun = ap (λ xs. xs ++ (u8 c ∷ [])) o.begun;
          summed = ap (λ n. u32 (n + u8 c)) o.summed ∙ sym (sum_from-append 0 o.body (u8 c));
          fits =
              let n : length gc.txbuf ≡ length (b'$' ∷ o.body) = ap length o.begun in
              ground (arith, o.fits, n, e, length-append {0} o.body (u8 c ∷ []));
        } in
        rw e (record { half = more; earlier = m.earlier })
  ]

  pub gdb_puts-Midway :
      (cs : List ℕ) (gc : Gdbcnxn W) → Midway hex2 before gc → Midway hex2 before (gdb_puts cs gc)
  unfolding gdb_puts
  gdb_puts-Midway [] gc m = m
  gdb_puts-Midway (c ∷ cs) gc m =
      let rest = gdb_puts-Midway cs (gdb_putc c gc) (gdb_putc-Midway c gc m) in
      elim (Bool-cases (c == 0)) [ inl e ↦ rw e m | inr e ↦ rw e rest ]

  pub gdb_puthex-Midway :
      (cs : List ℕ) (gc : Gdbcnxn W) → Midway hex2 before gc → Midway hex2 before (gdb_puthex cs gc)
  unfolding gdb_puthex
  gdb_puthex-Midway [] gc m = m
  gdb_puthex-Midway (c ∷ cs) gc m =
      gdb_puthex-Midway cs _ (gdb_putc-Midway _ _ (gdb_putc-Midway _ gc m))

  pub gdb_prologue-Midway :
      (gc : Gdbcnxn W) → Sent hex2 before gc → Midway hex2 before (gdb_prologue gc)
  unfolding gdb_prologue
  gdb_prologue-Midway gc s = record {
    half = record { body = []; begun = refl; summed = refl; fits = omega arith };
    earlier = s.packets;
  }

HasSent-more :
    {hex2 : ℕ → List ℕ} {before written more : List ℕ}
    → HasSent hex2 before written
    → Frames hex2 more
    → HasSent hex2 before (written ++ more)
HasSent-more {before = before} {more = more} s f = record {
  frames = s.frames ++ more;
  whole = Frames-append s.whole f;
  behind = ap (λ xs. xs ++ more) s.behind ∙ append_assoc before s.frames more;
}

pub Sent-more :
    {W : Type 0} {hex2 : ℕ → List ℕ} {before more : List ℕ} {gc gc' : Gdbcnxn W}
    → Frames hex2 more
    → gc'.written ≡ gc.written ++ more
    → Sent hex2 before gc
    → Sent hex2 before gc'
Sent-more f e s = record { packets = rw e (HasSent-more s.packets f) }

length-gdb_putc :
    {W : Type 0} (c : ℕ) (gc : Gdbcnxn W)
    → length gc.txbuf < maxpkt
    → length (gdb_putc c gc).txbuf ≡ min (maxpkt - 1) (length gc.txbuf + 1)
unfolding gdb_putc
length-gdb_putc c gc lt = ground (arith, lt, length-append {0} gc.txbuf (u8 c ∷ []))

length-gdb_puts :
    {W : Type 0} (cs : List ℕ) (gc : Gdbcnxn W)
    → AreText cs
    → length gc.txbuf < maxpkt
    → length (gdb_puts cs gc).txbuf ≡ min (maxpkt - 1) (length gc.txbuf + length cs)
unfolding gdb_puts
length-gdb_puts [] gc text lt = ground (arith, lt)
length-gdb_puts (c ∷ cs) gc (pos, small, text) lt =
    let one = length-gdb_putc c gc lt in
    let no_end : c == 0 ≡ false = ground (arith, pos) in
    rw no_end (length-gdb_puts cs (gdb_putc c gc) text (omega (arith, one)) ∙ omega (arith, one))

written-gdb_puts :
    {W : Type 0} (cs : List ℕ) (gc : Gdbcnxn W) → (gdb_puts cs gc).written ≡ gc.written
unfolding gdb_puts gdb_putc
written-gdb_puts [] gc = refl
written-gdb_puts (c ∷ cs) gc = ground (arith, written-gdb_puts cs (gdb_putc c gc))

joined :
    (before frames written txbuf body ds ds' : List ℕ)
    → written ≡ before ++ frames
    → txbuf ≡ b'$' ∷ body
    → ds ≡ ds'
    → written ++ (txbuf ++ (b'#' ∷ ds))
      ≡ before ++ (frames ++ ((b'$' ∷ body ++ (b'#' ∷ ds')) ++ []))
joined before frames written txbuf body ds ds' e1 e2 e3 =
    let frame = b'$' ∷ body ++ (b'#' ∷ ds') in
    rw (e1, e2, e3, append-nil (body ++ (b'#' ∷ ds'))) (append_assoc before frames frame)

-- The end of a packet is written whole, or the packet is dropped.
pub gdb_epilogue-Sent :
    {W : Type 0} {hex2 : ℕ → List ℕ} {before : List ℕ} (gc : Gdbcnxn W)
    → ((n : ℕ) → n < 256 → AreText (hex2 n))
    → Midway hex2 before gc
    → Sent hex2 before (gdb_epilogue hex2 gc)
unfolding gdb_epilogue
gdb_epilogue-Sent {hex2 = hex2} {before = before} gc digits m =
    let o = m.half in
    let ds = hex2 (bit_and gc.txsum 0xff) in
    let gc' = gdb_puts (b'#' ∷ ds) gc in
    elim (Bool-cases (length gc'.txbuf == maxpkt - 1)) [
      | inl e ↦ rw e (record { packets = rw (written-gdb_puts (b'#' ∷ ds) gc) m.earlier })
      | inr e ↦
          let start : length gc.txbuf ≡ length (b'$' ∷ o.body) = ap length o.begun in
          let right : ds ≡ hex2 (sum_from 0 o.body % 256) =
            ap hex2 (bit_and_mask 8 gc.txsum ∙ ap (λ n. n % 256) o.summed) in
          let bytes : AreText (b'#' ∷ ds) =
            (omega arith, omega arith, rw right (digits (sum_from 0 o.body % 256) (omega arith))) in
          let room : length gc.txbuf + length (b'#' ∷ ds) < maxpkt =
            ground
              (arith, e, length-gdb_puts (b'#' ∷ ds) gc bytes (ground (arith, start, o.fits))) in
          let whole = gdb_puts_lem gc (b'#' ∷ ds) bytes room in
          let sent = m.earlier in
          rw e (record {
            packets = record {
              frames =
                  sent.frames ++ ((b'$' ∷ o.body ++ (b'#' ∷ hex2 (sum_from 0 o.body % 256))) ++ []);
              whole = Frames-append sent.whole (packet o.body none_sent);
              behind =
                  ap (λ g. g.written ++ g.txbuf) whole
                  ∙ joined before sent.frames gc.written gc.txbuf o.body ds _ sent.behind o.begun
                      right;
            };
          })
    ]
