-- ===== src/Host/Control/Writes.antt =====
-- What halt, step and resume of tools/rswdp.c write to the control register, over a link that
-- works.
use m3dev.Base.{
  ℕ, ◌+◌, ◌≡◌, refl, sym, ◌∙◌, List, [], ◌∷◌, ◌++◌, append-nil, append_assoc, Option, some, ◌==◌,
  ltb, not, Bool, true, false, if◌then◌else◌, bit_and, bit_or,
}
use m3dev.Protocol.{cdbg_csr}
use m3dev.Host.Txn.{Txn}
use m3dev.Host.Single.{swdp_ahb_read, swdp_ahb_write}
use m3dev.Host.Control.{write_csr, set_maskints, swdp_core_halt, swdp_core_step, swdp_core_resume}
use m3dev.Host.Control.Csr.{
  bit, csr_word, csr_word-laws, masked, halted, enabled, kept-key, kept-enable, kept-halt,
}

module _ {H : Type 0} (q_exec : Txn → H → Option (ℕ × H)) (load : H → ℕ → ℕ) where
  -- A link that works: a read of the control register succeeds and stores its value, and a write
  -- succeeds and is noted.
  pub record CsrLink : Type 0 where
    pub csr : H → ℕ
    pub csr_writes : H → List ℕ
    pub reads :
        (x : ℕ) (h : H)
        → (h' : H) × (swdp_ahb_read q_exec cdbg_csr x h ≡ some (0, h'))
          × (load h' x ≡ csr h)
          × (csr_writes h' ≡ csr_writes h)
    pub writes :
        (v : ℕ) (h : H)
        → (h' : H) × (swdp_ahb_write q_exec cdbg_csr v h ≡ some (0, h'))
          × (csr_writes h' ≡ csr_writes h ++ (v ∷ []))

  module _ (link : CsrLink) where
    -- The operation succeeds, and wrote the words `ws` to the register.
    abbrev pub Wrote : Option (ℕ × H) → H → List ℕ → Type 0
    Wrote o h ws = (h' : H) × (o ≡ some (0, h')) × (link.csr_writes h' ≡ link.csr_writes h ++ ws)

    set_maskints-csr_word :
        (w m hl d : Bool) (h : H)
        → (h' : H) × (set_maskints q_exec load w (csr_word m hl d) h ≡ some (csr_word w hl d, h'))
          × (link.csr_writes h'
              ≡ link.csr_writes h ++ (if bit m == bit w then [] else csr_word w hl d ∷ []))
    unfolding set_maskints
    set_maskints-csr_word true true hl d h =
        let l = csr_word-laws true hl d in (h, rw (l.0) refl, sym (append-nil (link.csr_writes h)))
    set_maskints-csr_word false false hl d h =
        let l = csr_word-laws false hl d in (h, rw (l.0) refl, sym (append-nil (link.csr_writes h)))
    set_maskints-csr_word true false hl d h =
        let l = csr_word-laws false hl d in
        let (h', e, n) = link.writes (csr_word true hl d) h in (h', rw (l.0, l.2, e) refl, n)
    set_maskints-csr_word false true hl d h =
        let l = csr_word-laws true hl d in
        let (h', e, n) = link.writes (csr_word false hl d) h in (h', rw (l.0, l.3, e) refl, n)

    -- `swdp_core_halt` succeeds with one write, of the key with HALT and DEBUGEN set and MASKINTS as
    -- it was.
    pub swdp_core_halt-Wrote :
        (x : ℕ) (h : H)
        → Wrote (swdp_core_halt q_exec load x h) h (csr_word (masked (link.csr h)) true true ∷ [])
    unfolding swdp_core_halt
    swdp_core_halt-Wrote x h =
        let c = link.csr h in
        let (h1, e1, e_load, n1) = link.reads x h in
        let (h2, e2, n2) = link.writes (csr_word (masked c) true true) h1 in
        let l = csr_word-laws (masked c) (halted c) (enabled c) in
        (h2, rw (e1, e_load, kept-halt c, e2) refl, rw (n2, n1) refl)

    -- `swdp_core_resume` succeeds. It first writes MASKINTS, set where interrupts are always masked
    -- and else cleared, if that changes it, and then the key with DEBUGEN and MASKINTS alone.
    pub swdp_core_resume-Wrote :
        (no_ints x : ℕ) (h : H)
        → let m = masked (link.csr h) in
          let w = ltb 1 no_ints in
          Wrote (swdp_core_resume q_exec load no_ints x h) h (
            (if bit m == bit w then [] else csr_word w (halted (link.csr h)) true ∷ [])
            ++ (csr_word w false true ∷ []))
    unfolding swdp_core_resume
    swdp_core_resume-Wrote no_ints x h =
        let c = link.csr h in
        let w = ltb 1 no_ints in
        let (h1, e1, e_load, n1) = link.reads x h in
        let (h2, e2, n2) = set_maskints-csr_word w (masked c) (halted c) true h1 in
        let (h3, e3, n3) = link.writes (csr_word w false true) h2 in
        let l = csr_word-laws w (halted c) true in
        (
          h3,
          rw (e1, e_load, kept-enable c, e2, l.6, e3) refl,
          rw (n3, n2, n1)
              (append_assoc (link.csr_writes h)
                (if bit (masked c) == bit w then [] else csr_word w (halted c) true ∷ [])
                (csr_word w false true ∷ [])),
        )

    halt-csr_word :
        (m hl d : Bool) (h : H)
        → (h' : H) × ((if bit_and (csr_word m hl d) 2 == 0
              then write_csr q_exec load (bit_or (csr_word m hl d) 3) h
              else some (csr_word m hl d, h))
            ≡ some (csr_word m true (if hl then d else true), h'))
          × (link.csr_writes h'
              ≡ link.csr_writes h ++ (if hl then [] else csr_word m true true ∷ []))
    halt-csr_word m true d h =
        let l = csr_word-laws m true d in (h, rw (l.1) refl, sym (append-nil (link.csr_writes h)))
    halt-csr_word m false d h =
        let l = csr_word-laws m false d in
        let (h', e, n) = link.writes (csr_word m true true) h in (h', rw (l.1, l.4, e) refl, n)

    -- `swdp_core_step` succeeds. It first halts the processor if it is not halted, then writes
    -- MASKINTS, set where interrupts are masked in a step and else cleared, if that changes it, and
    -- last asks for the step, with HALT cleared.
    pub swdp_core_step-Wrote :
        (no_ints x : ℕ) (h : H)
        → let c = link.csr h in
          let w = not (no_ints == 0) in
          let d = if halted c then enabled c else true in
          Wrote (swdp_core_step q_exec load no_ints x h) h (
            (if halted c then [] else csr_word (masked c) true true ∷ [])
            ++ ((if bit (masked c) == bit w then [] else csr_word w true d ∷ [])
                ++ ((csr_word w false d + 4) ∷ [])))
    unfolding swdp_core_step
    swdp_core_step-Wrote no_ints x h =
        let c = link.csr h in
        let m = masked c in
        let w = not (no_ints == 0) in
        let d = if halted c then enabled c else true in
        let (h1, e1, e_load, n1) = link.reads x h in
        let (h2, e2, n2) = halt-csr_word m (halted c) (enabled c) h1 in
        let (h3, e3, n3) = set_maskints-csr_word w m true d h2 in
        let (h4, e4, n4) = link.writes (csr_word w false d + 4) h3 in
        let l = csr_word-laws w true d in
        let first = if halted c then [] else csr_word m true true ∷ [] in
        let second = if bit m == bit w then [] else csr_word w true d ∷ [] in
        let last = (csr_word w false d + 4) ∷ [] in
        (
          h4,
          rw (e1, e_load, kept-key c, e2, e3, l.5, e4) refl,
          rw (n4, n3, n2, n1)
              (append_assoc (link.csr_writes h ++ first) second last
                ∙ append_assoc (link.csr_writes h) first (second ++ last)),
        )
