-- ===== src/Host/Control/Tests.antt =====
-- Halt, step and resume on a concrete processor.
use m3dev.Base.{ℕ, refl, arith, List, [], ◌∷◌, ◌++◌, Option, some, get_or}
use m3dev.Host.Txn.{Txn, q_ahb_read, q_ahb_write}
use m3dev.Host.Reply.{update}
use m3dev.Host.Single.{swdp_ahb_read, swdp_ahb_write}
use m3dev.Host.Control.{swdp_core_halt, swdp_core_step, swdp_core_resume}
use m3dev.Host.Control.Writes.{
  CsrLink, Wrote, swdp_core_halt-Wrote, swdp_core_step-Wrote, swdp_core_resume-Wrote,
}

-- A processor that only keeps what is written, and the memory of the host.
record Machine : Type 0 where
  csr_value : ℕ
  noted : List ℕ
  mem : ℕ → ℕ

-- A transaction with a place is a read of the register; the sixth word of another is the value.
abbrev exec : Txn → Machine → Option (ℕ × Machine)
exec t s = some (0, outcome (t.rx))
  where
    outcome : List ℕ → Machine
    outcome [] = record s { noted = s.noted ++ (get_or (t.tx) 5 0 ∷ []) }
    outcome (p ∷ ps) = record s { mem = update s.mem p s.csr_value }

abbrev peek : Machine → ℕ → ℕ
peek s p = s.mem p

unfoldable link : CsrLink exec peek
unfolding swdp_ahb_read swdp_ahb_write q_ahb_read q_ahb_write
link = record {
  csr = λ s. s.csr_value;
  csr_writes = λ s. s.noted;
  reads = λ x s. (record s { mem = update s.mem x s.csr_value }, refl, ground arith, refl);
  writes = λ v s. (record s { noted = s.noted ++ (v ∷ []) }, refl, refl);
}

-- MASKINTS and DEBUGEN are set; the processor runs.
abbrev running : Machine
running = record { csr_value = 0x01030009; noted = []; mem = λ p. 0 }

swdp_core_halt-Wrote_example :
    Wrote exec peek link (swdp_core_halt exec peek 100 running) running (0xA05F000B ∷ [])
unfolding link
swdp_core_halt-Wrote_example = swdp_core_halt-Wrote exec peek link 100 running

swdp_core_step-Wrote_example :
    Wrote exec peek link
      (swdp_core_step exec peek 0 100 running)
      running
      (0xA05F000B ∷ 0xA05F0003 ∷ 0xA05F0005 ∷ [])
unfolding link
swdp_core_step-Wrote_example = swdp_core_step-Wrote exec peek link 0 100 running

swdp_core_resume-Wrote_example :
    Wrote exec peek link (swdp_core_resume exec peek 2 100 running) running (0xA05F0009 ∷ [])
unfolding link
swdp_core_resume-Wrote_example = swdp_core_resume-Wrote exec peek link 2 100 running
