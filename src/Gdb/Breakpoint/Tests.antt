-- ===== src/Gdb/Breakpoint/Tests.antt =====
-- The breakpoints of the GDB bridge on a target of concrete units.
use m3dev.Base.{ℕ, ◌+◌, ◌≡◌, refl, ◌∷◌, replicate, true, false, ◌&&◌, ◌==◌, not, ltb, if◌then◌else◌}
use m3dev.Target.{Target}
use m3dev.Gdb.Breakpoint.{
  Slot, Tables, find_set, count_fp, count_bp, handle_breakpoint, romtab_fpb, fp_ctrl, dwt_ctrl,
}
use m3dev.Gdb.Breakpoint.Slots.{has}
use m3dev.Gdb.Breakpoint.Spec.{
  IsTable, Answers, has_breakpoint, handle_breakpoint-true, handle_breakpoint-false,
}

-- Two flash patch registers and one watchpoint unit; the state counts the writes.
abbrev value_at : ℕ → ℕ
value_at a =
    if a == fp_ctrl
    then 0x20
    else if a == dwt_ctrl
    then 0x10000000
    else if a == romtab_fpb
    then 0xFFF03003
    else 0xFFF02003

abbrev small : Target ℕ
small = record {
  calloc = λ w. (true, w);
  swdp_ahb_read = λ a w. (0, value_at a, w);
  swdp_ahb_write = λ a v w. w + 1;
  swdp_ahb_read32 = λ a n w. (0, replicate n 0, w);
  swdp_ahb_write32 = λ a vs w. w + 1;
  swdp_core_read = λ n w. (0, 0, w);
  swdp_core_write = λ n v w. w + 1;
  swdp_core_read_all = λ w. (replicate 19 0, w);
  swdp_core_halt = λ w. w;
  swdp_core_step = λ w. w;
  swdp_core_resume = λ w. w;
  swdp_watchpoint_pc = λ n a w. w + 1;
  swdp_watchpoint_disable = λ n w. w + 1;
}

abbrev empty : Slot
empty = record { state = 0; addr = 0 }

-- One flash breakpoint at 0x100.
abbrev one_set : Tables
one_set = record {
  maxfp = 2;
  fp = record { state = 1; addr = 0x100 } ∷ replicate 15 empty;
  maxbp = 1;
  bp = replicate 16 empty;
}

one_set-IsTable : IsTable one_set
unfolding find_set
one_set-IsTable = record {
  unique_fp = ((λ _. refl), ((λ _. refl), tt));
  unique_bp = ((λ _. refl), tt);
}

answers : Answers small one_set
unfolding count_fp count_bp
answers = record { fp_units = λ w. refl; bp_units = λ w. refl }

handle_breakpoint-true_example :
    (let (r, t', w') = handle_breakpoint small true 0x200 one_set 0 in
      IsTable t'
      × (has_breakpoint t' 0x100
          ≡ (if 0x100 == 0x200 && r == 0 then true else has_breakpoint one_set 0x100)))
handle_breakpoint-true_example =
    handle_breakpoint-true small 0x200 0x100 one_set 0 one_set-IsTable answers

handle_breakpoint-false_example :
    (let flash = ltb 0x100 0x20000000 && has 2 one_set.fp 0x100 in
      let (r, t', w') = handle_breakpoint small false 0x100 one_set 0 in
      IsTable t'
      × (r ≡ 0)
      × (has t'.maxfp t'.fp 0x100
          ≡ (if 0x100 == 0x100 && flash then false else has 2 one_set.fp 0x100))
      × (has t'.maxbp t'.bp 0x100
          ≡ (if 0x100 == 0x100 && not flash then false else has 1 one_set.bp 0x100)))
handle_breakpoint-false_example =
    handle_breakpoint-false small 0x100 0x100 one_set 0 one_set-IsTable answers
