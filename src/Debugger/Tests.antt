-- ===== src/Debugger/Tests.antt =====
-- Variables of the debugger on concrete texts.
use m3dev.Base.{true, ◌≡◌, refl, List, [], ◌∷◌, none, ascii, replicate}
use m3dev.Target.{Target}
use m3dev.Debugger.{Param, Core}
use m3dev.Debugger.Line.{in_word}

abbrev target : Target (Unit {0})
target = record {
  calloc = λ w. (true, w);
  swdp_ahb_read = λ a w. (0, 0, w);
  swdp_ahb_write = λ a v w. w;
  swdp_ahb_read32 = λ a n w. (0, replicate n 0, w);
  swdp_ahb_write32 = λ a vs w. w;
  swdp_core_read = λ n w. (0, 0, w);
  swdp_core_write = λ n v w. w;
  swdp_core_read_all = λ w. (replicate 19 0, w);
  swdp_core_halt = λ w. w;
  swdp_core_step = λ w. w;
  swdp_core_resume = λ w. w;
  swdp_watchpoint_pc = λ n a w. w;
  swdp_watchpoint_disable = λ n w. w;
}

abbrev core : Core (Unit {0})
core = record {
  all_variables = (ascii "y", 3) ∷ (ascii "x", 1) ∷ [];
  allfuncs = [];
  frame_argv = [];
  world = tt;
}

abbrev changed : Core (Unit {0})
changed = record core { all_variables = (ascii "y", 3) ∷ (ascii "x", 12) ∷ [] }

-- "set x 5 + 7"
abbrev argv : List Param
argv =
    record { s = ascii "x"; n = 0 }
    ∷ record { s = ascii "5"; n = 5 }
    ∷ record { s = ascii "+"; n = 0 }
    ∷ record { s = ascii "7"; n = 7 }
    ∷ []

words_of_line : in_word none (ascii " set x  5 # five") ≡ ascii "set" ∷ ascii "x" ∷ ascii "5" ∷ []
unfolding in_word
words_of_line = refl
