-- ===== src/Gdb/Breakpoint.antt =====
-- The hardware breakpoints of tools/gdb-bridge.c, `handle_flashpatch` and `handle_breakpoint`. The
-- arrays of states and of addresses are one list of slots. The argument `kind` is not used there.
pub mod Slots
pub mod Spec
mod Tests
use m3dev.Base.{
  ℕ, zero, suc, ◌+◌, ◌*◌, List, [], ◌∷◌, Option, none, some, Bool, true, false, not, ◌&&◌, ◌==◌,
  ltb, if◌then◌else◌, ◌<<<◌, ◌>>>◌, bit_and, bit_or, set,
}
use m3dev.Target.{Target}

abbrev pub romtab_dwt : ℕ
romtab_dwt = 0xE00FF004

abbrev pub romtab_fpb : ℕ
romtab_fpb = 0xE00FF008

abbrev pub dwt_ctrl : ℕ
dwt_ctrl = 0xE0001000

abbrev pub fp_ctrl : ℕ
fp_ctrl = 0xE0002000

abbrev pub fp_comp : ℕ → ℕ
fp_comp n = 0xE0002008 + n * 4

-- An `int` as its bit pattern.
abbrev pub minus_one : ℕ
minus_one = 0xFFFFFFFF

pub record Slot : Type 0 where
  pub state : ℕ
  pub addr : ℕ

-- `maxfp`, `fp_state` and `fp_addr`, `maxbp`, `bp_state` and `bp_addr`.
pub record Tables : Type 0 where
  pub maxfp : ℕ
  pub fp : List Slot
  pub maxbp : ℕ
  pub bp : List Slot

-- `for (n = 0; n < max; n++) if (state[n] && (addr[n] == addr))`
unfoldable pub find_set : ℕ → List Slot → ℕ → Option ℕ
find_set zero slots a = none
find_set (suc n) [] a = none
find_set (suc n) (s ∷ slots) a =
    if not (s.state == 0) && s.addr == a
    then some 0
    else elim (find_set n slots a) [ none ↦ none | some i ↦ some (suc i) ]

-- `for (n = 0; n < max; n++) if (state[n] == 0)`
unfoldable pub find_free : ℕ → List Slot → Option ℕ
find_free zero slots = none
find_free (suc n) [] = none
find_free (suc n) (s ∷ slots) =
    if s.state == 0
    then some 0
    else elim (find_free n slots) [ none ↦ none | some i ↦ some (suc i) ]

module _ {W : Type 0} (target : Target W) where
  -- The number of flash patch registers, `none` where a read fails.
  unfoldable pub count_fp : W → Option ℕ × W
  count_fp w =
      let (r, x, w1) = target.swdp_ahb_read romtab_fpb w in
      let (r', x', w2) = target.swdp_ahb_read fp_ctrl w1 in
      if not (r == 0)
      then (none, w1)
      else if not (bit_and x 1 == 0)
      then (if not (r' == 0)
          then (none, w2)
          else (some (bit_or (bit_and x' 0xF0 >>> 4) (bit_and x' 0x7000 >>> 4)), w2))
      else (some 0, w1)

  -- The number of watchpoint units.
  unfoldable pub count_bp : W → Option ℕ × W
  count_bp w =
      let (r, x, w1) = target.swdp_ahb_read romtab_dwt w in
      let (r', x', w2) = target.swdp_ahb_read dwt_ctrl w1 in
      if not (r == 0)
      then (none, w1)
      else if not (bit_and x 1 == 0)
      then (if not (r' == 0) then (none, w2) else (some (x' >>> 28), w2))
      else (some 0, w1)

  -- The labels `add1` and, behind it, `add0`.
  unfoldable pub set_flashpatch : ℕ → ℕ → Tables → W → ℕ × Tables × W
  set_flashpatch n addr t w =
      let w1 = target.swdp_ahb_write fp_ctrl 3 w in
      let half = if not (bit_and addr 2 == 0) then 0x80000001 else 0x40000001 in
      let w2 = target.swdp_ahb_write (fp_comp n) (bit_or half (bit_and addr 0x1FFFFFFC)) w1 in
      (0, record t { fp = set t.fp n (record { state = 1; addr = addr }) }, w2)

  -- The loops of `handle_flashpatch`, behind the update of `maxfp`.
  unfoldable pub update_flashpatch : Bool → ℕ → Tables → W → ℕ × Tables × W
  unfolding find_set find_free set_flashpatch
  update_flashpatch add addr t w = elim (find_set t.maxfp t.fp addr) [
    | some n ↦ if add then (0, t, w) else (
      0,
      record t { fp = set t.fp n (record { state = 0; addr = addr }) },
      target.swdp_ahb_write (fp_comp n) 0 w,
    )
    | none ↦ if not add then (minus_one, t, w) else elim (find_free t.maxfp t.fp) [
      | none ↦ (minus_one, t, w)
      | some n ↦ set_flashpatch n addr t w
    ]
  ]

  unfoldable pub handle_flashpatch : Bool → ℕ → Tables → W → ℕ × Tables × W
  handle_flashpatch add addr t w =
      let (count, w1) = count_fp w in
      elim count [
        | none ↦ (minus_one, t, w1)
        | some n ↦
            let n' = if ltb 16 n then 16 else n in
            update_flashpatch add addr (if not (n == t.maxfp) then record t { maxfp = n' } else t)
              w1
      ]

  -- The loops of `handle_breakpoint`, behind the update of `maxbp`.
  unfoldable pub update_breakpoint : Bool → ℕ → Tables → W → ℕ × Tables × W
  unfolding find_set find_free
  update_breakpoint true addr t w = elim (find_set t.maxbp t.bp addr) [
    | some n ↦ (0, t, w)
    | none ↦ elim (find_free t.maxbp t.bp) [
      | none ↦ (1, t, w)
      | some n ↦ (
        0,
        record t { bp = set t.bp n (record { state = 1; addr = addr }) },
        target.swdp_watchpoint_pc n addr w,
      )
    ]
  ]
  update_breakpoint false addr t w = elim (find_set t.maxbp t.bp addr) [
    | none ↦ (0, t, w)
    | some n ↦ (
      0,
      record t { bp = set t.bp n (record { state = 0; addr = addr }) },
      target.swdp_watchpoint_disable n w,
    )
  ]

  -- `handle_breakpoint` behind the flash patch unit.
  unfoldable pub dwt_breakpoint : Bool → ℕ → Tables → W → ℕ × Tables × W
  dwt_breakpoint add addr t w =
      let (count, w1) = count_bp w in
      elim count [
        | none ↦ (minus_one, t, w1)
        | some n ↦ update_breakpoint add addr (record t { maxbp = n }) w1
      ]

  unfoldable pub handle_breakpoint : Bool → ℕ → Tables → W → ℕ × Tables × W
  handle_breakpoint add addr t w =
      let (r, t1, w1) = handle_flashpatch add addr t w in
      if ltb addr 0x20000000
      then (if r == 0 then (0, t1, w1) else dwt_breakpoint add addr t1 w1)
      else dwt_breakpoint add addr t w
