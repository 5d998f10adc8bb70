-- ===== src/Debugger/Numbers.antt =====
-- Numbers as the debugger reads them: `parse_number` of tools/debugger-core.c.
use m3dev.Base.{
  ℕ, zero, suc, ◌+◌, ◌-◌, List, [], ◌∷◌, Option, none, some, ◌&&◌, ◌==◌, ltb, leb, if◌then◌else◌,
  split_at, length, get_or, take, drop, ascii, u32,
}
use m3dev.Target.{Target}
use m3dev.Debugger.{Core, variable_get, is_digit, same_letters, no_param}

-- `core_regmap` of tools/debugger-commands.c.
unfoldable pub core_regmap : List (List ℕ × ℕ)
core_regmap =
    (ascii "r0", 0)
    ∷ (ascii "r1", 1)
    ∷ (ascii "r2", 2)
    ∷ (ascii "r3", 3)
    ∷ (ascii "r4", 4)
    ∷ (ascii "r5", 5)
    ∷ (ascii "r6", 6)
    ∷ (ascii "r7", 7)
    ∷ (ascii "r8", 8)
    ∷ (ascii "r9", 9)
    ∷ (ascii "r10", 10)
    ∷ (ascii "r11", 11)
    ∷ (ascii "r12", 12)
    ∷ (ascii "r13", 13)
    ∷ (ascii "sp", 13)
    ∷ (ascii "r14", 14)
    ∷ (ascii "lr", 14)
    ∷ (ascii "r15", 15)
    ∷ (ascii "pc", 15)
    ∷ (ascii "psr", 16)
    ∷ (ascii "msp", 17)
    ∷ (ascii "psp", 18)
    ∷ []

unfoldable pub find_register : List ℕ → List (List ℕ × ℕ) → Option ℕ
find_register name [] = none
find_register name ((name', n) ∷ rows) =
    if same_letters name name' then some n else find_register name rows

-- `strtoul` to a base, of a text without its zero.
module _ {W : Type 0} (target : Target W) (strtoul : ℕ → List ℕ → ℕ) where
  -- `$1` to `$9` are the arguments of the function that runs, and other names variables.
  unfoldable pub read_variable : List ℕ → Core W → ℕ
  read_variable name core =
      let d = get_or name 0 0 in
      let n = d - b'0' in
      let global : ℕ = elim (variable_get name core.all_variables) [
        | none ↦ 0
        | some value ↦ value
      ] in
      if is_digit d && length name == 1
      then (if ltb 0 n && leb n (length core.frame_argv)
          then (get_or core.frame_argv (n - 1) no_param).n
          else 0)
      else global

  -- What is no variable: a register, or a constant. The result is `none` for an error.
  unfoldable pub read_constant : List ℕ → Core W → Option ℕ × Core W
  read_constant text core = elim (find_register text core_regmap) [
    | some n ↦
        let (r, value, world) = target.swdp_core_read n core.world in
        (if r == 0 then some value else none, record core { world = world })
    | none ↦ (
      some (u32 (if get_or text 0 0 == b'.' then strtoul 10 (drop 1 text) else strtoul 16 text)),
      core,
    )
  ]

  -- `text[base[index]]`: the word at the sum, where both are numbers.
  unfoldable pub read_element : Option ℕ → Option ℕ → Core W → Option ℕ × Core W
  read_element none index core = (none, core)
  read_element (some base) none core = (none, core)
  read_element (some base) (some index) core =
      let (r, value, world) = target.swdp_ahb_read (u32 (base + index)) core.world in
      (if r == 0 then some value else none, record core { world = world })

  -- `parse_number` of a text, which is cut to 63 characters, with fuel for each bracket; the inner
  -- result is `none` for an error.
  unfoldable pub parse_number : ℕ → List ℕ → Core W → Option (Option ℕ × Core W)
  unfolding read_variable read_constant read_element
  parse_number zero in_text core = none
  parse_number (suc fuel) in_text core =
      let text = take 63 in_text in
      let whole =
        if get_or text 0 0 == b'$'
        then (some (read_variable (drop 1 text) core), core)
        else read_constant text core in
      elim (split_at b'[' text) [
        | none ↦ some whole
        | some parts ↦ elim (split_at b']' parts.1) [
          | none ↦ some (none, core)
          | some inner ↦ elim (parse_number fuel parts.0 core) [
            | none ↦ none
            | some first ↦ elim first.0 [
              | none ↦ some (none, first.1)
              | some base ↦ elim (parse_number fuel inner.0 first.1) [
                | none ↦ none
                | some second ↦ some (read_element (some base) second.0 second.1)
              ]
            ]
          ]
        ]
      ]

  -- A text of 63 characters has fewer brackets.
  abbrev pub number_of : List ℕ → Core W → Option (Option ℕ × Core W)
  number_of text = parse_number 64 text
