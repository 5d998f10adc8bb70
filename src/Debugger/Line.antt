-- ===== src/Debugger/Line.antt =====
-- A line of commands: `debugger_command` of tools/debugger-core.c and what it runs.
use m3dev.Base.{
  ℕ, zero, suc, List, [], ◌∷◌, ◌++◌, Option, none, some, ◌==◌, leb, if◌then◌else◌, get_or, drop,
  ascii,
}
use m3dev.Target.{Target}
use m3dev.Debugger.{error, error_unknown, Param, FuncInfo, Core, same_letters, do_set}
use m3dev.Debugger.Numbers.{number_of}

-- The words of a line. A word that `#` cuts is not counted. `word` is the one begun.
unfoldable pub in_word : Option (List ℕ) → List ℕ → List (List ℕ)
in_word none [] = []
in_word (some word) [] = word ∷ []
in_word none (c ∷ line) =
    let skipped = in_word none line in
    let begun = in_word (some (c ∷ [])) line in
    if leb c b' ' then skipped else if c == b'#' then [] else begun
in_word (some word) (c ∷ line) =
    let ended = in_word none line in
    let longer = in_word (some (word ++ (c ∷ []))) line in
    if c == b'#' then [] else if leb c b' ' then word ∷ ended else longer

abbrev pub skip_spaces : List ℕ → List ℕ
skip_spaces [] = []
skip_spaces (c ∷ line) = if c == b' ' then skip_spaces line else c ∷ line

-- `debugger_commands`: the names and what they do, which gives a result. `script` and its file are
-- given too.
module _ {W : Type 0} (target : Target W) (strtoul : ℕ → List ℕ → ℕ)
    (debugger_commands : List (List ℕ × (List Param → Core W → ℕ × Core W)))
    (do_script : List Param → Core W → Option (ℕ × Core W)) where
  unfoldable pub find_command :
      List ℕ
      → List (List ℕ × (List Param → Core W → ℕ × Core W))
      → Option (List Param → Core W → ℕ × Core W)
  find_command cmd [] = none
  find_command cmd ((name, func) ∷ rows) =
      if same_letters cmd name then some func else find_command cmd rows

  unfoldable pub find_function : List ℕ → List FuncInfo → Option FuncInfo
  find_function cmd [] = none
  find_function cmd (f ∷ rows) = if same_letters cmd f.name then some f else find_function cmd rows

  -- The loop of `exec_function`: it ends at the first line that fails.
  unfoldable pub run_lines :
      (List ℕ → Core W → Option (ℕ × Core W)) → List (List ℕ) → Core W → Option (ℕ × Core W)
  run_lines command [] core = some (0, core)
  run_lines command (line ∷ lines) core = elim (command line core) [
    | none ↦ none
    | some done ↦ if done.0 == 0 then run_lines command lines done.1 else some done
  ]

  unfoldable pub exec_function :
      (List ℕ → Core W → Option (ℕ × Core W)) → FuncInfo → List Param → Core W → Option (ℕ × Core W)
  unfolding run_lines
  exec_function command f argv core =
      elim (run_lines command f.lines (record core { frame_argv = argv })) [
        | none ↦ none
        | some done ↦ some (done.0, record done.1 { frame_argv = core.frame_argv })
      ]

  unfoldable pub debugger_exec :
      (List ℕ → Core W → Option (ℕ × Core W)) → List ℕ → List Param → Core W → Option (ℕ × Core W)
  unfolding find_command find_function exec_function
  debugger_exec command cmd argv core =
      if same_letters cmd (ascii "set")
      then some (do_set argv core)
      else if same_letters cmd (ascii "script")
      then do_script argv core
      else elim (find_command cmd debugger_commands) [
        | some func ↦ some (func argv core)
        | none ↦ elim (find_function cmd core.allfuncs) [
          | some f ↦ exec_function command f argv core
          | none ↦ some (error_unknown, core)
        ]
      ]

  -- The words with their numbers; the result is `none` where one is bad.
  unfoldable pub number_words : List (List ℕ) → Core W → Option (Option (List Param) × Core W)
  number_words [] core = some (some [], core)
  number_words (s ∷ line) core = elim (number_of target strtoul s core) [
    | none ↦ none
    | some first ↦ elim first.0 [
      | none ↦ some (none, first.1)
      | some n ↦ elim (number_words line first.1) [
        | none ↦ none
        | some others ↦ elim others.0 [
          | none ↦ some others
          | some params ↦ some (some (record { s = s; n = n } ∷ params), others.1)
        ]
      ]
    ]
  ]

  -- A function's lines are commands, which is what the fuel is for.
  unfoldable pub debugger_command : ℕ → List ℕ → Core W → Option (ℕ × Core W)
  unfolding number_words debugger_exec
  debugger_command zero line core = none
  debugger_command (suc fuel) line core =
      let text = skip_spaces line in
      let again = debugger_command fuel in
      if get_or text 0 0 == b'/'
      then debugger_exec again (ascii "wconsole") (record { s = drop 1 text; n = 0 } ∷ []) core
      else elim (number_words (in_word none text) core) [
        | none ↦ none
        | some numbered ↦ elim numbered.0 [
          | none ↦ some (error, numbered.1)
          | some params ↦ elim params [
            | [] ↦ some (0, numbered.1)
            | cmd ∷ argv ↦ debugger_exec again cmd.s argv numbered.1
          ]
        ]
      ]
