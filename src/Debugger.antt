-- ===== src/Debugger.antt =====
-- The debugger's core, tools/debugger-core.c: variables, `set`, and the state that its parts share.
-- A character is its code, and one above 127 is no control character. What is printed is left out.
pub mod Numbers
pub mod Line
pub mod Variables
mod Tests
use m3dev.Base.{
  ℕ, zero, suc, ◌+◌, ◌-◌, ◌*◌, ◌/◌, ◌%◌, ◌^◌, List, [], ◌∷◌, ◌++◌, Option, none, some, Bool, true,
  false, not, ◌&&◌, ◌||◌, ◌==◌, ltb, leb, if◌then◌else◌, split_at, length, get_or, take, drop,
  ascii, same_text, u32, sub_u32, ◌>>>◌,
}
use m3dev.Target.{Target}

-- `ERROR` and `ERROR_UNKNOWN`, as bit patterns.
abbrev pub error : ℕ
error = 0xFFFFFFFF

abbrev pub error_unknown : ℕ
error_unknown = 0xFFFFFFFE

-- `param`
pub record Param : Type 0 where
  pub s : List ℕ
  pub n : ℕ

-- `struct funcinfo`, with the lines of its list.
pub record FuncInfo : Type 0 where
  pub name : List ℕ
  pub lines : List (List ℕ)

-- `all_variables`, `allfuncs` and `frame_argv`, and the link and the target.
pub record Core (W : Type 0) : Type 0 where
  pub all_variables : List (List ℕ × ℕ)
  pub allfuncs : List FuncInfo
  pub frame_argv : List Param
  pub world : W

-- The loop of `variable_set`: whether it comes to the name, and the list with its value changed.
unfoldable pub is_variable : List ℕ → List (List ℕ × ℕ) → Bool
is_variable name [] = false
is_variable name ((name', value') ∷ vars) =
    if same_text name name' then true else is_variable name vars

unfoldable pub change_value : List ℕ → ℕ → List (List ℕ × ℕ) → List (List ℕ × ℕ)
change_value name value [] = []
change_value name value ((name', value') ∷ vars) =
    if same_text name name'
    then (name', value) ∷ vars
    else (name', value') ∷ change_value name value vars

unfoldable pub variable_set : List ℕ → ℕ → List (List ℕ × ℕ) → List (List ℕ × ℕ)
unfolding is_variable change_value
variable_set name value vars =
    if is_variable name vars then change_value name value vars else (name, value) ∷ vars

unfoldable pub variable_get : List ℕ → List (List ℕ × ℕ) → Option ℕ
variable_get name [] = none
variable_get name ((name', value) ∷ vars) =
    if same_text name name' then some value else variable_get name vars

abbrev pub is_alpha : ℕ → Bool
is_alpha c = (leb b'a' c && leb c b'z') || (leb b'A' c && leb c b'Z')

abbrev pub is_digit : ℕ → Bool
is_digit c = leb b'0' c && leb c b'9'

-- `!strcasecmp(s, t)`
abbrev pub lower : List ℕ → List ℕ
lower [] = []
lower (c ∷ s) = (if leb b'A' c && leb c b'Z' then c + 32 else c) ∷ lower s

abbrev pub same_letters : List ℕ → List ℕ → Bool
same_letters s t = same_text (lower s) (lower t)

-- The operators of `set`, and `none` for another text. A shift by 32 or more, which C leaves open,
-- gives what the whole number would.
unfoldable pub calculate : List ℕ → ℕ → ℕ → Option ℕ
calculate op a b =
    if same_text op (ascii "+")
    then some (u32 (a + b))
    else if same_text op (ascii "-")
    then some (sub_u32 a b)
    else if same_text op (ascii "<<")
    then some (u32 (a * 2 ^ b))
    else if same_text op (ascii ">>")
    then some (a >>> b)
    else if same_text op (ascii "*")
    then some (u32 (a * b))
    else if same_text op (ascii "/")
    then some (if b == 0 then 0 else a / b)
    else none

-- The name without its mark.
abbrev pub bare_name : List ℕ → List ℕ
bare_name [] = []
bare_name (c ∷ s) = if c == b'$' then s else c ∷ s

abbrev pub no_param : Param
no_param = record { s = []; n = 0 }

-- The value that `set` gives.
unfoldable pub set_value : List Param → Option ℕ
unfolding calculate
set_value argv =
    if length argv == 4
    then calculate (get_or argv 2 no_param).s (get_or argv 1 no_param).n (get_or argv 3 no_param).n
    else some (get_or argv 1 no_param).n

module _ {W : Type 0} where
  unfoldable pub do_set : List Param → Core W → ℕ × Core W
  do_set argv core =
      let name = bare_name (get_or argv 0 no_param).s in
      if not (length argv == 2) && not (length argv == 4)
      then (error, core)
      else if not (is_alpha (get_or name 0 0))
      then (error, core)
      else elim (set_value argv) [
        | none ↦ (error, core)
        | some value ↦
            (0, record core { all_variables = variable_set name value core.all_variables })
      ]
