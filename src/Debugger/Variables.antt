-- ===== src/Debugger/Variables.antt =====
-- Variables of the debugger, tools/debugger-core.c: what `set` stores is what `$` reads.
use m3dev.Base.{ℕ, ◌≡◌, refl, arith, List, [], ◌∷◌, true, same_text}
use m3dev.Target.{Target}

same_text_refl : (s : List ℕ) → same_text s s ≡ true
same_text_refl [] = refl
same_text_refl (c ∷ s) = ground (arith, same_text_refl s)
