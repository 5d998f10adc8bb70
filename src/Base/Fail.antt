-- ===== src/Base/Fail.antt =====
-- `do` over Option: `none` is an exit, or a loop that did not end.
use mathlib.Core.Option.{Option, none, some}
use mathlib.Core.Path.{◌≡◌, refl}

infixl 5 ◌>>=◌
abbrev pub ◌>>=◌ {ℓ κ} : {A : Type ℓ} {B : Type κ} → Option A → (A → Option B) → Option B
none >>= f = none
some a >>= f = f a

bind_pointwise {ℓ κ} :
    {B : Type ℓ} {C : Type κ} (o : Option B) (g h : B → Option C)
    → ((b : B) → g b ≡ h b)
    → (o >>= g) ≡ (o >>= h)
bind_pointwise none g h e = refl
bind_pointwise (some b) g h e = e b

pub bind_assoc {ℓ ℓ' ℓ''} :
    {A : Type ℓ} {B : Type ℓ'} {C : Type ℓ''} (m : Option A) (f : A → Option B) (g h : B → Option C)
    → ((b : B) → g b ≡ h b)
    → ((m >>= f) >>= g) ≡ (m >>= (λ a. f a >>= h))
bind_assoc none f g h e = refl
bind_assoc (some a) f g h e = bind_pointwise (f a) g h e

pub bind_some {ℓ} : {A : Type ℓ} (o : Option A) → (o >>= some) ≡ o
bind_some none = refl
bind_some (some a) = refl
