-- ===== src/Gdb/Command/Cases.antt =====
-- Predicates in every case of a test or of an optional value.
use m3dev.Base.{Option, none, some, Bool, true, false, if◌then◌else◌, ◌>>=◌}

pub both : {A : Type 0} (P : A → Type 0) (b : Bool) (x y : A) → P x → P y → P (if b then x else y)
both P true x y p q = p
both P false x y p q = q

-- In every case of an optional value.
pub cases :
    {A B : Type 0} (P : B → Type 0) (o : Option A) (n : B) (f : A → B)
    → P n
    → ((a : A) → P (f a))
    → P (elim o [ none ↦ n | some a ↦ f a ])
cases P none n f p q = p
cases P (some a) n f p q = q a

pub data WhenSome {A : Type 0} (P : A → Type 0) : Option A → Type 0 where
  when_none : WhenSome P none
  when_some : {a : A} → P a → WhenSome P (some a)

pub then-WhenSome :
    {A B : Type 0} {P : A → Type 0} {Q : B → Type 0} {o : Option A} (f : A → Option B)
    → WhenSome P o
    → ((a : A) → P a → WhenSome Q (f a))
    → WhenSome Q (o >>= f)
then-WhenSome f when_none g = when_none
then-WhenSome f (when_some p) g = g _ p

pub WhenSome-some : {A : Type 0} {P : A → Type 0} {a : A} → WhenSome P (some a) → P a
WhenSome-some (when_some p) = p
