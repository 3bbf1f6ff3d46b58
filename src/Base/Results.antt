-- ===== src/Base/Results.antt =====
-- What a call of the program comes to. The program is built with `panic = "abort"`, so an index out
-- of bounds is an outcome of its own and not an error value.
use mathlib.Core.Path.{◌≡◌, refl, subst}
use mathlib.Core.Logic.{◌⊎◌, inl, inr}
use mathlib.Core.Bool.{Bool, true, false}

-- `reject` is the `None` or the `Err` that the code returns itself. `stuck` is no value of the
-- program: the fuel of a loop ran out.
pub data Outcome {ℓ} (A : Type ℓ) : Type ℓ where
  ok : A → Outcome A
  reject : Outcome A
  panic : Outcome A
  stuck : Outcome A

infixl 5 ◌>>=◌ ◌>>◌
abbrev pub ◌>>=◌ {ℓ κ} : {A : Type ℓ} {B : Type κ} → Outcome A → (A → Outcome B) → Outcome B
ok a >>= f = f a
reject >>= f = reject
panic >>= f = panic
stuck >>= f = stuck

abbrev pub ◌>>◌ {ℓ} : {B : Type ℓ} → Outcome (Unit {0}) → Outcome B → Outcome B
m >> k = m >>= λ _. k

-- `if !b { return None }`.
abbrev pub guard : Bool → Outcome (Unit {0})
guard true = ok tt
guard false = reject

-- The call ends, without a panic, and `P` holds of what it returns.
abbrev pub Returns {ℓ} : {A : Type ℓ} → (A → Type 0) → Outcome A → Type 0
Returns P (ok a) = P a
Returns P reject = Unit {0}
Returns P panic = ⊥
Returns P stuck = ⊥

-- Inversion of a call that is known to return.
pub Returns-cases {ℓ} :
    {A : Type ℓ} (P : A → Type 0) (m : Outcome A)
    → Returns P m
    → ((a : A) × (m ≡ ok a) × P a) ⊎ (m ≡ reject)
Returns-cases P (ok a) h = inl (a, refl, h)
Returns-cases P reject h = inr refl
Returns-cases P panic h = absurd h
Returns-cases P stuck h = absurd h

pub Returns-bind {ℓ κ} :
    {A : Type ℓ} {B : Type κ} (P : A → Type 0) (Q : B → Type 0) (m : Outcome A) (f : A → Outcome B)
    → Returns P m
    → ((a : A) → m ≡ ok a → P a → Returns Q (f a))
    → Returns Q (m >>= f)
Returns-bind P Q (ok a) f h k = k a refl h
Returns-bind P Q reject f h k = tt
Returns-bind P Q panic f h k = absurd h
Returns-bind P Q stuck f h k = absurd h

pub Returns-ok {ℓ} :
    {A : Type ℓ} (P : A → Type 0) (m : Outcome A) (a : A) → Returns P m → m ≡ ok a → P a
Returns-ok P (ok b) a h e = subst P (ok-injective e) h
  where
    ok-injective : ok b ≡ ok a → b ≡ a
    ok-injective e = cc
Returns-ok P reject a h e = cc
Returns-ok P panic a h e = absurd h
Returns-ok P stuck a h e = absurd h

pub Returns-mono {ℓ} :
    {A : Type ℓ} (P Q : A → Type 0) (m : Outcome A)
    → ((a : A) → P a → Q a)
    → Returns P m
    → Returns Q m
Returns-mono P Q (ok a) f h = f a h
Returns-mono P Q reject f h = tt
Returns-mono P Q panic f h = absurd h
Returns-mono P Q stuck f h = absurd h

-- `let Some(x) = m else { return d }`, and the same for `Ok`.
abbrev pub let_else {ℓ κ} :
    {A : Type ℓ} {B : Type κ} → Outcome A → Outcome B → (A → Outcome B) → Outcome B
let_else (ok a) d f = f a
let_else reject d f = d
let_else panic d f = panic
let_else stuck d f = stuck

-- A chain that succeeds has a first step that does.
pub bind-ok {ℓ κ} :
    {A : Type ℓ} {B : Type κ} (m : Outcome A) (f : A → Outcome B) (b : B)
    → (m >>= f) ≡ ok b
    → (a : A) × (m ≡ ok a) × (f a ≡ ok b)
bind-ok (ok a) f b e = (a, refl, e)
bind-ok reject f b e = cc
bind-ok panic f b e = cc
bind-ok stuck f b e = cc
