-- ===== src/Client/Outcome.antt =====
-- What a blocking call sequence comes to, and how its results are chained and described.
use kcp_fake_tcp.Base.{◌≡◌, refl, Bool, true, false, if◌then◌else◌}

-- What a blocking call sequence came to: it returned, it still waits for the outside world, or an
-- `assert` ended the process.
pub data Outcome {ℓ} (A : Type ℓ) : Type ℓ where
  returned : A → Outcome A
  waiting : A → Outcome A
  aborted : Outcome A

infixl 5 ◌>>=◌
abbrev pub ◌>>=◌ {ℓ} : {A : Type ℓ} → Outcome A → (A → Outcome A) → Outcome A
returned a >>= f = f a
waiting a >>= f = waiting a
aborted >>= f = aborted

-- Whatever an outcome leaves behind satisfies `P`; where an `assert` has ended the process, `Q`
-- holds.
abbrev pub Ends {ℓ} : {A : Type ℓ} → Type 0 → (A → Type 0) → Outcome A → Type 0
Ends Q P (returned a) = P a
Ends Q P (waiting a) = P a
Ends Q P aborted = Q

pub Ends-if {ℓ} :
    {A : Type ℓ} (Q : Type 0) (P : A → Type 0) (b : Bool) (x y : Outcome A)
    → (b ≡ true → Ends Q P x)
    → (b ≡ false → Ends Q P y)
    → Ends Q P (if b then x else y)
Ends-if Q P true x y h k = h refl
Ends-if Q P false x y h k = k refl

-- Whatever an outcome leaves behind satisfies `P`.
abbrev pub Leaves {ℓ} : {A : Type ℓ} → (A → Type 0) → Outcome A → Type 0
Leaves P o = Ends Unit P o

pub Leaves-if {ℓ} :
    {A : Type ℓ} (P : A → Type 0) (b : Bool) (x y : Outcome A)
    → Leaves P x
    → Leaves P y
    → Leaves P (if b then x else y)
Leaves-if P true x y h k = h
Leaves-if P false x y h k = k

pub Leaves-map {ℓ} :
    {A : Type ℓ} (P Q : A → Type 0) (o : Outcome A)
    → ((a : A) → P a → Q a)
    → Leaves P o
    → Leaves Q o
Leaves-map P Q (returned a) f h = f a h
Leaves-map P Q (waiting a) f h = f a h
Leaves-map P Q aborted f h = tt

pub Leaves-then {ℓ} :
    {A : Type ℓ} (P Q : A → Type 0) (o : Outcome A) (f : A → Outcome A)
    → ((a : A) → P a → Q a)
    → Leaves P o
    → ((a : A) → P a → Leaves Q (f a))
    → Leaves Q (o >>= f)
Leaves-then P Q (returned a) f w h k = k a h
Leaves-then P Q (waiting a) f w h k = w a h
Leaves-then P Q aborted f w h k = tt

-- An outcome that has returned satisfies `P`.
abbrev pub Returns {ℓ} : {A : Type ℓ} → (A → Type 0) → Outcome A → Type 0
Returns P (returned a) = P a
Returns P _ = Unit

pub Returns-map {ℓ} :
    {A : Type ℓ} (P Q : A → Type 0) (o : Outcome A)
    → ((a : A) → P a → Q a)
    → Returns P o
    → Returns Q o
Returns-map P Q (returned a) f h = f a h
Returns-map P Q (waiting a) f h = tt
Returns-map P Q aborted f h = tt

pub Returns-then {ℓ} :
    {A : Type ℓ} (Q : A → Type 0) (o : Outcome A) (f : A → Outcome A)
    → ((a : A) → Returns Q (f a))
    → Returns Q (o >>= f)
Returns-then Q (returned a) f k = k a
Returns-then Q (waiting a) f k = tt
Returns-then Q aborted f k = tt

-- No `assert` has ended the process, and whatever the outcome leaves behind satisfies `P`.
abbrev pub Survives {ℓ} : {A : Type ℓ} → (A → Type 0) → Outcome A → Type 0
Survives P o = Ends ⊥ P o

pub Survives-if {ℓ} :
    {A : Type ℓ} (P : A → Type 0) (b : Bool) (x y : Outcome A)
    → Survives P x
    → Survives P y
    → Survives P (if b then x else y)
Survives-if P true x y h k = h
Survives-if P false x y h k = k

pub Survives-map {ℓ} :
    {A : Type ℓ} (P Q : A → Type 0) (o : Outcome A)
    → ((a : A) → P a → Q a)
    → Survives P o
    → Survives Q o
Survives-map P Q (returned a) f h = f a h
Survives-map P Q (waiting a) f h = f a h
Survives-map P Q aborted f h = h

pub Returns-if {ℓ} :
    {A : Type ℓ} (P : A → Type 0) (b : Bool) (x y : Outcome A)
    → Returns P x
    → Returns P y
    → Returns P (if b then x else y)
Returns-if P true x y h k = h
Returns-if P false x y h k = k

pub Returns-both {ℓ} :
    {A : Type ℓ} (P Q : A → Type 0) (o : Outcome A)
    → Returns P o
    → Returns Q o
    → Returns (λ a. P a × Q a) o
Returns-both P Q (returned a) h k = (h, k)
Returns-both P Q (waiting a) h k = tt
Returns-both P Q aborted h k = tt

pub Returns-self : {A : Type 0} (o : Outcome A) → Returns (λ a. o ≡ returned a) o
Returns-self (returned a) = refl
Returns-self (waiting a) = tt
Returns-self aborted = tt

pub Returns-bind {ℓ} :
    {A : Type ℓ} (P Q : A → Type 0) (o : Outcome A) (f : A → Outcome A)
    → Returns P o
    → ((a : A) → P a → Returns Q (f a))
    → Returns Q (o >>= f)
Returns-bind P Q (returned a) f h k = k a h
Returns-bind P Q (waiting a) f h k = tt
Returns-bind P Q aborted f h k = tt

-- A case split on an outcome that goes on where it has returned.
pub Survives-then :
    {A B : Type 0} (P : A → Type 0) (Q : B → Type 0) (w : A → B) (f : A → Outcome B) (o : Outcome A)
    → Survives P o
    → ((a : A) → P a → Q (w a))
    → ((a : A) → P a → Survives Q (f a))
    → Survives Q (elim o [ aborted ↦ aborted | waiting a ↦ waiting (w a) | returned a ↦ f a ])
Survives-then P Q w f (returned a) h k l = l a h
Survives-then P Q w f (waiting a) h k l = k a h
Survives-then P Q w f aborted h k l = h

pub Survives-cases :
    {A : Type 0} (P : A → Type 0) (b : Bool) (x y : Outcome A)
    → (b ≡ true → Survives P x)
    → (b ≡ false → Survives P y)
    → Survives P (elim b [ true ↦ x | false ↦ y ])
Survives-cases P true x y h k = h refl
Survives-cases P false x y h k = k refl
