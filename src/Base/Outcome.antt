-- ===== src/Base/Outcome.antt =====
-- The result of Rust code: a value, an `anyhow` error, or a panic.
use mathlib.Core.Path.{◌≡◌, refl}
use mathlib.Core.Bool.{Bool, true, false}
use mathlib.Core.Logic.{◌⊎◌, inl, inr}

pub data Outcome {ℓ} (E : Type 0) (A : Type ℓ) : Type ℓ where
  ok : A → Outcome E A
  err : E → Outcome E A
  panic : Outcome E A

infixl 5 ◌>>=◌ ◌>>◌
abbrev pub ◌>>=◌ {ℓ κ} :
    {E : Type 0} {A : Type ℓ} {B : Type κ} → Outcome E A → (A → Outcome E B) → Outcome E B
panic >>= next = panic
err error >>= next = err error
ok value >>= next = next value

abbrev pub ◌>>◌ {ℓ} : {E : Type 0} {B : Type ℓ} → Outcome E (Unit {0}) → Outcome E B → Outcome E B
first >> second = first >>= λ _. second

-- `if test { return Err(error) }`.
abbrev pub bail_if : {E : Type 0} → Bool → E → Outcome E (Unit {0})
bail_if true e = err e
bail_if false e = ok tt

-- A chain that succeeds: its first step succeeds, and the next one succeeds on what that gave.
module _ {ℓ κ} {E : Type 0} {A : Type ℓ} {B : Type κ} (next : A → Outcome E B) {result : B} where
  pub >>=-eq-ok :
      (first : Outcome E A)
      → (first >>= next) ≡ ok result
      → (given : A) × (first ≡ ok given) × (next given ≡ ok result)
  >>=-eq-ok panic chain = cc
  >>=-eq-ok (err e) chain = cc
  >>=-eq-ok (ok given) chain = (given, refl, chain)

-- A guard that lets the rest succeed has not fired.
pub bail_if-eq-ok {ℓ} :
    {E : Type 0} {B : Type ℓ} (t : Bool) (e : E) (rest : Outcome E B) {b : B}
    → (bail_if t e >> rest) ≡ ok b
    → (t ≡ false) × (rest ≡ ok b)
bail_if-eq-ok true e rest h = cc
bail_if-eq-ok false e rest h = (refl, h)

-- A guard that stands last and succeeds has not fired.
pub bail_if-false : {E : Type 0} (t : Bool) (e : E) {u : Unit {0}} → bail_if t e ≡ ok u → t ≡ false
bail_if-false true e h = cc
bail_if-false false e h = refl

pub ok-injective {ℓ} :
    {E : Type 0} {A : Type ℓ} {a b : A} → ◌≡◌ {A = Outcome E A} (ok a) (ok b) → a ≡ b
ok-injective h = cc

pub Outcome-cases {ℓ} :
    {E : Type 0} {A : Type ℓ} (o : Outcome E A)
    → ((a : A) × (o ≡ ok a)) ⊎ (((e : E) × (o ≡ err e)) ⊎ (o ≡ panic))
Outcome-cases (ok a) = inl (a, refl)
Outcome-cases (err e) = inr (inl (e, refl))
Outcome-cases panic = inr (inr refl)
