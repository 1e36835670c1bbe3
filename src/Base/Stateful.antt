-- ===== src/Base/Stateful.antt =====
-- A method on `&mut self` that may fail: its outcome, and the state that it leaves either way.
use mathlib.Core.List.{List, [], ◌∷◌}
use cultnet_rs.Base.Outcome.{Outcome, ok, err, panic}

abbrev pub Stateful : Type 0 → Type 0 → Type 0 → Type 0
Stateful S E A = S → Outcome E A × S

module _ {S E : Type 0} where
  abbrev after : {A B : Type 0} → Outcome E A × S → (A → Stateful S E B) → Outcome E B × S
  after (panic, s) next = (panic, s)
  after (err e, s) next = (err e, s)
  after (ok a, s) next = next a s

  infixl 5 ◌>>=◌
  abbrev pub ◌>>=◌ : {A B : Type 0} → Stateful S E A → (A → Stateful S E B) → Stateful S E B
  ◌>>=◌ first next s = after (first s) next

  -- The outcome of a step that leaves the state alone.
  abbrev pub pure : {A : Type 0} → Outcome E A → Stateful S E A
  pure outcome s = (outcome, s)

  abbrev pub fail : {A : Type 0} → E → Stateful S E A
  fail error s = (err error, s)

  -- A loop that collects the results and stops at the first error.
  unfoldable pub traverse : {A B : Type 0} → (A → Stateful S E B) → List A → Stateful S E (List B)
  traverse step [] s = (ok [], s)
  traverse step (a ∷ xs) s = (step a >>= λ b. traverse step xs >>= λ bs. pure (ok (b ∷ bs))) s
