-- ===== src/Base/Traverse.antt =====
-- `iter().map(..).collect::<Result<Vec<_>>>()` and loops of checks over a slice.
use mathlib.Core.Path.{◌≡◌, refl}
use mathlib.Core.List.{List, [], ◌∷◌, map}
use mathlib.Core.Option.{Option, none, some}
use cultnet_rs.Base.Outcome.{Outcome, ok, ◌>>=◌, ◌>>◌, >>=-eq-ok, ok-injective}

module _ {E : Type 0} {A B : Type 0} (f : A → Outcome E B) where
  unfoldable pub traverse : List A → Outcome E (List B)
  traverse [] = ok []
  traverse (x ∷ xs) = let rest = traverse xs in f x >>= λ y. rest >>= λ ys. ok (y ∷ ys)

module _ {E : Type 0} {A : Type 0} (check : A → Outcome E (Unit {0})) where
  -- A loop that checks each value and stops at the first error.
  unfoldable pub for_each : List A → Outcome E (Unit {0})
  for_each [] = ok tt
  for_each (x ∷ xs) = let rest = for_each xs in check x >> rest

  abbrev pub for_some : Option (List A) → Outcome E (Unit {0})
  for_some none = ok tt
  for_some (some xs) = for_each xs

module _ {E : Type 0} {A B : Type 0} (g : B → Outcome E A) where
  pub traverse-map :
      (f : A → B) → ((x : A) → g (f x) ≡ ok x) → (xs : List A) → traverse g (map f xs) ≡ ok xs
  unfolding traverse
  traverse-map f h [] = refl
  traverse-map f h (x ∷ xs) = rw (h x, traverse-map f h xs) refl

  pub traverse-traverse :
      (f : A → Outcome E B)
      → ((x : A) (y : B) → f x ≡ ok y → g y ≡ ok x)
      → (xs : List A) (ys : List B) → traverse f xs ≡ ok ys
      → traverse g ys ≡ ok xs
  unfolding traverse
  traverse-traverse f h [] ys e = rw (← ok-injective e) refl
  traverse-traverse f h (x ∷ xs) ys e =
      let (y, fx, e') = >>=-eq-ok _ (f x) e in
      let (rest, fxs, e'') = >>=-eq-ok _ (traverse f xs) e' in
      rw (← ok-injective e'', h x y fx, traverse-traverse f h xs rest fxs) refl
