-- ===== src/Base/Requested.antt =====
-- `requested.is_some_and(|values| !values.contains(value))`, the filters of snapshot requests.
use Prim.Native.Nat.{ℕ}
use mathlib.Core.Bool.{Bool, true, false}
use mathlib.Core.List.{List, [], ◌∷◌}
use mathlib.Core.Option.{Option, none, some}
use cultnet_rs.Base.Tests.{if◌then◌else◌}
use cultnet_rs.Base.Order.{bytes_eq}

abbrev pub is_in : List (List ℕ) → List ℕ → Bool
is_in [] value = false
is_in (other ∷ others) value = if bytes_eq other value then true else is_in others value

-- A value that a request asks for: any, if it names none.
abbrev pub is_requested : Option (List (List ℕ)) → List ℕ → Bool
is_requested none value = true
is_requested (some values) value = is_in values value
