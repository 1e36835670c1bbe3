-- ===== src/Message/Codec/Toy.antt =====
-- Concrete values of rmpv, which meet the laws that the theorems about messages suppose, and conversions
-- of error messages and of short messages to bytes.
use cultnet_rs.Base.{ℕ, ◌≡◌, refl, ap, List, [], ◌∷◌, Bool, true, false, Option, none, some}
use cultnet_rs.Base.Int.{ℤ, pos}
use cultnet_rs.Base.Text.{codes}
use cultnet_rs.Base.Outcome.{ok, err, ◌>>=◌}
use cultnet_rs.Message
use cultnet_rs.Message.{CultNetMessage, serialization}
use cultnet_rs.Message.Wire.{Value, Parsed, and_then, get, require_legacy_string}
use cultnet_rs.Message.Codec.{Serde}

mutual
  pub data Rmp : Type 0 where
    nil : Rmp
    boolean : Bool → Rmp
    integer : ℤ → Rmp
    string : List ℕ → Rmp
    binary : List ℕ → Rmp
    array : Values → Rmp
    object : Pairs → Rmp

  pub data Values : Type 0 where
    no_values : Values
    item : Rmp → Values → Values

  pub data Pairs : Type 0 where
    no_pairs : Pairs
    pair : Rmp → Rmp → Pairs → Pairs

abbrev to_values : List Rmp → Values
to_values [] = no_values
to_values (x ∷ xs) = item x (to_values xs)

abbrev from_values : Values → List Rmp
from_values no_values = []
from_values (item x xs) = x ∷ from_values xs

abbrev to_pairs : List (Rmp × Rmp) → Pairs
to_pairs [] = no_pairs
to_pairs ((k, x) ∷ xs) = pair k x (to_pairs xs)

abbrev from_pairs : Pairs → List (Rmp × Rmp)
from_pairs no_pairs = []
from_pairs (pair k x xs) = (k, x) ∷ from_pairs xs

pub from-to_values : (xs : List Rmp) → from_values (to_values xs) ≡ xs
from-to_values [] = refl
from-to_values (x ∷ xs) = ap (◌∷◌ x) (from-to_values xs)

pub from-to_pairs : (xs : List (Rmp × Rmp)) → from_pairs (to_pairs xs) ≡ xs
from-to_pairs [] = refl
from-to_pairs ((k, x) ∷ xs) = ap (◌∷◌ (k, x)) (from-to_pairs xs)

abbrev is_nil : Rmp → Bool
is_nil nil = true
is_nil other = false

abbrev as_bool : Rmp → Option Bool
as_bool (boolean b) = some b
as_bool other = none

abbrev as_i64 : Rmp → Option ℤ
as_i64 (integer n) = some n
as_i64 other = none

abbrev as_str : Rmp → Option (List ℕ)
as_str (string s) = some s
as_str other = none

abbrev as_slice : Rmp → Option (List ℕ)
as_slice (binary bytes) = some bytes
as_slice (string bytes) = some bytes
as_slice other = none

abbrev as_array : Rmp → Option (List Rmp)
as_array (array xs) = some (from_values xs)
as_array other = none

abbrev as_map : Rmp → Option (List (Rmp × Rmp))
as_map (object xs) = some (from_pairs xs)
as_map other = none

instance abbrev pub rmp_value : Value Rmp
rmp_value = record {
  nil = nil;
  boolean = boolean;
  integer = integer;
  string = string;
  binary = binary;
  array = λ xs. array (to_values xs);
  object = λ xs. object (to_pairs xs);
  is_nil = is_nil;
  as_bool = as_bool;
  as_i64 = as_i64;
  as_str = as_str;
  as_slice = as_slice;
  as_array = as_array;
  as_map = as_map;
  is_nil-nil = refl;
  is_nil-string = λ s. refl;
  is_nil-array = λ xs. refl;
  as_bool-boolean = λ b. refl;
  as_i64-integer = λ n. refl;
  as_str-string = λ s. refl;
  as_slice-binary = λ bytes. refl;
  as_array-array = λ xs. ap some (from-to_values xs);
  as_map-object = λ xs. ap some (from-to_pairs xs);
}

-- An error message is an object, and its bytes are those of its text.
abbrev to_value : CultNetMessage → Parsed Rmp
to_value (Message.error text) = ok (
    object (
      pair (string (codes "schemaVersion")) (string (codes "cultnet.error.v0"))
        (pair (string (codes "error")) (string text) no_pairs)))
to_value other = err serialization

abbrev from_value : Rmp → Parsed CultNetMessage
from_value value =
    require_legacy_string (and_then (as_map value) (λ object. get object (codes "error")))
    >>= λ text. ok (Message.error text)

-- Only the pair of a tag and one text has bytes.
abbrev to_vec : Rmp → Parsed (List ℕ)
to_vec (array (item (integer (pos n)) (item (array (item (string text) no_values)) no_values))) =
    ok (n ∷ text)
to_vec other = err serialization

abbrev from_slice : List ℕ → Parsed Rmp
from_slice [] = err serialization
from_slice (n ∷ text) =
    ok (array (item (integer (pos n)) (item (array (item (string text) no_values)) no_values)))

abbrev pub serde : Serde Rmp
serde = record {
  to_value = to_value;
  from_value = from_value;
  to_vec = to_vec;
  from_slice = from_slice;
}
