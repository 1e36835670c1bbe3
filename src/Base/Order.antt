-- ===== src/Base/Order.antt =====
-- The `Ord` of Rust's keys, as an instance: numbers, byte strings, pairs.
use Prim.Native.Nat.{ℕ}
use mathlib.Core.Path.{◌≡◌, refl}
use mathlib.Core.Logic.{◌↔◌}
use mathlib.Core.Bool.{Bool, true, false, ◌&&◌, ◌||◌}
use mathlib.Core.List.{List, [], ◌∷◌}
use native.Mathlib.Omega.{arith}
use cultnet_rs.Base.Tests.{ltb, ◌==◌, ==_iff}

pub record Ord {ℓ} (K : Type ℓ) : Type ℓ where
  pub eq : K → K → Bool
  pub lt : K → K → Bool
  pub eq_iff : (a b : K) → (eq a b ≡ true) ↔ (a ≡ b)
  pub lt_irrefl : (a : K) → lt a a ≡ false
  pub lt_trans : (a b c : K) → lt a b ≡ true → lt b c ≡ true → lt a c ≡ true
  pub lt_total : (a b : K) → lt a b ≡ false → eq a b ≡ false → lt b a ≡ true

pub ltb_irrefl : (a : ℕ) → ltb a a ≡ false
ltb_irrefl a = ground arith

pub ltb_trans : (a b c : ℕ) → ltb a b ≡ true → ltb b c ≡ true → ltb a c ≡ true
ltb_trans a b c h k = ground arith

pub ltb_total : (a b : ℕ) → ltb a b ≡ false → (a == b) ≡ false → ltb b a ≡ true
ltb_total a b h k = ground arith

instance abbrev pub nat_ord : Ord ℕ
nat_ord = record {
  eq = ◌==◌;
  lt = ltb;
  eq_iff = ==_iff;
  lt_irrefl = ltb_irrefl;
  lt_trans = ltb_trans;
  lt_total = ltb_total;
}

abbrev pub bytes_eq : List ℕ → List ℕ → Bool
bytes_eq [] [] = true
bytes_eq [] (y ∷ ys) = false
bytes_eq (x ∷ xs) [] = false
bytes_eq (x ∷ xs) (y ∷ ys) = (x == y) && bytes_eq xs ys

-- The order of `String` and `[u8]`: bytewise, a prefix first.
abbrev pub bytes_lt : List ℕ → List ℕ → Bool
bytes_lt [] [] = false
bytes_lt [] (y ∷ ys) = true
bytes_lt (x ∷ xs) [] = false
bytes_lt (x ∷ xs) (y ∷ ys) = ltb x y || ((x == y) && bytes_lt xs ys)

bytes_eq_to : (a b : List ℕ) → bytes_eq a b ≡ true → a ≡ b
bytes_eq_to [] [] h = refl
bytes_eq_to [] (y ∷ ys) h = cc
bytes_eq_to (x ∷ xs) [] h = cc
bytes_eq_to (x ∷ xs) (y ∷ ys) h = ground (arith, bytes_eq_to xs ys)

pub bytes_eq_refl : (a : List ℕ) → bytes_eq a a ≡ true
bytes_eq_refl [] = refl
bytes_eq_refl (x ∷ xs) = ground (arith, bytes_eq_refl xs)

pub bytes_eq_iff : (a b : List ℕ) → (bytes_eq a b ≡ true) ↔ (a ≡ b)
bytes_eq_iff a b = (bytes_eq_to a b, λ e. rw e (bytes_eq_refl b))

pub bytes_lt_irrefl : (a : List ℕ) → bytes_lt a a ≡ false
bytes_lt_irrefl [] = refl
bytes_lt_irrefl (x ∷ xs) = ground (arith, bytes_lt_irrefl xs)

pub bytes_lt_trans :
    (a b c : List ℕ) → bytes_lt a b ≡ true → bytes_lt b c ≡ true → bytes_lt a c ≡ true
bytes_lt_trans [] [] c h k = cc
bytes_lt_trans [] (y ∷ ys) [] h k = cc
bytes_lt_trans [] (y ∷ ys) (z ∷ zs) h k = refl
bytes_lt_trans (x ∷ xs) [] c h k = cc
bytes_lt_trans (x ∷ xs) (y ∷ ys) [] h k = cc
bytes_lt_trans (x ∷ xs) (y ∷ ys) (z ∷ zs) h k = ground (arith, bytes_lt_trans xs ys zs)

pub bytes_lt_total :
    (a b : List ℕ) → bytes_lt a b ≡ false → bytes_eq a b ≡ false → bytes_lt b a ≡ true
bytes_lt_total [] [] h k = cc
bytes_lt_total [] (y ∷ ys) h k = cc
bytes_lt_total (x ∷ xs) [] h k = refl
bytes_lt_total (x ∷ xs) (y ∷ ys) h k = ground (arith, bytes_lt_total xs ys)

instance abbrev pub bytes_ord : Ord (List ℕ)
bytes_ord = record {
  eq = bytes_eq;
  lt = bytes_lt;
  eq_iff = bytes_eq_iff;
  lt_irrefl = bytes_lt_irrefl;
  lt_trans = bytes_lt_trans;
  lt_total = bytes_lt_total;
}

module _ {A B : Type 0} ⦃oa : Ord A⦄ ⦃ob : Ord B⦄ where
  abbrev pub pair_eq : A × B → A × B → Bool
  pair_eq (a, b) (c, d) = oa.eq a c && ob.eq b d

  abbrev pub pair_lt : A × B → A × B → Bool
  pair_lt (a, b) (c, d) = oa.lt a c || (oa.eq a c && ob.lt b d)

  pub pair_eq_iff : (p q : A × B) → (pair_eq p q ≡ true) ↔ (p ≡ q)
  pair_eq_iff (a, b) (c, d) = ground (arith, oa.eq_iff a c, ob.eq_iff b d)

  pub pair_lt_irrefl : (p : A × B) → pair_lt p p ≡ false
  pair_lt_irrefl (a, b) = ground (arith, oa.lt_irrefl a, ob.lt_irrefl b)

  pub pair_lt_trans : (p q r : A × B) → pair_lt p q ≡ true → pair_lt q r ≡ true → pair_lt p r ≡ true
  pair_lt_trans (a, b) (c, d) (e, f) h k =
      ground
        (arith, oa.eq_iff a c, oa.eq_iff c e, oa.eq_iff a e, oa.lt_trans a c e, ob.lt_trans b d f)

  pub pair_lt_total : (p q : A × B) → pair_lt p q ≡ false → pair_eq p q ≡ false → pair_lt q p ≡ true
  pair_lt_total (a, b) (c, d) h k =
      ground (arith, oa.eq_iff a c, oa.eq_iff c a, oa.lt_total a c, ob.lt_total b d)

  instance abbrev pub pair_ord : Ord (A × B)
  pair_ord = record {
    eq = pair_eq;
    lt = pair_lt;
    eq_iff = pair_eq_iff;
    lt_irrefl = pair_lt_irrefl;
    lt_trans = pair_lt_trans;
    lt_total = pair_lt_total;
  }
