-- ===== src/Base/Json.antt =====
-- `serde_json::Value`, whose cases the code matches. A number is its printed text, a text its
-- UTF-8 bytes, an object its entries in the order in which its map gives them.
use Prim.Native.Nat.{ℕ}
use mathlib.Core.Bool.{Bool}
use mathlib.Core.List.{List}

mutual
  pub data Json : Type 0 where
    null : Json
    boolean : Bool → Json
    number : List ℕ → Json
    string : List ℕ → Json
    array : Items → Json
    object : Entries → Json

  pub data Items : Type 0 where
    nil : Items
    cons : Json → Items → Items

  pub data Entries : Type 0 where
    end : Entries
    entry : List ℕ → Json → Entries → Entries
