-- ===== src/Schema/Canonical.antt =====
-- src/schema_discovery.rs: the canonical text of a schema does not depend on the order in which
-- its objects list their entries.
use cultnet_rs.Base.{ℕ, ◌≡◌, refl, arith, List, [], ◌∷◌, false, some}
use cultnet_rs.Base.Json.{Json, Items, Entries, object, array, nil, cons, end, entry}
use cultnet_rs.Base.Order.{bytes_eq, bytes_eq_iff, bytes_lt_irrefl, bytes_lt_trans, bytes_lt_total}
use cultnet_rs.Schema.{
  JsonTools, place, stable_stringify, item_texts, sorted_entries, canonical_schema_hash,
}

-- Two entries with different keys find their places in either order.
place-place :
    (key other : List ℕ) (text other_text : List ℕ) (sorted : List (List ℕ × List ℕ))
    → bytes_eq key other ≡ false
    → place (key, text) (place (other, other_text) sorted)
      ≡ place (other, other_text) (place (key, text) sorted)
unfolding place
place-place key other text other_text [] differ =
    ground (arith, bytes_lt_total key other, bytes_lt_irrefl key, bytes_lt_trans key other key)
place-place key other text other_text ((next, next_text) ∷ sorted) differ = ground (
  arith,
  bytes_lt_total key other,
  bytes_lt_trans key other key,
  bytes_lt_irrefl key,
  bytes_lt_total next key,
  bytes_lt_total next other,
  bytes_lt_trans next key other,
  bytes_lt_trans next other key,
  bytes_lt_trans key other next,
  bytes_lt_trans other key next,
  bytes_eq_iff next key,
  bytes_eq_iff next other,
  place-place key other text other_text sorted differ,
)

-- The same schema, with the entries of some of its objects listed in another order.
mutual
  pub data Reordered : Json → Json → Type 0 where
    same : {value : Json} → Reordered value value
    in_array :
        {values others : Items}
        → ReorderedItems values others
        → Reordered (array values) (array others)
    in_object :
        {values others : Entries}
        → ReorderedEntries values others
        → Reordered (object values) (object others)
    then_also :
        {first second third : Json}
        → Reordered first second
        → Reordered second third
        → Reordered first third

  pub data ReorderedItems : Items → Items → Type 0 where
    no_items : ReorderedItems nil nil
    both_items :
        {value other : Json} {values others : Items}
        → Reordered value other
        → ReorderedItems values others
        → ReorderedItems (cons value values) (cons other others)

  pub data ReorderedEntries : Entries → Entries → Type 0 where
    no_entries : ReorderedEntries end end
    both_entries :
        {key : List ℕ} {value other : Json} {values others : Entries}
        → Reordered value other
        → ReorderedEntries values others
        → ReorderedEntries (entry key value values) (entry key other others)
    swapped :
        (key other : List ℕ) (value other_value : Json) (values : Entries)
        → bytes_eq key other ≡ false
        → ReorderedEntries
            (entry key value (entry other other_value values))
            (entry other other_value (entry key value values))
    entries_then :
        {first second third : Entries}
        → ReorderedEntries first second
        → ReorderedEntries second third
        → ReorderedEntries first third

module _ (tools : JsonTools) where
  mutual
    unfolding stable_stringify item_texts sorted_entries

    pub stringify-Reordered :
        {value other : Json}
        → Reordered value other
        → stable_stringify tools value ≡ stable_stringify tools other
    stringify-Reordered same = refl
    stringify-Reordered (in_array rest) = rw (texts-ReorderedItems rest) refl
    stringify-Reordered (in_object rest) = rw (sorted-ReorderedEntries rest) refl
    stringify-Reordered (then_also first second) =
        rw (stringify-Reordered first) (stringify-Reordered second)

    texts-ReorderedItems :
        {values others : Items}
        → ReorderedItems values others
        → item_texts tools values ≡ item_texts tools others
    texts-ReorderedItems no_items = refl
    texts-ReorderedItems (both_items value rest) =
        rw (stringify-Reordered value, texts-ReorderedItems rest) refl

    sorted-ReorderedEntries :
        {values others : Entries}
        → ReorderedEntries values others
        → sorted_entries tools values ≡ sorted_entries tools others
    sorted-ReorderedEntries no_entries = refl
    sorted-ReorderedEntries (both_entries value rest) =
        rw (stringify-Reordered value, sorted-ReorderedEntries rest) refl
    sorted-ReorderedEntries (swapped key other value other_value values differ) =
        place-place key other (stable_stringify tools value) (stable_stringify tools other_value)
          (sorted_entries tools values) differ
    sorted-ReorderedEntries (entries_then first second) =
        rw (sorted-ReorderedEntries first) (sorted-ReorderedEntries second)

  -- Two texts of schemas, where what the one is read as only lists the entries of its objects in another order
  -- than the other, have the same canonical hash.
  pub hash-Reordered :
      (text other_text : List ℕ) (value other : Json)
      → tools.from_str text ≡ some value
      → tools.from_str other_text ≡ some other
      → Reordered value other
      → canonical_schema_hash tools text ≡ canonical_schema_hash tools other_text
  unfolding canonical_schema_hash
  hash-Reordered text other_text value other read other_read reordered =
      rw (read, other_read, stringify-Reordered reordered) refl
