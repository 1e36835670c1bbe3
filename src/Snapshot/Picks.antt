-- ===== src/Snapshot/Picks.antt =====
-- src/snapshot_query.rs: membership, and the choice of records from a list, as predicates.
use cultnet_rs.Base.{
  IsOneOf, ℕ, ◌≡◌, ◌↔◌, ◌⊎◌, inl, inr, refl, arith, List, [], ◌∷◌, true, All, Option, none, some,
  Bool-cases,
}
use cultnet_rs.Base.BTreeMap.{BTreeMap, get, insert, contains_key, keys}
use cultnet_rs.Base.Order.{Ord, bytes_ord, pair_ord, bytes_eq_iff}
use cultnet_rs.Base.Requested.{is_in, is_requested}
use cultnet_rs.Message.{CultNetRawDocumentRecord}
use cultnet_rs.Snapshot.{CultNetReadOnlySnapshotPolicy}
use cultnet_rs.Snapshot.Query.{identity, to_set, schema_ids, record_keys}

-- A value that a request names: any, if it has no list of them.
abbrev pub Names : Option (List (List ℕ)) → List ℕ → Type 0
Names none value = Unit {0}
Names (some values) value = IsOneOf value values

-- The policy lists the record's schema id and key.
abbrev pub IsAllowed : CultNetReadOnlySnapshotPolicy → CultNetRawDocumentRecord → Type 0
IsAllowed policy document = IsOneOf (identity document) (keys policy.allowed_records)

-- `given` are those of `documents` that meet `P`, in their order.
pub data Picks (P : CultNetRawDocumentRecord → Type 0)
    : List CultNetRawDocumentRecord → List CultNetRawDocumentRecord → Type 0 where
  none_left : Picks P [] []
  picked :
      (document : CultNetRawDocumentRecord) (documents given : List CultNetRawDocumentRecord)
      → P document
      → Picks P documents given
      → Picks P (document ∷ documents) (document ∷ given)
  skipped :
      (document : CultNetRawDocumentRecord) (documents given : List CultNetRawDocumentRecord)
      → ¬ P document
      → Picks P documents given
      → Picks P (document ∷ documents) given

pub is_in_iff :
    (values : List (List ℕ)) (value : List ℕ) → (is_in values value ≡ true) ↔ IsOneOf value values
is_in_iff [] value = ground arith
is_in_iff (other ∷ others) value = ground (arith, bytes_eq_iff other value, is_in_iff others value)

pub is_requested_iff :
    (values : Option (List (List ℕ))) (value : List ℕ)
    → (is_requested values value ≡ true) ↔ Names values value
is_requested_iff none value = ((λ e. tt), (λ u. refl))
is_requested_iff (some values) value = is_in_iff values value

module _ {K V : Type 0} ⦃o : Ord K⦄ where
  pub contains_key_iff : (k : K) (m : BTreeMap K V) → (contains_key k m ≡ true) ↔ IsOneOf k (keys m)
  unfolding contains_key
  contains_key_iff k [] = ground arith
  contains_key_iff k ((j, w) ∷ m) = ground (arith, o.eq_iff j k, contains_key_iff k m)

  pub get-IsOneOf : (k : K) (m : BTreeMap K V) {v : V} → get k m ≡ some v → IsOneOf k (keys m)
  unfolding get
  get-IsOneOf k [] e = cc
  get-IsOneOf k ((j, w) ∷ m) {v} e = elim (Bool-cases (o.eq j k)) [
    | inl same ↦ inl ((o.eq_iff j k).0 same)
    | inr other ↦ inr (get-IsOneOf k m {v = v} (rw other at e))
  ]

  pub keys-insert :
      (k j : K) (v : V) (m : BTreeMap K V)
      → IsOneOf j (keys (insert k v m)) ↔ ((k ≡ j) ⊎ IsOneOf j (keys m))
  unfolding insert
  keys-insert k j v [] = ground arith
  keys-insert k j v ((i, w) ∷ m) = ground (arith, o.eq_iff i k, keys-insert k j v m)

pub to_set_iff :
    (values : List (List ℕ)) (value : List ℕ)
    → IsOneOf value (keys (to_set values)) ↔ IsOneOf value values
to_set_iff [] value = ((λ h. h), (λ h. h))
to_set_iff (other ∷ others) value =
    ground (arith, keys-insert other value tt (to_set others), to_set_iff others value)

-- A schema id that is named with some key, and a key that is named with some schema id.
pub schema_ids_iff :
    (pairs : List (List ℕ × List ℕ)) (schema_id : List ℕ)
    → IsOneOf schema_id (schema_ids pairs)
      ↔ ((record_key : List ℕ) × IsOneOf (schema_id, record_key) pairs)
schema_ids_iff pairs schema_id = (to pairs, λ h. from pairs h.0 h.1)
  where
    to :
        (pairs : List (List ℕ × List ℕ))
        → IsOneOf schema_id (schema_ids pairs)
        → (record_key : List ℕ) × IsOneOf (schema_id, record_key) pairs
    to [] h = elim h [ ]
    to ((s, k) ∷ pairs) (inl same) = (k, inl (rw same refl))
    to ((s, k) ∷ pairs) (inr rest) = let (key, there) = to pairs rest in (key, inr there)

    from :
        (pairs : List (List ℕ × List ℕ)) (record_key : List ℕ)
        → IsOneOf (schema_id, record_key) pairs
        → IsOneOf schema_id (schema_ids pairs)
    from [] key h = elim h [ ]
    from ((s, k) ∷ pairs) key (inl same) = inl (cc)
    from ((s, k) ∷ pairs) key (inr rest) = inr (from pairs key rest)

pub record_keys_iff :
    (pairs : List (List ℕ × List ℕ)) (record_key : List ℕ)
    → IsOneOf record_key (record_keys pairs)
      ↔ ((schema_id : List ℕ) × IsOneOf (schema_id, record_key) pairs)
record_keys_iff pairs record_key = (to pairs, λ h. from pairs h.0 h.1)
  where
    to :
        (pairs : List (List ℕ × List ℕ))
        → IsOneOf record_key (record_keys pairs)
        → (schema_id : List ℕ) × IsOneOf (schema_id, record_key) pairs
    to [] h = elim h [ ]
    to ((s, k) ∷ pairs) (inl same) = (s, inl (rw same refl))
    to ((s, k) ∷ pairs) (inr rest) = let (schema, there) = to pairs rest in (schema, inr there)

    from :
        (pairs : List (List ℕ × List ℕ)) (schema_id : List ℕ)
        → IsOneOf (schema_id, record_key) pairs
        → IsOneOf record_key (record_keys pairs)
    from [] schema h = elim h [ ]
    from ((s, k) ∷ pairs) schema (inl same) = inl (cc)
    from ((s, k) ∷ pairs) schema (inr rest) = inr (from pairs schema rest)

module _ (P Q : CultNetRawDocumentRecord → Type 0) where
  -- What all records meet that meet `P`, all that are picked by it meet.
  pub Picks-All :
      {documents given : List CultNetRawDocumentRecord}
      → Picks P documents given
      → All (λ document. P document → Q document) documents
      → All Q given
  Picks-All none_left h = tt
  Picks-All (picked document documents given p rest) (one, others) = (one p, Picks-All rest others)
  Picks-All (skipped document documents given p rest) (one, others) = Picks-All rest others

  pub Picks-change :
      {documents given : List CultNetRawDocumentRecord}
      → Picks P documents given
      → All (λ document. P document ↔ Q document) documents
      → Picks Q documents given
  Picks-change none_left h = none_left
  Picks-change (picked document documents given p rest) (one, others) =
      picked document documents given (one.0 p) (Picks-change rest others)
  Picks-change (skipped document documents given p rest) (one, others) =
      skipped document documents given (λ q. p (one.1 q)) (Picks-change rest others)
