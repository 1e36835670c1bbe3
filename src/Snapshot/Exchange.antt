-- ===== src/Snapshot/Exchange.antt =====
-- src/snapshot_query.rs: a query that is answered by the read-only server.
use cultnet_rs.Base.{ℕ, ◌≡◌, ◌≢◌, ◌↔◌, IsOneOf, List, [], ◌∷◌, not, Option, All}
use cultnet_rs.Base.Outcome.{ok, >>=-eq-ok, bail_if-eq-ok}
use cultnet_rs.Base.BTreeMap.{BTreeMap, insert, contains_key, keys}
use cultnet_rs.Base.Order.{bytes_ord, pair_ord}
use cultnet_rs.Message.{CultNetMessage, CultNetRawDocumentRecord, snapshot_request}
use cultnet_rs.Replication.{CultNetDocumentRegistry}
use cultnet_rs.Snapshot.{
  CultNetReadOnlySnapshotPolicy, is_bound, select, serve_read_only_raw_snapshot, duplicate_record,
  unregistered_schema, require_non_empty, reject_duplicates,
}
use cultnet_rs.Snapshot.Grants.{IsGranted, serve-Picks}
use cultnet_rs.Snapshot.Picks.{
  IsAllowed, Picks, none_left, picked, skipped, Picks-All, Picks-change, get-IsOneOf, to_set_iff,
  schema_ids_iff, record_keys_iff,
}
use cultnet_rs.Snapshot.Query.{
  CultNetRawSnapshotQuery, identity, request, asked_schemas, asked_keys, schema_ids, record_keys,
  query_read_only_raw_snapshot,
}
use cultnet_rs.Snapshot.Accepted.{
  IsExpected, Distinct, Unseen, Unseen-insert, accept_response-IsExpected,
}

module _ (registry : CultNetDocumentRegistry) (policy : CultNetReadOnlySnapshotPolicy)
    (schema_ids record_keys : Option (List (List ℕ))) where
  -- The server's records are distinct, or it answers with an error.
  select-Distinct :
      (seen : BTreeMap (List ℕ × List ℕ) (Unit {0}))
      (documents selected : List CultNetRawDocumentRecord)
      → select registry policy schema_ids record_keys seen documents ≡ ok selected
      → Distinct documents × Unseen seen documents
  unfolding select
  select-Distinct seen [] selected h = (tt, tt)
  select-Distinct seen (document ∷ documents) selected h =
      let (new, h1) = bail_if-eq-ok (contains_key (identity document) seen) duplicate_record _ h in
      let (bound, h2) =
        bail_if-eq-ok (not (is_bound registry document.schema_id)) unregistered_schema _ h1 in
      let seen' : BTreeMap (List ℕ × List ℕ) (Unit {0}) = insert (identity document) tt seen in
      let (rest, done, h3) =
        >>=-eq-ok _ (select registry policy schema_ids record_keys seen' documents) h2 in
      let (distinct, unseen) = select-Distinct seen' documents rest done in
      let (unseen', others) = (Unseen-insert document seen documents).0 unseen in
      ((others, distinct), (new, unseen'))

serve-Distinct :
    (registry : CultNetDocumentRegistry) (policy : CultNetReadOnlySnapshotPolicy)
    (message_id : List ℕ) (schema_ids record_keys : Option (List (List ℕ)))
    (documents : List CultNetRawDocumentRecord) (response : CultNetMessage)
    → serve_read_only_raw_snapshot registry policy
        (ok documents)
        (snapshot_request message_id schema_ids record_keys)
      ≡ ok response
    → Distinct documents
unfolding serve_read_only_raw_snapshot
serve-Distinct registry policy message_id schema_ids record_keys documents response h =
    let (_, _, h1) = >>=-eq-ok _ (require_non_empty message_id) h in
    let (_, _, h2) = >>=-eq-ok _ (reject_duplicates schema_ids) h1 in
    let (_, _, h3) = >>=-eq-ok _ (reject_duplicates record_keys) h2 in
    let (selected, done, _) =
      >>=-eq-ok _ (select registry policy schema_ids record_keys [] documents) h3 in
    let (distinct, _) =
      select-Distinct registry policy schema_ids record_keys [] documents selected done in
    distinct

module _ (P : CultNetRawDocumentRecord → Type 0) where
  All-Picks :
      (Q : CultNetRawDocumentRecord → Type 0) {documents given : List CultNetRawDocumentRecord}
      → Picks P documents given
      → All Q documents
      → All Q given
  All-Picks Q none_left h = tt
  All-Picks Q (picked document documents given p rest) (one, others) =
      (one, All-Picks Q rest others)
  All-Picks Q (skipped document documents given p rest) (one, others) = All-Picks Q rest others

  Distinct-Picks :
      {documents given : List CultNetRawDocumentRecord}
      → Picks P documents given
      → Distinct documents
      → Distinct given
  Distinct-Picks none_left h = tt
  Distinct-Picks (picked document documents given p rest) (others, distinct) = (
    All-Picks (λ other. identity other ≢ identity document) rest others,
    Distinct-Picks rest distinct,
  )
  Distinct-Picks (skipped document documents given p rest) (others, distinct) =
      Distinct-Picks rest distinct

-- The policy lists the record, and the query expects a record with its schema id and one with its key.
abbrev pub IsAskedFor :
    CultNetReadOnlySnapshotPolicy → CultNetRawSnapshotQuery → CultNetRawDocumentRecord → Type 0
IsAskedFor policy query document =
    IsAllowed policy document
    × ((record_key : List ℕ) × IsOneOf (document.schema_id, record_key) (keys query.expectations))
    × ((schema_id : List ℕ) × IsOneOf (schema_id, document.record_key) (keys query.expectations))

-- The policy lists the record, and the query expects a record with its schema id and key.
abbrev pub IsWanted :
    CultNetReadOnlySnapshotPolicy → CultNetRawSnapshotQuery → CultNetRawDocumentRecord → Type 0
IsWanted policy query document =
    IsAllowed policy document × IsOneOf (identity document) (keys query.expectations)

All-map :
    (P Q : CultNetRawDocumentRecord → Type 0)
    → ((document : CultNetRawDocumentRecord) → P document → Q document)
    → (documents : List CultNetRawDocumentRecord) → All P documents
    → All Q documents
All-map P Q f [] h = tt
All-map P Q f (document ∷ documents) (one, others) =
    (f document one, All-map P Q f documents others)

module _ (policy : CultNetReadOnlySnapshotPolicy) (query : CultNetRawSnapshotQuery) where
  IsGranted-iff :
      (document : CultNetRawDocumentRecord)
      → IsGranted policy (asked_schemas query) (asked_keys query) document
        ↔ IsAskedFor policy query document
  IsGranted-iff document =
      let pairs = keys query.expectations in
      let schemas = to_set_iff (schema_ids pairs) document.schema_id in
      let named = schema_ids_iff pairs document.schema_id in
      let asked = to_set_iff (record_keys pairs) document.record_key in
      let keyed = record_keys_iff pairs document.record_key in
      (
        λ h. (h.0, named.0 (schemas.0 h.1), keyed.0 (asked.0 h.2)),
        λ h. (h.0, schemas.1 (named.1 h.1), asked.1 (keyed.1 h.2)),
      )

  IsWanted-iff :
      (document : CultNetRawDocumentRecord)
      → (IsAskedFor policy query document → IsExpected query.expectations document)
      → IsGranted policy (asked_schemas query) (asked_keys query) document
        ↔ IsWanted policy query document
  IsWanted-iff document expected = (
    λ granted.
        let there = expected ((IsGranted-iff document).0 granted) in
        (granted.0, get-IsOneOf (identity document) query.expectations there.1),
    λ wanted.
        (IsGranted-iff document).1
          (wanted.0, (document.record_key, wanted.1), (document.schema_id, wanted.1)),
  )

-- A query of a server that answers it, where each record of the source that the policy lists, and whose schema id and
-- whose key each occur in some expectation of the query, is as the query expects it: the query gives, in the source's
-- order, exactly those records that the policy lists and that the query expects.
pub query-serve :
    (registry : CultNetDocumentRegistry) (policy : CultNetReadOnlySnapshotPolicy)
    (query : CultNetRawSnapshotQuery) (documents : List CultNetRawDocumentRecord)
    (response : CultNetMessage)
    → serve_read_only_raw_snapshot registry policy (ok documents) (request query) ≡ ok response
    → All
        (λ document. IsAskedFor policy query document → IsExpected query.expectations document)
        documents
    → (given : List CultNetRawDocumentRecord) × (query_read_only_raw_snapshot query
          (serve_read_only_raw_snapshot registry policy (ok documents))
        ≡ ok given)
      × Picks (IsWanted policy query) documents given
unfolding query_read_only_raw_snapshot request
query-serve registry policy query documents response served expected =
    let schemas = asked_schemas query in
    let keys = asked_keys query in
    let granted = IsGranted policy schemas keys in
    let (given, answer, chosen, _) =
      serve-Picks registry policy query.message_id schemas keys documents response served in
    let distinct =
      serve-Distinct registry policy query.message_id schemas keys documents response served in
    let good = Picks-All granted (IsExpected query.expectations) chosen (
      All-map
        (λ document. IsAskedFor policy query document → IsExpected query.expectations document)
        (λ document. granted document → IsExpected query.expectations document)
        (λ document h g. h ((IsGranted-iff policy query document).0 g)) documents expected) in
    let accepted =
      (accept_response-IsExpected query response given).1
        (answer, good, Distinct-Picks granted chosen distinct) in
    (
      given,
      rw served accepted,
      Picks-change granted (IsWanted policy query) chosen (
          All-map
            (λ document. IsAskedFor policy query document → IsExpected query.expectations document)
            (λ document. granted document ↔ IsWanted policy query document)
            (IsWanted-iff policy query) documents expected),
    )
