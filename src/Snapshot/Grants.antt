-- ===== src/Snapshot/Grants.antt =====
-- src/snapshot_query.rs: which records the server of raw snapshots gives out.
use cultnet_rs.Base.{
  ℕ, ◌≡◌, ◌↔◌, sym, arith, List, [], ◌∷◌, true, false, not, Option, some, All, inl, inr, Bool-cases,
  Option-cases,
}
use cultnet_rs.Base.Outcome.{Outcome, ok, >>=-eq-ok, bail_if-eq-ok, ok-injective}
use cultnet_rs.Base.BTreeMap.{BTreeMap, insert, contains_key}
use cultnet_rs.Base.Order.{bytes_ord, pair_ord}
use cultnet_rs.Message.{
  CultNetMessage, CultNetRawDocumentRecord, snapshot_request, snapshot_response_raw,
}
use cultnet_rs.Replication.{CultNetDocumentRegistry, CultNetDocumentBinding, binding_by_schema_id}
use cultnet_rs.Snapshot.{CultNetReadOnlySnapshotPolicy, SnapshotError, is_bound}
use cultnet_rs.Snapshot.{is_selected, select, serve_read_only_raw_snapshot}
use cultnet_rs.Snapshot.{require_non_empty, reject_duplicates}
use cultnet_rs.Snapshot.{duplicate_record, unregistered_schema}
use cultnet_rs.Snapshot.Query.{identity}
use cultnet_rs.Snapshot.Picks.{
  Names, IsAllowed, Picks, none_left, picked, skipped, contains_key_iff, is_requested_iff,
}

-- The policy lists the record, and the request names its schema id and its key.
abbrev pub IsGranted :
    CultNetReadOnlySnapshotPolicy
    → Option (List (List ℕ))
    → Option (List (List ℕ))
    → CultNetRawDocumentRecord
    → Type 0
IsGranted policy schema_ids record_keys document =
    IsAllowed policy document
    × Names schema_ids document.schema_id
    × Names record_keys document.record_key

-- The registry binds the record's schema.
abbrev pub IsRegistered : CultNetDocumentRegistry → CultNetRawDocumentRecord → Type 0
IsRegistered registry document =
    (bound : CultNetDocumentBinding) × (binding_by_schema_id registry document.schema_id
      ≡ some bound)

is_selected_iff :
    (policy : CultNetReadOnlySnapshotPolicy) (schema_ids record_keys : Option (List (List ℕ)))
    (document : CultNetRawDocumentRecord)
    → (is_selected policy schema_ids record_keys document ≡ true)
      ↔ IsGranted policy schema_ids record_keys document
is_selected_iff policy schema_ids record_keys document = ground (
  arith,
  contains_key_iff (identity document) policy.allowed_records,
  is_requested_iff schema_ids document.schema_id,
  is_requested_iff record_keys document.record_key,
)

is_bound-IsRegistered :
    (registry : CultNetDocumentRegistry) (document : CultNetRawDocumentRecord)
    → not (is_bound registry document.schema_id) ≡ false
    → IsRegistered registry document
is_bound-IsRegistered registry document h =
    elim (Option-cases (binding_by_schema_id registry document.schema_id)) [
      | inl missing ↦ let h' = rw missing at h in cc
      | inr (bound, there) ↦ (bound, there)
    ]

module _ (registry : CultNetDocumentRegistry) (policy : CultNetReadOnlySnapshotPolicy)
    (schema_ids record_keys : Option (List (List ℕ))) where
  select-Picks :
      (seen : BTreeMap (List ℕ × List ℕ) (Unit {0}))
      (documents selected : List CultNetRawDocumentRecord)
      → select registry policy schema_ids record_keys seen documents ≡ ok selected
      → Picks (IsGranted policy schema_ids record_keys) documents selected
        × All (IsRegistered registry) documents
  unfolding select
  select-Picks seen [] selected h =
      let none_selected : ◌≡◌ {A = Outcome SnapshotError (List CultNetRawDocumentRecord)} (ok [])
          (ok selected) =
        h in
      (rw (← ok-injective none_selected) none_left, tt)
  select-Picks seen (document ∷ documents) selected h =
      let id : List ℕ × List ℕ = (document.schema_id, document.record_key) in
      let (new, h1) = bail_if-eq-ok (contains_key id seen) duplicate_record _ h in
      let (bound, h2) =
        bail_if-eq-ok (not (is_bound registry document.schema_id)) unregistered_schema _ h1 in
      let (rest, found, h3) =
        >>=-eq-ok _ (select registry policy schema_ids record_keys (insert id tt seen) documents)
          h2 in
      let (chosen, all_bound) = select-Picks (insert id tt seen) documents rest found in
      let e = ok-injective h3 in
      let meets = is_selected_iff policy schema_ids record_keys document in
      (
        elim (Bool-cases (is_selected policy schema_ids record_keys document)) [
          | inl kept ↦ rw (← e, kept) (picked document documents rest (meets.0 kept) chosen)
          | inr dropped ↦
              let refused : ¬ IsGranted policy schema_ids record_keys document =
                λ granted. (let kept = meets.1 granted in cc) in
              rw (← e, dropped) (skipped document documents rest refused chosen)
        ],
        (is_bound-IsRegistered registry document bound, all_bound),
      )

-- A request whose answer is a response, from a source that gives its records: the response is a raw snapshot with
-- the request's message id and, in the source's order, exactly those of its records whose schema id and key the
-- policy lists together and whose schema id and key are among those that the request names (any, where it names
-- none); and the schema of every record of the source is bound.
pub serve-Picks :
    (registry : CultNetDocumentRegistry) (policy : CultNetReadOnlySnapshotPolicy)
    (message_id : List ℕ) (schema_ids record_keys : Option (List (List ℕ)))
    (documents : List CultNetRawDocumentRecord) (response : CultNetMessage)
    → serve_read_only_raw_snapshot registry policy
        (ok documents)
        (snapshot_request message_id schema_ids record_keys)
      ≡ ok response
    → (given : List CultNetRawDocumentRecord) × (response ≡ snapshot_response_raw message_id given)
      × Picks (IsGranted policy schema_ids record_keys) documents given
      × All (IsRegistered registry) documents
unfolding serve_read_only_raw_snapshot
serve-Picks registry policy message_id schema_ids record_keys documents response h =
    let (named, _, h1) = >>=-eq-ok _ (require_non_empty message_id) h in
    let (a, _, h2) = >>=-eq-ok _ (reject_duplicates schema_ids) h1 in
    let (b, _, h3) = >>=-eq-ok _ (reject_duplicates record_keys) h2 in
    let (selected, found, h4) =
      >>=-eq-ok _ (select registry policy schema_ids record_keys [] documents) h3 in
    let (chosen, bound) =
      select-Picks registry policy schema_ids record_keys [] documents selected found in
    (selected, sym (ok-injective h4), chosen, bound)
