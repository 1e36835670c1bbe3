-- ===== src/Snapshot.antt =====
-- src/snapshot_query.rs: the read-only server of raw snapshots. The source's records are an
-- argument. The children are the client's query, and what holds of both.
pub mod Grants
pub mod Query
pub mod Accepted
pub mod Picks
pub mod Exchange
mod Tests
use cultnet_rs.Base.{
  ℕ, List, [], ◌∷◌, Bool, true, false, ◌&&◌, not, if◌then◌else◌, Option, none, some,
}
use cultnet_rs.Base.Outcome.{Outcome, ok, err, panic, ◌>>=◌, ◌>>◌, bail_if}
use cultnet_rs.Base.Text.{trim_is_empty}
use cultnet_rs.Base.BTreeMap.{BTreeMap, insert, contains_key}
use cultnet_rs.Base.Order.{bytes_ord, pair_ord}
use cultnet_rs.Base.Requested.{is_requested}
use cultnet_rs.Message
use cultnet_rs.Message.{CultNetMessage, CultNetRawDocumentRecord}
use cultnet_rs.Replication.{CultNetDocumentBinding, CultNetDocumentRegistry, binding_by_schema_id}

pub data SnapshotError : Type 0 where
  expected_snapshot_request empty_value duplicate_value : SnapshotError
  duplicate_record unregistered_schema source_failed : SnapshotError
  expected_snapshot_response unknown_message_id unexpected_record : SnapshotError
  unexpected_metadata no_records : SnapshotError

abbrev pub require_non_empty : List ℕ → Outcome SnapshotError (Unit {0})
require_non_empty value = bail_if (trim_is_empty value) empty_value

-- The loop of `reject_duplicates`.
abbrev pub distinct_values :
    BTreeMap (List ℕ) (Unit {0}) → List (List ℕ) → Outcome SnapshotError (Unit {0})
distinct_values seen [] = ok tt
distinct_values seen (value ∷ values) =
    let rest = distinct_values (insert value tt seen) values in
    require_non_empty value >> bail_if (contains_key value seen) duplicate_value >> rest

unfoldable pub reject_duplicates : Option (List (List ℕ)) → Outcome SnapshotError (Unit {0})
reject_duplicates none = ok tt
reject_duplicates (some values) = distinct_values [] values

pub record CultNetReadOnlySnapshotPolicy : Type 0 where
  pub allowed_records : BTreeMap (List ℕ × List ℕ) (Unit {0})

abbrev pub new : CultNetReadOnlySnapshotPolicy
new = record { allowed_records = [] }

unfoldable pub allow :
    List ℕ
    → List ℕ
    → CultNetReadOnlySnapshotPolicy
    → Outcome SnapshotError CultNetReadOnlySnapshotPolicy
allow schema_id record_key policy =
    require_non_empty schema_id
    >> require_non_empty record_key
    >> ok (record { allowed_records = insert (schema_id, record_key) tt policy.allowed_records })

abbrev pub allows : CultNetReadOnlySnapshotPolicy → List ℕ → List ℕ → Bool
allows policy schema_id record_key = contains_key (schema_id, record_key) policy.allowed_records

-- The records that the loop selects.
abbrev pub is_selected :
    CultNetReadOnlySnapshotPolicy
    → Option (List (List ℕ))
    → Option (List (List ℕ))
    → CultNetRawDocumentRecord
    → Bool
is_selected policy schema_ids record_keys document =
    allows policy document.schema_id document.record_key
    && is_requested schema_ids document.schema_id
    && is_requested record_keys document.record_key

abbrev is_some : Option CultNetDocumentBinding → Bool
is_some none = false
is_some (some found) = true

abbrev pub is_bound : CultNetDocumentRegistry → List ℕ → Bool
is_bound document_registry schema_id = is_some (binding_by_schema_id document_registry schema_id)

module _ (document_registry : CultNetDocumentRegistry)
    (policy : CultNetReadOnlySnapshotPolicy) where
  -- The loop over the source's records.
  unfoldable pub select :
      Option (List (List ℕ))
      → Option (List (List ℕ))
      → BTreeMap (List ℕ × List ℕ) (Unit {0})
      → List CultNetRawDocumentRecord
      → Outcome SnapshotError (List CultNetRawDocumentRecord)
  select schema_ids record_keys seen [] = ok []
  select schema_ids record_keys seen (document ∷ documents) =
      let identity : List ℕ × List ℕ = (document.schema_id, document.record_key) in
      let rest = select schema_ids record_keys (insert identity tt seen) documents in
      do
        bail_if (contains_key identity seen) duplicate_record
        bail_if (not (is_bound document_registry document.schema_id)) unregistered_schema
        selected ← rest
        ok (
            if is_selected policy schema_ids record_keys document
            then document ∷ selected
            else selected)

  unfoldable pub serve_read_only_raw_snapshot :
      Outcome SnapshotError (List CultNetRawDocumentRecord)
      → CultNetMessage
      → Outcome SnapshotError CultNetMessage
  serve_read_only_raw_snapshot source (Message.snapshot_request message_id schema_ids record_keys) =
      do
        require_non_empty message_id
        reject_duplicates schema_ids
        reject_duplicates record_keys
        documents ← source
        selected ← select schema_ids record_keys [] documents
        ok (Message.snapshot_response_raw message_id selected)
  serve_read_only_raw_snapshot source other = err expected_snapshot_request
