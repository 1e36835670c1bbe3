-- ===== src/Snapshot/Query.antt =====
-- src/snapshot_query.rs: the client's query of a raw snapshot.
use cultnet_rs.Base.{
  ℕ, List, [], ◌∷◌, Bool, true, false, not, is_empty, if◌then◌else◌, Option, none, some,
}
use cultnet_rs.Base.Outcome.{Outcome, ok, err, ◌>>=◌, ◌>>◌, bail_if}
use cultnet_rs.Base.BTreeMap.{BTreeMap, get, insert, contains_key, keys}
use cultnet_rs.Base.Order.{bytes_ord, pair_ord, bytes_eq}
use cultnet_rs.Message
use cultnet_rs.Message.{CultNetMessage, CultNetRawDocumentRecord}
use cultnet_rs.Snapshot.{
  SnapshotError, require_non_empty, duplicate_record, expected_snapshot_response,
  unknown_message_id, unexpected_record, unexpected_metadata, no_records,
}

pub record CultNetSnapshotSourceExpectation : Type 0 where
  pub runtime_id : Option (List ℕ)
  pub agent_id : Option (List ℕ)
  pub role : Option (List ℕ)
  pub tags : Option (List (List ℕ))

pub record CultNetSnapshotRecordExpectation : Type 0 where
  pub schema_id : List ℕ
  pub record_key : List ℕ
  pub source : CultNetSnapshotSourceExpectation

-- `CultNetSnapshotRecordExpectation::new`.
abbrev pub expect_record : (schema_id record_key : List ℕ) → CultNetSnapshotRecordExpectation
expect_record schema_id record_key = record {
  schema_id = schema_id;
  record_key = record_key;
  source = record { runtime_id = none; agent_id = none; role = none; tags = none };
}

abbrev pub Expectations : Type 0
Expectations = BTreeMap (List ℕ × List ℕ) CultNetSnapshotSourceExpectation

pub record CultNetRawSnapshotQuery : Type 0 where
  pub message_id : List ℕ
  pub expectations : Expectations

-- The loop of `CultNetRawSnapshotQuery::new`.
unfoldable pub expect_all :
    Expectations → List CultNetSnapshotRecordExpectation → Outcome SnapshotError Expectations
expect_all expectations [] = ok expectations
expect_all expectations (wanted ∷ records) =
    let identity : List ℕ × List ℕ = (wanted.schema_id, wanted.record_key) in
    let rest = expect_all (insert identity wanted.source expectations) records in
    do
      require_non_empty wanted.schema_id
      require_non_empty wanted.record_key
      bail_if (contains_key identity expectations) duplicate_record
      rest

-- `CultNetRawSnapshotQuery::new`.
unfoldable pub query :
    (message_id : List ℕ)
    → List CultNetSnapshotRecordExpectation
    → Outcome SnapshotError CultNetRawSnapshotQuery
query message_id records = do
  require_non_empty message_id
  bail_if (is_empty records) no_records
  expectations ← expect_all [] records
  ok (record { message_id = message_id; expectations = expectations })

-- `collect::<BTreeSet<_>>()`.
abbrev pub to_set : List (List ℕ) → BTreeMap (List ℕ) (Unit {0})
to_set [] = []
to_set (value ∷ values) = insert value tt (to_set values)

abbrev pub schema_ids : List (List ℕ × List ℕ) → List (List ℕ)
schema_ids [] = []
schema_ids ((schema_id, record_key) ∷ rest) = schema_id ∷ schema_ids rest

abbrev pub record_keys : List (List ℕ × List ℕ) → List (List ℕ)
record_keys [] = []
record_keys ((schema_id, record_key) ∷ rest) = record_key ∷ record_keys rest

abbrev pub asked_schemas : CultNetRawSnapshotQuery → Option (List (List ℕ))
asked_schemas query = some (keys (to_set (schema_ids (keys query.expectations))))

abbrev pub asked_keys : CultNetRawSnapshotQuery → Option (List (List ℕ))
asked_keys query = some (keys (to_set (record_keys (keys query.expectations))))

unfoldable pub request : CultNetRawSnapshotQuery → CultNetMessage
request query = Message.snapshot_request query.message_id (asked_schemas query) (asked_keys query)

abbrev pub is_value : Option (List ℕ) → List ℕ → Bool
is_value none expected = false
is_value (some actual) expected = bytes_eq actual expected

-- Equality of `Vec<String>`.
abbrev pub lists_eq : List (List ℕ) → List (List ℕ) → Bool
lists_eq [] [] = true
lists_eq [] (y ∷ ys) = false
lists_eq (x ∷ xs) [] = false
lists_eq (x ∷ xs) (y ∷ ys) = if bytes_eq x y then lists_eq xs ys else false

abbrev pub are_tags : Option (List (List ℕ)) → List (List ℕ) → Bool
are_tags none expected = false
are_tags (some actual) expected = lists_eq actual expected

abbrev pub require_expected_metadata :
    Option (List ℕ) → Option (List ℕ) → Outcome SnapshotError (Unit {0})
require_expected_metadata none actual = ok tt
require_expected_metadata (some expected) actual =
    bail_if (not (is_value actual expected)) unexpected_metadata

abbrev pub require_expected_tags :
    Option (List (List ℕ)) → Option (List (List ℕ)) → Outcome SnapshotError (Unit {0})
require_expected_tags none actual = ok tt
require_expected_tags (some expected) actual =
    bail_if (not (are_tags actual expected)) unexpected_metadata

abbrev pub expected_source :
    Option CultNetSnapshotSourceExpectation → Outcome SnapshotError CultNetSnapshotSourceExpectation
expected_source none = err unexpected_record
expected_source (some source) = ok source

abbrev pub identity : CultNetRawDocumentRecord → List ℕ × List ℕ
identity document = (document.schema_id, document.record_key)

-- The checks of one record of a response, after that of its identity.
unfoldable pub check_record :
    Expectations → CultNetRawDocumentRecord → Outcome SnapshotError (Unit {0})
check_record expectations document = do
  expected ← expected_source (get (identity document) expectations)
  require_expected_metadata expected.runtime_id document.source_runtime_id
  require_expected_metadata expected.agent_id document.source_agent_id
  require_expected_metadata expected.role document.source_role
  require_expected_tags expected.tags document.tags

-- The loop of `accept_response`.
unfoldable pub check_records :
    Expectations
    → BTreeMap (List ℕ × List ℕ) (Unit {0})
    → List CultNetRawDocumentRecord
    → Outcome SnapshotError (Unit {0})
check_records expectations seen [] = ok tt
check_records expectations seen (document ∷ documents) =
    let rest = check_records expectations (insert (identity document) tt seen) documents in
    do
      bail_if (contains_key (identity document) seen) duplicate_record
      check_record expectations document
      rest

unfoldable pub accept_response :
    CultNetRawSnapshotQuery → CultNetMessage → Outcome SnapshotError (List CultNetRawDocumentRecord)
accept_response query (Message.snapshot_response_raw message_id documents) = do
  bail_if (not (bytes_eq message_id query.message_id)) unknown_message_id
  check_records query.expectations [] documents
  ok documents
accept_response query other = err expected_snapshot_response

unfoldable pub query_read_only_raw_snapshot :
    CultNetRawSnapshotQuery
    → (exchange : CultNetMessage → Outcome SnapshotError CultNetMessage)
    → Outcome SnapshotError (List CultNetRawDocumentRecord)
query_read_only_raw_snapshot query exchange = exchange (request query) >>= accept_response query
