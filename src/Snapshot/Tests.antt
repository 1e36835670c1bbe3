-- ===== src/Snapshot/Tests.antt =====
-- src/snapshot_query.rs: the server of raw snapshots on two records, of which the policy allows one.
use cultnet_rs.Base.{ℕ, ◌≡◌, refl, List, [], ◌∷◌, false, none, some, All, ◌↔◌, inl}
use cultnet_rs.Base.Outcome.{ok, err}
use cultnet_rs.Base.BTreeMap.{get, insert, contains_key}
use cultnet_rs.Base.Order.{bytes_ord, pair_ord}
use cultnet_rs.Base.Text.{codes, trim_is_empty, chars, chars?, is_whitespace}
use cultnet_rs.Message.{
  CultNetMessage, CultNetRawDocumentRecord, messagepack, snapshot_request, snapshot_response_raw,
}
use cultnet_rs.Replication.{CultNetDocumentRegistry, for_entry, register, binding_by_schema_id, new}
use cultnet_rs.Snapshot.{CultNetReadOnlySnapshotPolicy, unexpected_record}
use cultnet_rs.Snapshot.{serve_read_only_raw_snapshot, select}
use cultnet_rs.Snapshot.{reject_duplicates}
use cultnet_rs.Snapshot.Grants.{IsGranted, IsRegistered, serve-Picks}
use cultnet_rs.Snapshot.Picks.{Picks, contains_key_iff}
use cultnet_rs.Snapshot.Query.{
  CultNetRawSnapshotQuery, expect_record, identity, expect_all, query, request, accept_response,
  check_records, check_record, query_read_only_raw_snapshot,
}
use cultnet_rs.Snapshot.Accepted.{IsExpected, Distinct, accept_response-IsExpected}
use cultnet_rs.Snapshot.Exchange.{IsAskedFor, IsWanted, query-serve}

abbrev document : List ℕ → CultNetRawDocumentRecord
document record_key = record {
  schema_id = codes "s";
  record_key = record_key;
  stored_at = [];
  payload_encoding = messagepack;
  payload = [];
  source_runtime_id = none;
  source_agent_id = none;
  source_role = none;
  tags = none;
}

abbrev documents : List CultNetRawDocumentRecord
documents = document (codes "a") ∷ document (codes "b") ∷ []

abbrev policy : CultNetReadOnlySnapshotPolicy
policy = record { allowed_records = ((codes "s", codes "b"), tt) ∷ [] }

abbrev response : CultNetMessage
response = snapshot_response_raw (codes "m") (document (codes "b") ∷ [])

abbrev registry : CultNetDocumentRegistry
registry = register (for_entry (codes "s") none) new

served :
    serve_read_only_raw_snapshot registry policy
      (ok documents)
      (snapshot_request (codes "m") (some (codes "s" ∷ [])) none)
    ≡ ok response
unfolding serve_read_only_raw_snapshot select reject_duplicates insert contains_key trim_is_empty
    chars chars? is_whitespace register binding_by_schema_id get
served = refl

serve-Picks_example :
    (given : List CultNetRawDocumentRecord) × (response ≡ snapshot_response_raw (codes "m") given)
    × Picks (IsGranted policy (some (codes "s" ∷ [])) none) documents given
    × All (IsRegistered registry) documents
serve-Picks_example =
    serve-Picks registry policy (codes "m") (some (codes "s" ∷ [])) none documents response served

abbrev wanted : CultNetRawSnapshotQuery
wanted = record {
  message_id = codes "m";
  expectations = ((codes "s", codes "b"), (expect_record (codes "s") (codes "b")).source) ∷ [];
}

wanted_made : query (codes "m") (expect_record (codes "s") (codes "b") ∷ []) ≡ ok wanted
unfolding query expect_all insert contains_key trim_is_empty chars chars? is_whitespace
wanted_made = refl

wanted_served :
    serve_read_only_raw_snapshot registry policy (ok documents) (request wanted) ≡ ok response
unfolding serve_read_only_raw_snapshot select reject_duplicates insert contains_key trim_is_empty
    chars chars? is_whitespace register binding_by_schema_id get request
wanted_served = refl

b-IsExpected : IsExpected wanted.expectations (document (codes "b"))
unfolding get
b-IsExpected =
    ((expect_record (codes "s") (codes "b")).source, refl, inl refl, inl refl, inl refl, inl refl)

a_refused : contains_key (identity (document (codes "a"))) policy.allowed_records ≡ false
unfolding contains_key
a_refused = refl

All-IsExpected :
    All
      (λ document. IsAskedFor policy wanted document → IsExpected wanted.expectations document)
      documents
All-IsExpected = (
  λ asked.
      let allowed =
        (contains_key_iff (identity (document (codes "a"))) policy.allowed_records).1 asked.0 in
      let none_such = a_refused in cc,
  ((λ asked. b-IsExpected), tt),
)

query-serve_example :
    (given : List CultNetRawDocumentRecord) × (query_read_only_raw_snapshot wanted
        (serve_read_only_raw_snapshot registry policy (ok documents))
      ≡ ok given)
    × Picks (IsWanted policy wanted) documents given
query-serve_example =
    query-serve registry policy wanted documents response wanted_served All-IsExpected

accept_response-IsExpected_example :
    (accept_response wanted response ≡ ok (document (codes "b") ∷ [])) ↔ (
      (response ≡ snapshot_response_raw (codes "m") (document (codes "b") ∷ []))
      × All (IsExpected wanted.expectations) (document (codes "b") ∷ [])
      × Distinct (document (codes "b") ∷ []))
accept_response-IsExpected_example =
    accept_response-IsExpected wanted response (document (codes "b") ∷ [])

-- The request of a query names schemas and keys apart from each other, so a server that grants another pair of
-- them answers with a record that the query did not ask for, and the query refuses the answer.
abbrev two : CultNetRawSnapshotQuery
two = record {
  message_id = codes "m";
  expectations =
      ((codes "s", codes "a"), (expect_record (codes "s") (codes "a")).source)
      ∷ ((codes "t", codes "b"), (expect_record (codes "t") (codes "b")).source)
      ∷ [];
}

two_refused :
    query_read_only_raw_snapshot two (serve_read_only_raw_snapshot registry policy (ok documents))
    ≡ err unexpected_record
unfolding query_read_only_raw_snapshot serve_read_only_raw_snapshot select reject_duplicates insert
    contains_key trim_is_empty chars chars? is_whitespace register binding_by_schema_id get request
    accept_response check_records check_record
two_refused = refl
