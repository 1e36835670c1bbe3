-- ===== src/Replication/Tests.antt =====
-- src/replication.rs: a registry of two types, and a cache that keeps the envelopes put into it.
use cultnet_rs.Base.{ℕ, ◌≡◌, refl, List, [], ◌∷◌, ◌++◌, false, none, some}
use cultnet_rs.Base.Text.{codes}
use cultnet_rs.Base.Json.{null}
use cultnet_rs.Base.Outcome.{ok, err}
use cultnet_rs.Base.Stateful.{traverse}
use cultnet_rs.Base.BTreeMap.{get, insert}
use cultnet_rs.Message.{
  CultNetMessage, CultNetRawDocumentRecord, messagepack, snapshot_response_raw,
}
use cultnet_rs.Replication.{
  CultNetDocumentBinding, CultNetDocumentRegistry, register, binding, binding_by_schema_id,
  require_binding, new, for_entry, for_entry_with_schema_id, serialization,
}
use cultnet_rs.Replication.Create.{
  CultCacheEnvelope, DatabaseEntry, create_raw_snapshot_response, requested_documents,
  raw_document_record_from_envelope,
}
use cultnet_rs.Replication.Apply.{CultCache, apply_raw_snapshot_response}
use cultnet_rs.Replication.Copies.{copies, apply-create}
use cultnet_rs.Replication.Registered.{registered, last_with, registered-last_with, register-stale}

-- Values are their bytes.
abbrev entry : DatabaseEntry (List ℕ)
entry = record {
  entry_type = codes "note";
  to_value = λ bytes. ok null;
  from_value = λ payload. err serialization;
  to_vec = ok;
  from_slice = ok;
}

abbrev cache : CultCache (List CultCacheEnvelope) (List ℕ)
cache = record {
  put = λ key bytes envelopes. (err serialization, envelopes);
  put_envelope = λ envelope envelopes. (ok envelope.payload, envelopes ++ (envelope ∷ []));
  delete = λ key envelopes. (ok false, envelopes);
}

abbrev note : CultNetDocumentBinding
note = for_entry_with_schema_id (codes "note") (codes "note.v1") none

abbrev renamed : CultNetDocumentBinding
renamed = for_entry_with_schema_id (codes "note") (codes "note.v2") none

abbrev task : CultNetDocumentBinding
task = for_entry (codes "task") none

abbrev registry : CultNetDocumentRegistry
registry = registered (task ∷ note ∷ [])

abbrev envelope : List ℕ → List ℕ → CultCacheEnvelope
envelope entry_type key = record {
  key = key;
  entry_type = entry_type;
  payload = 7 ∷ [];
  stored_at = codes "now";
  schema_id = none;
}

abbrev envelopes : List CultCacheEnvelope
envelopes = envelope (codes "task") (codes "a") ∷ envelope (codes "note") (codes "b") ∷ []

abbrev record_of : List ℕ → List ℕ → CultNetRawDocumentRecord
record_of schema_id key = record {
  schema_id = schema_id;
  record_key = key;
  stored_at = codes "now";
  payload_encoding = messagepack;
  payload = 7 ∷ [];
  source_runtime_id = none;
  source_agent_id = none;
  source_role = none;
  tags = none;
}

abbrev response : CultNetMessage
response =
    snapshot_response_raw (codes "m")
      (record_of (codes "task") (codes "a") ∷ record_of (codes "note.v1") (codes "b") ∷ [])

created : create_raw_snapshot_response registry envelopes (codes "m") none none ≡ ok response
unfolding create_raw_snapshot_response requested_documents raw_document_record_from_envelope
    require_binding binding register get insert
created = refl

bound : require_binding registry (codes "note") ≡ ok note
unfolding require_binding binding register get insert
bound = refl

apply-create_example :
    apply_raw_snapshot_response entry cache registry response []
    ≡ traverse cache.put_envelope (copies registry none none note envelopes) []
apply-create_example =
    apply-create registry registry note none none entry cache envelopes (codes "m") response []
      bound created

one_copy :
    copies registry none none note envelopes
    ≡ record (envelope (codes "note") (codes "b")) { schema_id = some (codes "note.v1") } ∷ []
unfolding copies require_binding binding register get insert
one_copy = refl

registered-last_with_example :
    (binding (registered (renamed ∷ task ∷ note ∷ [])) (codes "note")
      ≡ last_with (λ b. b.document_type) (codes "note") (renamed ∷ task ∷ note ∷ []))
    × (binding_by_schema_id (registered (renamed ∷ task ∷ note ∷ [])) (codes "note")
        ≡ last_with (λ b. b.schema_id) (codes "note") (renamed ∷ task ∷ note ∷ []))
registered-last_with_example = registered-last_with (renamed ∷ task ∷ note ∷ []) (codes "note")

register-stale_example :
    (binding_by_schema_id (register renamed (register note new)) (codes "note.v1") ≡ some note)
    × (binding (register renamed (register note new)) (codes "note") ≡ some renamed)
register-stale_example = register-stale note renamed new refl refl
