-- ===== src/Replication/Create.antt =====
-- src/replication.rs: the messages that the registry makes of values and of stored envelopes. The
-- packages serde_json, rmp_serde and cultcache are arguments, and the clock's reading is `now`.
use mathlib.Core.Option
use cultnet_rs.Base.{ℕ, List, [], ◌∷◌, ◌&&◌, if◌then◌else◌, Option, none}
use cultnet_rs.Base.Json.{Json}
use cultnet_rs.Base.Outcome.{Outcome, ok, ◌>>=◌}
use cultnet_rs.Base.Requested.{is_requested}
use cultnet_rs.Message
use cultnet_rs.Message.{
  CultNetDocumentRecord, CultNetRawDocumentRecord, CultNetMessage, messagepack,
}
use cultnet_rs.Replication.{
  ReplicationError, CultNetDocumentPutOptions, CultNetDocumentRegistry, require_binding,
}

abbrev pub Made : Type 0 → Type 0
Made A = Outcome ReplicationError A

-- `CultCacheEnvelope`.
pub record CultCacheEnvelope : Type 0 where
  pub key : List ℕ
  pub entry_type : List ℕ
  pub payload : List ℕ
  pub stored_at : List ℕ
  pub schema_id : Option (List ℕ)

-- A document type: its name, and what serde makes of its values.
pub record DatabaseEntry (T : Type 0) : Type 0 where
  pub entry_type : List ℕ
  pub to_value : T → Made Json
  pub from_value : Json → Made T
  pub to_vec : T → Made (List ℕ)
  pub from_slice : List ℕ → Made T

module _ {T : Type 0} (entry : DatabaseEntry T) (registry : CultNetDocumentRegistry) where
  abbrev pub round_trip_typed : T → Made T
  round_trip_typed value = entry.to_vec value >>= entry.from_slice

  unfoldable pub create_document_put_message :
      (now message_id record_key : List ℕ) → T → CultNetDocumentPutOptions → Made CultNetMessage
  create_document_put_message now message_id record_key value options = do
    binding ← require_binding registry entry.entry_type
    typed ← round_trip_typed value
    payload ← entry.to_value typed
    ok (
        Message.document_put message_id (record {
          schema_id = binding.schema_id;
          record_key = record_key;
          stored_at = Option.get_or options.stored_at now;
          payload = payload;
          source_runtime_id = options.source_runtime_id;
          source_agent_id = options.source_agent_id;
          source_role = options.source_role;
          tags = options.tags;
        }))

  unfoldable pub create_raw_document_put_message :
      (now message_id record_key : List ℕ) → T → CultNetDocumentPutOptions → Made CultNetMessage
  create_raw_document_put_message now message_id record_key value options = do
    binding ← require_binding registry entry.entry_type
    payload ← entry.to_vec value
    ok (
        Message.document_put_raw message_id (record {
          schema_id = binding.schema_id;
          record_key = record_key;
          stored_at = Option.get_or options.stored_at now;
          payload_encoding = messagepack;
          payload = payload;
          source_runtime_id = options.source_runtime_id;
          source_agent_id = options.source_agent_id;
          source_role = options.source_role;
          tags = options.tags;
        }))

abbrev pub create_document_delete_message :
    (message_id schema_id record_key : List ℕ) → CultNetMessage
create_document_delete_message message_id schema_id record_key =
    Message.document_delete message_id schema_id record_key

module _ (registry : CultNetDocumentRegistry) where
  -- The argument `decode` is `rmp_serde::from_slice` to a JSON value.
  unfoldable pub document_record_from_envelope :
      (decode : List ℕ → Made Json) → CultCacheEnvelope → Made CultNetDocumentRecord
  document_record_from_envelope decode envelope = do
    binding ← require_binding registry envelope.entry_type
    payload ← decode envelope.payload
    ok (record {
      schema_id = binding.schema_id;
      record_key = envelope.key;
      stored_at = envelope.stored_at;
      payload = payload;
      source_runtime_id = none;
      source_agent_id = none;
      source_role = none;
      tags = none;
    })

  unfoldable pub raw_document_record_from_envelope :
      CultCacheEnvelope → Made CultNetRawDocumentRecord
  raw_document_record_from_envelope envelope = do
    binding ← require_binding registry envelope.entry_type
    ok (record {
      schema_id = binding.schema_id;
      record_key = envelope.key;
      stored_at = envelope.stored_at;
      payload_encoding = messagepack;
      payload = envelope.payload;
      source_runtime_id = none;
      source_agent_id = none;
      source_role = none;
      tags = none;
    })

  unfoldable pub create_raw_document_put_message_from_envelope :
      (message_id : List ℕ) → CultCacheEnvelope → Made CultNetMessage
  create_raw_document_put_message_from_envelope message_id envelope = do
    document ← raw_document_record_from_envelope envelope
    ok (Message.document_put_raw message_id document)

  module _ (schema_ids record_keys : Option (List (List ℕ))) {D : Type 0}
      (record_of : CultCacheEnvelope → Made D) where
    -- The loop over the cache's envelopes.
    unfoldable pub requested_documents : List CultCacheEnvelope → Made (List D)
    requested_documents [] = ok []
    requested_documents (envelope ∷ envelopes) =
        let rest = requested_documents envelopes in
        do
          binding ← require_binding registry envelope.entry_type
          if is_requested schema_ids binding.schema_id && is_requested record_keys envelope.key
              then (record_of envelope >>= λ document.
                  rest >>= λ documents. ok (document ∷ documents))
              else rest

  -- The argument `envelopes` is `cache.snapshot()`.
  unfoldable pub create_snapshot_response :
      (decode : List ℕ → Made Json)
      → List CultCacheEnvelope
      → (message_id : List ℕ) (schema_ids record_keys : Option (List (List ℕ)))
      → Made CultNetMessage
  create_snapshot_response decode envelopes message_id schema_ids record_keys =
      requested_documents schema_ids record_keys (document_record_from_envelope decode) envelopes
      >>= λ documents. ok (Message.snapshot_response message_id documents)

  unfoldable pub create_raw_snapshot_response :
      List CultCacheEnvelope
      → (message_id : List ℕ) (schema_ids record_keys : Option (List (List ℕ)))
      → Made CultNetMessage
  create_raw_snapshot_response envelopes message_id schema_ids record_keys =
      requested_documents schema_ids record_keys raw_document_record_from_envelope envelopes
      >>= λ documents. ok (Message.snapshot_response_raw message_id documents)
