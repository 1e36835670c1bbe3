-- ===== src/Replication/Apply.antt =====
-- src/replication.rs: the messages that the registry applies to a cache of the package cultcache.
-- A method on `&mut cache` gives its outcome and the cache that it leaves.
use cultnet_rs.Base.{ℕ, List, [], ◌∷◌, Bool, if◌then◌else◌, some}
use cultnet_rs.Base.Text.{codes}
use cultnet_rs.Base.Outcome.{ok}
use cultnet_rs.Base.Order.{bytes_eq}
use cultnet_rs.Base.Stateful.{Stateful, ◌>>=◌, pure, fail}
use cultnet_rs.Message
use cultnet_rs.Message.{CultNetDocumentRecord, CultNetRawDocumentRecord, CultNetMessage}
use cultnet_rs.Replication.{
  ReplicationError, CultNetDocumentBinding, CultNetDocumentRegistry, require_binding,
  unexpected_message, schema_mismatch,
}
use cultnet_rs.Replication.Create.{CultCacheEnvelope, DatabaseEntry}

-- The operations of a `CultCache` on one document type.
pub record CultCache (C T : Type 0) : Type 0 where
  pub put : List ℕ → T → Stateful C ReplicationError T
  pub put_envelope : CultCacheEnvelope → Stateful C ReplicationError T
  pub delete : List ℕ → Stateful C ReplicationError Bool

abbrev pub raw_envelope : CultNetDocumentBinding → CultNetRawDocumentRecord → CultCacheEnvelope
raw_envelope binding document = record {
  key = document.record_key;
  entry_type = binding.document_type;
  payload = document.payload;
  stored_at = document.stored_at;
  schema_id = some binding.schema_id;
}

module _ {C T : Type 0} (entry : DatabaseEntry T) (cache : CultCache C T)
    (registry : CultNetDocumentRegistry) where
  unfoldable pub apply_document_put_message : CultNetMessage → Stateful C ReplicationError T
  apply_document_put_message (Message.document_put message_id document) =
      pure (require_binding registry entry.entry_type) >>= λ binding.
      if bytes_eq document.schema_id binding.schema_id
      then pure (entry.from_value document.payload) >>= cache.put document.record_key
      else fail schema_mismatch
  apply_document_put_message other = fail unexpected_message

  unfoldable pub apply_document_delete_message : CultNetMessage → Stateful C ReplicationError Bool
  apply_document_delete_message (Message.document_delete message_id schema_id record_key) =
      pure (require_binding registry entry.entry_type) >>= λ binding.
      if bytes_eq schema_id binding.schema_id then cache.delete record_key else fail schema_mismatch
  apply_document_delete_message other = fail unexpected_message

  unfoldable pub apply_raw_document_put_message : CultNetMessage → Stateful C ReplicationError T
  apply_raw_document_put_message (Message.document_put_raw message_id document) =
      pure (require_binding registry entry.entry_type) >>= λ binding.
      if bytes_eq document.schema_id binding.schema_id
      then cache.put_envelope (raw_envelope binding document)
      else fail schema_mismatch
  apply_raw_document_put_message other = fail unexpected_message

  -- The loop of `apply_snapshot_response`.
  unfoldable pub apply_documents :
      CultNetDocumentBinding → List CultNetDocumentRecord → Stateful C ReplicationError (List T)
  apply_documents binding [] = pure (ok [])
  apply_documents binding (document ∷ documents) =
      let rest = apply_documents binding documents in
      if bytes_eq document.schema_id binding.schema_id
      then (apply_document_put_message (Message.document_put (codes "snapshot-apply") document)
          >>= λ applied. rest >>= λ others. pure (ok (applied ∷ others)))
      else rest

  unfoldable pub apply_snapshot_response : CultNetMessage → Stateful C ReplicationError (List T)
  apply_snapshot_response (Message.snapshot_response message_id documents) =
      pure (require_binding registry entry.entry_type) >>= λ binding.
      apply_documents binding documents
  apply_snapshot_response other = fail unexpected_message

  -- The loop of `apply_raw_snapshot_response`.
  unfoldable pub apply_raw_documents :
      CultNetDocumentBinding → List CultNetRawDocumentRecord → Stateful C ReplicationError (List T)
  apply_raw_documents binding [] = pure (ok [])
  apply_raw_documents binding (document ∷ documents) =
      let rest = apply_raw_documents binding documents in
      if bytes_eq document.schema_id binding.schema_id
      then (apply_raw_document_put_message
            (Message.document_put_raw (codes "snapshot-apply-raw") document)
          >>= λ applied. rest >>= λ others. pure (ok (applied ∷ others)))
      else rest

  unfoldable pub apply_raw_snapshot_response : CultNetMessage → Stateful C ReplicationError (List T)
  apply_raw_snapshot_response (Message.snapshot_response_raw message_id documents) =
      pure (require_binding registry entry.entry_type) >>= λ binding.
      apply_raw_documents binding documents
  apply_raw_snapshot_response other = fail unexpected_message
