-- ===== src/Replication/Copies.antt =====
-- src/replication.rs: a raw snapshot copies the envelopes of one cache to another.
use cultnet_rs.Base.{
  ℕ, ◌≡◌, refl, List, [], ◌∷◌, Bool, true, ◌&&◌, if◌then◌else◌, Option, some, Bool-cases, inl, inr,
  arith,
}
use mathlib.Core.Path.{fun_ext}
use cultnet_rs.Base.Outcome.{Outcome, ok, ◌>>=◌, >>=-eq-ok, ok-injective}
use cultnet_rs.Base.Order.{bytes_eq}
use cultnet_rs.Base.Requested.{is_requested}
use cultnet_rs.Base.Stateful.{traverse}
use cultnet_rs.Message.{CultNetRawDocumentRecord, CultNetMessage, document_put_raw}
use cultnet_rs.Replication.{
  ReplicationError, CultNetDocumentBinding, CultNetDocumentRegistry, require_binding,
}
use cultnet_rs.Replication.Create.{
  Made, CultCacheEnvelope, DatabaseEntry, raw_document_record_from_envelope, requested_documents,
  create_raw_snapshot_response,
}
use cultnet_rs.Replication.Apply.{
  CultCache, raw_envelope, apply_raw_document_put_message, apply_raw_documents,
  apply_raw_snapshot_response,
}

-- An envelope as the receiver's binding stores it.
abbrev pub copy : CultNetDocumentBinding → CultCacheEnvelope → CultCacheEnvelope
copy target envelope = record envelope {
  entry_type = target.document_type;
  schema_id = some target.schema_id;
}

-- The envelopes that the receiver puts for a list of records.
unfoldable pub received :
    CultNetDocumentBinding → List CultNetRawDocumentRecord → List CultCacheEnvelope
received target [] = []
received target (document ∷ documents) =
    if bytes_eq document.schema_id target.schema_id
    then raw_envelope target document ∷ received target documents
    else received target documents

module _ {C T : Type 0} (entry : DatabaseEntry T) (cache : CultCache C T)
    (registry : CultNetDocumentRegistry) (target : CultNetDocumentBinding)
    (bound : require_binding registry entry.entry_type ≡ ok target) where
  put-received :
      (message_id : List ℕ) (document : CultNetRawDocumentRecord)
      → bytes_eq document.schema_id target.schema_id ≡ true
      → apply_raw_document_put_message entry cache registry (document_put_raw message_id document)
        ≡ cache.put_envelope (raw_envelope target document)
  unfolding apply_raw_document_put_message
  put-received message_id document same = fun_ext (λ state. rw bound (rw same refl))

  apply-received :
      (documents : List CultNetRawDocumentRecord)
      → apply_raw_documents entry cache registry target documents
        ≡ traverse cache.put_envelope (received target documents)
  unfolding apply_raw_documents traverse received
  apply-received [] = refl
  apply-received (document ∷ documents) =
      elim (Bool-cases (bytes_eq document.schema_id target.schema_id)) [
        | inl same ↦ rw (same, put-received _ document same, apply-received documents) refl
        | inr other ↦ rw (other, apply-received documents) refl
      ]

module _ (registry : CultNetDocumentRegistry) (schema_ids record_keys : Option (List (List ℕ)))
    (target : CultNetDocumentBinding) where
  abbrev pub is_copied : CultNetDocumentBinding → CultCacheEnvelope → Bool
  is_copied source envelope =
      is_requested schema_ids source.schema_id
      && is_requested record_keys envelope.key
      && bytes_eq source.schema_id target.schema_id

  abbrev pub prepend_copy :
      Outcome ReplicationError CultNetDocumentBinding
      → CultCacheEnvelope
      → List CultCacheEnvelope
      → List CultCacheEnvelope
  prepend_copy (ok source) envelope rest =
      if is_copied source envelope then copy target envelope ∷ rest else rest
  prepend_copy unbound envelope rest = rest

  -- The envelopes that are asked for and whose schema is the receiver's, each as the receiver stores it.
  unfoldable pub copies : List CultCacheEnvelope → List CultCacheEnvelope
  copies [] = []
  copies (envelope ∷ envelopes) =
      prepend_copy (require_binding registry envelope.entry_type) envelope (copies envelopes)

  -- One round of the loop.
  received_step :
      (source : CultNetDocumentBinding) (envelope : CultCacheEnvelope)
      → require_binding registry envelope.entry_type ≡ ok source
      → (rest : Made (List CultNetRawDocumentRecord)) (copied : List CultCacheEnvelope)
      → ((documents : List CultNetRawDocumentRecord)
          → rest ≡ ok documents
          → received target documents ≡ copied)
      → (documents : List CultNetRawDocumentRecord)
      → (if is_requested schema_ids source.schema_id && is_requested record_keys envelope.key
          then (raw_document_record_from_envelope registry envelope >>= λ document.
              rest >>= λ others. ok (document ∷ others))
          else rest)
        ≡ ok documents
      → received target documents ≡ prepend_copy (ok source) envelope copied
  unfolding received raw_document_record_from_envelope
  received_step source envelope found rest copied ih documents e =
      elim (Bool-cases
        (is_requested schema_ids source.schema_id && is_requested record_keys envelope.key)) [
          | inl asked ↦
              let (document, made, e1) =
                >>=-eq-ok _ (raw_document_record_from_envelope registry envelope) (rw asked at e) in
              let (others, made_rest, e2) = >>=-eq-ok _ rest e1 in
              ground (arith, asked, found, made, ih others, e2)
          | inr not_asked ↦ ground (arith, not_asked, ih documents)
        ]

  received-requested :
      (envelopes : List CultCacheEnvelope) (documents : List CultNetRawDocumentRecord)
      → requested_documents registry schema_ids record_keys
          (raw_document_record_from_envelope registry)
          envelopes
        ≡ ok documents
      → received target documents ≡ copies envelopes
  unfolding requested_documents received copies raw_document_record_from_envelope
  received-requested [] documents e = rw (← ok-injective e) refl
  received-requested (envelope ∷ envelopes) documents e =
      let (source, found, e1) = >>=-eq-ok _ (require_binding registry envelope.entry_type) e in
      rw found (
        received_step source envelope found _ (copies envelopes) (received-requested envelopes)
          documents e1)

-- A raw snapshot that a registry makes of a cache's envelopes, applied to another cache under a registry that binds
-- the document type, puts there exactly the envelopes that were asked for and whose schema is the type's, one
-- after the other until a put fails: each with its key, bytes and time, under the receiver's type and schema.
pub apply-create :
    (sender receiver : CultNetDocumentRegistry) (target : CultNetDocumentBinding)
    (schema_ids record_keys : Option (List (List ℕ))) {C T : Type 0} (entry : DatabaseEntry T)
    (cache : CultCache C T) (envelopes : List CultCacheEnvelope) (message_id : List ℕ)
    (message : CultNetMessage) (state : C)
    → require_binding receiver entry.entry_type ≡ ok target
    → create_raw_snapshot_response sender envelopes message_id schema_ids record_keys ≡ ok message
    → apply_raw_snapshot_response entry cache receiver message state
      ≡ traverse cache.put_envelope (copies sender schema_ids record_keys target envelopes) state
unfolding create_raw_snapshot_response apply_raw_snapshot_response
apply-create sender receiver target schema_ids record_keys entry cache envelopes message_id message
      state bound created =
    let (documents, made, e) =
      >>=-eq-ok _
        (requested_documents sender schema_ids record_keys
          (raw_document_record_from_envelope sender) envelopes)
        created in
    let copied = received-requested sender schema_ids record_keys target envelopes documents made in
    rw (← ok-injective e, bound, apply-received entry cache receiver target bound documents, copied)
      refl
