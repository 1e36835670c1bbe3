-- ===== src/Message/Validate.antt =====
-- src/contracts.rs: `validate_message` and the checks of the records in a message.
use cultnet_rs.Base.{ℕ, List, Option, none, some, is_empty}
use cultnet_rs.Base.Outcome.{Outcome, ok, ◌>>◌, bail_if}
use cultnet_rs.Base.Text.{trim_is_empty}
use cultnet_rs.Base.Traverse.{for_each, for_some}
use cultnet_rs.Message
use cultnet_rs.Message.{
  CultNetDocumentMutationContract, CultNetDocumentRecord, CultNetRawDocumentRecord,
  CultNetSchemaDescriptor, Hello, CultNetMessage, MessageError, empty_field, no_operations,
  empty_payload, no_wire_contracts,
}

abbrev pub Check : Type 0
Check = Outcome MessageError (Unit {0})

abbrev pub require_non_empty : List ℕ → Check
require_non_empty value = bail_if (trim_is_empty value) empty_field

abbrev pub require_optional_non_empty : Option (List ℕ) → Check
require_optional_non_empty none = ok tt
require_optional_non_empty (some value) = require_non_empty value

abbrev pub require_optional_string_vec : Option (List (List ℕ)) → Check
require_optional_string_vec = for_some require_non_empty

unfoldable pub validate_mutation_contract : CultNetDocumentMutationContract → Check
validate_mutation_contract contract = do
  require_non_empty contract.document_type
  require_optional_non_empty contract.payload_schema_version
  bail_if (is_empty contract.operations) no_operations
  require_optional_string_vec contract.intent_document_types
  require_optional_string_vec contract.receipt_document_types
  require_optional_string_vec contract.notes

unfoldable pub validate_document_record : CultNetDocumentRecord → Check
validate_document_record document = do
  require_non_empty document.schema_id
  require_non_empty document.record_key
  require_non_empty document.stored_at
  require_optional_non_empty document.source_runtime_id
  require_optional_non_empty document.source_agent_id
  require_optional_non_empty document.source_role
  require_optional_string_vec document.tags

unfoldable pub validate_raw_document_record : CultNetRawDocumentRecord → Check
validate_raw_document_record document = do
  require_non_empty document.schema_id
  require_non_empty document.record_key
  require_non_empty document.stored_at
  bail_if (is_empty document.payload) empty_payload
  require_optional_non_empty document.source_runtime_id
  require_optional_non_empty document.source_agent_id
  require_optional_non_empty document.source_role
  require_optional_string_vec document.tags

unfoldable pub validate_schema_descriptor : CultNetSchemaDescriptor → Check
validate_schema_descriptor schema = do
  require_non_empty schema.schema_id
  require_optional_non_empty schema.schema_version
  require_optional_non_empty schema.document_type
  require_optional_non_empty schema.title
  require_non_empty schema.content_hash
  require_optional_non_empty schema.schema_json
  bail_if (is_empty schema.wire_contracts) no_wire_contracts

abbrev validate_hello : Hello → Check
validate_hello h = do
  require_non_empty h.runtime_id
  require_non_empty h.runtime_kind
  require_optional_non_empty h.agent_id
  require_optional_non_empty h.role
  require_optional_non_empty h.display_name
  require_optional_string_vec h.supported_document_types
  for_some validate_mutation_contract h.supported_mutation_contracts
  require_optional_string_vec h.supported_message_versions

unfoldable pub validate_message : CultNetMessage → Check
validate_message (Message.hello h) = validate_hello h
validate_message (Message.login nonce auth password) = do
  require_non_empty nonce
  require_non_empty auth
  require_non_empty password
validate_message (Message.register nonce email password name) = do
  require_non_empty nonce
  require_non_empty email
  require_non_empty password
  require_non_empty name
validate_message (Message.verify nonce session) = do
  require_non_empty nonce
  require_non_empty session
validate_message (Message.login_success nonce session) = do
  require_non_empty nonce
  require_non_empty session
validate_message (Message.error error) = require_non_empty error
validate_message (Message.sample_change_name name) = require_non_empty name
validate_message (Message.sample_chat text) = require_non_empty text
validate_message (Message.document_put message_id document) = do
  require_non_empty message_id
  validate_document_record document
validate_message (Message.document_delete message_id schema_id record_key) = do
  require_non_empty message_id
  require_non_empty schema_id
  require_non_empty record_key
validate_message (Message.document_put_raw message_id document) = do
  require_non_empty message_id
  validate_raw_document_record document
validate_message (Message.snapshot_request message_id schema_ids record_keys) = do
  require_non_empty message_id
  require_optional_string_vec schema_ids
  require_optional_string_vec record_keys
validate_message (Message.snapshot_response message_id documents) = do
  require_non_empty message_id
  for_each validate_document_record documents
validate_message (Message.snapshot_response_raw message_id documents) = do
  require_non_empty message_id
  for_each validate_raw_document_record documents
validate_message (Message.schema_catalog_request message_id include_schema_json schema_ids kinds) =
    do require_non_empty message_id; require_optional_string_vec schema_ids
validate_message (Message.schema_catalog_response message_id schemas) = do
  require_non_empty message_id
  for_each validate_schema_descriptor schemas
