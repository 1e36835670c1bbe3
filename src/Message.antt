-- ===== src/Message.antt =====
-- src/contracts.rs: the messages that nodes exchange, and the records in them. The children are
-- their validation and their two wire contracts.
pub mod Validate
pub mod Wire
pub mod Raw
pub mod Legacy
pub mod Codec
use cultnet_rs.Base.{ℕ, List, Bool, Option}
use cultnet_rs.Base.Json.{Json}
use cultnet_rs.Transport.{CultNetTransportProfile}

pub data CultNetWireContract : Type 0 where
  cultnet_schema_v0 gamecult_networking_v0 : CultNetWireContract

pub data CultNetSchemaKind : Type 0 where
  wire_message document_payload shared_contract : CultNetSchemaKind

pub data CultNetRawPayloadEncoding : Type 0 where
  messagepack : CultNetRawPayloadEncoding

pub record CultNetDocumentRecord : Type 0 where
  pub schema_id : List ℕ
  pub record_key : List ℕ
  pub stored_at : List ℕ
  pub payload : Json
  pub source_runtime_id : Option (List ℕ)
  pub source_agent_id : Option (List ℕ)
  pub source_role : Option (List ℕ)
  pub tags : Option (List (List ℕ))

pub data CultNetDocumentOperation : Type 0 where
  snapshot document_put document_delete intent_submit receipt_watch : CultNetDocumentOperation

pub data CultNetMutationAuthority : Type 0 where
  read_only local_user coordinator runtime denied : CultNetMutationAuthority

pub record CultNetDocumentMutationContract : Type 0 where
  pub document_type : List ℕ
  pub payload_schema_version : Option (List ℕ)
  pub operations : List CultNetDocumentOperation
  pub authority : CultNetMutationAuthority
  pub intent_document_types : Option (List (List ℕ))
  pub receipt_document_types : Option (List (List ℕ))
  pub notes : Option (List (List ℕ))

pub record CultNetRawDocumentRecord : Type 0 where
  pub schema_id : List ℕ
  pub record_key : List ℕ
  pub stored_at : List ℕ
  pub payload_encoding : CultNetRawPayloadEncoding
  pub payload : List ℕ
  pub source_runtime_id : Option (List ℕ)
  pub source_agent_id : Option (List ℕ)
  pub source_role : Option (List ℕ)
  pub tags : Option (List (List ℕ))

pub record CultNetSchemaDescriptor : Type 0 where
  pub schema_id : List ℕ
  pub kind : CultNetSchemaKind
  pub schema_version : Option (List ℕ)
  pub document_type : Option (List ℕ)
  pub title : Option (List ℕ)
  pub wire_contracts : List CultNetWireContract
  pub content_hash : List ℕ
  pub schema_json : Option (List ℕ)

-- The fields of `CultNetMessage::Hello`.
pub record Hello : Type 0 where
  pub runtime_id : List ℕ
  pub runtime_kind : List ℕ
  pub agent_id : Option (List ℕ)
  pub role : Option (List ℕ)
  pub display_name : Option (List ℕ)
  pub supported_document_types : Option (List (List ℕ))
  pub supported_mutation_contracts : Option (List CultNetDocumentMutationContract)
  pub supported_message_versions : Option (List (List ℕ))
  pub transport_profiles : Option (List CultNetTransportProfile)
  pub supports_schema_catalog : Option Bool

pub data CultNetMessage : Type 0 where
  hello : Hello → CultNetMessage
  login : (nonce auth password : List ℕ) → CultNetMessage
  register : (nonce email password name : List ℕ) → CultNetMessage
  verify : (nonce session : List ℕ) → CultNetMessage
  login_success : (nonce session : List ℕ) → CultNetMessage
  error : (error : List ℕ) → CultNetMessage
  sample_change_name : (name : List ℕ) → CultNetMessage
  sample_chat : (text : List ℕ) → CultNetMessage
  document_put : (message_id : List ℕ) (document : CultNetDocumentRecord) → CultNetMessage
  document_delete : (message_id schema_id record_key : List ℕ) → CultNetMessage
  document_put_raw : (message_id : List ℕ) (document : CultNetRawDocumentRecord) → CultNetMessage
  snapshot_request :
      (message_id : List ℕ) (schema_ids record_keys : Option (List (List ℕ))) → CultNetMessage
  snapshot_response :
      (message_id : List ℕ) (documents : List CultNetDocumentRecord) → CultNetMessage
  snapshot_response_raw :
      (message_id : List ℕ) (documents : List CultNetRawDocumentRecord) → CultNetMessage
  schema_catalog_request :
      (message_id : List ℕ) (include_schema_json : Option Bool)
      (schema_ids : Option (List (List ℕ))) (kinds : Option (List CultNetSchemaKind))
      → CultNetMessage
  schema_catalog_response :
      (message_id : List ℕ) (schemas : List CultNetSchemaDescriptor) → CultNetMessage

pub data MessageError : Type 0 where
  empty_field no_operations empty_payload no_wire_contracts : MessageError
  not_an_object not_an_array not_a_string not_a_boolean not_an_integer not_binary : MessageError
  unsupported_schema_version unsupported_encoding unsupported_kind : MessageError
  unsupported_contract unsupported_tag not_a_raw_message not_in_contract : MessageError
  serialization base64 : MessageError
