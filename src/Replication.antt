-- ===== src/Replication.antt =====
-- src/replication.rs: the registry that binds document types to schemas. The children are the
-- messages that it makes of documents, and the messages that it applies to a cache.
pub mod Create
pub mod Apply
pub mod Registered
pub mod Copies
mod Tests
use cultnet_rs.Base.{ℕ, List, [], ◌∷◌, Option, none, some}
use cultnet_rs.Base.Outcome.{Outcome, ok, err}
use cultnet_rs.Base.Order.{bytes_ord}
use cultnet_rs.Base.BTreeMap.{BTreeMap, get, insert, values}
use cultnet_rs.Message.{CultNetDocumentMutationContract}

pub data ReplicationError : Type 0 where
  no_binding schema_mismatch unexpected_message serialization cache_error : ReplicationError

pub record CultNetDocumentPutOptions : Type 0 where
  pub stored_at : Option (List ℕ)
  pub source_runtime_id : Option (List ℕ)
  pub source_agent_id : Option (List ℕ)
  pub source_role : Option (List ℕ)
  pub tags : Option (List (List ℕ))

pub record CultNetDocumentBinding : Type 0 where
  pub schema_id : List ℕ
  pub document_type : List ℕ
  pub mutation_contract : Option CultNetDocumentMutationContract
  pub payload_schema_version : Option (List ℕ)

-- The argument `entry_type` is `T::TYPE`.
abbrev pub for_entry_with_schema_id :
    (entry_type schema_id : List ℕ) → Option (List ℕ) → CultNetDocumentBinding
for_entry_with_schema_id entry_type schema_id payload_schema_version = record {
  schema_id = schema_id;
  document_type = entry_type;
  mutation_contract = none;
  payload_schema_version = payload_schema_version;
}

abbrev pub for_entry : (entry_type : List ℕ) → Option (List ℕ) → CultNetDocumentBinding
for_entry entry_type payload_schema_version =
    for_entry_with_schema_id entry_type entry_type payload_schema_version

abbrev pub with_mutation_contract :
    CultNetDocumentMutationContract → CultNetDocumentBinding → CultNetDocumentBinding
with_mutation_contract contract binding = record binding { mutation_contract = some contract }

pub record CultNetDocumentRegistry : Type 0 where
  pub bindings_by_type : BTreeMap (List ℕ) CultNetDocumentBinding
  pub bindings_by_schema_id : BTreeMap (List ℕ) CultNetDocumentBinding

abbrev pub new : CultNetDocumentRegistry
new = record { bindings_by_type = []; bindings_by_schema_id = [] }

unfoldable pub register : CultNetDocumentBinding → CultNetDocumentRegistry → CultNetDocumentRegistry
register binding registry = record {
  bindings_by_type = insert binding.document_type binding registry.bindings_by_type;
  bindings_by_schema_id = insert binding.schema_id binding registry.bindings_by_schema_id;
}

unfoldable pub binding : CultNetDocumentRegistry → List ℕ → Option CultNetDocumentBinding
binding registry document_type = get document_type registry.bindings_by_type

unfoldable pub binding_by_schema_id :
    CultNetDocumentRegistry → List ℕ → Option CultNetDocumentBinding
binding_by_schema_id registry schema_id = get schema_id registry.bindings_by_schema_id

abbrev contracts : List CultNetDocumentBinding → List CultNetDocumentMutationContract
contracts [] = []
contracts (binding ∷ bindings) = elim binding.mutation_contract [
  | none ↦ contracts bindings
  | some contract ↦ contract ∷ contracts bindings
]

unfoldable pub mutation_contracts : CultNetDocumentRegistry → List CultNetDocumentMutationContract
mutation_contracts registry = contracts (values registry.bindings_by_type)

abbrev or_unbound : Option CultNetDocumentBinding → Outcome ReplicationError CultNetDocumentBinding
or_unbound none = err no_binding
or_unbound (some found) = ok found

unfoldable pub require_binding :
    CultNetDocumentRegistry → List ℕ → Outcome ReplicationError CultNetDocumentBinding
unfolding binding
require_binding registry document_type = or_unbound (binding registry document_type)
