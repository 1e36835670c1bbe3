-- ===== src/Replication/Registered.antt =====
-- src/replication.rs: the registry after calls of `register`, and the map that it promises.
use cultnet_rs.Base.{ℕ, ◌≡◌, refl, List, [], ◌∷◌, false, if◌then◌else◌, Option, none, some}
use cultnet_rs.Base.Order.{bytes_ord, bytes_eq, bytes_eq_iff}
use cultnet_rs.Base.BTreeMap.{get-insert, get, insert}
use cultnet_rs.Replication.{
  CultNetDocumentBinding, CultNetDocumentRegistry, new, register, binding, binding_by_schema_id,
}

-- A registry after calls of `register`, the last call first.
abbrev pub registered : List CultNetDocumentBinding → CultNetDocumentRegistry
registered [] = new
registered (added ∷ others) = register added (registered others)

-- The last binding in a history whose name, by a field, is the one asked for.
abbrev pub last_with :
    (CultNetDocumentBinding → List ℕ)
    → List ℕ
    → List CultNetDocumentBinding
    → Option CultNetDocumentBinding
last_with name key [] = none
last_with name key (added ∷ others) =
    if bytes_eq (name added) key then some added else last_with name key others

-- A registry answers by type with the binding that was registered last for the type, and by schema id with the
-- one that was registered last for the schema id, whatever was registered between.
pub registered-last_with :
    (history : List CultNetDocumentBinding) (key : List ℕ)
    → (binding (registered history) key ≡ last_with (λ b. b.document_type) key history)
      × (binding_by_schema_id (registered history) key ≡ last_with (λ b. b.schema_id) key history)
unfolding register binding binding_by_schema_id get
registered-last_with [] key = (refl, refl)
registered-last_with (added ∷ others) key =
    let before = registered others in
    let (by_type, by_schema) = registered-last_with others key in
    (
      rw (get-insert added.document_type key added before.bindings_by_type, by_type) refl,
      rw (get-insert added.schema_id key added before.bindings_by_schema_id, by_schema) refl,
    )

-- A type that is registered again under another schema id stays registered under the old one: the old schema id
-- still answers with the old binding, which the type no longer has.
pub register-stale :
    (old renamed : CultNetDocumentBinding) (registry : CultNetDocumentRegistry)
    → renamed.document_type ≡ old.document_type
    → bytes_eq renamed.schema_id old.schema_id ≡ false
    → (binding_by_schema_id (register renamed (register old registry)) old.schema_id ≡ some old)
      × (binding (register renamed (register old registry)) old.document_type ≡ some renamed)
unfolding register binding binding_by_schema_id
register-stale old renamed registry same_type other_schema = (
  rw
      (
        get-insert renamed.schema_id old.schema_id renamed
            (insert old.schema_id old registry.bindings_by_schema_id),
        other_schema,
        get-insert old.schema_id old.schema_id old registry.bindings_by_schema_id,
        (bytes_eq_iff old.schema_id old.schema_id).1 refl,
      )
      refl,
  rw
      (
        get-insert renamed.document_type old.document_type renamed
            (insert old.document_type old registry.bindings_by_type),
        (bytes_eq_iff renamed.document_type old.document_type).1 same_type,
      )
      refl,
)
