-- ===== src/Schema/Embedded.antt =====
-- src/schema_discovery.rs: `schema_registration`, which makes a registration of the text of an
-- embedded schema.
use cultnet_rs.Base.{ℕ, List, if◌then◌else◌, Option, none, some}
use cultnet_rs.Base.Json.{Json, Entries, string, object, end, entry}
use cultnet_rs.Base.Text.{codes}
use cultnet_rs.Base.Order.{bytes_eq}
use cultnet_rs.Base.Outcome.{Outcome, ok, err, ◌>>=◌}
use cultnet_rs.Message.{CultNetSchemaKind, CultNetWireContract}
use cultnet_rs.Schema.{JsonTools, CultNetSchemaRegistration, SchemaError, bad_json, no_id}

abbrev as_str : Json → Option (List ℕ)
as_str (string text) = some text
as_str _ = none

module _ (tools : JsonTools) where
  -- `Value::get` on a key, then `Value::as_str`.
  abbrev text_of : List ℕ → Entries → Option (List ℕ)
  text_of key end = none
  text_of key (entry other value values) =
      if bytes_eq other key then as_str value else text_of key values

  abbrev get_str : List ℕ → Json → Option (List ℕ)
  get_str key (object values) = text_of key values
  get_str key _ = none

  abbrev registration_of :
      (schema_json : List ℕ)
      → CultNetSchemaKind
      → List CultNetWireContract
      → (schema_version document_type title : Option (List ℕ)) → (schema_id : Option (List ℕ))
      → Outcome SchemaError CultNetSchemaRegistration
  registration_of schema_json kind wire_contracts schema_version document_type title none =
      err no_id
  registration_of schema_json kind wire_contracts schema_version document_type title
        (some schema_id) =
      ok (record {
        schema_id = schema_id;
        kind = kind;
        wire_contracts = wire_contracts;
        schema_version = schema_version;
        document_type = document_type;
        title = title;
        schema_json = some schema_json;
      })

  abbrev read_json : Option Json → Outcome SchemaError Json
  read_json none = err bad_json
  read_json (some value) = ok value

  unfoldable pub schema_registration :
      (schema_json : List ℕ)
      → CultNetSchemaKind
      → List CultNetWireContract
      → (schema_version document_type : Option (List ℕ))
      → Outcome SchemaError CultNetSchemaRegistration
  schema_registration schema_json kind wire_contracts schema_version document_type =
      read_json (tools.from_str schema_json) >>= λ value.
      registration_of schema_json kind wire_contracts schema_version document_type
        (get_str (codes "title") value) (get_str (codes "$id") value)
