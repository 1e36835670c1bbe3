-- ===== src/Schema/Tests.antt =====
-- src/schema_discovery.rs: schemas with two entries, read by their first letter, with a sum in the
-- place of the digest.
use cultnet_rs.Base.{
  ℕ, ◌≡◌, refl, ◌+◌, ◌==◌, List, [], ◌∷◌, ◌++◌, true, false, if◌then◌else◌, Option, none, some,
}
use cultnet_rs.Base.Json.{Json, object, string, end, entry}
use cultnet_rs.Base.Outcome.{ok, err}
use cultnet_rs.Base.Order.{bytes_ord}
use cultnet_rs.Base.BTreeMap.{get, insert, values}
use cultnet_rs.Base.Text.{codes, trim_is_empty}
use cultnet_rs.Message.{CultNetMessage, wire_message, cultnet_schema_v0}
use cultnet_rs.Schema.Embedded.{schema_registration}
use cultnet_rs.Schema.{
  lookup, sanitize_descriptor, descriptor, JsonTools, CultNetSchemaRegistration,
  CultNetSchemaRegistry, new, register, create_catalog_response, list, sanitize_listed,
  stable_stringify, place, canonical_schema_hash, store, no_schema_id, no_schema_json, bad_json,
  unexpected_message,
}
use cultnet_rs.Schema.Canonical.{in_object, swapped, hash-Reordered}
use cultnet_rs.Schema.Registry.{
  unused, one_more, AdvertisesHashes, create_catalog_response-AdvertisesHashes,
}

abbrev sum : List ℕ → ℕ
sum [] = 0
sum (b ∷ bytes) = b + sum bytes

abbrev title_first : Json
title_first = object (
    entry (codes "title") (string (codes "Ping")) (entry (codes "$id") (string (codes "ping")) end))

abbrev id_first : Json
id_first = object (
    entry (codes "$id") (string (codes "ping")) (entry (codes "title") (string (codes "Ping")) end))

abbrev read : List ℕ → Option Json
read [] = none
read (c ∷ text) = if c == b't' then some title_first else if c == b'i' then some id_first else none

abbrev tools : JsonTools
tools = record {
  from_str = read;
  quote = λ text. b'"' ∷ (text ++ (b'"' ∷ []));
  digest = λ bytes. sum bytes ∷ [];
}

written : stable_stringify tools title_first ≡ codes "{\"$id\":\"ping\",\"title\":\"Ping\"}"
unfolding stable_stringify place
written = refl

hash-Reordered_example :
    canonical_schema_hash tools (codes "t") ≡ canonical_schema_hash tools (codes "i")
hash-Reordered_example =
    hash-Reordered tools (codes "t") (codes "i") title_first id_first refl refl (
      in_object (
        swapped (codes "title") (codes "$id") (string (codes "Ping")) (string (codes "ping")) end
          refl))

abbrev ping : CultNetSchemaRegistration
ping = record {
  schema_id = codes "ping";
  kind = wire_message;
  wire_contracts = cultnet_schema_v0 ∷ [];
  schema_version = none;
  document_type = none;
  title = none;
  schema_json = some (codes "t");
}

abbrev registry : CultNetSchemaRegistry
registry = store tools ping new (sum (stable_stringify tools title_first) ∷ [])

registered_ping : register tools ping new ≡ ok registry
unfolding register canonical_schema_hash trim_is_empty
registered_ping = refl

no_json : register tools (record ping { schema_json = none }) new ≡ err no_schema_json
unfolding register trim_is_empty
no_json = refl

blank_id : register tools (record ping { schema_id = codes " " }) new ≡ err no_schema_id
unfolding register trim_is_empty
blank_id = refl

unread : register tools (record ping { schema_json = some (codes "x") }) new ≡ err bad_json
unfolding register canonical_schema_hash trim_is_empty
unread = refl

abbrev request : CultNetMessage
request = CultNetMessage.schema_catalog_request (codes "m") (some true) none none

abbrev response : CultNetMessage
response = CultNetMessage.schema_catalog_response (codes "m") (values registry.entries)

answered : create_catalog_response registry request ≡ ok response
unfolding create_catalog_response list sanitize_listed insert
answered = refl

refused : create_catalog_response registry response ≡ err unexpected_message
unfolding create_catalog_response
refused = refl

create_catalog_response-AdvertisesHashes_example : AdvertisesHashes tools response
create_catalog_response-AdvertisesHashes_example =
    create_catalog_response-AdvertisesHashes tools registry request response
      (one_more ping unused registered_ping) answered

from_text :
    schema_registration tools (codes "t") wire_message (cultnet_schema_v0 ∷ []) none none
    ≡ ok (record ping { title = some (codes "Ping") })
unfolding schema_registration
from_text = refl

found :
    lookup registry (codes "ping") false
    ≡ some (
        sanitize_descriptor
          (descriptor tools ping (sum (stable_stringify tools title_first) ∷ []))
          false)
unfolding lookup insert get
found = refl

not_found : lookup registry (codes "pong") true ≡ none
unfolding lookup insert get
not_found = refl
